-- ===== src/Regexp/Syntax.antt =====
-- The notation of the expressions: literals, classes, and the repetitions of package `regexp`.
use saki_cli.Base.{
  ℕ, zero, suc, Bool, not, ◌&&◌, ◌||◌, [], ◌∷◌, leb, ◌==◌, Text, lower, is_space, any,
}
use saki_cli.Regexp.{Re, one, empty, seq, alt, star, lazy_star}

abbrev pub lit : Text → Re
lit [] = empty
lit (c ∷ []) = one (◌==◌ c)
lit (c ∷ s) = seq (one (◌==◌ c)) (lit s)

-- (?i) folds the letters, with the Kelvin sign and the long s.
abbrev pub folds_to : ℕ → ℕ → Bool
folds_to c d = lower c == lower d || lower c == b'k' && d == 0x212a || lower c == b's' && d == 0x17f

abbrev pub lit_fold : Text → Re
lit_fold [] = empty
lit_fold (c ∷ []) = one (folds_to c)
lit_fold (c ∷ s) = seq (one (folds_to c)) (lit_fold s)

abbrev pub char : ℕ → Re
char c = one (◌==◌ c)

abbrev pub one_in : Text → Re
one_in cs = one (λ c. any (◌==◌ c) cs)

-- `.`, `\s`, `\S`, `\d`.
abbrev pub dot : Re
dot = one (λ c. not (c == 10))

abbrev pub space : Re
space = one is_space

abbrev pub not_space : Re
not_space = one (λ c. not (is_space c))

abbrev pub is_digit : ℕ → Bool
is_digit c = leb b'0' c && leb c b'9'

abbrev pub is_letter : ℕ → Bool
is_letter c = leb b'A' c && leb c b'Z' || leb b'a' c && leb c b'z'

abbrev pub digit : Re
digit = one is_digit

-- `x+`, `x+?`, `x?`, `x{0,n}`.
abbrev pub plus : Re → Re
plus r = seq r (star r)

abbrev pub lazy_plus : Re → Re
lazy_plus r = seq r (lazy_star r)

abbrev pub optional : Re → Re
optional r = alt r empty

abbrev pub at_most : ℕ → Re → Re
at_most zero r = empty
at_most (suc n) r = optional (seq r (at_most n r))

infixr 20 ◌⋅◌
abbrev pub ◌⋅◌ : Re → Re → Re
a ⋅ b = seq a b
