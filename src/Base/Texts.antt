-- ===== src/Base/Texts.antt =====
-- A Go string as the list of its code points, with the operations of package `strings` that the
-- code calls, and fmt's %d.
use Prim.Native.Nat.{ℕ, zero, suc, ◌+◌, ◌/◌, ◌%◌}
use Prim.Native.Char.{code}
use Prim.Native.String.{String}
use mathlib.Core.Path.{◌≡◌, refl}
use mathlib.Core.Logic.{◌↔◌}
use mathlib.Core.Bool.{Bool, true, false, ◌&&◌, ◌||◌}
use mathlib.Core.List.{List, [], ◌∷◌, ◌++◌, reverse}
use native.Mathlib.Omega.{arith}
use saki_cli.Base.Tests.{◌==◌, leb, ltb, if◌then◌else◌}

abbrev pub Text : Type 0
Text = List ℕ

abbrev pub codes : String → Text
codes String.[] = []
codes (String.◌∷◌ c s) = code c ∷ codes s

-- `a == b` on strings.
unfoldable pub same : Text → Text → Bool
same [] [] = true
same [] (d ∷ t) = false
same (c ∷ s) [] = false
same (c ∷ s) (d ∷ t) = c == d && same s t

pub same_iff : (s t : Text) → (same s t ≡ true) ↔ (s ≡ t)
unfolding same
same_iff [] [] = ground arith
same_iff [] (d ∷ t) = ground arith
same_iff (c ∷ s) [] = ground arith
same_iff (c ∷ s) (d ∷ t) = ground (arith, same_iff s t)

pub same_refl : (s : Text) → same s s ≡ true
same_refl s = (same_iff s s).1 refl

-- `s == ""`.
abbrev pub is_empty : Text → Bool
is_empty [] = true
is_empty (c ∷ s) = false

-- strings.HasPrefix(s, p), the prefix first.
unfoldable pub has_prefix : Text → Text → Bool
has_prefix [] s = true
has_prefix (c ∷ p) [] = false
has_prefix (c ∷ p) (d ∷ s) = c == d && has_prefix p s

-- strings.Contains(s, p), the part first.
unfoldable pub contains : Text → Text → Bool
unfolding has_prefix
contains p [] = has_prefix p []
contains p (c ∷ s) = has_prefix p (c ∷ s) || contains p s

-- strings.ToLower on ASCII letters; other code points are left as they are.
abbrev pub lower : ℕ → ℕ
lower c = if leb b'A' c && leb c b'Z' then c + 32 else c

unfoldable pub to_lower : Text → Text
to_lower [] = []
to_lower (c ∷ s) = lower c ∷ to_lower s

-- The class \s of RE2.
abbrev pub is_space : ℕ → Bool
is_space c = c == 32 || c == 9 || c == 10 || c == 12 || c == 13

-- unicode.IsSpace, by which strings.TrimSpace cuts, on the code points below 256.
abbrev pub is_unicode_space : ℕ → Bool
is_unicode_space c = is_space c || c == 11 || c == 0x85 || c == 0xa0

unfoldable pub drop_while : (ℕ → Bool) → Text → Text
drop_while p [] = []
drop_while p (c ∷ s) = elim (p c) [ true ↦ drop_while p s | false ↦ c ∷ s ]

-- strings.TrimSpace.
unfoldable pub trim : Text → Text
unfolding drop_while
trim s = reverse (drop_while is_unicode_space (reverse (drop_while is_unicode_space s)))

decimal_digits : ℕ → ℕ → Text → Text
decimal_digits zero n out = out
decimal_digits (suc f) n out = elim (ltb n 10) [
  | true ↦ (b'0' + n) ∷ out
  | false ↦ decimal_digits f (n / 10) ((b'0' + n % 10) ∷ out)
]

-- fmt's %d; n + 1 rounds are more than the digits of n.
unfoldable pub decimal : ℕ → Text
unfolding decimal_digits
decimal n = decimal_digits (suc n) n []

-- strings.Join(parts, "\n").
unfoldable pub join_lines : List Text → Text
join_lines [] = []
join_lines (p ∷ []) = p
join_lines (p ∷ q ∷ ps) = p ++ 10 ∷ join_lines (q ∷ ps)
