-- ===== src/Base/Pieces.antt =====
-- strings.Split and strings.Join at one code point, and the other cuts of package `strings`.
use Prim.Native.Nat.{ℕ, zero, suc, ◌-◌}
use mathlib.Core.Path.{◌≡◌, refl, ap, ◌∙◌}
use mathlib.Core.Logic.{inl, inr, ◌≢◌}
use mathlib.Core.Bool.{Bool, true, false, not}
use mathlib.Core.List.{List, [], ◌∷◌, ◌++◌, reverse}
use native.Mathlib.Omega.{arith}
use saki_cli.Base.Tests.{◌==◌, if◌then◌else◌, ==_iff, Bool-cases}
use saki_cli.Base.Texts.{Text, same, has_prefix, to_lower}
use saki_cli.Base.Lists.{length, drop, any, All}

abbrev pub onto_first : ℕ → List Text → List Text
onto_first c [] = (c ∷ []) ∷ []
onto_first c (p ∷ ps) = (c ∷ p) ∷ ps

unfoldable pub split_at : ℕ → Text → List Text
split_at sep [] = [] ∷ []
split_at sep (c ∷ s) =
    let rest = split_at sep s in if c == sep then [] ∷ rest else onto_first c rest

unfoldable pub join_at : ℕ → List Text → Text
join_at sep [] = []
join_at sep (p ∷ []) = p
join_at sep (p ∷ q ∷ ps) = p ++ sep ∷ join_at sep (q ∷ ps)

abbrev pub lines_of : Text → List Text
lines_of s = split_at 10 s

-- strings.HasSuffix(s, p), the suffix first.
unfoldable pub has_suffix : Text → Text → Bool
unfolding has_prefix
has_suffix p s = has_prefix (reverse p) (reverse s)

-- strings.TrimPrefix and strings.TrimSuffix.
unfoldable pub trim_prefix : Text → Text → Text
unfolding has_prefix
trim_prefix p s = if has_prefix p s then drop (length p) s else s

unfoldable pub trim_suffix : Text → Text → Text
unfolding trim_prefix
trim_suffix p s = reverse (trim_prefix (reverse p) (reverse s))

-- strings.ContainsAny.
abbrev pub contains_any : Text → Text → Bool
contains_any cs s = any (λ c. any (◌==◌ c) cs) s

-- strings.EqualFold, on ASCII letters.
unfoldable pub equal_fold : Text → Text → Bool
unfolding to_lower same
equal_fold s t = same (to_lower s) (to_lower t)

-- strings.ReplaceAll(s, p, ""): `skip` code points of an occurrence are still to be passed over.
unfoldable pub without_from : Text → ℕ → Text → Text
unfolding has_prefix
without_from p skip [] = []
without_from p (suc n) (c ∷ s) = without_from p n s
without_from p zero (c ∷ s) =
    let found = without_from p (length p - 1) s in
    let rest = without_from p zero s in if has_prefix p (c ∷ s) then found else c ∷ rest

unfoldable pub without : Text → Text → Text
unfolding without_from
without p s = without_from p 0 s

onto_first-ne-nil : (c : ℕ) (ps : List Text) → onto_first c ps ≢ []
onto_first-ne-nil c [] h = cc
onto_first-ne-nil c (p ∷ ps) h = cc

pub split_at-ne-nil : (sep : ℕ) (s : Text) → split_at sep s ≢ []
unfolding split_at
split_at-ne-nil sep [] h = cc
split_at-ne-nil sep (c ∷ s) h = ground (arith, onto_first-ne-nil c (split_at sep s))

join_at-onto_first :
    (sep c : ℕ) (ps : List Text) → ps ≢ [] → join_at sep (onto_first c ps) ≡ c ∷ join_at sep ps
unfolding join_at
join_at-onto_first sep c [] h = absurd (h refl)
join_at-onto_first sep c (p ∷ []) h = refl
join_at-onto_first sep c (p ∷ q ∷ ps) h = refl

join_at-nil_first :
    (sep : ℕ) (ps : List Text) → ps ≢ [] → join_at sep ([] ∷ ps) ≡ sep ∷ join_at sep ps
unfolding join_at
join_at-nil_first sep [] h = absurd (h refl)
join_at-nil_first sep (p ∷ ps) h = refl

-- Splitting loses nothing.
pub join_at-split_at : (sep : ℕ) (s : Text) → join_at sep (split_at sep s) ≡ s
unfolding split_at join_at
join_at-split_at sep [] = refl
join_at-split_at sep (c ∷ s) = elim (Bool-cases (c == sep)) [
  | inl here ↦ rw here (
      join_at-nil_first sep (split_at sep s) (split_at-ne-nil sep s)
      ∙ ground (arith, join_at-split_at sep s, ==_iff c sep))
  | inr on ↦ rw on (
      join_at-onto_first sep c (split_at sep s) (split_at-ne-nil sep s)
      ∙ ap (λ t. c ∷ t) (join_at-split_at sep s))
]

-- No piece holds the separator.
abbrev pub lacks : ℕ → Text → Bool
lacks sep s = not (any (◌==◌ sep) s)

onto_first-lacks :
    (sep c : ℕ) (ps : List Text)
    → (c == sep) ≡ false
    → All (λ p. lacks sep p ≡ true) ps
    → All (λ p. lacks sep p ≡ true) (onto_first c ps)
onto_first-lacks sep c [] e h = (ground arith, tt)
onto_first-lacks sep c (p ∷ ps) e (h, hs) = (ground (arith, h), hs)

pub split_at-lacks : (sep : ℕ) (s : Text) → All (λ p. lacks sep p ≡ true) (split_at sep s)
unfolding split_at
split_at-lacks sep [] = (refl, tt)
split_at-lacks sep (c ∷ s) = elim (Bool-cases (c == sep)) [
  | inl here ↦ rw here (refl, split_at-lacks sep s)
  | inr on ↦ rw on (onto_first-lacks sep c (split_at sep s) on (split_at-lacks sep s))
]
