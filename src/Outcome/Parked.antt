-- ===== src/Outcome/Parked.antt =====
-- parkedReasonOf of backend/usecase/buildclass.go, and what parkedRe finds in a breadcrumb.
use saki_cli.Base.{
  ◌≡◌, refl, sym, ap, true, false, List, [], ◌∷◌, ◌++◌, arith, if◌then◌else◌, Text, codes, is_empty,
  has_prefix, contains, lower, to_lower,
}
use saki_cli.Stream.Ndjson.{ParsedLine, json, raw}
use saki_cli.Outcome.Sentinels.{anchored, is_parked_text}

abbrev pub own_reason : ParsedLine → Text
own_reason (json v) = []
own_reason (raw t) = if is_parked_text t then t else []

-- The loop runs from the last line backwards.
unfoldable pub parked_reason_of : List ParsedLine → Text
unfolding is_parked_text
parked_reason_of [] = []
parked_reason_of (l ∷ ls) =
    let rest = parked_reason_of ls in if is_empty rest then own_reason l else rest

to_lower-append : (s t : Text) → to_lower (s ++ t) ≡ to_lower s ++ to_lower t
unfolding to_lower
to_lower-append [] t = refl
to_lower-append (c ∷ s) t = ap (λ r. lower c ∷ r) (to_lower-append s t)

contains-append : (p s t : Text) → contains p t ≡ true → contains p (s ++ t) ≡ true
unfolding contains
contains-append p [] t h = h
contains-append p (c ∷ s) t h = ground (arith, contains-append p s t)

-- A text that ends in a parked phrase is parked.
pub parked_by_suffix :
    (s t : Text)
    → contains (codes "parked for operator") (to_lower t) ≡ true
    → is_parked_text (s ++ t) ≡ true
unfolding is_parked_text
parked_by_suffix s t h =
    rw to_lower-append
      (ground (arith, contains-append (codes "parked for operator") (to_lower s) (to_lower t) h))

parked_not_empty : (t : Text) → is_parked_text t ≡ true → is_empty t ≡ false
unfolding is_parked_text anchored has_prefix
parked_not_empty [] h = sym h
parked_not_empty (c ∷ t) h = refl

-- A parked line at the end is the reason.
pub parked_reason_of-append :
    (ls : List ParsedLine) (t : Text)
    → is_parked_text t ≡ true
    → parked_reason_of (ls ++ raw t ∷ []) ≡ t
unfolding parked_reason_of
parked_reason_of-append [] t h = ground (arith, h)
parked_reason_of-append (l ∷ ls) t h =
    rw (parked_reason_of-append ls t h) (ground (arith, parked_not_empty t h))

-- A line that is not parked leaves the reason as it was.
pub parked_reason_of-append_other :
    (ls : List ParsedLine) (t : Text)
    → is_parked_text t ≡ false
    → parked_reason_of (ls ++ raw t ∷ []) ≡ parked_reason_of ls
unfolding parked_reason_of
parked_reason_of-append_other [] t h = ground (arith, h)
parked_reason_of-append_other (l ∷ ls) t h = rw (parked_reason_of-append_other ls t h)
