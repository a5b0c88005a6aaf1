-- ===== src/Planning/Boundary.antt =====
-- The end of a field, `(?:\s+·|\s*$)` of backend/domain/lock.go: what it reads.
use saki_cli.Base.{
  ℕ, zero, suc, ◌≡◌, refl, ap, ◌∙◌, ◌⊎◌, inl, inr, Bool, true, ◌&&◌, List, [], ◌∷◌, ◌++◌, arith,
  ltb, ◌==◌, Bool-cases, Text, codes, is_space, length, All, concat_map, All-append, All-concat_map,
  All-weaken,
}
use saki_cli.Regexp.{at_line_end, one_of, moved_on, repeat_greedy, matches, Cursor, star, line_end}
use saki_cli.Regexp.Syntax.{lit, space, plus, ◌⋅◌}
use saki_cli.Planning.{boundary}

pub one-reads : (k : ℕ) (c : Cursor) (s : Text) → All (λ d. s ≡ k ∷ d.rest) (one_of (◌==◌ k) c s)
one-reads k c [] = tt
one-reads k c (x ∷ s) = elim (Bool-cases (k == x)) [
  | inl e ↦ rw e (ap (λ y. y ∷ s) (ground (arith, e)), tt)
  | inr e ↦ rw e tt
]

pub All-moved_on :
    (P : Cursor → Type 0) (c : Cursor) (ds : List Cursor) → All P ds → All P (moved_on c ds)
All-moved_on P c [] a = tt
All-moved_on P c (d ∷ ds) (p, a) = elim (Bool-cases (ltb (length d.rest) (length c.rest))) [
  | inl moved ↦ rw moved (p, All-moved_on P c ds a)
  | inr still ↦ rw still (All-moved_on P c ds a)
]

-- Spaces only.
unfoldable pub spaces : Text → Bool
spaces [] = true
spaces (x ∷ s) = let rest = spaces s in is_space x && rest

abbrev ReadsSpaces : Cursor → Cursor → Type 0
ReadsSpaces c d = (t : Text) × (spaces t ≡ true) × (c.rest ≡ t ++ d.rest)

space-reads :
    (c : Cursor) (s : Text)
    → All (λ d. (x : ℕ) × (is_space x ≡ true) × (s ≡ x ∷ d.rest)) (one_of is_space c s)
space-reads c [] = tt
space-reads c (x ∷ s) = elim (Bool-cases (is_space x)) [
  | inl e ↦ rw e ((x, e, refl), tt)
  | inr e ↦ rw e tt
]

greedy-reads : (n : ℕ) (c : Cursor) → All (ReadsSpaces c) (repeat_greedy (matches space) n c)
unfolding repeat_greedy matches spaces
greedy-reads zero c = (([], refl, refl), tt)
greedy-reads (suc n) c =
    All-append (ReadsSpaces c)
      (concat_map (repeat_greedy (matches space) n) (moved_on c (matches space c))) (c ∷ [])
      (All-concat_map (ReadsSpaces c) (repeat_greedy (matches space) n)
        (moved_on c (matches space c))
        (All-weaken (λ e. (x : ℕ) × (is_space x ≡ true) × (c.rest ≡ x ∷ e.rest))
          (λ e. All (ReadsSpaces c) (repeat_greedy (matches space) n e))
          (λ e (x, sp, h).
            All-weaken (ReadsSpaces e) (ReadsSpaces c)
              (λ d (t, all_sp, k). (x ∷ t, rw (sp, all_sp) refl, h ∙ ap (λ u. x ∷ u) k))
              (repeat_greedy (matches space) n e) (greedy-reads n e))
          (moved_on c (matches space c))
          (All-moved_on (λ e. (x : ℕ) × (is_space x ≡ true) × (c.rest ≡ x ∷ e.rest)) c
            (matches space c) (space-reads c c.rest))))
      (([], refl, refl), tt)

-- What ends a field: spaces in front of a dot, or up to the end of a line.
abbrev pub EndsField : Text → Text → Type 0
EndsField kept after =
    ((sp : Text) × (spaces sp ≡ true) × (kept ≡ sp ++ codes "·"))
    ⊎ ((spaces kept ≡ true) × (at_line_end after ≡ true))

abbrev ReadsEnd : Cursor → Cursor → Type 0
ReadsEnd c d = (t : Text) × EndsField t d.rest × (c.rest ≡ t ++ d.rest)

append_assoc : (a b c : Text) → a ++ (b ++ c) ≡ (a ++ b) ++ c
append_assoc [] b c = refl
append_assoc (x ∷ a) b c = ap (λ u. x ∷ u) (append_assoc a b c)

dot-end : (c e : Cursor) → ReadsSpaces c e → All (ReadsEnd c) (matches (lit (codes "·")) e)
unfolding matches
dot-end c e (t, sp, h) =
    All-weaken (λ d. e.rest ≡ 0xb7 ∷ d.rest) (ReadsEnd c)
      (λ d k. (
        t ++ codes "·",
        inl (t, sp, refl),
        h ∙ ap (λ u. t ++ u) k ∙ append_assoc t (codes "·") d.rest,
      ))
      (matches (lit (codes "·")) e) (one-reads _ e e.rest)

line-end : (c e : Cursor) → ReadsSpaces c e → All (ReadsEnd c) (matches line_end e)
unfolding matches
line-end c e (t, sp, h) = elim (Bool-cases (at_line_end e.rest)) [
  | inl over ↦ rw over ((t, inr (sp, over), h), tt)
  | inr on ↦ rw on tt
]

plus-reads : (c : Cursor) → All (ReadsSpaces c) (matches (plus space) c)
unfolding matches spaces
plus-reads c = All-concat_map (ReadsSpaces c) (matches (star space)) (matches space c) (
    All-weaken (λ e. (x : ℕ) × (is_space x ≡ true) × (c.rest ≡ x ∷ e.rest))
      (λ e. All (ReadsSpaces c) (matches (star space) e))
      (λ e (x, sp, h).
        All-weaken (ReadsSpaces e) (ReadsSpaces c)
          (λ d (t, all_sp, k). (x ∷ t, rw (sp, all_sp) refl, h ∙ ap (λ u. x ∷ u) k))
          (matches (star space) e) (greedy-reads (length e.rest) e))
      (matches space c) (space-reads c c.rest))

pub boundary-reads : (c : Cursor) → All (ReadsEnd c) (matches boundary c)
unfolding matches
boundary-reads c =
    All-append (ReadsEnd c) (matches (plus space ⋅ lit (codes "·")) c)
      (matches (star space ⋅ line_end) c)
      (All-concat_map (ReadsEnd c) (matches (lit (codes "·"))) (matches (plus space) c) (
        All-weaken (ReadsSpaces c) (λ e. All (ReadsEnd c) (matches (lit (codes "·")) e)) (dot-end c)
          (matches (plus space) c) (plus-reads c)))
      (All-concat_map (ReadsEnd c) (matches line_end) (matches (star space) c) (
        All-weaken (ReadsSpaces c) (λ e. All (ReadsEnd c) (matches line_end e)) (line-end c)
          (matches (star space) c) (greedy-reads (length c.rest) c)))
