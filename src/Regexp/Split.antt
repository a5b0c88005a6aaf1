-- ===== src/Regexp/Split.antt =====
-- A match is a piece of the text: what matches stands between what is before and what is behind.
use saki_cli.Base.{
  ℕ, zero, suc, ◌-◌, ◌≡◌, refl, sym, ap, ◌∙◌, Bool, true, false, Option, none, some, List, [], ◌∷◌,
  ◌++◌, append_assoc, arith, ltb, if◌then◌else◌, Text, length, length-append, take, All, concat_map,
  All-append, All-concat_map, All-map, All-weaken,
}
use saki_cli.Regexp.{
  between, only_if, step_over, one_of, closed, moved_on, repeat_greedy, repeat_lazy, matches,
  behind, later, first_of, start_of, find_from, find, Cursor, Found, Re, one, empty, seq, alt, star,
  lazy_star, group, line_start, line_end, text_start, text_end, word_bound,
}

-- The text behind a point is the text behind a later point with a piece before it.
abbrev pub Follows : Cursor → Cursor → Type 0
Follows c d = (t : Text) × (c.rest ≡ t ++ d.rest)

Follows-refl : (c : Cursor) → Follows c c
Follows-refl c = ([], refl)

Follows-trans : (c d e : Cursor) → Follows c d → Follows d e → Follows c e
Follows-trans c d e (t, h) (u, k) = (t ++ u, h ∙ ap (λ s. t ++ s) k ∙ sym (append_assoc t u e.rest))

abbrev AllFollow : Cursor → List Cursor → Type 0
AllFollow c ds = All (Follows c) ds

only_if-AllFollow : (b : Bool) (c : Cursor) → AllFollow c (only_if b c)
only_if-AllFollow true c = (Follows-refl c, tt)
only_if-AllFollow false c = tt

one_of-AllFollow : (p : ℕ → Bool) (c : Cursor) (s : Text) → c.rest ≡ s → AllFollow c (one_of p c s)
one_of-AllFollow p c [] h = tt
one_of-AllFollow p c (x ∷ s) h = taken (p x)
  where
    taken : (b : Bool) → AllFollow c (only_if b (step_over c x s))
    taken true = ((x ∷ [], h), tt)
    taken false = tt

All-if {ℓ κ} :
    {A : Type ℓ} (P : A → Type κ) (b : Bool) (x : A) (xs : List A)
    → P x
    → All P xs
    → All P (if b then x ∷ xs else xs)
All-if P true x xs h hs = (h, hs)
All-if P false x xs h hs = hs

moved_on-All {κ} :
    (P : Cursor → Type κ) (c : Cursor) (ds : List Cursor) → All P ds → All P (moved_on c ds)
moved_on-All P c [] h = tt
moved_on-All P c (d ∷ ds) (h, hs) =
    All-if P (ltb (length d.rest) (length c.rest)) d (moved_on c ds) h (moved_on-All P c ds hs)

module _ (f : Cursor → List Cursor) (steps : (c : Cursor) → AllFollow c (f c)) where
  rounds :
      (g : Cursor → List Cursor)
      → ((c : Cursor) → AllFollow c (g c))
      → (c : Cursor) → AllFollow c (concat_map g (moved_on c (f c)))
  rounds g h c = All-concat_map (Follows c) g (moved_on c (f c)) (
      moved_on-All (λ d. AllFollow c (g d)) c (f c)
        (All-weaken (Follows c) (λ d. AllFollow c (g d))
          (λ d k. All-weaken (Follows d) (Follows c) (λ e l. Follows-trans c d e k l) (g d) (h d))
          (f c) (steps c)))

  repeat_greedy-AllFollow : (n : ℕ) (c : Cursor) → AllFollow c (repeat_greedy f n c)
  unfolding repeat_greedy
  repeat_greedy-AllFollow zero c = (Follows-refl c, tt)
  repeat_greedy-AllFollow (suc n) c =
      All-append (Follows c) (concat_map (repeat_greedy f n) (moved_on c (f c))) (c ∷ [])
        (rounds (repeat_greedy f n) (repeat_greedy-AllFollow n) c) (Follows-refl c, tt)

  repeat_lazy-AllFollow : (n : ℕ) (c : Cursor) → AllFollow c (repeat_lazy f n c)
  unfolding repeat_lazy
  repeat_lazy-AllFollow zero c = (Follows-refl c, tt)
  repeat_lazy-AllFollow (suc n) c =
      (Follows-refl c, rounds (repeat_lazy f n) (repeat_lazy-AllFollow n) c)

pub matches-AllFollow : (r : Re) (c : Cursor) → All (Follows c) (matches r c)
unfolding matches
matches-AllFollow (one p) c = one_of-AllFollow p c c.rest refl
matches-AllFollow empty c = (Follows-refl c, tt)
matches-AllFollow (seq a b) c = All-concat_map (Follows c) (matches b) (matches a c) (
    All-weaken (Follows c) (λ d. AllFollow c (matches b d))
      (λ d k.
        All-weaken (Follows d) (Follows c) (λ e l. Follows-trans c d e k l) (matches b d)
          (matches-AllFollow b d))
      (matches a c) (matches-AllFollow a c))
matches-AllFollow (alt a b) c =
    All-append (Follows c) (matches a c) (matches b c) (matches-AllFollow a c)
      (matches-AllFollow b c)
matches-AllFollow (star a) c =
    repeat_greedy-AllFollow (matches a) (matches-AllFollow a) (length c.rest) c
matches-AllFollow (lazy_star a) c =
    repeat_lazy-AllFollow (matches a) (matches-AllFollow a) (length c.rest) c
matches-AllFollow (group n a) c =
    All-map (Follows c) (closed n c) (matches a c) (matches-AllFollow a c)
matches-AllFollow line_start c = only_if-AllFollow _ c
matches-AllFollow line_end c = only_if-AllFollow _ c
matches-AllFollow text_start c = only_if-AllFollow _ c
matches-AllFollow text_end c = only_if-AllFollow _ c
matches-AllFollow word_bound c = only_if-AllFollow _ c

pub take_all : (t s : Text) (n : ℕ) → n ≡ length t → take n (t ++ s) ≡ t
take_all [] s zero h = refl
take_all [] s (suc n) h = absurd (omega arith)
take_all (x ∷ t) s zero h = absurd (omega arith)
take_all (x ∷ t) s (suc n) h = ap (λ u. x ∷ u) (take_all t s n (omega arith))

pub between-append : (t s : Text) → between (t ++ s) s ≡ t
between-append t s = take_all t s (length (t ++ s) - length s) (omega (arith, length-append t s))

-- What stands before a match, the match, and what stands behind it, put together again.
abbrev pub whole : Found → Text
whole f = f.before ++ (f.matched ++ f.after)

first_of-whole :
    (s : Text) (cs : List Cursor) (o : Option Found) (c : Cursor)
    → c.rest ≡ s
    → All (Follows c) cs
    → ((f : Found) → o ≡ some f → whole f ≡ s)
    → (f : Found) → first_of s cs o ≡ some f
    → whole f ≡ s
first_of-whole s [] o c e h k f g = k f g
first_of-whole s (d ∷ cs) o c e ((t, h), hs) k f g =
    let split : s ≡ t ++ d.rest = sym e ∙ h in
    let piece : between s d.rest ≡ t = ap (λ u. between u d.rest) split ∙ between-append t d.rest in
    ap whole (sym (some_inj g)) ∙ ap (λ u. u ++ d.rest) piece ∙ sym split
  where
    some_inj : {a b : Found} → some a ≡ some b → a ≡ b
    some_inj h = cc

later-whole :
    (x : ℕ) (s : Text) (o : Option Found)
    → ((f : Found) → o ≡ some f → whole f ≡ s)
    → (f : Found) → later x o ≡ some f
    → whole f ≡ x ∷ s
later-whole x s none k f g = cc
later-whole x s (some e) k f g =
    let found : behind x e ≡ f = cc in ap whole (sym found) ∙ ap (λ u. x ∷ u) (k e refl)

pub find_from-whole :
    (r : Re) (p : Option ℕ) (s : Text) (f : Found) → find_from r p s ≡ some f → whole f ≡ s
unfolding find_from
find_from-whole r p [] =
    first_of-whole [] (matches r (start_of p [])) none (start_of p []) refl
      (matches-AllFollow r (start_of p [])) (λ f h. cc)
find_from-whole r p (x ∷ s) =
    first_of-whole (x ∷ s) (matches r (start_of p (x ∷ s))) (later x (find_from r (some x) s))
      (start_of p (x ∷ s)) refl (matches-AllFollow r (start_of p (x ∷ s)))
      (later-whole x s (find_from r (some x) s) (find_from-whole r (some x) s))

pub find-whole : (r : Re) (s : Text) (f : Found) → find r s ≡ some f → whole f ≡ s
unfolding find
find-whole r s f h = find_from-whole r none s f h
