-- ===== src/Planning/StatusField.antt =====
-- The first status field of a document, for the expression `\*\*Status:\*\*.*?(\s+·|\s*$)` of
-- backend/domain/lock.go.
use Prim.Native.Nat.{ℕ, zero, suc, ◌≤◌}
use saki_cli.Base.{
  ◌≡◌, refl, sym, ap, subst, ◌∙◌, inl, inr, Bool, true, false, not, ◌&&◌, Option, none, some, List,
  [], ◌∷◌, ◌++◌, map, append-nil, arith, ltb, ◌==◌, Bool-cases, Text, codes, has_prefix, length,
  is_nil, All, concat_map, lacks,
}
use saki_cli.Regexp.{
  at_line_end, step_over, closed, moved_on, repeat_greedy, repeat_lazy, matches, later, first_of,
  start_of, find_from, group_of, Cursor, Found, star, lazy_star, group, line_end,
}
use saki_cli.Regexp.Syntax.{lit, dot, space, plus, ◌⋅◌}
use saki_cli.Planning.Lock.{lock_status_re}
use saki_cli.Planning.Boundary.{EndsField}
use saki_cli.Planning.{boundary}
use saki_cli.Planning.FieldReads.{field_name, one_line, Reads, matches-Reads}

-- No field begins in `s`, which stands before `t`.
unfoldable pub lacks_field : Text → Text → Bool
unfolding has_prefix
lacks_field [] t = true
lacks_field (c ∷ s) t =
    let rest = lacks_field s t in not (has_prefix field_name ((c ∷ s) ++ t)) && rest

-- The only way to read a literal that stands there.
lit-only :
    (s : Text) (c : Cursor) (t : Text)
    → c.rest ≡ s ++ t
    → (e : Cursor) × (matches (lit s) c ≡ e ∷ []) × (e.rest ≡ t)
unfolding matches
lit-only [] c t h = (c, refl, h)
lit-only (k ∷ []) c t h = (step_over c k t, rw h (rw (self_equal k) refl), refl)
  where
    self_equal : (n : ℕ) → (n == n) ≡ true
    self_equal n = ground arith
lit-only (k ∷ l ∷ s) c t h =
    let (e, at, left) = lit-only (l ∷ s) (step_over c k (l ∷ s ++ t)) t refl in
    (
      e,
      rw h (
          rw (self_equal k) (append-nil (matches (lit (l ∷ s)) (step_over c k (l ∷ s ++ t))) ∙ at)),
      left,
    )
  where
    self_equal : (n : ℕ) → (n == n) ≡ true
    self_equal n = ground arith

nil-append : (A : Type 0) (xs ys : List A) → is_nil ys ≡ false → is_nil (xs ++ ys) ≡ false
nil-append A [] ys h = h
nil-append A (x ∷ xs) ys h = refl

append-nil_no : (A : Type 0) (xs ys : List A) → is_nil xs ≡ false → is_nil (xs ++ ys) ≡ false
append-nil_no A [] ys h = cc
append-nil_no A (x ∷ xs) ys h = refl

map-nil_no :
    (A B : Type 0) (f : A → B) (xs : List A) → is_nil xs ≡ false → is_nil (map f xs) ≡ false
map-nil_no A B f [] h = cc
map-nil_no A B f (x ∷ xs) h = refl

concat_map_last :
    (f : Cursor → List Cursor) (xs : List Cursor) (e : Cursor)
    → is_nil (f e) ≡ false
    → is_nil (concat_map f (xs ++ e ∷ [])) ≡ false
concat_map_last f [] e h = append-nil_no Cursor (f e) [] h
concat_map_last f (x ∷ xs) e h =
    nil-append Cursor (f x) (concat_map f (xs ++ e ∷ [])) (concat_map_last f xs e h)

-- A greedy repetition may stop where it begins.
greedy_self :
    (n : ℕ) (f g : Cursor → List Cursor) (e : Cursor)
    → is_nil (g e) ≡ false
    → is_nil (concat_map g (repeat_greedy f n e)) ≡ false
unfolding repeat_greedy
greedy_self zero f g e h = append-nil_no Cursor (g e) [] h
greedy_self (suc n) f g e h =
    concat_map_last g (concat_map (repeat_greedy f n) (moved_on e (f e))) e h

-- At the end of a line the boundary is there.
boundary_there :
    (e : Cursor) → at_line_end e.rest ≡ true → is_nil (matches (group 1 boundary) e) ≡ false
unfolding matches
boundary_there e h = map-nil_no Cursor Cursor (closed 1 e) (matches boundary e) (
    nil-append Cursor (matches (plus space ⋅ lit (codes "·")) e) (matches (star space ⋅ line_end) e)
      (greedy_self (length e.rest) (matches space) (matches line_end) e (rw h refl)))

dot_moved :
    (e : Cursor) (x : ℕ) (s : Text)
    → e.rest ≡ x ∷ s
    → (x == 10) ≡ false
    → moved_on e (matches dot e) ≡ step_over e x s ∷ []
unfolding matches
dot_moved e x s h on = rw h (rw on (rw (shorter (length s)) refl))
  where
    shorter : (n : ℕ) → ltb n (suc n) ≡ true
    shorter n = ground arith

-- Lazily, the value goes on to the first boundary behind it.
value_there :
    (n : ℕ) (e : Cursor) (s : Text)
    → e.rest ≡ s
    → length s ≤ n
    → is_nil (concat_map (matches (group 1 boundary)) (repeat_lazy (matches dot) n e)) ≡ false
unfolding repeat_lazy matches
value_there zero e [] h le =
    append-nil_no Cursor (matches (group 1 boundary) e) [] (boundary_there e (ap at_line_end h))
value_there zero e (x ∷ s) h le = absurd (omega arith)
value_there (suc n) e [] h le =
    append-nil_no Cursor (matches (group 1 boundary) e) _ (boundary_there e (ap at_line_end h))
value_there (suc n) e (x ∷ s) h le = elim (Bool-cases (x == 10)) [
  | inl line_over ↦
      append-nil_no Cursor (matches (group 1 boundary) e) _
        (boundary_there e (ap at_line_end h ∙ line_over))
  | inr on ↦
      nil-append Cursor (matches (group 1 boundary) e)
        (concat_map (matches (group 1 boundary))
          (concat_map (repeat_lazy (matches dot) n) (moved_on e (matches dot e))))
        (subst
          (λ es.
            is_nil (
              concat_map (matches (group 1 boundary)) (concat_map (repeat_lazy (matches dot) n) es))
            ≡ false)
          (sym (dot_moved e x s h on))
          (subst (λ es. is_nil (concat_map (matches (group 1 boundary)) es) ≡ false)
            (sym (append-nil (repeat_lazy (matches dot) n (step_over e x s))))
            (value_there n (step_over e x s) s refl (omega arith))))
]

-- Where the name stands, the expression matches.
matches_field :
    (c : Cursor) (t : Text) → c.rest ≡ field_name ++ t → is_nil (matches lock_status_re c) ≡ false
unfolding matches
matches_field c t h =
    let (e, only, left) = lit-only field_name c t h in
    subst (λ es. is_nil (concat_map (matches (lazy_star dot ⋅ group 1 boundary)) es) ≡ false)
      (sym only)
      (append-nil_no Cursor (matches (lazy_star dot ⋅ group 1 boundary) e) []
        (value_there (length e.rest) e e.rest refl (omega arith)))

pub has_prefix_split : (p s : Text) → has_prefix p s ≡ true → (rest : Text) × (s ≡ p ++ rest)
unfolding has_prefix
has_prefix_split [] s h = (s, refl)
has_prefix_split (c ∷ p) [] h = cc
has_prefix_split (c ∷ p) (d ∷ s) h =
    let (rest, e) = has_prefix_split p s (ground (arith, h)) in (rest, ground (arith, e, h))

-- The first field of a text with its value, and the boundary that the match keeps; or that there is
-- no field.
abbrev pub IsFirstField : Text → Option Found → Type 0
IsFirstField s none = lacks_field s [] ≡ true
IsFirstField s (some f) =
    (value : Text) × (one_line value ≡ true)
    × EndsField (group_of 1 f) f.after
    × (s ≡ f.before ++ (field_name ++ (value ++ (group_of 1 f ++ f.after))))
    × (lacks_field f.before (field_name ++ (value ++ (group_of 1 f ++ f.after))) ≡ true)

first_of-IsFirstField :
    (c : Cursor) (s : Text) (ds : List Cursor) (o : Option Found)
    → c.rest ≡ s
    → All (Reads c) ds
    → (is_nil ds ≡ true → IsFirstField s o)
    → IsFirstField s (first_of s ds o)
unfolding lacks_field
first_of-IsFirstField c s [] o at reads k = k refl
first_of-IsFirstField c s (d ∷ ds) o at ((value, line, ends, h), reads) k =
    (value, line, ends, sym at ∙ h, refl)

later-IsFirstField :
    (x : ℕ) (s : Text) (o : Option Found)
    → has_prefix field_name (x ∷ s) ≡ false
    → IsFirstField s o
    → IsFirstField (x ∷ s) (later x o)
unfolding lacks_field
later-IsFirstField x s none no_name h =
    let here = ap (λ t. has_prefix field_name (x ∷ t)) (append-nil s) ∙ no_name in rw (here, h) refl
later-IsFirstField x s (some f) no_name (value, line, ends, h, lacks) =
    let here = ap (λ t. has_prefix field_name (x ∷ t)) (sym h) ∙ no_name in
    (value, line, ends, ap (λ t. x ∷ t) h, rw (here, lacks) refl)

no_name_there :
    (c : Cursor) → is_nil (matches lock_status_re c) ≡ true → has_prefix field_name c.rest ≡ false
no_name_there c none_found = elim (Bool-cases (has_prefix field_name c.rest)) [
  | inr absent ↦ absent
  | inl there ↦
      let (t, h) = has_prefix_split field_name c.rest there in cc (none_found, matches_field c t h)
]

-- The search finds the first field.
pub find_from-IsFirstField :
    (p : Option ℕ) (s : Text) → IsFirstField s (find_from lock_status_re p s)
unfolding find_from
find_from-IsFirstField p [] =
    first_of-IsFirstField (start_of p []) [] (matches lock_status_re (start_of p [])) none refl
      (matches-Reads (start_of p [])) (λ none_found. unfold lacks_field in refl)
find_from-IsFirstField p (x ∷ s) =
    first_of-IsFirstField (start_of p (x ∷ s)) (x ∷ s) (matches lock_status_re (start_of p (x ∷ s)))
      (later x (find_from lock_status_re (some x) s)) refl (matches-Reads (start_of p (x ∷ s)))
      (λ none_found.
        later-IsFirstField x s (find_from lock_status_re (some x) s)
          (no_name_there (start_of p (x ∷ s)) none_found) (find_from-IsFirstField (some x) s))
