-- ===== src/Planning/FieldReads.antt =====
-- What a match of the status field reads, for the expression `\*\*Status:\*\*.*?(\s+·|\s*$)` of
-- backend/domain/lock.go.
use Prim.Native.Nat.{ℕ, zero, suc}
use saki_cli.Base.{
  ◌≡◌, refl, sym, ap, subst, ◌∙◌, inl, inr, Bool, true, false, not, [], ◌∷◌, ◌++◌, ◌==◌, Bool-cases,
  Text, codes, length, any, All, All-concat_map, All-map, All-weaken,
}
use saki_cli.Regexp.{
  between, one_of, closed, moved_on, repeat_lazy, matches, group_in, Cursor, lazy_star, group,
}
use saki_cli.Regexp.Syntax.{lit, dot, ◌⋅◌}
use saki_cli.Planning.Lock.{lock_status_re}
use saki_cli.Planning.Boundary.{one-reads, All-moved_on, EndsField, boundary-reads}
use saki_cli.Regexp.Split.{between-append}
use saki_cli.Planning.{boundary}

abbrev pub field_name : Text
field_name = codes "**Status:**"

-- A literal is read off the text.
lit-reads : (s : Text) (c : Cursor) → All (λ d. c.rest ≡ s ++ d.rest) (matches (lit s) c)
unfolding matches
lit-reads [] c = (refl, tt)
lit-reads (k ∷ []) c = one-reads k c c.rest
lit-reads (k ∷ l ∷ s) c =
    All-concat_map (λ d. c.rest ≡ k ∷ l ∷ s ++ d.rest) (matches (lit (l ∷ s)))
      (one_of (◌==◌ k) c c.rest)
      (All-weaken (λ e. c.rest ≡ k ∷ e.rest)
        (λ e. All (λ d. c.rest ≡ k ∷ l ∷ s ++ d.rest) (matches (lit (l ∷ s)) e))
        (λ e h.
          All-weaken (λ d. e.rest ≡ l ∷ s ++ d.rest) (λ d. c.rest ≡ k ∷ l ∷ s ++ d.rest)
            (λ d g. h ∙ ap (λ t. k ∷ t) g) (matches (lit (l ∷ s)) e) (lit-reads (l ∷ s) e))
        (one_of (◌==◌ k) c c.rest) (one-reads k c c.rest))

-- A text on one line.
abbrev pub one_line : Text → Bool
one_line t = not (any (λ x. x == 10) t)

-- What a match of the expression reads.
abbrev pub Reads : Cursor → Cursor → Type 0
Reads c d =
    (value : Text) × (one_line value ≡ true)
    × EndsField (group_in 1 d.groups) d.rest
    × (c.rest ≡ field_name ++ (value ++ (group_in 1 d.groups ++ d.rest)))

-- What the part behind the name reads.
abbrev ReadsValue : Cursor → Cursor → Type 0
ReadsValue c d =
    (value : Text) × (one_line value ≡ true)
    × EndsField (group_in 1 d.groups) d.rest
    × (c.rest ≡ value ++ (group_in 1 d.groups ++ d.rest))

abbrev ReadsLine : Cursor → Cursor → Type 0
ReadsLine c d = (t : Text) × (one_line t ≡ true) × (c.rest ≡ t ++ d.rest)

dot-reads :
    (c : Cursor) (s : Text)
    → All (λ d. (x : ℕ) × ((x == 10) ≡ false) × (s ≡ x ∷ d.rest)) (one_of (λ x. not (x == 10)) c s)
dot-reads c [] = tt
dot-reads c (x ∷ s) = elim (Bool-cases (x == 10)) [
  | inl e ↦ rw e tt
  | inr e ↦ rw e ((x, e, refl), tt)
]

lazy-reads : (n : ℕ) (c : Cursor) → All (ReadsLine c) (repeat_lazy (matches dot) n c)
unfolding repeat_lazy matches
lazy-reads zero c = (([], refl, refl), tt)
lazy-reads (suc n) c = (
  ([], refl, refl),
  All-concat_map (ReadsLine c) (repeat_lazy (matches dot) n) (moved_on c (matches dot c)) (
      All-weaken (λ e. (x : ℕ) × ((x == 10) ≡ false) × (c.rest ≡ x ∷ e.rest))
        (λ e. All (ReadsLine c) (repeat_lazy (matches dot) n e))
        (λ e (x, on, h).
          All-weaken (ReadsLine e) (ReadsLine c)
            (λ d (t, line, k). (x ∷ t, rw on line, h ∙ ap (λ u. x ∷ u) k))
            (repeat_lazy (matches dot) n e) (lazy-reads n e))
        (moved_on c (matches dot c))
        (All-moved_on (λ e. (x : ℕ) × ((x == 10) ≡ false) × (c.rest ≡ x ∷ e.rest)) c (matches dot c)
          (dot-reads c c.rest))),
)

closed-group :
    (g d : Cursor) (t : Text) → g.rest ≡ t ++ d.rest → t ≡ group_in 1 (closed 1 g d).groups
closed-group g d t h = sym (ap (λ u. between u d.rest) h ∙ between-append t d.rest)

closed-reads :
    (c g d : Cursor) (value t : Text)
    → one_line value ≡ true
    → EndsField t d.rest
    → c.rest ≡ value ++ g.rest
    → g.rest ≡ t ++ d.rest
    → ReadsValue c (closed 1 g d)
closed-reads c g d value t line ends h k =
    let e = closed-group g d t k in
    (
      value,
      line,
      subst (λ u. EndsField u d.rest) e ends,
      h ∙ ap (λ u. value ++ u) (k ∙ ap (λ u. u ++ d.rest) e),
    )

value-reads : (c : Cursor) → All (ReadsValue c) (matches (lazy_star dot ⋅ group 1 boundary) c)
unfolding matches
value-reads c =
    All-concat_map (ReadsValue c) (matches (group 1 boundary)) (matches (lazy_star dot) c) (
      All-weaken (ReadsLine c) (λ g. All (ReadsValue c) (matches (group 1 boundary) g))
        (λ g (value, line, h). All-map (ReadsValue c) (closed 1 g) (matches boundary g) (
          All-weaken (λ d. (t : Text) × EndsField t d.rest × (g.rest ≡ t ++ d.rest))
            (λ d. ReadsValue c (closed 1 g d))
            (λ d (t, ends, k). closed-reads c g d value t line ends h k) (matches boundary g)
            (boundary-reads g)))
        (matches (lazy_star dot) c) (lazy-reads (length c.rest) c))

pub matches-Reads : (c : Cursor) → All (Reads c) (matches lock_status_re c)
unfolding matches
matches-Reads c =
    All-concat_map (Reads c) (matches (lazy_star dot ⋅ group 1 boundary))
      (matches (lit field_name) c)
      (All-weaken (λ e. c.rest ≡ field_name ++ e.rest)
        (λ e. All (Reads c) (matches (lazy_star dot ⋅ group 1 boundary) e))
        (λ e h.
          All-weaken (ReadsValue e) (Reads c)
            (λ d (value, line, ends, k). (value, line, ends, h ∙ ap (λ u. field_name ++ u) k))
            (matches (lazy_star dot ⋅ group 1 boundary) e) (value-reads e))
        (matches (lit field_name) c) (lit-reads field_name c))
