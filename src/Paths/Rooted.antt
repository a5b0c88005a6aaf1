-- ===== src/Paths/Rooted.antt =====
-- What Clean leaves of an absolute path.
use saki_cli.Base.{
  ◌≡◌, refl, inl, inr, Bool, true, not, ◌&&◌, List, [], ◌∷◌, arith, if◌then◌else◌, Bool-cases, Text,
  codes, same, is_empty, All, All-reverse, split_at, join_at, lacks, split_at-lacks,
}
use saki_cli.Paths.{is_abs, up, clean_elements, elements, clean}

-- An element that names a directory or a file below its parent: not empty, neither "." nor "..", and
-- with no separator.
abbrev pub goes_down : Text → Bool
goes_down e =
    not (is_empty e) && (not (same e (codes ".")) && (not (same e (codes "..")) && lacks 47 e))

abbrev pub IsDown : Text → Type 0
IsDown e = goes_down e ≡ true

up-IsDown : (kept : List Text) → All IsDown kept → All IsDown (up true kept)
up-IsDown [] h = tt
up-IsDown (e ∷ es) (h, hs) = ground (arith, h, hs)

next-IsDown :
    (e : Text) (kept : List Text)
    → lacks 47 e ≡ true
    → All IsDown kept
    → All IsDown (
        if is_empty e
        then kept
        else if same e (codes ".")
        then kept
        else if same e (codes "..")
        then up true kept
        else e ∷ kept)
next-IsDown e kept l h = elim (Bool-cases (is_empty e)) [
  | inl a ↦ rw a h
  | inr a ↦ elim (Bool-cases (same e (codes "."))) [
    | inl b ↦ rw (a, b) h
    | inr b ↦ elim (Bool-cases (same e (codes ".."))) [
      | inl c ↦ rw (a, b, c) (up-IsDown kept h)
      | inr c ↦ rw (a, b, c) (rw (a, b, c) l, h)
    ]
  ]
]

-- What a round of Clean keeps.
clean_elements-IsDown :
    (kept es : List Text)
    → All (λ e. lacks 47 e ≡ true) es
    → All IsDown kept
    → All IsDown (clean_elements true kept es)
unfolding clean_elements
clean_elements-IsDown kept [] l h = All-reverse IsDown kept h
clean_elements-IsDown kept (e ∷ es) (l, ls) h =
    clean_elements-IsDown
      (if is_empty e
        then kept
        else if same e (codes ".")
        then kept
        else if same e (codes "..")
        then up true kept
        else e ∷ kept)
      es ls (next-IsDown e kept l h)

-- The elements of an absolute path are plain names.
pub elements-IsDown : (p : Text) → is_abs p ≡ true → All IsDown (elements p)
unfolding elements
elements-IsDown p rooted =
    rw rooted (clean_elements-IsDown [] (split_at 47 p) (split_at-lacks 47 p) tt)

-- A path from the root through plain names.
abbrev pub IsPlain : Text → Type 0
IsPlain p = (names : List Text) × (p ≡ 47 ∷ join_at 47 names) × All IsDown names

pub clean-IsPlain : (p : Text) → is_abs p ≡ true → IsPlain (clean p)
unfolding clean
clean-IsPlain p rooted = (elements p, rw rooted refl, elements-IsDown p rooted)
