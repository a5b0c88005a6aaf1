-- ===== src/Paths.antt =====
-- The functions of package `path/filepath` that the code calls, on Unix. A path is a text; `47` is
-- the separator.

pub mod Rooted
use saki_cli.Base.{
  ℕ, Bool, true, false, not, List, [], ◌∷◌, ◌++◌, reverse, ◌==◌, if◌then◌else◌, Text, codes, same,
  is_empty, has_prefix, drop_while, split_at, join_at,
}

-- IsAbs.
unfoldable pub is_abs : Text → Bool
unfolding has_prefix
is_abs p = has_prefix (codes "/") p

-- One element for Clean, the elements that are kept last first.
abbrev pub up : Bool → List Text → List Text
up rooted [] = if rooted then [] else codes ".." ∷ []
up rooted (e ∷ es) = if same e (codes "..") then codes ".." ∷ e ∷ es else es

unfoldable pub clean_elements : Bool → List Text → List Text → List Text
unfolding same
clean_elements rooted kept [] = reverse kept
clean_elements rooted kept (e ∷ es) =
    clean_elements rooted
      (if is_empty e
        then kept
        else if same e (codes ".")
        then kept
        else if same e (codes "..")
        then up rooted kept
        else e ∷ kept)
      es

-- The elements that Clean leaves.
unfoldable pub elements : Text → List Text
unfolding clean_elements is_abs split_at
elements p = clean_elements (is_abs p) [] (split_at 47 p)

abbrev pub or_dot : Text → Text
or_dot [] = codes "."
or_dot (c ∷ s) = c ∷ s

-- Clean.
unfoldable pub clean : Text → Text
unfolding elements is_abs join_at
clean p = if is_abs p then 47 ∷ join_at 47 (elements p) else or_dot (join_at 47 (elements p))

abbrev pub not_empty : List Text → List Text
not_empty [] = []
not_empty (p ∷ ps) = let rest = not_empty ps in if is_empty p then rest else p ∷ rest

abbrev pub clean_unless_nil : List Text → Text
clean_unless_nil [] = []
clean_unless_nil (p ∷ ps) = clean (join_at 47 (p ∷ ps))

-- Join.
unfoldable pub join : List Text → Text
unfolding clean join_at
join ps = clean_unless_nil (not_empty ps)

-- The text behind the last separator, and the text up to it and with it; both turned round.
abbrev pub not_separator : ℕ → Bool
not_separator c = not (c == 47)

unfoldable pub take_while : (ℕ → Bool) → Text → Text
take_while p [] = []
take_while p (c ∷ s) = elim (p c) [ true ↦ c ∷ take_while p s | false ↦ [] ]

-- Dir.
unfoldable pub dir : Text → Text
unfolding clean drop_while
dir p = clean (reverse (drop_while not_separator (reverse p)))

abbrev pub base_of : Text → Text → Text
base_of p [] = if is_empty p then codes "." else codes "/"
base_of p (c ∷ s) = reverse (take_while not_separator (c ∷ s))

-- Base.
unfoldable pub base : Text → Text
unfolding drop_while take_while
base p = base_of p (drop_while (◌==◌ 47) (reverse p))

-- Abs, in a working directory.
unfoldable pub abs : Text → Text → Text
unfolding clean join is_abs
abs wd p = if is_abs p then clean p else join (wd ∷ p ∷ [])

-- path == root || HasPrefix(path, root + "/").
unfoldable pub contained : Text → Text → Bool
unfolding same has_prefix
contained root path = if same path root then true else has_prefix (root ++ codes "/") path
