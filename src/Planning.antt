-- ===== src/Planning.antt =====
-- The documents under tasks/ that the planning use cases read and edit: the numbers, fields and
-- marks that they share. Each child is one file of backend/domain, or its use case.
pub mod Roadmap
pub mod PlanTrack
pub mod Lock
pub mod Boundary
pub mod FieldReads
pub mod StatusField
pub mod Disk
pub mod Preview
pub mod Boxes
pub mod Artifacts
pub mod Items
pub mod Questions
pub mod Resolve
pub mod Writes
pub mod Reads
pub mod Frozen
pub mod Scoped
pub mod Appended
use saki_cli.Base.{
  ℕ, ◌+◌, ◌-◌, ◌*◌, ◌%◌, ◌^◌, min, Bool, ◌||◌, Option, none, some, List, [], ◌∷◌, ltb,
  if◌then◌else◌, Text, codes, same, is_empty, trim, any, ℤ, pos, negsuc,
}
use saki_cli.Regexp.{find, group_of, Found, Re, alt, star, line_end}
use saki_cli.Regexp.Syntax.{lit, space, plus, ◌⋅◌}

-- The number that decimal digits stand for.
unfoldable pub value_from : ℕ → Text → ℕ
value_from n [] = n
value_from n (c ∷ s) = value_from (n * 10 + (c - b'0')) s

-- `n, _ := strconv.Atoi(digits)`: past int64 it is the largest one.
unfoldable pub atoi_clamped : Text → ℕ
unfolding value_from
atoi_clamped s = min (value_from 0 s) (2 ^ 63 - 1)

-- An int that has been computed with wrap-around.
abbrev pub int64_of : ℕ → ℤ
int64_of n = let low = n % 2 ^ 64 in if ltb low (2 ^ 63) then pos low else negsuc (2 ^ 64 - 1 - low)

-- atoi and atoiInt of backend/domain, on digits.
unfoldable pub atoi : Text → ℤ
unfolding value_from
atoi s = int64_of (value_from 0 s)

-- `(?:\s+·|\s*$)`, and the same in a group.
abbrev pub boundary : Re
boundary = alt (plus space ⋅ lit (codes "·")) (star space ⋅ line_end)

abbrev pub trimmed_group : Option Found → Option Text
trimmed_group none = none
trimmed_group (some f) = some (trim (group_of 1 f))

-- firstGroup.
unfoldable pub first_group : Re → Text → Option Text
unfolding find trim
first_group r s = trimmed_group (find r s)

abbrev pub unless_dash : Option Text → Option Text
unless_dash none = none
unless_dash (some v) = if is_empty v || same v (codes "—") then none else some v

-- dashNull.
unfoldable pub dash_null : Re → Text → Option Text
unfolding first_group same
dash_null r s = unless_dash (first_group r s)

-- containsStr.
abbrev pub contains_str : List Text → Text → Bool
contains_str xs x = any (λ s. same s x) xs
