-- ===== src/Planning/Frozen.antt =====
-- What the lock of backend/domain/lock.go and backend/usecase/lock.go writes, and where.
use saki_cli.Base.{
  ◌≡◌, ◌⊎◌, true, false, not, Option, none, some, [], ◌∷◌, ◌++◌, if◌then◌else◌, Text, codes,
}
use saki_cli.Paths.{is_abs, clean, join}
use saki_cli.Paths.Rooted.{IsPlain}
use saki_cli.Regexp.{later, Found}
use saki_cli.Planning.StatusField.{lacks_field}
use saki_cli.Planning.FieldReads.{field_name, one_line}
use saki_cli.Planning.Boundary.{EndsField}
use saki_cli.Planning.Lock.{is_locked, lock_ui_value, resolve_approver}
use saki_cli.Planning.Preview.{find_proto_preview}
use saki_cli.Planning.Disk.{Disk}

-- A path that is a directory or below it, through plain names from the root.
abbrev pub IsInside : Text → Text → Type 0
IsInside root p = ((p ≡ root) ⊎ ((rest : Text) × (p ≡ (root ++ codes "/") ++ rest))) × IsPlain p

-- The path that a lock request names.
abbrev target_path : Text → Text → Text
target_path path cwd =
    if not (is_abs path) then clean (join (clean cwd ∷ path ∷ [])) else clean path

-- A search in a text that begins with `p`, where no match begins within it.
abbrev laters : Text → Option Found → Option Found
laters [] o = o
laters (c ∷ s) o = later c (laters s o)

abbrev marker_head : Text
marker_head = codes "<!-- prd-locked: "

-- The line that a lock puts above the text.
abbrev pub marker_line : Text → Text → Text → Text
marker_line approver date ui =
    codes "<!-- prd-locked: "
    ++ (approver ++ codes " · " ++ date ++ codes " · ui:" ++ ui ++ codes " -->")

-- The text `t` with its first status field set to "Locked": the name and the value on its line, up to
-- an end of the field, are replaced, and all else is kept. A text without a field is kept.
abbrev pub IsStatusSet : Text → Text → Type 0
IsStatusSet t new =
    ((lacks_field t [] ≡ true) × (new ≡ t))
    ⊎ ((before : Text) × (value : Text) × (kept : Text) × (after : Text) × (one_line value ≡ true)
        × EndsField kept after
        × (t ≡ before ++ (field_name ++ (value ++ (kept ++ after))))
        × (lacks_field before (field_name ++ (value ++ (kept ++ after))) ≡ true)
        × (new ≡ before ++ ((codes "**Status:** Locked" ++ kept) ++ after)))

-- The marker of this approver, date and preview above the old text, with the first status field set.
abbrev pub IsFrozen : Text → Text → Text → Text → Text → Type 0
IsFrozen approver date ui old new = IsStatusSet (marker_line approver date ui ++ 10 ∷ old) new

module _ (d : Disk) (user_name : Text → Text) (cwd path date : Text) where
  -- What a reply wrote: an unlocked document of the disk, inside the directory, frozen.
  abbrev pub WritesFrozen : Option (Text × Text) → Type 0
  WritesFrozen none = Unit
  WritesFrozen (some (p, new)) =
      IsInside (clean cwd) p
      × ((old : Text) × (d.read p ≡ some old)
          × (is_locked old ≡ false)
          × (is_locked new ≡ true)
          × IsFrozen (resolve_approver old (user_name cwd)) date
              (lock_ui_value (find_proto_preview d cwd p)) old new)
