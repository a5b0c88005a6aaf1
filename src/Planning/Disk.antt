-- ===== src/Planning/Disk.antt =====
-- What the file system answers during one request, for the ports RoadmapFS, WorkItemsFS and
-- ContentWriter, and the reply of a use case.
use saki_cli.Base.{ℕ, Bool, Option, none, some, List, if◌then◌else◌, Text, is_empty, ℤ}

pub record Disk : Type 0 where
  pub exists : Text → Bool
  pub read : Text → Option Text
  pub list_dir : Text → List Text
  pub mtime : Text → ℤ
  pub walk : Text → List Text
  -- WriteFile of a path and a content, with the message where it fails
  pub write : Text → Text → Option Text

-- A status with the body, and the file that was written.
pub record Reply {ℓ} (B : Type ℓ) : Type ℓ where
  pub status : ℕ
  pub body : B
  pub written : Option (Text × Text)

abbrev pub reply {ℓ} : {B : Type ℓ} → ℕ → B → Reply B
reply s b = record { status = s; body = b; written = none }

-- The reply after a write, of `w` where it failed and of `b` where it did not.
abbrev pub after_write {ℓ} :
    {B : Type ℓ} → Text → Text → Option Text → (Text → Reply B) → Reply B → Reply B
after_write path content (some e) failed done = failed e
after_write path content none failed done = record done { written = some (path, content) }

-- nilIfEmpty.
abbrev pub nil_if_empty : Text → Option Text
nil_if_empty s = if is_empty s then none else some s
