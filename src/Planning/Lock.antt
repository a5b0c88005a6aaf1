-- ===== src/Planning/Lock.antt =====
-- backend/domain/lock.go and backend/usecase/lock.go: the lock of a PRD.
use saki_cli.Base.{
  Bool, true, false, not, ◌||◌, Option, none, some, [], ◌∷◌, ◌++◌, if◌then◌else◌, Text, codes,
  is_empty, has_prefix, trim, has_suffix, equal_fold,
}
use saki_cli.Regexp.{find, is_match, group_of, Found, Re, star, lazy_star, group, line_start}
use saki_cli.Regexp.Syntax.{lit, dot, space, lazy_plus, ◌⋅◌}
use saki_cli.Paths.{is_abs, clean, join, dir, contained}
use saki_cli.Planning.Disk.{reply, after_write, Disk, Reply}
use saki_cli.Planning.Preview.{find_proto_preview}
use saki_cli.Planning.{boundary}

abbrev pub lock_line_re : Re
lock_line_re = line_start ⋅ lit (codes "<!-- prd-locked:")

abbrev pub owner_re : Re
owner_re = line_start ⋅ lit (codes "**Owner:**") ⋅ star space ⋅ group 1 (lazy_plus dot) ⋅ boundary

abbrev pub lock_status_re : Re
lock_status_re = lit (codes "**Status:**") ⋅ lazy_star dot ⋅ group 1 boundary

-- IsLocked.
unfoldable pub is_locked : Text → Bool
unfolding find
is_locked content = is_match lock_line_re content

-- BuildLockMarker.
abbrev pub build_lock_marker : Text → Text → Text → Text
build_lock_marker approver date ui =
    codes "<!-- prd-locked: "
    ++ (approver ++ codes " · " ++ date ++ codes " · ui:" ++ ui ++ codes " -->")

-- LockUiValue.
unfoldable pub lock_ui_value : Text → Text
unfolding dir has_suffix
lock_ui_value rel =
    if is_empty rel
    then codes "none"
    else if has_suffix (codes "/") (dir rel)
    then dir rel
    else dir rel ++ codes "/"

abbrev pub at_sign : Text → Text
at_sign s = codes "@" ++ s

-- The approver where the document names none.
unfoldable pub git_approver : Text → Text
unfolding trim
git_approver name = let n = trim name in if is_empty n then codes "unassigned" else at_sign n

unfoldable pub owner_or : Text → Text → Text
unfolding equal_fold has_prefix
owner_or owner other =
    if is_empty owner || equal_fold owner (codes "unassigned")
    then other
    else if has_prefix (codes "@") owner
    then owner
    else at_sign owner

abbrev pub approver_of : Option Found → Text → Text
approver_of none other = other
approver_of (some m) other = owner_or (trim (group_of 1 m)) other

-- ResolveApprover.
unfoldable pub resolve_approver : Text → Text → Text
unfolding find owner_or git_approver trim
resolve_approver content git_user = approver_of (find owner_re content) (git_approver git_user)

abbrev pub status_locked : Text → Option Found → Text
status_locked s none = s
status_locked s (some f) = f.before ++ ((codes "**Status:** Locked" ++ group_of 1 f) ++ f.after)

-- ApplyLock.
unfoldable pub apply_lock : Text → Text → Text → Text → Text × Bool
unfolding is_locked find
apply_lock content approver date ui =
    let marked = build_lock_marker approver date ui ++ 10 ∷ content in
    if is_locked content
    then (content, true)
    else (status_locked marked (find lock_status_re marked), false)

pub data LockRequest : Type 0 where
  lock_ok : Text → LockRequest
  lock_refused : Text → LockRequest

-- ValidateLockRequest.
unfoldable pub validate_lock_request : Text → Text → (Text → Bool) → LockRequest
unfolding has_suffix clean join is_abs contained
validate_lock_request path cwd exists =
    let root = clean cwd in
    let target = if not (is_abs path) then clean (join (root ∷ path ∷ [])) else clean path in
    if is_empty path || not (has_suffix (codes ".md") path)
    then lock_refused (codes "path must be a .md file")
    else if is_empty cwd
    then lock_refused (codes "cwd is required")
    else if not (contained root target)
    then lock_refused (codes "path escapes cwd")
    else if not (exists target)
    then lock_refused (codes "PRD file not found")
    else lock_ok target

pub data LockBody : Type 0 where
  lock_error lock_failed : Text → LockBody
  already_locked locked : Text → LockBody

module _ (d : Disk) (user_name : Text → Text) where
  -- The file is read and not locked.
  unfoldable pub lock_content : Text → Text → Text → Text → Text → Reply LockBody
  unfolding apply_lock lock_ui_value resolve_approver find_proto_preview
  lock_content cwd path date target content =
      let ui = lock_ui_value (find_proto_preview d cwd target) in
      let (next, was) = apply_lock content (resolve_approver content (user_name cwd)) date ui in
      after_write target next (d.write target next) (λ e. reply 200 (lock_failed e))
        (reply 200 (locked path))

  abbrev pub lock_read : Text → Text → Text → Text → Option Text → Reply LockBody
  lock_read cwd path date target none = reply 200 (lock_failed (codes "read failed"))
  lock_read cwd path date target (some content) =
      if is_locked content
      then reply 200 (already_locked path)
      else lock_content cwd path date target content

  abbrev pub lock_checked : Text → Text → Text → LockRequest → Reply LockBody
  lock_checked cwd path date (lock_refused e) = reply 422 (lock_error e)
  lock_checked cwd path date (lock_ok target) = lock_read cwd path date target (d.read target)

  -- LockService.Lock.
  unfoldable pub lock_prd : Text → Text → Text → Reply LockBody
  unfolding validate_lock_request is_locked lock_content
  lock_prd cwd path date = lock_checked cwd path date (validate_lock_request path cwd d.exists)
