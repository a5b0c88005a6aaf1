-- ===== src/Git.antt =====
-- backend/usecase/gitwrite.go and branch.go, with backend/domain/branchname.go and repo.go and
-- backend/infra/gitargs.go: the writes to a git repository. A command of the port is an effect, and
-- the repository's answers are the fields of `Repository`.

pub mod Safe
use saki_cli.Base.{
  Bool, false, not, ◌||◌, Option, none, some, List, [], ◌∷◌, ◌++◌, if◌then◌else◌, Text, codes, same,
  is_empty, has_prefix, contains, is_unicode_space, trim, is_nil, any, lines_of, has_suffix,
  contains_any,
}

-- ValidateBranchName: the message of the refusal.
unfoldable pub validate_branch_name : Text → Option Text
unfolding has_prefix has_suffix contains
validate_branch_name name =
    if is_empty name || any is_unicode_space name
    then some (codes "branch name must be non-empty and contain no whitespace")
    else if has_prefix (codes "-") name
    then some (codes "branch name must not start with \"-\"")
    else if has_prefix (codes "/") name || has_suffix (codes "/") name
    then some (codes "branch name must not start or end with \"/\"")
    else if contains (codes "..") name
    then some (codes "branch name must not contain \"..\"")
    else if contains_any (codes "~^:?*[\\") name
    then some (codes "branch name contains an invalid character (~ ^ : ? * [ \\)")
    else none

-- A call of the port GitWriter that changes the repository.
pub data Command : Type 0 where
  switch : Text → Bool → Command
  merge : Text → Command
  merge_abort : Command
  create_mr : Text → Text → Command

-- What the repository answers: `none` is success, `some` the message of a failure.
pub record Repository : Type 0 where
  pub branches : List Text
  pub remotes : List Text
  pub default_branch : Text
  -- "" where HEAD is detached
  pub current : Text
  pub switched : Text → Bool → Option Text
  pub merged : Text → Option Text
  -- the URL, or the message
  pub mr : Text → Text → Text × Text

pub data Outcome : Type 0 where
  -- ErrCwdRequired and ValidationError
  refused : Text → Outcome
  failed : Text → Outcome
  switched_to : Text → Outcome
  mr_created : Text → Outcome
  merged_into : Text → Text → Outcome

-- The commands in order, with the outcome.
abbrev pub Run : Type 0
Run = List Command × Outcome

abbrev pub no_command : Outcome → Run
no_command o = ([], o)

-- fmt's %q of a branch name, which git keeps free of characters that %q escapes.
abbrev pub quoted : Text → Text
quoted s = codes "\"" ++ (s ++ codes "\"")

-- firstLocalBase.
unfoldable pub first_local_base : List Text → Text
unfolding same
first_local_base locals =
    if any (λ b. same b (codes "main")) locals
    then codes "main"
    else if any (λ b. same b (codes "master")) locals
    then codes "master"
    else []

module _ (g : Repository) where
  abbrev pub switch_outcome : Text → Option Text → Outcome
  switch_outcome branch none = switched_to branch
  switch_outcome branch (some e) = failed e

  unfoldable pub do_switch : Text → Bool → Run
  do_switch branch create =
      (switch branch create ∷ [], switch_outcome branch (g.switched branch create))

  abbrev pub checked_switch : Text → Bool → Option Text → Run
  checked_switch branch create (some e) = no_command (refused e)
  checked_switch branch create none = do_switch branch create

  -- Switch.
  unfoldable pub switch_branch : Text → Text → Bool → Run
  unfolding validate_branch_name do_switch
  switch_branch dir branch create =
      if is_empty dir || is_empty branch
      then no_command (refused (codes "cwd and branch (strings) are required"))
      else if create
      then checked_switch branch create (validate_branch_name branch)
      else do_switch branch create

  abbrev pub mr_outcome : Text × Text → Outcome
  mr_outcome (url, e) = if not (is_empty e) then failed e else mr_created url

  -- CreateMR.
  unfoldable pub create_merge_request : Text → Run
  unfolding same
  create_merge_request dir =
      let target = if is_empty g.default_branch then codes "main" else g.default_branch in
      let source = g.current in
      if is_empty dir
      then no_command (refused (codes "cwd (string) is required"))
      else if is_nil g.remotes
      then no_command
          (failed (codes "no git remote configured — add a remote before creating an MR"))
      else if is_empty source
      then no_command (failed (codes "detached HEAD — switch to a branch before creating an MR"))
      else if same source target
      then no_command (
          failed (
            codes "already on the target branch "
            ++ (quoted target ++ codes " — switch to a feature branch first")))
      else (create_mr source target ∷ [], mr_outcome (g.mr source target))

  -- Behind the switch to the target: the merge, and the way back where it fails.
  abbrev pub merge_outcome : Text → Text → Option Text → Run
  merge_outcome source target none = (merge source ∷ [], merged_into target source)
  merge_outcome source target (some e) =
      (merge source ∷ merge_abort ∷ switch source false ∷ [], failed e)

  abbrev pub behind_switch : Text → Run → Run
  behind_switch target (cs, o) = (switch target false ∷ cs, o)

  abbrev pub merge_on : Text → Text → Option Text → Run
  merge_on source target (some e) = (switch target false ∷ [], failed e)
  merge_on source target none = behind_switch target (merge_outcome source target (g.merged source))

  -- MergeToMain.
  unfoldable pub merge_to_main : Text → Run
  unfolding same first_local_base
  merge_to_main dir =
      let source = g.current in
      let target = first_local_base g.branches in
      if is_empty dir
      then no_command (refused (codes "cwd (string) is required"))
      else if is_empty source
      then no_command (failed (codes "detached HEAD — switch to a feature branch before merging"))
      else if is_empty target
      then no_command (failed (codes "no local main or master branch to merge into"))
      else if same source target
      then no_command (
          failed
            (codes "already on " ++ (quoted target ++ codes " — switch to a feature branch first")))
      else merge_on source target (g.switched target false)

-- SwitchArgs.
abbrev pub switch_args : Text → Text → Bool → List Text
switch_args dir branch create =
    if create
    then codes "-C" ∷ dir ∷ codes "switch" ∷ codes "-c" ∷ branch ∷ []
    else codes "-C" ∷ dir ∷ codes "switch" ∷ codes "--" ∷ branch ∷ []

-- MergeArgs.
abbrev pub merge_args : Text → Text → List Text
merge_args dir source = codes "-C" ∷ dir ∷ codes "merge" ∷ codes "--no-ff" ∷ source ∷ []

-- MrArgs.
abbrev pub mr_args : Text → Text → List Text
mr_args source target =
    codes "mr"
    ∷ codes "create"
    ∷ codes "--fill"
    ∷ codes "--yes"
    ∷ codes "--source-branch"
    ∷ source
    ∷ codes "--target-branch"
    ∷ target
    ∷ []

abbrev pub keep_name : Text → List Text → List Text
keep_name t names = if is_empty t then names else t ∷ names

-- ParseBranchList.
unfoldable pub names_among : List Text → List Text
unfolding trim
names_among [] = []
names_among (l ∷ ls) = keep_name (trim l) (names_among ls)

unfoldable pub parse_branch_list : Text → List Text
unfolding names_among
parse_branch_list out = names_among (lines_of out)
