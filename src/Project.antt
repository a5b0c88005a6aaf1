-- ===== src/Project.antt =====
-- backend/domain/newproject.go and backend/usecase/newproject.go: a new project from a template.

use saki_cli.Base.{
  ℕ, Bool, not, ◌||◌, Option, none, some, List, [], ◌∷◌, ◌++◌, ltb, ◌==◌, if◌then◌else◌, Text,
  codes, same, is_empty, has_prefix, trim, drop,
}
use saki_cli.Regexp.{find, is_match, Re, one, star, text_start, text_end}
use saki_cli.Regexp.Syntax.{is_digit, is_letter, ◌⋅◌}
use saki_cli.Paths.{is_abs, join, dir, base}
use saki_cli.Planning.Writes.{byte_length}

pub data TemplateKind : Type 0 where
  template_empty template_vite_react_ts template_nextjs : TemplateKind

-- IsTemplateKind, with the template.
unfoldable pub template_kind : Text → Option TemplateKind
unfolding same
template_kind x =
    if same x (codes "empty")
    then some template_empty
    else if same x (codes "vite-react-ts")
    then some template_vite_react_ts
    else if same x (codes "nextjs")
    then some template_nextjs
    else none

-- ProjectError: INVALID, EXISTS or no code.
pub data ProjectError : Type 0 where
  invalid exists other : Text → ProjectError

pub data Checked {ℓ} (A : Type ℓ) : Type ℓ where
  fine : A → Checked A
  bad : ProjectError → Checked A

infixl 5 ◌>>=◌
abbrev pub ◌>>=◌ {ℓ κ} : {A : Type ℓ} {B : Type κ} → Checked A → (A → Checked B) → Checked B
fine a >>= f = f a
bad e >>= f = bad e

-- `[A-Za-z0-9]` and `[A-Za-z0-9._-]`.
abbrev pub starts_name : ℕ → Bool
starts_name c = is_letter c || is_digit c

abbrev pub in_name : ℕ → Bool
in_name c = starts_name c || c == b'.' || c == b'_' || c == b'-'

abbrev pub name_re : Re
name_re = text_start ⋅ one starts_name ⋅ star (one in_name) ⋅ text_end

-- ValidateName.
unfoldable pub validate_name : Text → Checked Text
unfolding trim find byte_length
validate_name name =
    let t = trim name in
    if is_empty t
    then bad (invalid (codes "project name is required"))
    else if ltb 64 (byte_length t)
    then bad (invalid (codes "project name must be 64 characters or fewer"))
    else if not (is_match name_re t)
    then bad (
        invalid
          (codes "invalid project name — use letters, digits, dot, dash, underscore (no slashes)"))
    else fine t

-- ExpandBase.
unfoldable pub expand_base : Text → Text → Checked Text
unfolding trim same has_prefix join is_abs
expand_base b home =
    let t = trim b in
    let expanded =
      if same t (codes "~")
      then home
      else if has_prefix (codes "~/") t
      then join (home ∷ drop 2 t ∷ [])
      else t in
    if is_empty t
    then bad (invalid (codes "base directory is required"))
    else if not (is_abs expanded)
    then bad (invalid (codes "base directory must be an absolute path"))
    else fine expanded

abbrev pub target_in : Text → Text → Checked Text
target_in b name =
    let path = join (b ∷ name ∷ []) in
    if not (same (dir path) b) || not (same (base path) name)
    then bad (invalid (codes "invalid project path"))
    else fine path

-- ResolveTarget.
unfoldable pub resolve_target : Text → Text → Text → Checked Text
unfolding validate_name expand_base join dir base same
resolve_target b name home = do nm ← validate_name name; bs ← expand_base b home; target_in bs nm

-- What the file system answers: `none` is success, `some` the message of an error.
pub record ProjectDisk : Type 0 where
  pub exists : Text → Bool
  pub mkdir_all : Text → Option Text
  pub copy_template : TemplateKind → Text → Option Text
  pub stamp_package_name : Text → Text → Option Text
  pub git_init_commit : Text → TemplateKind → Option Text

pub data ProjectCommand : Type 0 where
  made copied stamped committed removed : Text → ProjectCommand

-- The commands in order, with the result.
abbrev pub Made : Type 0
Made = List ProjectCommand × Checked Text

abbrev pub behind_command :
    ProjectCommand → List ProjectCommand × Option Text → List ProjectCommand × Option Text
behind_command c (cs, r) = (c ∷ cs, r)

abbrev pub then_do :
    Option Text → List ProjectCommand × Option Text → List ProjectCommand × Option Text
then_do (some e) next = ([], some e)
then_do none next = next

module _ (p : ProjectDisk) where
  -- scaffold.
  unfoldable pub scaffold : Text → Text → TemplateKind → List ProjectCommand × Option Text
  scaffold target name kind = behind_command (copied target) (
      then_do (p.copy_template kind target) (
        behind_command (stamped target) (
          then_do (p.stamp_package_name target name)
            (committed target ∷ [], p.git_init_commit target kind))))

  abbrev pub rolled_back : Text → List ProjectCommand × Option Text → Made
  rolled_back target (cs, none) = (made target ∷ cs, fine target)
  rolled_back target (cs, some e) = ((made target ∷ cs) ++ removed target ∷ [], bad (other e))

  abbrev pub create_made : Text → Text → TemplateKind → Option Text → Made
  create_made target name kind (some e) = (made target ∷ [], bad (other e))
  create_made target name kind none = rolled_back target (scaffold target name kind)

  abbrev pub create_at : Text → TemplateKind → Checked Text → Made
  create_at name kind (bad e) = ([], bad e)
  create_at name kind (fine target) =
      if p.exists target
      then ([], bad (exists (codes "directory already exists: " ++ target)))
      else create_made target name kind (p.mkdir_all target)

  -- Create.
  unfoldable pub create_project : Text → Text → Text → TemplateKind → Made
  unfolding resolve_target scaffold
  create_project home b name kind = create_at name kind (resolve_target b name home)
