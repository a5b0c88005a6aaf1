-- ===== src/Planning/Preview.antt =====
-- findProtoPreview of backend/usecase/prd.go: the preview of a PRD's prototype on disk.
use saki_cli.Base.{
  ◌+◌, Bool, false, not, ◌||◌, Option, none, some, List, [], ◌∷◌, ◌++◌, map, reverse, ◌==◌,
  if◌then◌else◌, Text, codes, same, is_empty, has_prefix, contains, to_lower, drop_while, length,
  drop,
}
use saki_cli.Regexp.{find, group_of, Found, Re, group, text_start, text_end}
use saki_cli.Regexp.Syntax.{lit_fold, dot, plus, ◌⋅◌}
use saki_cli.Paths.{clean, join, dir, base}
use saki_cli.Planning.Disk.{Disk}

-- protoFileSlugRe.
abbrev pub proto_file_slug_re : Re
proto_file_slug_re =
    text_start ⋅ lit_fold (codes "prd-") ⋅ group 1 (plus dot) ⋅ lit_fold (codes ".md") ⋅ text_end

module _ (d : Disk) (cwd prd_path : Text) where
  -- strings.TrimRight(cwd, "/"), cleaned.
  unfoldable pub root_of : Text
  unfolding clean drop_while
  root_of = clean (reverse (drop_while (◌==◌ 47) (reverse cwd)))

  unfoldable pub to_rel : Text → Text
  unfolding has_prefix root_of
  to_rel path =
      if has_prefix (root_of ++ codes "/") path then drop (length root_of + 1) path else []

  -- probeProtoSlug.
  unfoldable pub probe_proto_slug : List Text → Text → Option Text
  unfolding join to_rel
  probe_proto_slug [] slug = none
  probe_proto_slug (t ∷ ts) slug =
      let path = join (t ∷ (codes "proto-" ++ slug) ∷ codes "preview.html" ∷ []) in
      let rest = probe_proto_slug ts slug in if d.exists path then some (to_rel path) else rest

  abbrev pub names_prd : Text → Option Text → Bool
  names_prd rel none = false
  names_prd rel (some index) = contains rel index

  -- The inner loop of probeProtoIndex, and the rest of the outer one.
  unfoldable pub probe_names : Text → Text → List Text → Text → Text
  unfolding join has_prefix contains to_rel
  probe_names t rel [] other = other
  probe_names t rel (n ∷ ns) other =
      let rest = probe_names t rel ns other in
      let path = join (t ∷ n ∷ codes "preview.html" ∷ []) in
      if not (has_prefix (codes "proto-") n)
      then rest
      else if not (names_prd rel (d.read (join (t ∷ n ∷ codes "index.md" ∷ []))))
      then rest
      else if d.exists path
      then to_rel path
      else rest

  -- probeProtoIndex.
  unfoldable pub probe_proto_index : List Text → Text → Text
  unfolding probe_names
  probe_proto_index [] rel = []
  probe_proto_index (t ∷ ts) rel = probe_names t rel (d.list_dir t) (probe_proto_index ts rel)

  unfoldable pub tasks_dirs : List Text
  unfolding join root_of
  tasks_dirs =
      join (root_of ∷ codes "tasks" ∷ [])
      ∷ map (λ name. join (root_of ∷ name ∷ codes "tasks" ∷ [])) (d.list_dir root_of)

  abbrev pub by_index : Text → Text
  by_index rel = if is_empty rel then [] else probe_proto_index tasks_dirs rel

  abbrev pub by_slug : Option Text → Text
  by_slug (some rel) = rel
  by_slug none = by_index (to_rel prd_path)

  abbrev pub beside : Text → Text
  beside slug =
      let path = join (dir prd_path ∷ (codes "proto-" ++ slug) ∷ codes "preview.html" ∷ []) in
      if not (d.exists path) then [] else to_rel path

  abbrev pub in_folder : Text → Text
  in_folder slug =
      if is_empty slug || same slug (codes ".")
      then []
      else by_slug (probe_proto_slug tasks_dirs slug)

  abbrev pub by_name : Option Found → Text
  by_name (some m) = beside (group_of 1 m)
  by_name none =
      if not (same (to_lower (base prd_path)) (codes "prd.md"))
      then []
      else in_folder (base (dir prd_path))

  -- findProtoPreview.
  unfoldable pub find_proto_preview : Text
  unfolding find base dir join to_lower same to_rel tasks_dirs probe_proto_slug probe_proto_index
  find_proto_preview =
      if is_empty cwd then [] else by_name (find proto_file_slug_re (base prd_path))
