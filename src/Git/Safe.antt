-- ===== src/Git/Safe.antt =====
-- What the commands of backend/usecase/gitwrite.go leave a repository in.
use saki_cli.Base.{
  ◌≡◌, refl, ◌≢◌, ◌⊎◌, inl, inr, Bool, true, false, Option, none, some, List, [], ◌∷◌, Bool-cases,
  Text, codes, same, same_iff, is_empty, any,
}
use saki_cli.Git.{
  Run, first_local_base, merge_on, merge_to_main, Repository, Command, switch, merge, merge_abort,
  create_mr, merged_into,
}

-- A working tree: the branch that HEAD is on, whether a merge is half done, and the branches whose
-- commits were merged into a branch.
pub record Tree : Type 0 where
  pub head : Text
  pub merging : Bool
  pub merges : List (Text × Text)

-- `aborted` is what `git merge --abort` answers, which infra/gitcli.go only logs.
module _ (g : Repository) (aborted : Option Text) where
  -- A switch that git refuses changes nothing; a merge that fails is left half done.
  abbrev pub after_switch : Text → Option Text → Tree → Tree
  after_switch branch none t = record t { head = branch }
  after_switch branch (some e) t = t

  abbrev pub after_merge : Text → Option Text → Tree → Tree
  after_merge source none t = record t { merges = (source, t.head) ∷ t.merges }
  after_merge source (some e) t = record t { merging = true }

  -- An abort that fails leaves the merge half done.
  abbrev pub after_abort : Option Text → Tree → Tree
  after_abort none t = record t { merging = false }
  after_abort (some e) t = t

  abbrev pub perform : Command → Tree → Tree
  perform (switch branch create) t = after_switch branch (g.switched branch create) t
  perform (merge source) t = after_merge source (g.merged source) t
  perform merge_abort t = after_abort aborted t
  perform (create_mr source target) t = t

  abbrev pub perform_all : List Command → Tree → Tree
  perform_all [] t = t
  perform_all (c ∷ cs) t = perform_all cs (perform c t)

  abbrev pub clean_at : Text → Tree
  clean_at b = record { head = b; merging = false; merges = [] }

  -- A merge that was done, of the branch that HEAD was on into another that the repository has; or
  -- the tree as it was.
  abbrev pub MergesOrRestores : Run → Type 0
  MergesOrRestores (cs, merged_into target source) =
      (source ≡ g.current)
      × (source ≢ target)
      × (((target ≡ codes "main") ⊎ (target ≡ codes "master"))
          × (any (λ b. same b target) g.branches ≡ true))
      × (perform_all cs (clean_at g.current)
          ≡ record { head = target; merging = false; merges = (source, target) ∷ [] })
  MergesOrRestores (cs, other) = perform_all cs (clean_at g.current) ≡ clean_at g.current

  first_local_base-IsBase :
      (locals : List Text)
      → is_empty (first_local_base locals) ≡ false
      → (((first_local_base locals ≡ codes "main") ⊎ (first_local_base locals ≡ codes "master"))
          × (any (λ b. same b (first_local_base locals)) locals ≡ true))
  unfolding first_local_base
  first_local_base-IsBase locals h = elim (Bool-cases (any (λ b. same b (codes "main")) locals)) [
    | inl e ↦ rw e (inl refl, e)
    | inr e ↦ elim (Bool-cases (any (λ b. same b (codes "master")) locals)) [
      | inl f ↦ rw (e, f) (inr refl, f)
      | inr f ↦ absurd (false_true (rw (e, f) at h))
    ]
  ]
    where
      false_true : true ≡ false → ⊥
      false_true k = cc

  merge_on-MergesOrRestores :
      (target : Text) (o m : Option Text)
      → g.switched target false ≡ o
      → g.merged g.current ≡ m
      → g.switched g.current false ≡ none
      → aborted ≡ none
      → is_empty target ≡ false
      → g.current ≢ target
      → ((target ≡ codes "main") ⊎ (target ≡ codes "master"))
        × (any (λ b. same b target) g.branches ≡ true)
      → MergesOrRestores (merge_on g g.current target o)
  merge_on-MergesOrRestores target (some e) m s k back undone n d base = rw s refl
  merge_on-MergesOrRestores target none none s k back undone n d base =
      rw k (refl, d, base, rw (s, k) refl)
  merge_on-MergesOrRestores target none (some e) s k back undone n d base =
      rw k (rw (s, k, back, undone) refl)

  -- Where git can abort the merge and switch back to the current branch, MergeToMain on a clean tree
  -- either merges the
  -- current branch into another branch, main or master, that the repository has, and ends there, or
  -- leaves HEAD where it was, with no merge half done and nothing merged.
  pub merge_to_main-MergesOrRestores :
      (dir : Text)
      → g.switched g.current false ≡ none
      → aborted ≡ none
      → MergesOrRestores (merge_to_main g dir)
  unfolding merge_to_main
  merge_to_main-MergesOrRestores dir back undone = elim (Bool-cases (is_empty dir)) [
    | inl a ↦ rw a refl
    | inr a ↦ elim (Bool-cases (is_empty g.current)) [
      | inl b ↦ rw (a, b) refl
      | inr b ↦ elim (Bool-cases (is_empty (first_local_base g.branches))) [
        | inl c ↦ rw (a, b, c) refl
        | inr c ↦ elim (Bool-cases (same g.current (first_local_base g.branches))) [
          | inl e ↦ rw (a, b, c, e) refl
          | inr e ↦
              rw (a, b, c, e)
                (merge_on-MergesOrRestores (first_local_base g.branches)
                  (g.switched (first_local_base g.branches) false) (g.merged g.current) refl refl
                  back undone c
                  (λ q. cc (rw ((same_iff g.current (first_local_base g.branches)).1 q) at e))
                  (first_local_base-IsBase g.branches c))
        ]
      ]
    ]
  ]
