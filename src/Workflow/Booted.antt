-- ===== src/Workflow/Booted.antt =====
-- Rehydrate of backend/usecase/workflow.go, and the lane index of the service.
use saki_cli.Base.{
  ℕ, ◌≡◌, refl, sym, ap, subst, ◌∙◌, inl, inr, true, not, ◌&&◌, Option, none, some, List, [], ◌∷◌,
  if◌then◌else◌, Bool-cases, Text, same, lookup, lookup-insert, map_values,
}
use saki_cli.Workflow.{Workflow}
use saki_cli.Workflow.Answers.{Answers}
use saki_cli.Workflow.Phases.{Flow}
use saki_cli.Workflow.Honest.{persist-wf}
use saki_cli.Workflow.Operator.{refresh_terminal}
use saki_cli.Workflow.Coordinator.{is_historical, put_flow, Flows}
use saki_cli.Workflow.Lasting.{refresh_terminal-Keeps}
use saki_cli.Workflow.Owners.{Owned, map_values-Owned, sweep-Owned}
use saki_cli.Workflow.Rehydrate.{
  is_done_status, valid_workflow, known, loaded, refuse_lane, refuse_both, meet, place_at, take_in,
  load_all, rehydrate, Stored,
}
use saki_cli.Workflow.Claims.{registered-Owned, named-FreeLane}

-- A workflow that failed or was stopped needs no lane.
put_over-Owned :
    (id : Text) (g : Flow) (s : Flows)
    → Owned s
    → is_historical g.wf.status ≡ true
    → Owned (put_flow id g s)
put_over-Owned id g s owned over j x held live = elim (Bool-cases (same id j)) [
  | inl self ↦
      let is_g : g ≡ x = cc (rw self at (sym (lookup-insert id j g s.flows) ∙ held)) in
      cc (subst (λ (y : Flow). is_historical y.wf.status ≡ true) is_g over)
  | inr other ↦ owned j x (rw other at (sym (lookup-insert id j g s.flows) ∙ held)) live
]

pub empty-Owned : Owned (record { flows = []; by_lane = []; by_idem = [] })
unfolding lookup
empty-Owned id f held live = cc

module _ (h : Answers) where
  refused_over : (f : Flow) → is_historical (refuse_lane h f).wf.status ≡ true
  unfolding refuse_lane
  refused_over f = ap (λ (w : Workflow). is_historical w.status) (persist-wf h _)

  refuse_both-Owned :
      (old : Text) (p f : Flow) (s : Flows) → Owned s → Owned (refuse_both h old p f s)
  unfolding refuse_both
  refuse_both-Owned old p f s owned =
      let first =
        if is_done_status p.wf.status && not (is_done_status f.wf.status)
        then refuse_lane h p
        else p in
      put_over-Owned f.wf.id (refuse_lane h f) (put_flow old (refuse_lane h first) s)
        (put_over-Owned old (refuse_lane h first) s owned (refused_over first)) (refused_over f)

  known-Owned :
      (f : Flow) (s : Flows)
      → Owned s
      → is_historical f.wf.status ≡ true
      → Owned (known f.wf.id f s)
  unfolding known
  known-Owned f s owned over = put_over-Owned f.wf.id f s owned over

  -- What stands at the key of a name.
  one_entry :
      (old : Text) (p : Flow) (s : Flows) (j : Text) (x : Flow)
      → lookup old s.flows ≡ some p
      → is_historical p.wf.status ≡ true
      → some old ≡ some j
      → lookup j s.flows ≡ some x
      → is_historical x.wf.status ≡ true
  one_entry old p s j x at over e there =
      let is_j : old ≡ j = cc in
      let is_p : p ≡ x = cc in subst (λ (y : Flow). is_historical y.wf.status ≡ true) is_p over

  meet-Owned :
      (old : Text) (f : Flow) (o : Option Flow) (s : Flows)
      → Owned s
      → lookup f.wf.lane_key s.by_lane ≡ some old
      → lookup old s.flows ≡ o
      → Owned (meet h old f o s)
  meet-Owned old f none s owned e at =
      put_over-Owned f.wf.id (refuse_lane h f) s owned (refused_over f)
  meet-Owned old f (some p) s owned e at = elim (Bool-cases (is_historical p.wf.status)) [
    | inl past ↦ elim (Bool-cases (is_historical f.wf.status)) [
      | inl over ↦
          rw (past, over)
            (elim (Bool-cases (is_done_status p.wf.status)) [
              | inl success ↦ rw success (known-Owned f s owned over)
              | inr other ↦ rw other (refuse_both-Owned old p f s owned)
            ])
      | inr live ↦
          rw (past, live)
            (registered-Owned f.wf.id f s owned (
              named-FreeLane h f.wf.lane_key s (some old) owned e
                (λ j x is there. one_entry old p s j x at past is there)))
    ]
    | inr present ↦ elim (Bool-cases (is_historical f.wf.status)) [
      | inl over ↦ rw (present, over) (known-Owned f s owned over)
      | inr live ↦
          rw (present, live)
            (elim (Bool-cases (is_done_status p.wf.status)) [
              | inl success ↦ rw success (refuse_both-Owned old p f s owned)
              | inr other ↦ rw other (refuse_both-Owned old p f s owned)
            ])
    ]
  ]

  place_at-Owned :
      (f : Flow) (s : Flows) (o : Option Text)
      → Owned s
      → lookup f.wf.lane_key s.by_lane ≡ o
      → Owned (place_at h o f s)
  place_at-Owned f s none owned e =
      registered-Owned f.wf.id f s owned
        (named-FreeLane h f.wf.lane_key s none owned e (λ j x is there. cc))
  place_at-Owned f s (some old) owned e = meet-Owned old f (lookup old s.flows) s owned e refl

  take_in-Owned : (o : Option Workflow) (s : Flows) → Owned s → Owned (take_in h o s)
  take_in-Owned none s owned = owned
  take_in-Owned (some w) s owned =
      place_at-Owned (loaded w) s (lookup w.lane_key s.by_lane) owned refl

  load_all-Owned : (wd : Text) (rs : List Stored) (s : Flows) → Owned s → Owned (load_all h wd rs s)
  unfolding load_all
  load_all-Owned wd [] s owned = owned
  load_all-Owned wd (r ∷ rs) s owned =
      load_all-Owned wd rs _ (take_in-Owned (valid_workflow wd r) s owned)

  pub rehydrate-Owned :
      (n : ℕ) (wd : Text) (o : Option (List Stored)) (s : Flows)
      → Owned s
      → Owned (rehydrate h n wd o s)
  unfolding rehydrate
  rehydrate-Owned n wd none s owned = owned
  rehydrate-Owned n wd (some rs) s owned =
      let t = load_all h wd rs (record { flows = []; by_lane = []; by_idem = [] }) in
      let u : Flows = record t { flows = map_values (refresh_terminal h) t.flows } in
      let all_in =
        load_all-Owned wd rs (record { flows = []; by_lane = []; by_idem = [] }) empty-Owned in
      sweep-Owned h n u
        (map_values-Owned h (refresh_terminal h) t (refresh_terminal-Keeps h) all_in)
