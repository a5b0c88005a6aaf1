-- ===== src/Workflow/Claims.antt =====
-- Start of backend/usecase/workflow.go, and the lane index of the service.
use saki_cli.Base.{
  ◌≡◌, refl, sym, ap, subst, ◌∙◌, inl, inr, Bool, true, false, not, ◌&&◌, ◌||◌, Option, none, some,
  [], ◌++◌, Bool-cases, Text, codes, same, same_iff, same_refl, is_empty, trim, lookup, insert,
  lookup-insert, lookup-remove,
}
use saki_cli.Workflow.{Workflow}
use saki_cli.Paths.{clean}
use saki_cli.Workflow.Answers.{Target, Answers, Resolved, found, unresolved}
use saki_cli.Workflow.Phases.{persist, Flow}
use saki_cli.Workflow.Advance.{flow_of, advance, Advanced, settled, unsaved, out_of_rounds}
use saki_cli.Workflow.Coordinator.{
  is_historical, with_id, flow_at, put_flow, registered, unregistered, fresh, start_advanced,
  start_saved, start_fresh, start_by_lane, start_in_lane, start_by_key, start_resolved, start,
  Flows, StartRequest,
}
use saki_cli.Workflow.Lanes.{advance-OnLane}
use saki_cli.Workflow.Lasting.{Keeps, live-Keeps, refresh_terminal-Keeps}
use saki_cli.Workflow.Owners.{Owned, put_flow-Owned}
use saki_cli.Workflow.Observe.{on_lane, rounds}
use saki_cli.Workflow.Honest.{persist-wf}
use saki_cli.Workflow.Operator.{refresh_terminal}

-- No workflow of the lane is live.
abbrev FreeLane : Text → Flows → Type 0
FreeLane lane s =
    (id : Text) (f : Flow)
    → lookup id s.flows ≡ some f
    → f.wf.lane_key ≡ lane
    → is_historical f.wf.status ≡ true

-- A live workflow of the maps is not on a free lane.
other_lane :
    (lane : Text) (s : Flows) (j : Text) (x : Flow)
    → FreeLane lane s
    → lookup j s.flows ≡ some x
    → is_historical x.wf.status ≡ false
    → same lane x.wf.lane_key ≡ false
other_lane lane s j x free at live = elim (Bool-cases (same lane x.wf.lane_key)) [
  | inr differs ↦ differs
  | inl agrees ↦ cc (free j x at (sym ((same_iff lane x.wf.lane_key).0 agrees)))
]

pub registered-Owned :
    (id : Text) (f : Flow) (s : Flows)
    → Owned s
    → FreeLane f.wf.lane_key s
    → Owned (registered id f s)
unfolding registered
registered-Owned id f s owned free j x held live = elim (Bool-cases (same id j)) [
  | inl self ↦
      let is_f : f ≡ x = cc (rw self at (sym (lookup-insert id j f s.flows) ∙ held)) in
      subst (λ (y : Flow). lookup y.wf.lane_key (insert f.wf.lane_key id s.by_lane) ≡ some j) is_f
        (lookup-insert f.wf.lane_key f.wf.lane_key id s.by_lane
          ∙ rw (same_refl f.wf.lane_key) (ap some ((same_iff id j).0 self)))
  | inr other ↦
      let at : lookup j s.flows ≡ some x =
        rw other at (sym (lookup-insert id j f s.flows) ∙ held) in
      lookup-insert f.wf.lane_key x.wf.lane_key id s.by_lane
      ∙ rw (other_lane f.wf.lane_key s j x free at live) (owned j x at live)
]

unregistered-Owned :
    (id : Text) (f : Flow) (s : Flows)
    → Owned s
    → FreeLane f.wf.lane_key s
    → Owned (unregistered id f.wf.lane_key (registered id f s))
unfolding registered unregistered
unregistered-Owned id f s owned free j x held live = elim (Bool-cases (same id j)) [
  | inl self ↦ cc (rw self at (sym (lookup-remove id j (insert id f s.flows)) ∙ held))
  | inr other ↦
      let step : lookup j (insert id f s.flows) ≡ some x =
        rw other at (sym (lookup-remove id j (insert id f s.flows)) ∙ held) in
      let at : lookup j s.flows ≡ some x =
        rw other at (sym (lookup-insert id j f s.flows) ∙ step) in
      let off = other_lane f.wf.lane_key s j x free at live in
      lookup-remove f.wf.lane_key x.wf.lane_key (insert f.wf.lane_key id s.by_lane)
      ∙ rw off (lookup-insert f.wf.lane_key x.wf.lane_key id s.by_lane ∙ rw off (owned j x at live))
]

registered_at : (id : Text) (f : Flow) (s : Flows) → lookup id (registered id f s).flows ≡ some f
unfolding registered
registered_at id f s = lookup-insert id id f s.flows ∙ rw (same_refl id) refl

module _ (h : Answers) where
  start_advanced-Owned :
      (id : Text) (f : Flow) (s : Flows) (a : Advanced)
      → Owned s
      → lookup id s.flows ≡ some f
      → Keeps f (flow_of a)
      → Owned (start_advanced h id s a).0
  start_advanced-Owned id f s (settled g) owned at keeps = put_flow-Owned id f g s owned at keeps
  start_advanced-Owned id f s (unsaved g) owned at keeps = put_flow-Owned id f g s owned at keeps
  start_advanced-Owned id f s (out_of_rounds g) owned at keeps =
      put_flow-Owned id f g s owned at keeps

  start_saved-Owned :
      (id : Text) (req : StartRequest) (f : Flow) (s : Flows) (gb : Flow × Bool)
      → gb.0.wf ≡ f.wf
      → is_historical f.wf.status ≡ false
      → Owned s
      → FreeLane f.wf.lane_key s
      → Owned (start_saved h id req (registered id f s) gb).0
  start_saved-Owned id req f s (g, false) e live owned free =
      subst (λ l. Owned (unregistered id l (registered id f s)))
        (sym (ap (λ (w : Workflow). w.lane_key) e)) (unregistered-Owned id f s owned free)
  start_saved-Owned id req f s (g, true) e live owned free =
      start_advanced-Owned id f (registered id f s)
        (advance h rounds req.config_dir req.engine [] g) (registered-Owned id f s owned free)
        (registered_at id f s)
        (live-Keeps f (flow_of (advance h rounds req.config_dir req.engine [] g)) live (
          advance-OnLane h f.wf.lane_key req.config_dir req.engine [] rounds g
            (ap (λ (w : Workflow). w.lane_key) e)))

  start_fresh-Owned :
      (id lane : Text) (t : Target) (req : StartRequest) (s : Flows)
      → Owned s
      → FreeLane lane s
      → Owned (start_fresh h id lane t req s).0
  unfolding start_fresh fresh
  start_fresh-Owned id lane t req s owned free =
      let f : Flow = record { wf = fresh h id lane t req; saved = none; children = [] } in
      start_saved-Owned id req f s (persist h f) (persist-wf h f) refl owned free

  -- A lane is free where its entry in the index names no live workflow.
  pub named-FreeLane :
      (lane : Text) (s : Flows) (o : Option Text)
      → Owned s
      → lookup lane s.by_lane ≡ o
      → ((j : Text) (x : Flow)
          → o ≡ some j
          → lookup j s.flows ≡ some x
          → is_historical x.wf.status ≡ true)
      → FreeLane lane s
  named-FreeLane lane s o owned e dead j x at on_lane =
      elim (Bool-cases (is_historical x.wf.status)) [
        | inl over ↦ over
        | inr live ↦
            let named = subst (λ l. lookup l s.by_lane ≡ some j) on_lane (owned j x at live) in
            dead j x (sym e ∙ named) at
      ]

  -- The only workflow that the entry names has failed or was stopped.
  after_put :
      (old : Text) (g : Flow) (s : Flows) (j : Text) (x : Flow)
      → is_historical g.wf.status ≡ true
      → some old ≡ some j
      → lookup j (put_flow old g s).flows ≡ some x
      → is_historical x.wf.status ≡ true
  after_put old g s j x over e at =
      let is_j : old ≡ j = cc in
      let here : lookup j (insert old g s.flows) ≡ some g =
        lookup-insert old j g s.flows ∙ rw ((same_iff old j).1 is_j) refl in
      let is_g : g ≡ x = cc (sym here ∙ at) in
      subst (λ (y : Flow). is_historical y.wf.status ≡ true) is_g over

  by_flow-Owned :
      (id lane : Text) (t : Target) (req : StartRequest) (s : Flows) (old : Text) (o : Option Flow)
      → Owned s
      → lookup lane s.by_lane ≡ some old
      → lookup old s.flows ≡ o
      → Owned (start_by_lane h id lane t req s (with_id old o)).0
  by_flow-Owned id lane t req s old none owned e at =
      start_fresh-Owned id lane t req s owned
        (named-FreeLane lane s (some old) owned e (λ j x is there. cc))
  by_flow-Owned id lane t req s old (some f) owned e at =
      let g = refresh_terminal h f in
      let kept = put_flow-Owned old f g s owned at (refresh_terminal-Keeps h f) in
      elim (Bool-cases (is_historical g.wf.status)) [
        | inr live ↦ rw live kept
        | inl over ↦ rw over (
            start_fresh-Owned id lane t req (put_flow old g s) kept (
              named-FreeLane lane (put_flow old g s) (some old) kept e
                (λ j x is there. after_put old g s j x over is there)))
      ]

  start_in_lane-Owned :
      (id lane : Text) (t : Target) (req : StartRequest) (s : Flows)
      → Owned s
      → Owned (start_in_lane h id lane t req s).0
  unfolding start_in_lane
  start_in_lane-Owned id lane t req s owned = by_entry (lookup lane s.by_lane) refl
    where
      by_entry :
          (o : Option Text)
          → lookup lane s.by_lane ≡ o
          → Owned (start_by_lane h id lane t req s (flow_at s o)).0
      by_entry none e =
          start_fresh-Owned id lane t req s owned
            (named-FreeLane lane s none owned e (λ j x is there. cc))
      by_entry (some old) e = by_flow-Owned id lane t req s old (lookup old s.flows) owned e refl

  by_key_flow-Owned :
      (id lane : Text) (t : Target) (req : StartRequest) (s : Flows) (old : Text) (o : Option Flow)
      → Owned s
      → lookup old s.flows ≡ o
      → Owned (start_by_key h id lane t req s (with_id old o)).0
  by_key_flow-Owned id lane t req s old none owned at = start_in_lane-Owned id lane t req s owned
  by_key_flow-Owned id lane t req s old (some f) owned at =
      elim (Bool-cases (same f.wf.lane_key lane && not (is_historical f.wf.status))) [
        | inl ours ↦
            rw ours
              (put_flow-Owned old f (refresh_terminal h f) s owned at (refresh_terminal-Keeps h f))
        | inr others ↦ rw others (start_in_lane-Owned id lane t req s owned)
      ]

  by_key-Owned :
      (id lane : Text) (t : Target) (req : StartRequest) (s : Flows) (o : Option Text)
      → Owned s
      → Owned (start_by_key h id lane t req s (flow_at s o)).0
  by_key-Owned id lane t req s none owned = start_in_lane-Owned id lane t req s owned
  by_key-Owned id lane t req s (some old) owned =
      by_key_flow-Owned id lane t req s old (lookup old s.flows) owned refl

  start_resolved-Owned :
      (id : Text) (req : StartRequest) (s : Flows) (r : Resolved)
      → Owned s
      → Owned (start_resolved h id req s r).0
  start_resolved-Owned id req s (unresolved why) owned = owned
  start_resolved-Owned id req s (found t) owned =
      let lane = clean t.cwd ++ (codes "::" ++ t.identity) in
      elim (Bool-cases (is_empty req.idempotency_key)) [
        | inl keyless ↦ rw keyless (start_in_lane-Owned id lane t req s owned)
        | inr keyed ↦
            rw keyed (by_key-Owned id lane t req s (lookup req.idempotency_key s.by_idem) owned)
      ]

  pub start-Owned :
      (id : Text) (req : StartRequest) (s : Flows) → Owned s → Owned (start h id req s).0
  unfolding start
  start-Owned id req s owned =
      elim (Bool-cases (is_empty (trim req.cwd) || is_empty (trim req.target))) [
        | inl missing ↦ rw missing owned
        | inr full ↦
            rw full (start_resolved-Owned id req s (h.resolve_target req.cwd req.target) owned)
      ]
