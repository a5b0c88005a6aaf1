-- ===== src/Workflow/Owners.antt =====
-- The maps of the service of backend/usecase/workflow.go: the lane index, and the workflows that it
-- does not lose.
use Prim.Native.Nat.{ℕ}
use saki_cli.Base.{
  ◌≡◌, refl, sym, subst, ◌∙◌, inl, inr, false, Option, none, some, Bool-cases, Text, same, same_iff,
  lookup, lookup-insert, map_values, lookup-map_values,
}
use saki_cli.Workflow.Answers.{Answers}
use saki_cli.Workflow.Phases.{Flow}
use saki_cli.Workflow.Advance.{flow_of}
use saki_cli.Workflow.Operator.{
  continue_flow, sweep_flow, stop_flow, Continued, readopted_flow, refused_terminal, refused_option,
  continued,
}
use saki_cli.Workflow.Coordinator.{
  is_historical, put_flow, continue_done, continue_found, continue_by_id, stop_found, stop_by_id,
  sweep, Flows,
}
use saki_cli.Workflow.Lasting.{
  Keeps, KeepsOn, continue_flow-KeepsOn, sweep_flow-Keeps, stop_flow-Keeps,
}

-- A workflow that has not failed and was not stopped is the one that the index has for its lane.
abbrev pub Owned : Flows → Type 0
Owned s =
    (id : Text) (f : Flow)
    → lookup id s.flows ≡ some f
    → is_historical f.wf.status ≡ false
    → lookup f.wf.lane_key s.by_lane ≡ some id

pub live_before :
    (f g : Flow) → Keeps f g → is_historical g.wf.status ≡ false → is_historical f.wf.status ≡ false
live_before f g (lane, lasts) live = elim (Bool-cases (is_historical f.wf.status)) [
  | inr before ↦ before
  | inl over ↦ cc (lasts over)
]

-- A workflow is replaced by a later state of its own.
pub put_flow-Owned :
    (id : Text) (f g : Flow) (s : Flows)
    → Owned s
    → lookup id s.flows ≡ some f
    → Keeps f g
    → Owned (put_flow id g s)
put_flow-Owned id f g s owned at keeps j x held live = elim (Bool-cases (same id j)) [
  | inl self ↦
      let is_g : g ≡ x = cc (rw self at (sym (lookup-insert id j g s.flows) ∙ held)) in
      let live_f =
        live_before f g keeps
          (subst (λ (y : Flow). is_historical y.wf.status ≡ false) (sym is_g) live) in
      let lane : x.wf.lane_key ≡ f.wf.lane_key =
        subst (λ (y : Flow). y.wf.lane_key ≡ f.wf.lane_key) is_g keeps.0 in
      subst (λ l. lookup l s.by_lane ≡ some j) (sym lane)
        (subst (λ i. lookup f.wf.lane_key s.by_lane ≡ some i) ((same_iff id j).0 self)
          (owned id f at live_f))
  | inr other ↦ owned j x (rw other at (sym (lookup-insert id j g s.flows) ∙ held)) live
]

module _ (h : Answers) where
  stop_found-Owned :
      (id : Text) (s : Flows) (o : Option Flow)
      → Owned s
      → lookup id s.flows ≡ o
      → Owned (stop_found h id s o).0
  stop_found-Owned id s none owned at = owned
  stop_found-Owned id s (some f) owned at =
      put_flow-Owned id f (stop_flow h f).0 s owned at (stop_flow-Keeps h f)

  pub stop_by_id-Owned : (id : Text) (s : Flows) → Owned s → Owned (stop_by_id h id s).0
  unfolding stop_by_id
  stop_by_id-Owned id s owned = stop_found-Owned id s (lookup id s.flows) owned refl

  continue_done-Owned :
      (id : Text) (s : Flows) (f : Flow) (c : Continued)
      → Owned s
      → lookup id s.flows ≡ some f
      → KeepsOn h f c
      → Owned (continue_done h id s c)
  continue_done-Owned id s f (continued a) owned at keeps =
      put_flow-Owned id f (flow_of a) s owned at keeps
  continue_done-Owned id s f readopted_flow owned at keeps = owned
  continue_done-Owned id s f refused_terminal owned at keeps = owned
  continue_done-Owned id s f refused_option owned at keeps = owned

  continue_found-Owned :
      (id option : Text) (s : Flows) (o : Option Flow)
      → Owned s
      → lookup id s.flows ≡ o
      → Owned (continue_found h id option s o).0
  continue_found-Owned id option s none owned at = owned
  continue_found-Owned id option s (some f) owned at =
      continue_done-Owned id s f (continue_flow h option f) owned at
        (continue_flow-KeepsOn h option f)

  pub continue_by_id-Owned :
      (id option : Text) (s : Flows) → Owned s → Owned (continue_by_id h id option s).0
  unfolding continue_by_id
  continue_by_id-Owned id option s owned =
      continue_found-Owned id option s (lookup id s.flows) owned refl

  -- Each workflow is replaced by a later state of its own.
  pub map_values-Owned :
      (k : Flow → Flow) (s : Flows)
      → ((f : Flow) → Keeps f (k f))
      → Owned s
      → Owned (record s { flows = map_values k s.flows })
  map_values-Owned k s keeps owned id g held live =
      let (f, at, made) = lookup-map_values k id s.flows held in
      let stays = subst (Keeps f) made (keeps f) in
      subst (λ l. lookup l s.by_lane ≡ some id) (sym stays.0)
        (owned id f at (live_before f g stays live))

  pub sweep-Owned : (n : ℕ) (s : Flows) → Owned s → Owned (sweep h n s)
  unfolding sweep
  sweep-Owned n s owned = map_values-Owned (sweep_flow h n) s (sweep_flow-Keeps h n) owned
