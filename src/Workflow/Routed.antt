-- ===== src/Workflow/Routed.antt =====
-- WorkflowChildAdapter of backend/usecase/workflow.go, and the running builds of a lane.
use saki_cli.Base.{
  ◌≤◌, ◌≡◌, refl, ap, ◌∙◌, inl, inr, Bool, true, false, ◌&&◌, Option, none, some, arith,
  if◌then◌else◌, Bool-cases, is_some, Text, pos,
}
use saki_cli.Run.{is_build, same_kind, kind_of_meta, kind_of, Run, RunEngine, RunKind, build}
use saki_cli.Store.{put, get, is_live}
use saki_cli.Store.Lanes.{live, OneLive, live-delete, live-finalize, live-put}
use saki_cli.World.{take_id, write, World, Host, SpawnResult, started, failed}
use saki_cli.World.Laws.{write-runs}
use saki_cli.Engine.Spawn.{spec_of, spawn_build}
use saki_cli.Service.Spawn.{request_run, spawn_put, run_written, spawn_run, SpawnReq}
use saki_cli.Service.Lifecycle.{stop_run}
use saki_cli.Workflow.{Workflow, Phase}
use saki_cli.Workflow.Answers.{ChildRequest, Answers}
use saki_cli.Workflow.Child.{is_build_phase, kind_of_phase, child_request}
use saki_cli.Workflow.Adapter.{
  as_build_request, as_run_request, spawn_child, stop_owned, stop_child,
}
use saki_cli.Engine.Lanes.{live-set_pid, spawn_build-OneLive}
use saki_cli.Engine.Watching.{stop-live}

-- A phase that is no build phase has a kind of its own.
other_phase : (p : Phase) → is_build_phase p ≡ false → same_kind (kind_of_phase p) build ≡ false
other_phase p e = ground arith

module _ (h : Host) (lane : Text) where
  spawn_put-live :
      (kind : RunKind) (run : Run) (res : SpawnResult) (w : World)
      → live build lane (spawn_put h kind run res w).0.runs ≤ live build lane w.runs
  spawn_put-live kind run (failed x) w = live-delete build lane run.id w.runs
  spawn_put-live kind run (started pid) w =
      rw write-runs (live-set_pid build lane run.id pid w.runs)

  run_written-live :
      (kind : RunKind) (run : Run) (wb : World × Bool)
      → is_live build lane run ≡ false
      → live build lane (run_written h kind run wb).0.runs ≤ live build lane wb.0.runs
  run_written-live kind run (w, false) e = omega arith
  run_written-live kind run (w, true) e =
      let le =
        spawn_put-live kind run (h.spawn (spec_of kind run)) (record w { runs = put run w.runs }) in
      omega (arith, le, live-put build lane run w.runs e)

  -- A run that is not a build.
  spawn_run-live :
      (req : SpawnReq) (w : World)
      → is_live build lane (request_run h req (h.new_id w.ids)) ≡ false
      → live build lane (spawn_run h req w).0.runs ≤ live build lane w.runs
  unfolding spawn_run
  spawn_run-live req w e =
      let run = request_run h req (h.new_id w.ids) in
      let le = run_written-live (kind_of_meta req.meta) run (write h run (take_id w)) e in
      let same_runs = ap (live build lane) (write-runs h run (take_id w)) in
      ground (arith, le, same_runs)

  -- A phase that is no build phase asks for a run that is no build.
  request_run-not_build :
      (p : Phase) (req : ChildRequest) (id : Text)
      → is_build_phase p ≡ false
      → req.kind ≡ kind_of_phase p
      → is_live build lane (request_run h (as_run_request req) id) ≡ false
  unfolding request_run
  request_run-not_build p req id e k =
      let other : same_kind req.kind build ≡ false =
        ap (λ x. same_kind x build) k ∙ other_phase p e in
      ground (arith, other)

  stop_run-live :
      (id : Text) (w : World) → live build lane (stop_run h id w).0.runs ≤ live build lane w.runs
  unfolding stop_run
  stop_run-live id w = ground (arith, live-finalize build lane id (pos 143) w.runs)

  stop_owned-live :
      (id : Text) (o : Option Run) (w : World)
      → live build lane (stop_owned h id o w).0.runs ≤ live build lane w.runs
  stop_owned-live id none w = stop_run-live id w
  stop_owned-live id (some run) w = elim (Bool-cases (is_some run.meta && is_build (kind_of run))) [
    | inl a_build ↦ rw a_build (stop-live h lane id w)
    | inr other ↦ rw other (stop_run-live id w)
  ]

-- A build phase goes to the engine of the builds, another phase to the service of plain runs.
routed-OneLive :
    (h : Host) (p : Phase) (req : ChildRequest) (w : World)
    → OneLive build w.runs
    → (b : Bool) → is_build_phase p ≡ b
    → req.kind ≡ kind_of_phase p
    → OneLive build
        (if b
          then spawn_build h (as_build_request req) w
          else spawn_run h (as_run_request req) w).0.runs
routed-OneLive h p req w one true e k lane full =
    spawn_build-OneLive h (as_build_request req) w one lane full
routed-OneLive h p req w one false e k lane full = omega (
  arith,
  spawn_run-live h lane (as_run_request req) w
      (request_run-not_build h lane p req (h.new_id w.ids) e k),
  one lane full,
)

module _ (h : Host) (a : Answers) (config : Option Text) (engine : RunEngine)
    (continuation : Text) where
  spawn_child-OneLive :
      (wf : Workflow) (w : World)
      → OneLive build w.runs
      → OneLive build (spawn_child h (child_request a config engine continuation wf) w).0.runs
  unfolding spawn_child child_request
  spawn_child-OneLive wf w one =
      routed-OneLive h wf.phase (child_request a config engine continuation wf) w one
        (is_build_phase wf.phase) refl (unfold child_request in refl)

  stop_child-OneLive :
      (id : Text) (w : World) → OneLive build w.runs → OneLive build (stop_child h id w).0.runs
  unfolding stop_child
  stop_child-OneLive id w one lane e =
      omega (arith, stop_owned-live h lane id (get id w.runs) w, one lane e)

  -- The child that a phase of a workflow asks for, and a child that is stopped with its workflow,
  -- leave each lane with one running build at most.
  pub child-OneLive :
      (wf : Workflow) (id : Text) (w : World)
      → OneLive build w.runs
      → OneLive build (spawn_child h (child_request a config engine continuation wf) w).0.runs
        × OneLive build (stop_child h id w).0.runs
  child-OneLive wf id w one = (spawn_child-OneLive wf w one, stop_child-OneLive id w one)
