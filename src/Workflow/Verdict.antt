-- ===== src/Workflow/Verdict.antt =====
-- Sweep and Continue of backend/usecase/workflow.go, and the evidence of a workflow.
use Prim.Native.Nat.{ℕ}
use saki_cli.Base.{
  ◌≡◌, ap, subst, ◌∙◌, ◌≢◌, ◌⊎◌, inl, inr, Bool, true, false, none, Bool-cases, is_none, Text,
}
use saki_cli.Run.{unset}
use saki_cli.Workflow.{
  Workflow, WorkflowStatus, flow_running, flow_parked, flow_awaiting, flow_done, flow_failed,
  flow_stopped, prd_track,
}
use saki_cli.Workflow.Answers.{Target, Answers, found}
use saki_cli.Workflow.Phases.{persist, Flow}
use saki_cli.Workflow.Advance.{flow_of, Advanced}
use saki_cli.Workflow.Observe.{rounds}
use saki_cli.Workflow.Operator.{
  offers, reopens, reopened, reopen, continue_as, continue_flow, sweep_flow, Continued, continued,
}
use saki_cli.Workflow.Built.{verify-Built, Built}
use saki_cli.Workflow.Honest.{Honest, persist-wf, Backed}
use saki_cli.Workflow.Success.{advance-Honest}
use saki_cli.Workflow.Observing.{observe-Honest}

pub not_done {ℓ} : {A : Type ℓ} {s : WorkflowStatus} → (s ≢ flow_done) ⊎ A → s ≡ flow_done → A
not_done (inl n) d = absurd (n d)
not_done (inr a) d = a

-- A sweep makes a running workflow done only if verify gave evidence, in that sweep and for the
-- target of the workflow, and this evidence is in its record.
pub sweep_flow-Backed :
    (h : Answers) (n : ℕ) (f : Flow)
    → f.wf.status ≡ flow_running
    → (sweep_flow h n f).wf.status ≡ flow_done
    → Backed h (sweep_flow h n f).wf
unfolding sweep_flow
sweep_flow-Backed h n f e = simp e (not_done (observe-Honest h none unset n f e))

-- A workflow of the PRD track that a sweep makes done is built: verify found its target, with the PRD
-- locked, a preview there, and a manifest of that PRD whose slices and steps are all done, with the
-- artifacts and commits that they name there.
pub sweep_flow-Built :
    (h : Answers) (n : ℕ) (f : Flow)
    → f.wf.status ≡ flow_running
    → (sweep_flow h n f).wf.status ≡ flow_done
    → (sweep_flow h n f).wf.track ≡ prd_track
    → (v : Workflow) × (t : Target) × (v.cwd ≡ (sweep_flow h n f).wf.cwd)
      × (v.target ≡ (sweep_flow h n f).wf.target)
      × (h.resolve_target v.cwd v.target ≡ found t)
      × Built h v t.path
sweep_flow-Built h n f e d p =
    let b = sweep_flow-Backed h n f e d in
    let (t, at, built) = verify-Built h b.checked (b.same_track ∙ p) b.is_verified in
    (b.checked, t, b.same_cwd, b.same_target, at, built)

module _ (h : Answers) where
  -- What a continued workflow is.
  abbrev HonestContinued : Continued → Type 0
  HonestContinued (continued a) = Honest h (flow_of a).wf
  HonestContinued _ = Unit

  reopened-Honest :
      (option : Text) (fb : Flow × Bool)
      → fb.0.wf.status ≡ flow_running
      → HonestContinued (reopened h option fb)
  reopened-Honest option (f, false) r = inl (λ d. cc)
  reopened-Honest option (f, true) r = advance-Honest h none unset option rounds f (inl (λ d. cc))

  reopen-Honest : (option : Text) (f : Flow) → HonestContinued (reopen h option f)
  reopen-Honest option f =
      let g = record f { wf = reopens h.now option f.wf } in
      reopened-Honest option (persist h g) (ap (λ (w : Workflow). w.status) (persist-wf h g))

  continue_as-Honest :
      (s : WorkflowStatus) (option : Text) (f : Flow) → HonestContinued (continue_as h s option f)
  continue_as-Honest flow_done option f = tt
  continue_as-Honest flow_running option f = tt
  continue_as-Honest flow_failed option f = tt
  continue_as-Honest flow_stopped option f = tt
  continue_as-Honest flow_parked option f = reopen-Honest option f
  continue_as-Honest flow_awaiting option f = elim (Bool-cases (is_none f.wf.awaiting_decision)) [
    | inl lost ↦ rw lost tt
    | inr there ↦ elim (Bool-cases (offers option f.wf.awaiting_decision)) [
      | inl offered ↦ rw (there, offered) (reopen-Honest option f)
      | inr other ↦ rw (there, other) tt
    ]
  ]

-- Continue makes a workflow done only if verify gave evidence then, for the target of the workflow.
pub continue_flow-Backed :
    (h : Answers) (option : Text) (f : Flow) {a : Advanced}
    → continue_flow h option f ≡ continued a
    → (flow_of a).wf.status ≡ flow_done
    → Backed h (flow_of a).wf
unfolding continue_flow
continue_flow-Backed h option f e =
    not_done (subst (HonestContinued h) e (continue_as-Honest h f.wf.status option f))
