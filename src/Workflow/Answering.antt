-- ===== src/Workflow/Answering.antt =====
-- Continue of backend/usecase/workflow.go on a workflow that waits for an answer.
use saki_cli.Base.{
  ◌≡◌, refl, sym, ap, subst, ◌∙◌, ◌⊎◌, inl, inr, Bool, true, false, Option, none, some, [], ◌∷◌,
  Bool-cases, is_none, Text, same, any, lookup,
}
use saki_cli.Workflow.{Workflow, flow_running, flow_awaiting, mark_continued}
use saki_cli.Workflow.Answers.{Answers}
use saki_cli.Workflow.Phases.{persist, Flow}
use saki_cli.Workflow.Advance.{flow_of, advance, Advanced, unsaved}
use saki_cli.Workflow.Operator.{
  offers, reopens, reopened, continue_as, continue_flow, Continued, refused_option, continued,
}
use saki_cli.Run.{unset}
use saki_cli.Workflow.Observe.{rounds}
use saki_cli.Workflow.Honest.{persist-wf}
use saki_cli.Workflow.Coordinator.{put_flow, continue_done, continue_found, continue_by_id, Flows}
use saki_cli.Outcome.Decision.{AwaitingDecision}

module _ (h : Answers) (id option : Text) (s : Flows) where
  -- The workflow goes on: it runs again in its phase with the question gone and the option recorded,
  -- and advances from there once this is saved; the coordinator has its new state.
  pub record GoesOn (f : Flow) (answer : Flows × Option Continued) : Type 0 where
    pub again : Flow
    pub after : Advanced
    pub runs_again : again.wf.status ≡ flow_running
    pub no_question : again.wf.awaiting_decision ≡ none
    pub recorded :
        again.wf.history
        ≡ record {
          phase = f.wf.phase;
          mark = mark_continued;
          child = [];
          reason = option;
          at = h.now;
        }
          ∷ f.wf.history
    pub advances : (after ≡ unsaved again) ⊎ (after ≡ advance h rounds none unset option again)
    pub kept : answer ≡ (put_flow id (flow_of after) s, some (continued after))

  reopened-GoesOn :
      (f : Flow) (fb : Flow × Bool)
      → f.wf.status ≡ flow_awaiting
      → fb.0.wf ≡ reopens h.now option f.wf
      → GoesOn f (continue_done h id s (reopened h option fb), some (reopened h option fb))
  reopened-GoesOn f (g, false) waits e = record {
    again = g;
    after = unsaved g;
    runs_again = ap (λ (w : Workflow). w.status) e;
    no_question = ap (λ (w : Workflow). w.awaiting_decision) e ∙ rw waits refl;
    recorded = ap (λ (w : Workflow). w.history) e;
    advances = inl refl;
    kept = refl;
  }
  reopened-GoesOn f (g, true) waits e = record {
    again = g;
    after = advance h rounds none unset option g;
    runs_again = ap (λ (w : Workflow). w.status) e;
    no_question = ap (λ (w : Workflow). w.awaiting_decision) e ∙ rw waits refl;
    recorded = ap (λ (w : Workflow). w.history) e;
    advances = inr refl;
    kept = refl;
  }

  -- What Continue makes of a workflow that waits.
  continued_as :
      (f : Flow)
      → lookup id s.flows ≡ some f
      → f.wf.status ≡ flow_awaiting
      → continue_by_id h id option s ≡ (
        continue_done h id s (continue_as h flow_awaiting option f),
        some (continue_as h flow_awaiting option f),
      )
  unfolding continue_by_id continue_flow
  continued_as f at waits =
      ap (continue_found h id option s) at
      ∙ ap (λ t. (continue_done h id s (continue_as h t option f), some (continue_as h t option f)))
          waits

  -- A workflow that waits for an answer: with an option that was recorded with its question it goes
  -- on, whether or not its record can be saved; with any other it is refused, and the coordinator
  -- stays as it is.
  pub continue_by_id-offered :
      (f : Flow) (d : AwaitingDecision)
      → lookup id s.flows ≡ some f
      → f.wf.status ≡ flow_awaiting
      → f.wf.awaiting_decision ≡ some d
      → ((any (same option) d.options ≡ true) × GoesOn f (continue_by_id h id option s))
        ⊎ ((any (same option) d.options ≡ false)
            × (continue_by_id h id option s ≡ (s, some refused_option)))
  continue_by_id-offered f d at waits asked =
      let there = ap is_none asked in
      let looked = ap (offers option) asked in
      elim (Bool-cases (any (same option) d.options)) [
        | inl known ↦
            let offered = looked ∙ known in
            inl (
              known,
              subst (GoesOn f) (sym (continued_as f at waits)) (
                  rw (there, offered)
                    (reopened-GoesOn f (persist h (record f { wf = reopens h.now option f.wf }))
                      waits (persist-wf h (record f { wf = reopens h.now option f.wf })))),
            )
        | inr other ↦
            let refused = looked ∙ other in
            inr (other, continued_as f at waits ∙ rw (there, refused) refl)
      ]
