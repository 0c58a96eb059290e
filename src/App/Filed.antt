-- ===== src/App/Filed.antt =====
-- The decisions that `commitTransition` of internal/app/app.go files, read by workflow.
use text.Mathlib.TextLemmas.{append_cancel_left}
use mathlib.Core.List.{append-nil, append_assoc}
use forge_mini.Base.{
  Bool-cases, inl, inr, true, ◌++◌, sym, ap, if◌then◌else◌, String, concat, false, List, [], ◌∷◌,
  ◌≡◌, refl, ◌∙◌, str_eq, eq_iff, arith,
}
use forge_mini.Base.Dict.{lookup-insert}
use forge_mini.Workflow.Decisions.{WorkflowDecision}
use forge_mini.Workflow.Identity.{FiledUnder}
use forge_mini.Store.{Memory, list_at, append_decision, list_decisions_by_workflow}
use forge_mini.App.Commit.{append_decisions}

one_filed :
    (d : WorkflowDecision) (other : String) (m : Memory)
    → str_eq d.workflow_id other ≡ false
    → list_decisions_by_workflow other (append_decision d m) ≡ list_decisions_by_workflow other m
unfolding list_decisions_by_workflow append_decision list_at
one_filed d other m ne =
    rw (list_decisions_by_workflow, append_decision, list_at, lookup-insert d.workflow_id other, ne)
      refl

-- those of some decisions that are filed under a workflow
abbrev pub filed : String → List WorkflowDecision → List WorkflowDecision
filed workflow [] = []
filed workflow (d ∷ ds) =
    let rest = filed workflow ds in if str_eq d.workflow_id workflow then d ∷ rest else rest

own_filed :
    (d : WorkflowDecision) (workflow : String) (m : Memory)
    → str_eq d.workflow_id workflow ≡ true
    → list_decisions_by_workflow workflow (append_decision d m)
      ≡ list_decisions_by_workflow workflow m ++ (d ∷ [])
unfolding list_decisions_by_workflow append_decision list_at
own_filed d workflow m same =
    let e : d.workflow_id ≡ workflow = ground (arith, eq_iff d.workflow_id workflow) in
    rw
      (
        list_decisions_by_workflow,
        append_decision,
        list_at,
        lookup-insert d.workflow_id workflow,
        same,
      )
      (ap (λ k. list_at k m.decisions_by_workflow ++ (d ∷ [])) e)

-- Decisions are listed under their workflow, behind those that were, in their order.
pub append_decisions-filed :
    (workflow : String) (ds : List WorkflowDecision) (m : Memory)
    → list_decisions_by_workflow workflow (append_decisions ds m)
      ≡ list_decisions_by_workflow workflow m ++ filed workflow ds
unfolding append_decisions
append_decisions-filed workflow [] m = sym (append-nil _)
append_decisions-filed workflow (d ∷ ds) m =
    append_decisions-filed workflow ds (append_decision d m)
    ∙ elim (Bool-cases (str_eq d.workflow_id workflow)) [
      | inl e ↦
          rw (e, own_filed d workflow m e)
            (append_assoc (list_decisions_by_workflow workflow m) (d ∷ []) (filed workflow ds))
      | inr e ↦ rw (e, one_filed d workflow m e) refl
    ]

-- The decisions of one workflow are not listed under another.
pub append_decisions-other :
    (workflow other : String) (ds : List WorkflowDecision) (m : Memory)
    → FiledUnder workflow ds
    → str_eq workflow other ≡ false
    → list_decisions_by_workflow other (append_decisions ds m) ≡ list_decisions_by_workflow other m
unfolding append_decisions
append_decisions-other workflow other [] m h ne = refl
append_decisions-other workflow other (d ∷ ds) m (e, h) ne =
    append_decisions-other workflow other ds (append_decision d m) h ne
    ∙ one_filed d other m (rw e ne)

-- Two units have two workflow identifiers.
pub other_workflow :
    (unit other : String)
    → str_eq unit other ≡ false
    → str_eq (concat "wf-" unit) (concat "wf-" other) ≡ false
other_workflow unit other ne = ground (
  arith,
  eq_iff unit other,
  eq_iff (concat "wf-" unit) (concat "wf-" other),
  append_cancel_left "wf-" unit other,
)
