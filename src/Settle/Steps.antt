-- ===== src/Settle/Steps.antt =====
-- What a step of the engine does to its copy of the record.
use Prim.Native.String.{String}
use shipwick.Base.{
  ◌≡◌, ◌≤◌, ◌⊎◌, inl, inr, refl, Bool, true, false, leb, illegal, ok, err, OnOk, arith, Bool-cases,
  OnOk-bind, tests,
}
use shipwick.Status.{DeploymentStatus, can_transition, progress}
use shipwick.Records.{Deployment, Store, transition_deployment}
use shipwick.Settle.{transition_with_error, transition, reach}

-- A transition that the state machine does not allow is refused before the database is asked.
pub transition_illegal :
    (takes : Bool) (d : Deployment) (to : DeploymentStatus) (message : String) (s : Store)
    → can_transition d.status to ≡ false
    → transition_with_error takes d to message s ≡ err illegal
unfolding transition_with_error
transition_illegal takes d to message s h = rw h

-- `reach` either succeeds at or past the status asked for, without a step back and with nothing
-- but the status of the copy changed, or fails; and where it moves, it moves by a legal step.
pub reach-progress :
    (takes : Bool) (d : Deployment) (to : DeploymentStatus) (s : Store)
    → OnOk
        (λ r.
          (progress to ≤ progress r.1.status)
          × (progress d.status ≤ progress r.1.status)
          × (r.1 ≡ record d { status = r.1.status })
          × ((r.1.status ≡ d.status) ⊎ (can_transition d.status r.1.status ≡ true)))
        (reach takes d to s)
unfolding reach transition transition_with_error
reach-progress takes d to s = elim (Bool-cases (leb (progress to) (progress d.status))) [
  | inl there ↦ rw there (omega tests, omega arith, refl, inl refl)
  | inr before ↦ rw before (elim (Bool-cases (can_transition d.status to)) [
    | inl legal ↦ rw legal (
        OnOk-bind _ (transition_deployment takes d.id d.status to "" s)
          (λ t. ok (t, record d { status = to }))
          (λ t. (omega arith, ground arith, refl, inr legal)))
    | inr bad ↦ rw bad tt
  ])
]
