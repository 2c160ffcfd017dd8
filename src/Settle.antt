-- ===== src/Settle.antt =====
-- How the engine moves a deployment on and writes its end: `transition` and `transitionWithError`
-- of agent/internal/deploy/engine.go, `reach` of rollout.go, and settle.go. Events and log lines
-- are left out; a failure to write one changes nothing.
pub mod Steps
pub mod Ends
pub mod Retries
use Prim.Native.String.{String}
use text.Mathlib.Text.{◌==◌ as str_eq}
use shipwick.Base.{
  ℕ, suc, ◌+◌, Bool, true, false, Option, none, some, List, [], ◌∷◌, ◌++◌, leb, ltb, if◌then◌else◌,
  Error, conflict, not_found, refused, illegal, Result, ok, err, ◌>>=◌, ◌>>◌, guard, or_fail,
  find_row,
}
use shipwick.Status.{DeploymentStatus, failed, can_transition, is_settled, progress}
use shipwick.Records.{Deployment, Store, find, transition_deployment, complete_deployment}

-- The deployment is the engine's copy of the record; its status moves once the database has it.
unfoldable pub transition_with_error :
    Bool → Deployment → DeploymentStatus → String → Store → Result (Store × Deployment)
transition_with_error takes d to message s = do
  guard (can_transition d.status to) illegal
  t ← transition_deployment takes d.id d.status to message s
  ok (t, record d { status = to })

unfoldable pub transition :
    Bool → Deployment → DeploymentStatus → Store → Result (Store × Deployment)
unfolding transition_with_error
transition takes d to s = transition_with_error takes d to "" s

-- Moves on to the given status, unless the deployment is there or past it.
unfoldable pub reach : Bool → Deployment → DeploymentStatus → Store → Result (Store × Deployment)
unfolding transition
reach takes d to s =
    if leb (progress to) (progress d.status) then ok (s, d) else transition takes d to s

-- A deployment that the engine is done with and the database does not say so yet.
pub record Unsettled : Type 0 where
  pub deployment : Deployment
  pub failure : String

abbrev end_not_recorded : String
end_not_recorded =
    "the deployment ended, and the database could not be written at the time to say how"

-- Whether the database takes the statements of one `writeEnd`, and when the last is made.
pub record Answers : Type 0 where
  pub moves : Bool
  pub reads : Bool
  pub completes : Bool
  pub now : ℕ

pub record Outcome : Type 0 where
  pub store : Store
  pub unsettled : Unsettled
  pub error : Option Error

abbrev message_of : Unsettled → String
message_of u = if str_eq u.failure "" then end_not_recorded else u.failure

abbrev with_status : DeploymentStatus → Unsettled → Unsettled
with_status status u = record u { deployment = record u.deployment { status = status } }

unfoldable pub finish : Answers → Unsettled → Store → Outcome
finish a u s = elim (complete_deployment a.completes u.deployment.id a.now s) [
  | ok t ↦ record { store = t; unsettled = u; error = none }
  | err e ↦ record { store = s; unsettled = u; error = some e }
]

-- The status that the database holds, after a write that was reported as refused and was not.
unfoldable pub believe : Answers → Unsettled → Store → Result Deployment → Outcome
unfolding finish
believe a u s (err e) = record { store = s; unsettled = u; error = some e }
believe a u s (ok current) =
    if is_settled current.status
    then finish a (with_status current.status u) s
    else record { store = s; unsettled = with_status current.status u; error = some conflict }

unfoldable pub after_move : Answers → Unsettled → Store → Result (Store × Deployment) → Outcome
unfolding finish believe
after_move a u s (ok (t, d)) = finish a (record u { deployment = d }) t
after_move a u s (err conflict) =
    believe a u s
      (if a.reads then or_fail (find u.deployment.id s.deployments) not_found else err refused)
after_move a u s (err e) = record { store = s; unsettled = u; error = some e }

unfoldable pub write_end : Answers → Unsettled → Store → Outcome
unfolding after_move finish transition_with_error
write_end a u s =
    if is_settled u.deployment.status
    then finish a u s
    else after_move a u s (transition_with_error a.moves u.deployment failed (message_of u) s)

-- The database, and the ends that the engine keeps for later.
pub record Pending : Type 0 where
  pub store : Store
  pub unsettled : List Unsettled

unfoldable pub kept : Outcome → List Unsettled → List Unsettled
kept o rest = elim o.error [ none ↦ rest | some e ↦ o.unsettled ∷ rest ]

unfoldable pub settle : Answers → Unsettled → Pending → Pending
unfolding kept
settle a u p =
    let o = write_end a u p.store in
    record { store = o.store; unsettled = p.unsettled ++ kept o [] }

-- One answer for each end that is tried again.
unfoldable pub retry_all : (ℕ → Answers) → ℕ → List Unsettled → Store → Pending
unfolding kept
retry_all answers i [] s = record { store = s; unsettled = [] }
retry_all answers i (u ∷ us) s =
    let o = write_end (answers i) u s in
    let rest = retry_all answers (suc i) us o.store in
    record { store = rest.store; unsettled = kept o rest.unsettled }

-- `arrived` are the ends that were put off while this ran; the list was emptied before.
unfoldable pub retry_settling : (ℕ → Answers) → List Unsettled → Pending → Pending
unfolding retry_all
retry_settling answers arrived p =
    let r = retry_all answers 0 p.unsettled p.store in
    record { store = r.store; unsettled = r.unsettled ++ arrived }
