-- ===== src/Records.antt =====
-- The database of deployments: agent/internal/store/deployments.go and applications.go. A table is
-- the list of its rows. Each operation is told whether the database takes its statements; one that
-- is refused, or a transaction that fails, leaves the store as it was. Columns that no operation
-- here reads are left out, and so is the sealing of secrets in a stored spec.
pub mod Consistency
pub mod Membership
pub mod Activation
pub mod Histories
pub mod Replicas
use Prim.Native.String.{String}
use text.Mathlib.Text.{◌==◌ as str_eq}
use shipwick.Base.{
  ℕ, ◌+◌, max, Bool, true, false, not, ◌&&◌, Option, none, some, List, [], ◌∷◌, ◌++◌, map, ◌==◌,
  if◌then◌else◌, any, keep, is_none, find_row, update_rows, Result, ok, err, conflict, not_found,
  refused, ◌>>=◌, ◌>>◌, guard, or_fail,
}
use shipwick.Status.{DeploymentStatus, pending, healthy, active, superseded, same_status}

pub data DesiredState : Type 0 where
  running stopped : DesiredState

pub record Application : Type 0 where
  pub id : ℕ
  pub name : String
  pub desired_state : DesiredState
  pub active_deployment_id : Option ℕ
  pub created_at : ℕ
  pub updated_at : ℕ

pub record Deployment : Type 0 where
  pub id : ℕ
  pub application_id : ℕ
  pub sequence : ℕ
  pub version : String
  pub status : DeploymentStatus
  pub error : String
  pub started_at : ℕ
  pub completed_at : Option ℕ

pub record Store : Type 0 where
  pub applications : List Application
  pub deployments : List Deployment

abbrev pub empty : Store
empty = record { applications = []; deployments = [] }

-- SELECT … WHERE id = ?
abbrev pub find : ℕ → List Deployment → Option Deployment
find = find_row (λ d. d.id)

abbrev pub find_application : ℕ → List Application → Option Application
find_application = find_row (λ a. a.id)

-- SELECT id FROM applications WHERE name = ?
unfoldable pub find_named : String → List Application → Option Application
find_named name [] = none
find_named name (a ∷ rest) = if str_eq a.name name then some a else find_named name rest

-- SELECT COALESCE(MAX(sequence), 0) FROM deployments WHERE application_id = ?
unfoldable pub last_sequence : ℕ → List Deployment → ℕ
last_sequence app [] = 0
last_sequence app (d ∷ ds) =
    let rest = last_sequence app ds in if d.application_id == app then max d.sequence rest else rest

-- INSERT INTO applications … ON CONFLICT (name) DO UPDATE SET updated_at; `id` is the id that the
-- database gives to a new row.
unfoldable pub register : String → ℕ → ℕ → List Application → List Application × ℕ
unfolding find_named
register name id now rows = elim (find_named name rows) [
  | none ↦ (
    rows
        ++ record {
          id = id;
          name = name;
          desired_state = running;
          active_deployment_id = none;
          created_at = now;
          updated_at = now;
        }
          ∷ [],
    id,
  )
  | some a ↦ (update_rows (λ r. str_eq r.name name) (λ r. record r { updated_at = now }) rows, a.id)
]

-- `id` and `app` are the ids that the database gives to new rows.
unfoldable pub insert_deployment :
    Bool → String → String → ℕ → ℕ → ℕ → Store → Result (Store × Deployment)
unfolding register last_sequence
insert_deployment takes name version id app now s = do
  guard takes refused
  let registered = register name app now s.applications
  let d : Deployment = record {
    id = id;
    application_id = registered.1;
    sequence = last_sequence registered.1 s.deployments + 1;
    version = version;
    status = pending;
    error = "";
    started_at = now;
    completed_at = none;
  }
  ok (record { applications = registered.0; deployments = s.deployments ++ d ∷ [] }, d)

-- WHERE id = ? AND status = ?
abbrev pub in_status : ℕ → DeploymentStatus → Deployment → Bool
in_status id from d = d.id == id && same_status d.status from

-- WHERE id = ?
abbrev pub has_id : ℕ → Application → Bool
has_id app a = a.id == app

abbrev pub set_status : DeploymentStatus → String → Deployment → Deployment
set_status to message d = record d {
  status = to;
  error = if str_eq message "" then d.error else message;
}

-- A compare-and-swap on the status.
unfoldable pub transition_deployment :
    Bool → ℕ → DeploymentStatus → DeploymentStatus → String → Store → Result Store
transition_deployment takes id from to message s = do
  guard takes refused
  guard (any (in_status id from) s.deployments) conflict
  ok (record s {
    deployments = update_rows (in_status id from) (set_status to message) s.deployments;
  })

unfoldable pub complete_deployment : Bool → ℕ → ℕ → Store → Result Store
complete_deployment takes id now s = do
  guard takes refused
  ok (record s {
    deployments =
        update_rows (λ d. d.id == id && is_none d.completed_at)
          (λ d. record d { completed_at = some now }) s.deployments;
  })

-- The previously active deployment steps down, if there is one.
unfoldable pub supersede : Option ℕ → List Deployment → List Deployment
supersede none rows = rows
supersede (some prev) rows =
    update_rows (in_status prev active) (λ d. record d { status = superseded }) rows

-- The row of the previous deployment, read back at the end of the transaction.
unfoldable pub previous_row : Option ℕ → List Deployment → Result (Option Deployment)
previous_row none rows = ok none
previous_row (some prev) rows = do d ← or_fail (find prev rows) not_found; ok (some d)

unfoldable pub activate_deployment : Bool → ℕ → ℕ → Store → Result (Store × Option Deployment)
unfolding supersede previous_row
activate_deployment takes id now s = do
  guard takes refused
  d ← or_fail (find id s.deployments) not_found
  a ← or_fail (find_application d.application_id s.applications) not_found
  guard (any (in_status id healthy) s.deployments) conflict
  let promoted =
      update_rows (in_status id healthy) (λ r. record r { status = active }) s.deployments
  let rows = supersede a.active_deployment_id promoted
  let apps =
      update_rows (has_id d.application_id)
        (λ r. record r {
          active_deployment_id = some id;
          desired_state = running;
          updated_at = now;
        })
        s.applications
  previous ← previous_row a.active_deployment_id rows
  ok (record { applications = apps; deployments = rows }, previous)

unfoldable pub set_desired_state : Bool → ℕ → DesiredState → ℕ → Store → Result Store
set_desired_state takes app state now s = do
  guard takes refused
  guard (any (has_id app) s.applications) not_found
  ok (record s {
    applications =
        update_rows (has_id app) (λ a. record a { desired_state = state; updated_at = now })
          s.applications;
  })

-- The deployments of the application go with it.
unfoldable pub delete_application : Bool → ℕ → Store → Result Store
delete_application takes app s = do
  guard takes refused
  guard (any (has_id app) s.applications) not_found
  ok (record s {
    applications = keep (λ a. not (has_id app a)) s.applications;
    deployments = keep (λ d. not (d.application_id == app)) s.deployments;
  })
