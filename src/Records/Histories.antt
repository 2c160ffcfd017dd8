-- ===== src/Records/Histories.antt =====
-- Every history of the database, from the empty one.
use Prim.Native.String.{String}
use shipwick.Base.{ℕ, ◌≡◌, ◌≢◌, ◌↔◌, find_row, Bool, true, some, none, Option, ok, OnOk-ok, arith}
use shipwick.Status.{DeploymentStatus, active, superseded, can_transition}
use shipwick.Records.{
  Deployment, Store, DesiredState, empty, find, find_application, insert_deployment,
  transition_deployment, complete_deployment, activate_deployment, set_desired_state,
  delete_application,
}
use shipwick.Records.Consistency.{
  active_of, active_owner, IsConsistent, transition-IsConsistent, complete-IsConsistent,
  set_desired_state-IsConsistent,
}
use shipwick.Records.Membership.{insert-IsConsistent, delete-IsConsistent}
use shipwick.Records.Activation.{activate-IsConsistent}

-- What the agent does to the tables. A transition is one that the state machine allows, and
-- ACTIVE and SUPERSEDED are entered by a promotion alone; the ids of new rows are new.
pub data Step (s : Store) (t : Store) : Type 0 where
  inserts :
      (takes : Bool) (name version : String) (id app now : ℕ) (d : Deployment)
      → find id s.deployments ≡ none
      → find_application app s.applications ≡ none
      → insert_deployment takes name version id app now s ≡ ok (t, d)
      → Step s t
  transitions :
      (takes : Bool) (id : ℕ) (from to : DeploymentStatus) (message : String)
      → can_transition from to ≡ true
      → to ≢ active
      → to ≢ superseded
      → transition_deployment takes id from to message s ≡ ok t
      → Step s t
  completes : (takes : Bool) (id now : ℕ) → complete_deployment takes id now s ≡ ok t → Step s t
  activates :
      (takes : Bool) (id now : ℕ) (previous : Option Deployment)
      → activate_deployment takes id now s ≡ ok (t, previous)
      → Step s t
  sets :
      (takes : Bool) (app : ℕ) (state : DesiredState) (now : ℕ)
      → set_desired_state takes app state now s ≡ ok t
      → Step s t
  deletes : (takes : Bool) (app : ℕ) → delete_application takes app s ≡ ok t → Step s t

pub data Reach : Store → Type 0 where
  start : Reach empty
  next : {s t : Store} → Reach s → Step s t → Reach t

not-from_active :
    (from to : DeploymentStatus) → can_transition from to ≡ true → to ≢ superseded → from ≢ active
unfolding can_transition
not-from_active from to h n e = ground arith

Step-IsConsistent : {s t : Store} → Step s t → IsConsistent s → IsConsistent t
Step-IsConsistent {s} {t} (inserts takes name version id app now d fresh new e) c =
    OnOk-ok (λ r. IsConsistent r.0) _ (t, d)
      (insert-IsConsistent takes name version id app now s fresh new c) e
Step-IsConsistent {s} {t} (transitions takes id from to message legal na ns e) c =
    OnOk-ok IsConsistent _ t
      (transition-IsConsistent takes id from to message s (not-from_active from to legal ns) na c) e
Step-IsConsistent {s} {t} (completes takes id now e) c =
    OnOk-ok IsConsistent _ t (complete-IsConsistent takes id now s c) e
Step-IsConsistent {s} {t} (activates takes id now previous e) c =
    OnOk-ok (λ r. IsConsistent r.0) _ (t, previous) (activate-IsConsistent takes id now s c) e
Step-IsConsistent {s} {t} (sets takes app state now e) c =
    OnOk-ok IsConsistent _ t (set_desired_state-IsConsistent takes app state now s c) e
Step-IsConsistent {s} {t} (deletes takes app e) c =
    OnOk-ok IsConsistent _ t (delete-IsConsistent takes app s c) e

IsConsistent-empty : IsConsistent empty
unfolding find_row
IsConsistent-empty = record {
  distinct_applications = tt;
  distinct_deployments = tt;
  pointed = λ app id h. absurd (cc);
  only = λ app id h. absurd (cc);
}

pub Reach-IsConsistent : {s : Store} → Reach s → IsConsistent s
Reach-IsConsistent start = IsConsistent-empty
Reach-IsConsistent (next r step) = Step-IsConsistent step (Reach-IsConsistent r)

-- After any history an application's row points to a deployment exactly when that deployment's own
-- row is ACTIVE and belongs to the application; so no application has two ACTIVE deployments.
pub one_active :
    {s : Store}
    → Reach s
    → (app id other : ℕ)
    → ((active_of app s ≡ some id) ↔ (active_owner id s ≡ some app))
      × (active_owner id s ≡ some app → active_owner other s ≡ some app → id ≡ other)
one_active {s} r app id other =
    let c = Reach-IsConsistent r in
    ((c.pointed app id, c.only app id), λ h k. ground (arith, c.only app id, c.only app other))
