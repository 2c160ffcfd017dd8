-- ===== src/Records/Consistency.antt =====
-- The two tables agree on what is active, whatever the operation but ActivateDeployment, which has
-- a module of its own.
use shipwick.Base.{
  is_none, ℕ, ◌≡◌, ◌≢◌, inl, inr, refl, Bool, true, false, any, ◌&&◌, Option, none, some, ◌==◌,
  if◌then◌else◌, update_rows, IsDistinct, find_row-update, IsDistinct-update, arith, changed, OnOk,
  &&_true, Bool-cases,
}
use shipwick.Status.{DeploymentStatus, pending, active, same_status}
use Prim.Native.String.{String}
use shipwick.Records.{
  Application, Deployment, Store, DesiredState, find, find_application, set_status, in_status,
  has_id, transition_deployment, complete_deployment, set_desired_state,
}

abbrev pub pointer : Option Application → Option ℕ
pointer none = none
pointer (some a) = a.active_deployment_id

-- What the application's row calls its active deployment.
abbrev pub active_of : ℕ → Store → Option ℕ
active_of app s = pointer (find_application app s.applications)

abbrev pub owner : Option Deployment → Option ℕ
owner none = none
owner (some d) = if same_status d.status active then some d.application_id else none

-- The application of a deployment whose own row says ACTIVE.
abbrev pub active_owner : ℕ → Store → Option ℕ
active_owner id s = owner (find id s.deployments)

pub record IsConsistent (s : Store) : Type 0 where
  pub distinct_applications : IsDistinct (λ (a : Application). a.id) s.applications
  pub distinct_deployments : IsDistinct (λ (d : Deployment). d.id) s.deployments
  pub pointed : (app id : ℕ) → active_of app s ≡ some id → active_owner id s ≡ some app
  pub only : (app id : ℕ) → active_owner id s ≡ some app → active_of app s ≡ some id

-- A change of rows that neither activates nor deactivates one.
module _ (s t : Store) (c : IsConsistent s)
    (apps : IsDistinct (λ (a : Application). a.id) t.applications)
    (rows : IsDistinct (λ (d : Deployment). d.id) t.deployments)
    (same_of : (app : ℕ) → active_of app t ≡ active_of app s)
    (same_owner : (id : ℕ) → active_owner id t ≡ active_owner id s) where
  pub unchanged-IsConsistent : IsConsistent t
  unchanged-IsConsistent = record {
    distinct_applications = apps;
    distinct_deployments = rows;
    pointed = λ app id h. ground (arith, c.pointed app id, same_of app, same_owner id);
    only = λ app id h. ground (arith, c.only app id, same_of app, same_owner id);
  }

module _ (hit : Deployment → Bool) (change : Deployment → Deployment)
    (quiet : (d : Deployment) → hit d ≡ true → owner (some (change d)) ≡ owner (some d)) where
  owner-changed : (o : Option Deployment) → owner (changed hit change o) ≡ owner o
  owner-changed none = refl
  owner-changed (some d) = elim (Bool-cases (hit d)) [ inl h ↦ rw h (quiet d h) | inr h ↦ rw h ]

  -- An update of deployments that leaves who is active alone.
  update-IsConsistent :
      ((d : Deployment) → (change d).id ≡ d.id)
      → (s : Store) → IsConsistent s
      → IsConsistent (record s { deployments = update_rows hit change s.deployments })
  update-IsConsistent same s c =
      unchanged-IsConsistent s (record s { deployments = update_rows hit change s.deployments }) c
        c.distinct_applications
        (IsDistinct-update _ hit change same s.deployments c.distinct_deployments) (λ app. refl)
        (λ id.
          rw (find_row-update _ hit change same id s.deployments)
            (owner-changed (find id s.deployments)))

same_status-ne :
    (a b : DeploymentStatus) → b ≢ active → same_status a b ≡ true → same_status a active ≡ false
same_status-ne a b n h = ground arith

ne-same_status : (a : DeploymentStatus) → a ≢ active → same_status a active ≡ false
ne-same_status active n = absurd (n refl)
ne-same_status pending n = refl
ne-same_status _ n = refl

-- A compare-and-swap between statuses other than ACTIVE keeps the tables in agreement.
pub transition-IsConsistent :
    (takes : Bool) (id : ℕ) (from to : DeploymentStatus) (message : String) (s : Store)
    → from ≢ active
    → to ≢ active
    → IsConsistent s
    → OnOk IsConsistent (transition_deployment takes id from to message s)
unfolding transition_deployment
transition-IsConsistent false id from to message s nf nt c = tt
transition-IsConsistent true id from to message s nf nt c =
    elim (Bool-cases (any (in_status id from) s.deployments)) [
      | inl found ↦ rw found (
          update-IsConsistent (in_status id from) (set_status to message)
            (λ d h.
              rw (ne-same_status to nt)
                (rw (same_status-ne d.status from nf (&&_true (d.id == id) _ h).1)))
            (λ d. refl) s c)
      | inr missing ↦ rw missing tt
    ]

pub complete-IsConsistent :
    (takes : Bool) (id now : ℕ) (s : Store)
    → IsConsistent s
    → OnOk IsConsistent (complete_deployment takes id now s)
unfolding complete_deployment
complete-IsConsistent false id now s c = tt
complete-IsConsistent true id now s c =
    update-IsConsistent (λ d. d.id == id && is_none d.completed_at)
      (λ d. record d { completed_at = some now }) (λ d h. refl) (λ d. refl) s c

pub pointer-changed :
    (hit : Application → Bool) (change : Application → Application)
    → ((a : Application) → (change a).active_deployment_id ≡ a.active_deployment_id)
    → (o : Option Application) → pointer (changed hit change o) ≡ pointer o
pointer-changed hit change same none = refl
pointer-changed hit change same (some a) = elim (Bool-cases (hit a)) [
  | inl h ↦ rw h (same a)
  | inr h ↦ rw h
]

abbrev restate : DesiredState → ℕ → Application → Application
restate state now a = record a { desired_state = state; updated_at = now }

restated-IsConsistent :
    (app : ℕ) (state : DesiredState) (now : ℕ) (s : Store)
    → IsConsistent s
    → IsConsistent
        (record s { applications = update_rows (has_id app) (restate state now) s.applications })
restated-IsConsistent app state now s c =
    unchanged-IsConsistent s
      (record s { applications = update_rows (has_id app) (restate state now) s.applications }) c
      (IsDistinct-update _ (has_id app) (restate state now) (λ a. refl) s.applications
        c.distinct_applications)
      c.distinct_deployments
      (λ k.
        rw
          (find_row-update (λ (a : Application). a.id) (has_id app) (restate state now) (λ a. refl)
            k s.applications)
          (pointer-changed (has_id app) (restate state now) (λ a. refl)
            (find_application k s.applications)))
      (λ k. refl)

pub set_desired_state-IsConsistent :
    (takes : Bool) (app : ℕ) (state : DesiredState) (now : ℕ) (s : Store)
    → IsConsistent s
    → OnOk IsConsistent (set_desired_state takes app state now s)
unfolding set_desired_state
set_desired_state-IsConsistent false app state now s c = tt
set_desired_state-IsConsistent true app state now s c =
    elim (Bool-cases (any (has_id app) s.applications)) [
      | inl found ↦ rw found (restated-IsConsistent app state now s c)
      | inr missing ↦ rw missing tt
    ]
