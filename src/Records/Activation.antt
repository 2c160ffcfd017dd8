-- ===== src/Records/Activation.antt =====
-- ActivateDeployment, the commit point of a deployment.
use shipwick.Base.{
  ℕ, ◌≡◌, ◌≢◌, ◌∙◌, sym, ap, inl, inr, refl, Bool, true, false, any, Option, none, some, List, ◌==◌,
  if◌then◌else◌, any-find, any-find_none, update_rows, IsDistinct, find_row-update, key-find_row,
  IsDistinct-update, arith, ok, OnOk, OnOk-bind, ◌>>=◌, Bool-cases, Option-cases,
}
use shipwick.Status.{DeploymentStatus, healthy, active, superseded, same_status}
use shipwick.Status.Machine.{same_status_eq}
use shipwick.Records.{
  Application, Deployment, Store, running, find, find_application, in_status, has_id, supersede,
  previous_row, activate_deployment,
}
use shipwick.Records.Consistency.{pointer, active_of, owner, active_owner, IsConsistent}

pub any-in_status-none :
    (id : ℕ) (status : DeploymentStatus) (rows : List Deployment)
    → find id rows ≡ none
    → any (in_status id status) rows ≡ false
any-in_status-none id status =
    any-find_none (λ (r : Deployment). r.id) (λ r. same_status r.status status) id

-- The compare-and-swap hits the row that is found.
pub any-in_status :
    (id : ℕ) (status : DeploymentStatus) (rows : List Deployment) (d : Deployment)
    → IsDistinct (λ (r : Deployment). r.id) rows
    → find id rows ≡ some d
    → any (in_status id status) rows ≡ same_status d.status status
any-in_status id status = any-find (λ (r : Deployment). r.id) (λ r. same_status r.status status) id

abbrev promote : Deployment → Deployment
promote r = record r { status = active }

abbrev retire : Deployment → Deployment
retire r = record r { status = superseded }

promoted-owner :
    (id j : ℕ) (rows : List Deployment) (d : Deployment)
    → find id rows ≡ some d
    → same_status d.status healthy ≡ true
    → owner (find j (update_rows (in_status id healthy) promote rows))
      ≡ (if j == id then some d.application_id else owner (find j rows))
promoted-owner id j rows d e h =
    rw
      (find_row-update (λ (r : Deployment). r.id) (in_status id healthy) promote (λ r. refl) j rows)
      (elim (Option-cases (find j rows)) [
        | inl n ↦ ground (arith, n, e)
        | inr (r, n) ↦ ground (arith, n, e, key-find_row (λ (r : Deployment). r.id) j rows r n)
      ])

retired-owner :
    (prev j : ℕ) (rows : List Deployment)
    → owner (find j (update_rows (in_status prev active) retire rows))
      ≡ (if j == prev then none else owner (find j rows))
retired-owner prev j rows =
    rw
      (find_row-update (λ (r : Deployment). r.id) (in_status prev active) retire (λ r. refl) j rows)
      (elim (Option-cases (find j rows)) [
        | inl n ↦ ground (arith, n)
        | inr (r, n) ↦ ground (arith, n, key-find_row (λ (r : Deployment). r.id) j rows r n)
      ])

superseded-owner :
    (prev : Option ℕ) (j : ℕ) (rows : List Deployment) (k : ℕ)
    → owner (find j (supersede prev rows)) ≡ some k
    → (owner (find j rows) ≡ some k) × (prev ≢ some j)
unfolding supersede
superseded-owner none j rows k h = (h, λ e. cc)
superseded-owner (some prev) j rows k h = ground (arith, retired-owner prev j rows)

superseded-owner_back :
    (prev : Option ℕ) (j : ℕ) (rows : List Deployment) (k : ℕ)
    → owner (find j rows) ≡ some k
    → prev ≢ some j
    → owner (find j (supersede prev rows)) ≡ some k
unfolding supersede
superseded-owner_back none j rows k h n = h
superseded-owner_back (some prev) j rows k h n = ground (arith, retired-owner prev j rows)

IsDistinct-supersede :
    (prev : Option ℕ) (rows : List Deployment)
    → IsDistinct (λ (r : Deployment). r.id) rows
    → IsDistinct (λ (r : Deployment). r.id) (supersede prev rows)
unfolding supersede
IsDistinct-supersede none rows u = u
IsDistinct-supersede (some prev) rows u =
    IsDistinct-update _ (in_status prev active) retire (λ r. refl) rows u

-- The transaction past its checks.
module _ (id now : ℕ) (s : Store) (c : IsConsistent s) (d : Deployment) (a : Application)
    (row : find id s.deployments ≡ some d)
    (app : find_application d.application_id s.applications ≡ some a)
    (hit : any (in_status id healthy) s.deployments ≡ true) where
  abbrev point : Application → Application
  point r = record r { active_deployment_id = some id; desired_state = running; updated_at = now }

  abbrev activated : Store
  activated = record {
    applications = update_rows (has_id d.application_id) point s.applications;
    deployments =
        supersede a.active_deployment_id (update_rows (in_status id healthy) promote s.deployments);
  }

  was_healthy : same_status d.status healthy ≡ true
  was_healthy = sym (any-in_status id healthy s.deployments d c.distinct_deployments row) ∙ hit

  was_previous : active_of d.application_id s ≡ a.active_deployment_id
  was_previous = ap pointer app

  had_no_owner : active_owner id s ≡ none
  had_no_owner = ground (arith, was_healthy, row)

  activated_pointer :
      (k : ℕ) → active_of k activated ≡ (if k == d.application_id then some id else active_of k s)
  activated_pointer k =
      rw
        (find_row-update (λ (r : Application). r.id) (has_id d.application_id) point (λ r. refl) k
          s.applications)
        (elim (Option-cases (find_application k s.applications)) [
          | inl n ↦ ground (arith, n, app)
          | inr (r, n) ↦
              ground (arith, n, app, key-find_row (λ (q : Application). q.id) k s.applications r n)
        ])

  activated_pointed : (k j : ℕ) → active_of k activated ≡ some j → active_owner j activated ≡ some k
  activated_pointed k j h =
      superseded-owner_back a.active_deployment_id j _ k
        (ground (
          arith,
          activated_pointer k,
          promoted-owner id j s.deployments d row was_healthy,
          c.pointed k j,
          had_no_owner,
        ))
        (λ e. ground (
          arith,
          activated_pointer k,
          c.pointed k j,
          c.pointed d.application_id j,
          had_no_owner,
          was_previous,
          e,
        ))

  activated_only : (k j : ℕ) → active_owner j activated ≡ some k → active_of k activated ≡ some j
  activated_only k j h =
      let (before, other) = superseded-owner a.active_deployment_id j _ k h in
      ground (
        arith,
        activated_pointer k,
        promoted-owner id j s.deployments d row was_healthy,
        before,
        c.only k j,
        was_previous,
        other,
      )

  activated-IsConsistent : IsConsistent activated
  activated-IsConsistent = record {
    distinct_applications =
        IsDistinct-update _ (has_id d.application_id) point (λ r. refl) s.applications
          c.distinct_applications;
    distinct_deployments = IsDistinct-supersede a.active_deployment_id _ (
        IsDistinct-update _ (in_status id healthy) promote (λ r. refl) s.deployments
          c.distinct_deployments);
    pointed = activated_pointed;
    only = activated_only;
  }

-- The cases of the transaction: it fails, or all its checks have passed.
module _ {ℓ} (P : Store × Option Deployment → Type ℓ) (id now : ℕ) (s : Store)
    (c : IsConsistent s) where
  activate_cases :
      ((d : Deployment) (a : Application) (row : find id s.deployments ≡ some d)
          (app : find_application d.application_id s.applications ≡ some a)
          (hit : any (in_status id healthy) s.deployments ≡ true) (previous : Option Deployment)
        → P (activated id now s c d a row app hit, previous))
      → (takes : Bool) → OnOk P (activate_deployment takes id now s)
  unfolding activate_deployment
  activate_cases k false = tt
  activate_cases k true = elim (Option-cases (find id s.deployments)) [
    | inl e ↦ rw e tt
    | inr (d, row) ↦
        rw row (elim (Option-cases (find_application d.application_id s.applications)) [
          | inl e ↦ rw e tt
          | inr (a, app) ↦ rw app (elim (Bool-cases (any (in_status id healthy) s.deployments)) [
            | inl hit ↦ rw hit (read_back d a row app hit)
            | inr e ↦ rw e tt
          ])
        ])
  ]
    where
      read_back :
          (d : Deployment) (a : Application) (row : find id s.deployments ≡ some d)
          (app : find_application d.application_id s.applications ≡ some a)
          (hit : any (in_status id healthy) s.deployments ≡ true)
          → OnOk P (
              previous_row a.active_deployment_id (activated id now s c d a row app hit).deployments
              >>= λ previous. ok (activated id now s c d a row app hit, previous))
      read_back d a row app hit =
          OnOk-bind P
            (previous_row a.active_deployment_id (activated id now s c d a row app hit).deployments)
            (λ previous. ok (activated id now s c d a row app hit, previous))
            (λ previous. k d a row app hit previous)

-- A promotion that goes through keeps the tables in agreement: ids stay distinct, and an application
-- points to a deployment exactly when that one is ACTIVE and its own.
pub activate-IsConsistent :
    (takes : Bool) (id now : ℕ) (s : Store)
    → IsConsistent s
    → OnOk (λ r. IsConsistent r.0) (activate_deployment takes id now s)
activate-IsConsistent takes id now s c =
    activate_cases (λ r. IsConsistent r.0) id now s c
      (λ d a row app hit previous. activated-IsConsistent id now s c d a row app hit) takes

-- From tables in agreement, a promotion that goes through finds the deployment HEALTHY, and leaves it
-- ACTIVE and pointed to by its application.
pub activate-active :
    (takes : Bool) (id now : ℕ) (s : Store)
    → IsConsistent s
    → OnOk
        (λ r.
          (d : Deployment) × (find id s.deployments ≡ some d)
          × (d.status ≡ healthy)
          × (active_of d.application_id r.0 ≡ some id)
          × (active_owner id r.0 ≡ some d.application_id))
        (activate_deployment takes id now s)
activate-active takes id now s c =
    activate_cases _ id now s c
      (λ d a row app hit previous.
        let pointed : active_of d.application_id (activated id now s c d a row app hit) ≡ some id =
          ground (arith, activated_pointer id now s c d a row app hit d.application_id) in
        (
          d,
          row,
          same_status_eq d.status healthy (was_healthy id now s c d a row app hit),
          pointed,
          activated_pointed id now s c d a row app hit d.application_id id pointed,
        ))
      takes
