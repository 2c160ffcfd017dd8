-- ===== src/Records/Membership.antt =====
-- New and deleted rows keep the tables in agreement on what is active.
use Prim.Native.String.{String}
use text.Mathlib.Text.{◌==◌ as str_eq}
use shipwick.Base.{
  key-find_row, ℕ, ◌≡◌, inl, inr, refl, Bool, true, false, not, any, Option, none, some, List, [],
  ◌∷◌, ◌++◌, ◌==◌, if◌then◌else◌, keep, find_row, IsDistinct, find_row-update, find_row-append,
  find_row-keep, find_row-kept, IsDistinct-update, IsDistinct-append, IsDistinct-keep, or_row,
  arith, OnOk, Bool-cases, Option-cases,
}
use shipwick.Status.{active, same_status}
use shipwick.Records.{
  Application, Deployment, Store, find, find_application, find_named, register, has_id,
  insert_deployment, delete_application,
}
use shipwick.Records.Consistency.{
  pointer, active_of, owner, active_owner, IsConsistent, unchanged-IsConsistent, pointer-changed,
}

abbrev KeepsPointers : List Application → List Application → Type 0
KeepsPointers new old =
    IsDistinct (λ (a : Application). a.id) new
    × ((k : ℕ) → pointer (find_application k new) ≡ pointer (find_application k old))

appended-pointer :
    (a : Application) (rows : List Application)
    → find_application a.id rows ≡ none
    → a.active_deployment_id ≡ none
    → (k : ℕ) → pointer (find_application k (rows ++ a ∷ [])) ≡ pointer (find_application k rows)
unfolding find_row
appended-pointer a rows fresh idle k =
    rw (find_row-append (λ (r : Application). r.id) k rows (a ∷ [])) (go (find_application k rows))
  where
    go :
        (o : Option Application)
        → pointer (or_row o (if a.id == k then some a else none)) ≡ pointer o
    go none = ground arith
    go (some b) = refl

register-KeepsPointers :
    (name : String) (id now : ℕ) (rows : List Application)
    → find_application id rows ≡ none
    → IsDistinct (λ (a : Application). a.id) rows
    → KeepsPointers (register name id now rows).0 rows
unfolding register
register-KeepsPointers name id now rows fresh u = elim (Option-cases (find_named name rows)) [
  | inl e ↦
      rw (e, register) (IsDistinct-append _ rows _ u fresh, appended-pointer _ rows fresh refl)
  | inr (a, e) ↦
      rw (e, register)
        (
          IsDistinct-update _ _ _ (λ r. refl) rows u,
          λ k.
              rw
                (find_row-update (λ (r : Application). r.id) (λ r. str_eq r.name name)
                  (λ r. record r { updated_at = now }) (λ r. refl) k rows)
                (pointer-changed (λ r. str_eq r.name name) (λ r. record r { updated_at = now })
                  (λ r. refl) (find_application k rows)),
        )
]

appended-owner :
    (d : Deployment) (rows : List Deployment)
    → same_status d.status active ≡ false
    → (k : ℕ) → owner (find k (rows ++ d ∷ [])) ≡ owner (find k rows)
unfolding find_row
appended-owner d rows idle k =
    rw (find_row-append (λ (r : Deployment). r.id) k rows (d ∷ [])) (go (find k rows))
  where
    go : (o : Option Deployment) → owner (or_row o (if d.id == k then some d else none)) ≡ owner o
    go none = ground arith
    go (some b) = refl

-- A new PENDING deployment, of a new application or of a known one, keeps the tables in agreement if
-- the ids for new rows are not taken.
pub insert-IsConsistent :
    (takes : Bool) (name version : String) (id app now : ℕ) (s : Store)
    → find id s.deployments ≡ none
    → find_application app s.applications ≡ none
    → IsConsistent s
    → OnOk (λ r. IsConsistent r.0) (insert_deployment takes name version id app now s)
unfolding insert_deployment
insert-IsConsistent false name version id app now s fresh new c = tt
insert-IsConsistent true name version id app now s fresh new c =
    let apps = register-KeepsPointers name app now s.applications new c.distinct_applications in
    unchanged-IsConsistent s _ c apps.0
      (IsDistinct-append _ s.deployments _ c.distinct_deployments fresh) apps.1
      (appended-owner _ s.deployments refl)

module _ (app : ℕ) (s : Store) (c : IsConsistent s) where
  abbrev kept_applications : List Application
  kept_applications = keep (λ a. not (has_id app a)) s.applications

  abbrev kept_deployments : List Deployment
  kept_deployments = keep (λ d. not (d.application_id == app)) s.deployments

  -- What is still pointed to was pointed to by another application.
  kept_pointer :
      (k id : ℕ)
      → pointer (find_application k kept_applications) ≡ some id
      → (active_of k s ≡ some id) × ((k == app) ≡ false)
  kept_pointer k id h = elim (Option-cases (find_application k kept_applications)) [
    | inl e ↦ absurd (cc (e, h))
    | inr (a, e) ↦
        let old =
          find_row-keep _ (λ a. not (has_id app a)) k s.applications a c.distinct_applications e in
        ground (arith, e, old, key-find_row (λ (r : Application). r.id) k s.applications a old.0)
  ]

  kept_pointer_back :
      (k id : ℕ)
      → active_of k s ≡ some id
      → (k == app) ≡ false
      → pointer (find_application k kept_applications) ≡ some id
  kept_pointer_back k id h n = elim (Option-cases (find_application k s.applications)) [
    | inl e ↦ absurd (cc (e, h))
    | inr (a, e) ↦
        let is = key-find_row (λ (r : Application). r.id) k s.applications a e in
        rw
          (find_row-kept (λ (r : Application). r.id) (λ a. not (has_id app a)) k s.applications a e
            (ground (arith, is)))
          (ground (arith, e))
  ]

  kept_owner :
      (k id : ℕ)
      → owner (find id kept_deployments) ≡ some k
      → (active_owner id s ≡ some k) × ((k == app) ≡ false)
  kept_owner k id h = elim (Option-cases (find id kept_deployments)) [
    | inl e ↦ absurd (cc (e, h))
    | inr (d, e) ↦
        let old =
          find_row-keep _ (λ d. not (d.application_id == app)) id s.deployments d
            c.distinct_deployments e in
        ground (arith, e, old)
  ]

  kept_owner_back :
      (k id : ℕ)
      → active_owner id s ≡ some k
      → (k == app) ≡ false
      → owner (find id kept_deployments) ≡ some k
  kept_owner_back k id h n = elim (Option-cases (find id s.deployments)) [
    | inl e ↦ absurd (cc (e, h))
    | inr (d, e) ↦
        rw
          (find_row-kept (λ (r : Deployment). r.id) (λ d. not (d.application_id == app)) id
            s.deployments d e (ground (arith, e)))
          (ground (arith, e))
  ]

  kept-IsConsistent :
      IsConsistent (record { applications = kept_applications; deployments = kept_deployments })
  kept-IsConsistent = record {
    distinct_applications = IsDistinct-keep _ _ s.applications c.distinct_applications;
    distinct_deployments = IsDistinct-keep _ _ s.deployments c.distinct_deployments;
    pointed = λ k id h.
        let old = kept_pointer k id h in kept_owner_back k id (c.pointed k id old.0) old.1;
    only =
        λ k id h. let old = kept_owner k id h in kept_pointer_back k id (c.only k id old.0) old.1;
  }

-- To delete an application with its deployments keeps the tables in agreement.
pub delete-IsConsistent :
    (takes : Bool) (app : ℕ) (s : Store)
    → IsConsistent s
    → OnOk IsConsistent (delete_application takes app s)
unfolding delete_application
delete-IsConsistent false app s c = tt
delete-IsConsistent true app s c = elim (Bool-cases (any (has_id app) s.applications)) [
  | inl found ↦ rw found (kept-IsConsistent app s c)
  | inr missing ↦ rw missing tt
]
