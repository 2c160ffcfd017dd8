-- ===== src/Settle/Ends.antt =====
-- An end that `writeEnd` reports as written is in the database.
use Prim.Native.String.{String}
use shipwick.Base.{
  is_none, ℕ, ◌≡◌, inl, inr, refl, sym, ◌∙◌, Bool, true, false, ◌&&◌, not, any, Option, none, some,
  List, ◌==◌, ==_refl, if◌then◌else◌, update_rows, IsDistinct, find_row-update, key-find_row,
  changed, illegal, conflict, not_found, or_fail, OnOk, OnOk-map, subst, refused, Result, ok, err,
  arith, Bool-cases, Option-cases,
}
use shipwick.Status.{DeploymentStatus, failed, same_status, can_transition, is_settled}
use shipwick.Records.{
  Deployment, Store, find, in_status, set_status, transition_deployment, complete_deployment,
}
use shipwick.Records.Activation.{any-in_status, any-in_status-none}
use shipwick.Settle.{
  Unsettled, Answers, Outcome, finish, believe, after_move, message_of, with_status,
  transition_with_error, write_end,
}

-- A row whose status is an outcome, and that has its completion time.
abbrev pub ended : Option Deployment → Bool
ended none = false
ended (some d) = is_settled d.status && not (is_none d.completed_at)

abbrev pub settled : Option Deployment → Bool
settled none = false
settled (some d) = is_settled d.status

completed-ended :
    (id now : ℕ) (rows : List Deployment)
    → settled (find id rows) ≡ true
    → ended (
        find id (
          update_rows
            (λ d. d.id == id && is_none d.completed_at)
            (λ d. record d { completed_at = some now })
            rows))
      ≡ true
completed-ended id now rows h =
    rw
      (find_row-update (λ (d : Deployment). d.id) (λ d. d.id == id && is_none d.completed_at)
        (λ d. record d { completed_at = some now }) (λ d. refl) id rows)
      (elim (Option-cases (find id rows)) [
        | inl e ↦ absurd (cc (e, h))
        | inr (d, e) ↦ ground (arith, e, key-find_row (λ (r : Deployment). r.id) id rows d e)
      ])

-- No error means that the end is in the database.
abbrev Writes : ℕ → Outcome → Type 0
Writes id o = o.error ≡ none → ended (find id o.store.deployments) ≡ true

finish-Writes :
    (a : Answers) (u : Unsettled) (s : Store)
    → settled (find u.deployment.id s.deployments) ≡ true
    → Writes u.deployment.id (finish a u s)
unfolding finish complete_deployment
finish-Writes a u s h = elim (Bool-cases a.completes) [
  | inl taken ↦ rw (taken, finish) (λ e. completed-ended u.deployment.id a.now s.deployments h)
  | inr lost ↦ rw (lost, finish) (λ e. absurd (cc))
]

failed-settled :
    (takes : Bool) (id : ℕ) (from : DeploymentStatus) (message : String) (s : Store)
    → IsDistinct (λ (d : Deployment). d.id) s.deployments
    → OnOk
        (λ t. settled (find id t.deployments) ≡ true)
        (transition_deployment takes id from failed message s)
unfolding transition_deployment is_settled
failed-settled false id from message s u = tt
failed-settled true id from message s u =
    elim (Bool-cases (any (in_status id from) s.deployments)) [
      | inr missing ↦ rw missing tt
      | inl hit ↦ rw hit (elim (Option-cases (find id s.deployments)) [
        | inl e ↦ absurd (cc (any-in_status-none id from s.deployments e, hit))
        | inr (d, e) ↦
            rw
              (
                find_row-update (λ (r : Deployment). r.id) (in_status id from)
                    (set_status failed message) (λ r. refl) id s.deployments,
                e,
              )
              (moved d e hit)
      ])
    ]
  where
    moved :
        (d : Deployment)
        → find id s.deployments ≡ some d
        → any (in_status id from) s.deployments ≡ true
        → settled (changed (in_status id from) (set_status failed message) (some d)) ≡ true
    moved d e hit =
        let same : same_status d.status from ≡ true =
          sym (any-in_status id from s.deployments d u e) ∙ hit in
        let is : in_status id from d ≡ true =
          rw (key-find_row (λ (r : Deployment). r.id) id s.deployments d e, ==_refl id) same in
        rw is

believe-Writes :
    (a : Answers) (u : Unsettled) (s : Store)
    → Writes u.deployment.id (
        believe a u s
          (if a.reads then or_fail (find u.deployment.id s.deployments) not_found else err refused))
unfolding believe
believe-Writes a u s = elim (Bool-cases a.reads) [
  | inr lost ↦ rw (lost, believe) (λ e. absurd (cc))
  | inl read ↦
      rw (read, believe)
        (elim (Option-cases (find u.deployment.id s.deployments)) [
          | inl e ↦ rw (e, believe) (λ h. absurd (cc))
          | inr (d, e) ↦
              rw (e, believe)
                (elim (Bool-cases (is_settled d.status)) [
                  | inl is ↦ rw (is, believe) (finish-Writes a (with_status d.status u) s (rw e is))
                  | inr no' ↦ rw (no', believe) (λ h. absurd (cc))
                ])
        ])
]

after_move-Writes :
    (a : Answers) (u : Unsettled) (s : Store) (r : Result (Store × Deployment))
    → OnOk
        (λ x. (x.1.id ≡ u.deployment.id) × (settled (find u.deployment.id x.0.deployments) ≡ true))
        r
    → Writes u.deployment.id (after_move a u s r)
unfolding after_move
after_move-Writes a u s (ok (t, d)) h =
    subst (λ id. Writes id (finish a (record u { deployment = d }) t)) h.0
      (finish-Writes a (record u { deployment = d }) t (rw h.0 h.1))
after_move-Writes a u s (err conflict) h = believe-Writes a u s
after_move-Writes a u s (err not_found) h = λ e. absurd (cc)
after_move-Writes a u s (err refused) h = λ e. absurd (cc)
after_move-Writes a u s (err illegal) h = λ e. absurd (cc)

-- Where `writeEnd` reports no error, the row of the deployment has a settled status and a completion
-- time, provided that ids are distinct and that a status the engine holds for settled is so in the
-- database.
pub write_end-ended :
    (a : Answers) (u : Unsettled) (s : Store)
    → IsDistinct (λ (d : Deployment). d.id) s.deployments
    → (is_settled u.deployment.status ≡ true → settled (find u.deployment.id s.deployments) ≡ true)
    → (write_end a u s).error ≡ none
    → ended (find u.deployment.id (write_end a u s).store.deployments) ≡ true
unfolding write_end transition_with_error
write_end-ended a u s distinct agrees = elim (Bool-cases (is_settled u.deployment.status)) [
  | inl is ↦ rw (is, write_end) (finish-Writes a u s (agrees is))
  | inr open' ↦
      rw (open', write_end)
        (after_move-Writes a u s
          (transition_with_error a.moves u.deployment failed (message_of u) s) moved)
]
  where
    moved :
        OnOk
          (λ x.
            (x.1.id ≡ u.deployment.id) × (settled (find u.deployment.id x.0.deployments) ≡ true))
          (transition_with_error a.moves u.deployment failed (message_of u) s)
    moved = elim (Bool-cases (can_transition u.deployment.status failed)) [
      | inr bad ↦ rw (bad, transition_with_error) tt
      | inl legal ↦
          rw (legal, transition_with_error)
            (OnOk-map _ _
              (transition_deployment a.moves u.deployment.id u.deployment.status failed
                (message_of u) s)
              (λ t. (t, record u.deployment { status = failed })) (λ t h. (refl, h))
              (failed-settled a.moves u.deployment.id u.deployment.status (message_of u) s
                distinct))
    ]
