-- ===== src/Settle/Retries.antt =====
-- Once the database takes writes again, every end that was put off is written.
use shipwick.Base.{
  is_none, ℕ, suc, ◌≡◌, ◌≢◌, inl, inr, refl, sym, subst, Option-cases, ◌∙◌, Bool, true, false, ◌&&◌,
  any, none, some, List, [], ◌∷◌, ◌==◌, ==_refl, if◌then◌else◌, update_rows, IsDistinct,
  find_row-update, key-find_row, All, IsDistinct-update, arith, Bool-cases,
}
use shipwick.Status.{DeploymentStatus, failed, same_status, can_transition, is_settled}
use shipwick.Records.{
  Deployment, Store, find, in_status, set_status, transition_deployment, complete_deployment,
}
use shipwick.Settle.Ends.{ended, write_end-ended}
use shipwick.Records.Activation.{any-in_status}
use shipwick.Settle.{
  Unsettled, Answers, Pending, message_of, transition_with_error, write_end, retry_all,
  retry_settling,
}

-- The row is in the status that the engine last saw.
abbrev pub Agrees : Store → Unsettled → Type 0
Agrees s u =
    (d : Deployment) × (find u.deployment.id s.deployments ≡ some d)
    × (d.status ≡ u.deployment.status)

abbrev pub Takes : Answers → Type 0
Takes a = (a.moves ≡ true) × (a.completes ≡ true)

in_flight-failed : (s : DeploymentStatus) → is_settled s ≡ false → can_transition s failed ≡ true
unfolding is_settled can_transition
in_flight-failed s h = ground arith

update-elsewhere :
    (id : ℕ) (q : Deployment → Bool) (change : Deployment → Deployment)
    → ((d : Deployment) → (change d).id ≡ d.id)
    → (j : ℕ) (rows : List Deployment) (d : Deployment) → j ≢ id
    → find j rows ≡ some d
    → find j (update_rows (λ r. r.id == id && q r) change rows) ≡ some d
update-elsewhere id q change same j rows d n e =
    rw (find_row-update (λ (r : Deployment). r.id) (λ r. r.id == id && q r) change same j rows, e)
      (ground (arith, key-find_row (λ (r : Deployment). r.id) j rows d e))

abbrev completed : Answers → Unsettled → List Deployment → List Deployment
completed a u =
    update_rows (λ d. d.id == u.deployment.id && is_none d.completed_at)
      (λ d. record d { completed_at = some a.now })

abbrev moved : Unsettled → List Deployment → List Deployment
moved u =
    update_rows (in_status u.deployment.id u.deployment.status) (set_status failed (message_of u))

-- The tables after an end that was written.
written : Answers → Unsettled → List Deployment → List Deployment
written a u rows = completed a u (if is_settled u.deployment.status then rows else moved u rows)

write_end-written :
    (a : Answers) (u : Unsettled) (s : Store)
    → IsDistinct (λ (d : Deployment). d.id) s.deployments
    → Takes a
    → Agrees s u
    → ((write_end a u s).error ≡ none)
      × ((write_end a u s).store ≡ record s { deployments = written a u s.deployments })
unfolding write_end transition_with_error transition_deployment complete_deployment written
write_end-written a u s distinct (moves, completes) (d, row, same) =
    elim (Bool-cases (is_settled u.deployment.status)) [
      | inl is ↦ rw (is, write_end, completes) (refl, refl)
      | inr open' ↦
          rw (open', write_end, in_flight-failed u.deployment.status open', moves, hit, completes)
            (refl, refl)
    ]
  where
    hit : any (in_status u.deployment.id u.deployment.status) s.deployments ≡ true
    hit =
        any-in_status u.deployment.id u.deployment.status s.deployments d distinct row
        ∙ rw same (==_refl _)

-- The rows of other deployments stay as they are.
find-written :
    (a : Answers) (u : Unsettled) (j : ℕ) (rows : List Deployment) (d : Deployment)
    → j ≢ u.deployment.id
    → find j rows ≡ some d
    → find j (written a u rows) ≡ some d
unfolding written
find-written a u j rows d n e = elim (Bool-cases (is_settled u.deployment.status)) [
  | inl is ↦ rw (is, written) (elsewhere rows e)
  | inr open' ↦
      rw (open', written)
        (elsewhere (moved u rows) (
          update-elsewhere u.deployment.id (λ r. same_status r.status u.deployment.status)
            (set_status failed (message_of u)) (λ r. refl) j rows d n e))
]
  where
    elsewhere :
        (rows : List Deployment) → find j rows ≡ some d → find j (completed a u rows) ≡ some d
    elsewhere rows e =
        update-elsewhere u.deployment.id (λ r. is_none r.completed_at)
          (λ r. record r { completed_at = some a.now }) (λ r. refl) j rows d n e

written-elsewhere :
    (a : Answers) (u v : Unsettled) (s : Store)
    → v.deployment.id ≢ u.deployment.id
    → Agrees s v
    → Agrees (record s { deployments = written a u s.deployments }) v
written-elsewhere a u v s n (d, row, same) =
    (d, find-written a u v.deployment.id s.deployments d n row, same)

written-IsDistinct :
    (a : Answers) (u : Unsettled) (rows : List Deployment)
    → IsDistinct (λ (d : Deployment). d.id) rows
    → IsDistinct (λ (d : Deployment). d.id) (written a u rows)
unfolding written
written-IsDistinct a u rows distinct =
    IsDistinct-update _ _ _ (λ d. refl) _
      (elim (Bool-cases (is_settled u.deployment.status)) [
        | inl is ↦ rw is distinct
        | inr open' ↦ rw open' (IsDistinct-update _ _ _ (λ d. refl) rows distinct)
      ])

-- Each deployment ends once.
abbrev pub AreApart : List Unsettled → Type 0
AreApart [] = Unit
AreApart (u ∷ us) = All (λ v. v.deployment.id ≢ u.deployment.id) us × AreApart us

All-written :
    (a : Answers) (u : Unsettled) (s : Store) (us : List Unsettled)
    → All (λ v. v.deployment.id ≢ u.deployment.id) us
    → All (Agrees s) us
    → All (Agrees (record s { deployments = written a u s.deployments })) us
All-written a u s [] n h = tt
All-written a u s (v ∷ us) n h = (written-elsewhere a u v s n.0 h.0, All-written a u s us n.1 h.1)

-- The rows of the deployments have outcomes and completion times.
abbrev pub AreEnded : Store → List Unsettled → Type 0
AreEnded s us = All (λ u. ended (find u.deployment.id s.deployments) ≡ true) us

-- A pass leaves the rows of other deployments as they are.
retry_all-elsewhere :
    (answers : ℕ → Answers) (i j : ℕ) (us : List Unsettled) (s : Store) (d : Deployment)
    → ((k : ℕ) → Takes (answers k))
    → IsDistinct (λ (d : Deployment). d.id) s.deployments
    → AreApart us
    → All (Agrees s) us
    → All (λ v. v.deployment.id ≢ j) us
    → find j s.deployments ≡ some d
    → find j (retry_all answers i us s).store.deployments ≡ some d
unfolding retry_all
retry_all-elsewhere answers i j [] s d takes distinct apart h n e = e
retry_all-elsewhere answers i j (u ∷ us) s d takes distinct apart h n e =
    let (quiet, store) = write_end-written (answers i) u s distinct (takes i) h.0 in
    rw store (
      retry_all-elsewhere answers (suc i) j us _ d takes
        (written-IsDistinct (answers i) u s.deployments distinct) apart.1
        (All-written (answers i) u s us apart.0 h.1) n.1
        (find-written (answers i) u j s.deployments d (λ k. n.0 (sym k)) e))

write_end-stays :
    (answers : ℕ → Answers) (i : ℕ) (u : Unsettled) (us : List Unsettled) (s : Store)
    → ((k : ℕ) → Takes (answers k))
    → IsDistinct (λ (d : Deployment). d.id) s.deployments
    → AreApart (u ∷ us)
    → All (Agrees s) (u ∷ us)
    → ended (
        find u.deployment.id
          (retry_all answers (suc i) us (write_end (answers i) u s).store).store.deployments)
      ≡ true
write_end-stays answers i u us s takes distinct apart ((d, row, same), h) =
    let (quiet, store) = write_end-written (answers i) u s distinct (takes i) (d, row, same) in
    let done = write_end-ended (answers i) u s distinct (λ is. rw (row, same) is) quiet in
    let done_there : ended (find u.deployment.id (written (answers i) u s.deployments)) ≡ true =
      subst (λ (t : Store). ended (find u.deployment.id t.deployments) ≡ true) store done in
    elim (Option-cases (find u.deployment.id (written (answers i) u s.deployments))) [
      | inl e ↦ absurd (cc (e, done_there))
      | inr (f, e) ↦
          let later =
            retry_all-elsewhere answers (suc i) u.deployment.id us
              (record s { deployments = written (answers i) u s.deployments }) f takes
              (written-IsDistinct (answers i) u s.deployments distinct) apart.1
              (All-written (answers i) u s us apart.0 h) apart.0 e in
          let is : ended (some f) ≡ true = subst (λ o. ended o ≡ true) e done_there in
          rw (store, later) is
    ]

retry_all-none :
    (answers : ℕ → Answers) (i : ℕ) (us : List Unsettled) (s : Store)
    → ((k : ℕ) → Takes (answers k))
    → IsDistinct (λ (d : Deployment). d.id) s.deployments
    → AreApart us
    → All (Agrees s) us
    → ((retry_all answers i us s).unsettled ≡ []) × AreEnded (retry_all answers i us s).store us
unfolding retry_all
retry_all-none answers i [] s takes distinct apart h = (refl, tt)
retry_all-none answers i (u ∷ us) s takes distinct apart h =
    let (quiet, store) = write_end-written (answers i) u s distinct (takes i) h.0 in
    let done = write_end-stays answers i u us s takes distinct apart h in
    let rest =
      retry_all-none answers (suc i) us
        (record s { deployments = written (answers i) u s.deployments }) takes
        (written-IsDistinct (answers i) u s.deployments distinct) apart.1
        (All-written (answers i) u s us apart.0 h.1) in
    let there =
      subst
        (λ t.
          ((retry_all answers (suc i) us t).unsettled ≡ [])
          × AreEnded (retry_all answers (suc i) us t).store us)
        (sym store) rest in
    (rw quiet there.0, (done, there.1))

-- When the database takes every statement, ids are distinct, each deployment is put off once, and the
-- database still holds each in the status that the engine last saw: one pass leaves the row of each
-- with an outcome and a completion time, and only those ends to write that arrived meanwhile.
pub retry_settling-none :
    (answers : ℕ → Answers) (arrived : List Unsettled) (p : Pending)
    → ((k : ℕ) → Takes (answers k))
    → IsDistinct (λ (d : Deployment). d.id) p.store.deployments
    → AreApart p.unsettled
    → All (Agrees p.store) p.unsettled
    → AreEnded (retry_settling answers arrived p).store p.unsettled
      × ((retry_settling answers arrived p).unsettled ≡ arrived)
unfolding retry_settling
retry_settling-none answers arrived p takes distinct apart h =
    let all = retry_all-none answers 0 p.unsettled p.store takes distinct apart h in
    (all.1, rw all.0 refl)
