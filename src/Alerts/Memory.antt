-- ===== src/Alerts/Memory.antt =====
-- The check of memory: `checkMemory` of agent/internal/deploy/alerts.go, when the list of applications
-- could be read; otherwise nothing changes.
use shipwick.Base.{
  ℕ, ◌≡◌, ◌∙◌, ap, refl, Bool, true, false, not, ◌&&◌, Option, none, some, List, [], ◌∷◌, ◌==◌,
  if◌then◌else◌, any, one_to,
}
use shipwick.Alerts.{
  warning, MetricSample, AlertKey, Alert, Told, nothing, same_key, get, raise_alert, clear_alert,
  drop_alerts, memory_alerting,
}
use shipwick.Alerts.Books.{raise_alert_lem, clear_alert_lem, get-drop_alerts}

-- What is read of an application: its replicas' samples, with their indexes, or none if they cannot
-- be read.
pub record Consumer : Type 0 where
  pub app : ℕ
  pub is_deployed : Bool
  pub is_wanted : Bool
  pub is_static : Bool
  pub replicas : ℕ
  pub limit : ℕ
  pub samples : Option (List (ℕ × MetricSample))

pub record Limits : Type 0 where
  pub interval : ℕ
  pub percent : ℕ

-- Kind 2 is that of memory here.
abbrev pub memory_key : ℕ → ℕ → AlertKey
memory_key app i = record { kind = 2; application = app; replica = i }

abbrev pub is_active : Option Alert → Bool
is_active none = false
is_active (some a) = true

unfoldable pub samples_of : ℕ → List (ℕ × MetricSample) → List MetricSample
samples_of i [] = []
samples_of i (m ∷ ms) = let rest = samples_of i ms in if m.0 == i then m.1 ∷ rest else rest

-- One replica, whose alert stood or not.
unfoldable pub judge : AlertKey → Bool → Bool → ℕ → List Alert → List Alert × Told
judge k was now_is now book =
    if now_is && not was
    then raise_alert k warning now book
    else if was && not now_is
    then clear_alert k false book
    else (book, nothing)

unfoldable pub check_replica :
    Limits → ℕ → ℕ → ℕ → List (ℕ × MetricSample) → ℕ → List Alert → List Alert × Told
unfolding judge samples_of
check_replica l app limit now samples i book =
    let k = memory_key app i in
    let was = is_active (get k book) in
    judge k was (memory_alerting was (samples_of i samples) now l.interval limit l.percent) now book

unfoldable pub check_replicas :
    Limits → ℕ → ℕ → ℕ → List (ℕ × MetricSample) → List ℕ → List Alert → List Alert
unfolding check_replica
check_replicas l app limit now samples [] book = book
check_replicas l app limit now samples (i ∷ is) book =
    check_replicas l app limit now samples is (check_replica l app limit now samples i book).0

abbrev pub is_limited : Consumer → Bool
is_limited c = c.is_deployed && c.is_wanted && not (c.limit == 0) && not c.is_static

-- The loop over the applications; it stops where samples cannot be read.
unfoldable pub check_consumers : Limits → ℕ → List Consumer → List Alert → List Alert × Bool
unfolding check_replicas
check_consumers l now [] book = (book, true)
check_consumers l now (c ∷ cs) book = elim c.samples [
  | none ↦ if is_limited c then (book, false) else check_consumers l now cs book
  | some ms ↦ check_consumers l now cs (
      if is_limited c then check_replicas l c.app c.limit now ms (one_to c.replicas) book else book)
]

-- The replicas that have a limit.
abbrev pub has_limit : List Consumer → AlertKey → Bool
has_limit cs k =
    any
      (λ c. is_limited c && c.app == k.application && any (λ i. i == k.replica) (one_to c.replicas))
      cs

abbrev pub is_memory : AlertKey → Bool
is_memory k = k.kind == 2

unfoldable pub check_memory : Bool → Limits → ℕ → List Consumer → List Alert → List Alert
unfolding check_consumers drop_alerts
check_memory is_enforced l now cs book =
    let (checked, done) = check_consumers l now cs book in
    if not is_enforced
    then drop_alerts is_memory book
    else if done
    then drop_alerts (λ k. is_memory k && not (has_limit cs k)) checked
    else checked

-- After a replica was checked its alert stands exactly when its samples say so, given whether it
-- stood before, and the alerts of other keys are as they were.
pub check_replica_lem :
    (l : Limits) (app limit now i : ℕ) (samples : List (ℕ × MetricSample)) (j : AlertKey)
    (book : List Alert)
    → let k = memory_key app i in
      let r = check_replica l app limit now samples i book in
      (is_active (get k r.0)
        ≡ memory_alerting
            (is_active (get k book))
            (samples_of i samples)
            now
            l.interval
            limit
            l.percent)
      × (same_key k j ≡ false → get j r.0 ≡ get j book)
unfolding check_replica judge
check_replica_lem l app limit now i samples j book = judged (is_active (get k book)) now_is refl
  where
    k : AlertKey
    k = memory_key app i

    now_is : Bool
    now_is =
        memory_alerting (is_active (get k book)) (samples_of i samples) now l.interval limit
          l.percent

    judged :
        (was is : Bool)
        → is_active (get k book) ≡ was
        → (is_active (get k (judge k was is now book).0) ≡ is)
          × (same_key k j ≡ false → get j (judge k was is now book).0 ≡ get j book)
    judged false false e = (e, λ n. refl)
    judged true true e = (e, λ n. refl)
    judged false true e = let r = raise_alert_lem k j warning now book in (ap is_active r.0, r.1)
    judged true false e = let r = clear_alert_lem k j false false book in (ap is_active r.0, r.1)

-- A memory alert of a replica without a limit does not survive a check in which all samples could be
-- read, and where the kernel does not enforce limits no memory alert does.
pub check_memory-has_limit :
    (is_enforced : Bool) (l : Limits) (now : ℕ) (cs : List Consumer) (k : AlertKey)
    (book : List Alert)
    → is_memory k ≡ true
    → (is_enforced ≡ true → has_limit cs k ≡ false)
    → (is_enforced ≡ true → (check_consumers l now cs book).1 ≡ true)
    → get k (check_memory is_enforced l now cs book) ≡ none
unfolding check_memory drop_alerts
check_memory-has_limit false l now cs k book mem unlimited done =
    get-drop_alerts is_memory k book ∙ cc mem
check_memory-has_limit true l now cs k book mem unlimited done =
    let gone =
      get-drop_alerts (λ j. is_memory j && not (has_limit cs j)) k
        (check_consumers l now cs book).0 in
    rw (done refl) (gone ∙ cc (mem, unlimited refl))
