-- ===== src/Supervisor/Probes.antt =====
-- What a run of probes does to a replica's health.
use shipwick.Base.{
  ℕ, ◌+◌, ◌<◌, ◌≡◌, ◌≢◌, ◌⊎◌, inl, refl, true, false, List, [], ◌∷◌, leb, if◌then◌else◌, length,
  arith,
}
use shipwick.Supervisor.{
  Options, HealthCheck, Health, ReplicaState, unchecked, unknown, starting, healthy, unhealthy,
  is_ready, probed, restarted,
}

-- Probes launched at these times, all of them unanswered or answered badly.
unfoldable pub failing : HealthCheck → List ℕ → ReplicaState → ReplicaState
failing h [] st = st
failing h (t ∷ ts) st = failing h ts (probed t h false st)

failing-unhealthy :
    (h : HealthCheck) (ts : List ℕ) (st : ReplicaState)
    → st.health ≡ unhealthy
    → (failing h ts st).health ≡ unhealthy
unfolding failing probed
failing-unhealthy h [] st e = e
failing-unhealthy h (t ∷ ts) st e = failing-unhealthy h ts (probed t h false st) (ground arith)

failing-count :
    (h : HealthCheck) (ts : List ℕ) (st : ReplicaState)
    → st.health ≡ healthy
    → st.failures < h.retries
    → (failing h ts st).health
      ≡ (if leb h.retries (st.failures + length ts) then unhealthy else healthy)
unfolding failing probed
failing-count h [] st e n = ground arith
failing-count h (t ∷ ts) st e n =
    ground (
      arith,
      failing-unhealthy h ts (probed t h false st),
      failing-count h ts (probed t h false st),
    )

-- A replica that has just answered turns unhealthy exactly when the checks that then fail in a row
-- reach the number of retries.
pub failures_in_a_row :
    (h : HealthCheck) (now : ℕ) (ts : List ℕ) (st : ReplicaState)
    → 0 < h.retries
    → (failing h ts (probed now h true st)).health
      ≡ (if leb h.retries (length ts) then unhealthy else healthy)
unfolding probed
failures_in_a_row h now ts st n = ground (arith, failing-count h ts (probed now h true st))

abbrev IsUnready : ReplicaState → Type 0
IsUnready st = (st.health ≡ starting) ⊎ (st.health ≡ unhealthy)

failing-IsUnready :
    (h : HealthCheck) (ts : List ℕ) (st : ReplicaState) → IsUnready st → IsUnready (failing h ts st)
unfolding failing probed
failing-IsUnready h [] st u = u
failing-IsUnready h (t ∷ ts) st u = failing-IsUnready h ts (probed t h false st) (ground arith)

-- After a restart a replica with a health check takes no traffic, however many probes fail, and takes
-- it again with the first one that is answered.
pub restarted-is_ready :
    (o : Options) (h : HealthCheck) (now later : ℕ) (ts : List ℕ) (st : ReplicaState)
    → st.health ≢ unchecked
    → let down = failing h ts (restarted o now st) in
      (is_ready true down.health ≡ false) × (is_ready true (probed later h true down).health ≡ true)
unfolding restarted probed is_ready
restarted-is_ready o h now later ts st n =
    (ground (arith, failing-IsUnready h ts (restarted o now st) (fresh st.health n)), refl)
  where
    fresh :
        (k : Health)
        → k ≢ unchecked
        → (elim k [ unchecked ↦ unchecked | _ ↦ starting ] ≡ starting)
          ⊎ (elim k [ unchecked ↦ unchecked | _ ↦ starting ] ≡ unhealthy)
    fresh unchecked m = absurd (m refl)
    fresh unknown m = inl refl
    fresh starting m = inl refl
    fresh healthy m = inl refl
    fresh unhealthy m = inl refl
