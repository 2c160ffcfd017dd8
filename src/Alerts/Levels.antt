-- ===== src/Alerts/Levels.antt =====
-- The distance between the level that raises an alert and the one that clears it.
use shipwick.Base.{
  ℕ, ◌-◌, ◌*◌, ◌≤◌, ◌≡◌, inl, inr, refl, true, false, List, [], ◌∷◌, ◌==◌, arith, Bool-cases,
}
use shipwick.Alerts.{
  Severity, MetricSample, at_least, recent, last_bytes, last_three_over, judged, memory_alerting,
  disk_severity, severity_rank, memory_clear_margin,
}

at_least_mono :
    (part more whole p q : ℕ)
    → part ≤ more
    → q ≤ p
    → at_least part whole p ≡ true
    → at_least more whole q ≡ true
at_least_mono part more whole p q le lq h = elim (Bool-cases (whole == 0)) [
  | inl z ↦ ground arith
  | inr n ↦ rw n (ground (arith, below))
]
  where
    below : q * whole ≤ p * whole
    below = grind arith

last_three-last :
    (limit percent : ℕ) (m : MetricSample) (ms : List MetricSample)
    → last_three_over limit percent (m ∷ ms) ≡ true
    → at_least (last_bytes m ms) limit percent ≡ true
last_three-last limit percent m [] h = cc
last_three-last limit percent m (n ∷ []) h = cc
last_three-last limit percent a (b ∷ c ∷ []) h = ground arith
last_three-last limit percent a (b ∷ c ∷ d ∷ ms) h = last_three-last limit percent b (c ∷ d ∷ ms) h

judged-stands :
    (limit percent : ℕ) (ms : List MetricSample)
    → judged false limit percent ms ≡ true
    → judged true limit percent ms ≡ true
unfolding judged
judged-stands limit percent [] h = refl
judged-stands limit percent (m ∷ ms) h =
    at_least_mono (last_bytes m ms) (last_bytes m ms) limit percent (percent - memory_clear_margin)
      (omega arith) (omega arith) (last_three-last limit percent m ms h)

-- What raises a memory alert does not clear it: samples that raise it keep it standing once it
-- stands, so that one set of samples never does both.
pub memory_alerting-stands :
    (samples : List MetricSample) (now interval limit percent : ℕ)
    → memory_alerting false samples now interval limit percent ≡ true
    → memory_alerting true samples now interval limit percent ≡ true
unfolding memory_alerting
memory_alerting-stands samples now interval limit percent h =
    ground (arith, judged-stands limit percent (recent now interval samples))

-- The severity of the disk's alert rises with the usage and with the severity that it had.
pub disk_severity_mono :
    (was is : Severity) (used more total percent : ℕ)
    → severity_rank was ≤ severity_rank is
    → used ≤ more
    → severity_rank (disk_severity was used total percent)
      ≤ severity_rank (disk_severity is more total percent)
unfolding disk_severity
disk_severity_mono was is used more total percent r le = ground (
  arith,
  at_least_mono used more total 95 95 le,
  at_least_mono used more total 90 90 le,
  at_least_mono used more total percent percent le,
  at_least_mono used more total (percent - 5) (percent - 5) le,
)

-- Measured twice at the same usage, the disk changes its severity at most once.
pub disk_severity-twice :
    (was : Severity) (used total percent : ℕ)
    → disk_severity (disk_severity was used total percent) used total percent
      ≡ disk_severity was used total percent
unfolding disk_severity
disk_severity-twice was used total percent = ground arith
