-- ===== src/Examples/Warnings.antt =====
-- A memory that fills up, a disk, and restarts within minutes.
use shipwick.Base.{ℕ, ◌*◌, true, false, some, List, [], ◌∷◌}
use shipwick.Alerts.{warning, MetricSample, minute, AlertKey, Alert}
use shipwick.Alerts.Memory.{Consumer, Limits, memory_key}

abbrev sample : ℕ → ℕ → MetricSample
sample at bytes = record { at = at; memory_bytes = bytes }

abbrev samples : List MetricSample
samples = sample 100 50 ∷ sample 160 95 ∷ sample 220 96 ∷ sample 280 97 ∷ []

abbrev restarts : List ℕ
restarts = minute ∷ 12 * minute ∷ 13 * minute ∷ 14 * minute ∷ []

abbrev first_key : AlertKey
first_key = record { kind = 1; application = 7; replica = 2 }

abbrev other_key : AlertKey
other_key = record { kind = 2; application = 7; replica = 2 }

abbrev book : List Alert
book = record { key = first_key; severity = warning; since = 40 } ∷ []

abbrev consumer : Consumer
consumer = record {
  app = 7;
  is_deployed = true;
  is_wanted = true;
  is_static = false;
  replicas = 1;
  limit = 100;
  samples = some ((1, sample 160 95) ∷ (1, sample 220 96) ∷ (1, sample 280 97) ∷ []);
}

abbrev limits : Limits
limits = record { interval = 60; percent = 90 }

abbrev measured : List (ℕ × MetricSample)
measured = (1, sample 160 95) ∷ (1, sample 220 96) ∷ (1, sample 280 97) ∷ []

-- Of application 7 the second replica is no more.
abbrev stale : List Alert
stale = record { key = memory_key 7 2; severity = warning; since = 40 } ∷ []
