-- ===== src/Alerts.antt =====
-- The alerts of agent/internal/deploy/alerts.go: the conditions, and the book of what is active. A
-- percentage is compared exactly, by products, where the source divides floating-point numbers.
-- Times and durations are numbers of nanoseconds. The words of an alert are left out.
pub mod Levels
pub mod Windows
pub mod Books
pub mod Memory
use shipwick.Base.{
  ℕ, zero, suc, ◌+◌, ◌-◌, ◌*◌, ◌/◌, Bool, true, false, not, ◌&&◌, ◌||◌, Option, none, some, List,
  [], ◌∷◌, ◌++◌, leb, ltb, ◌==◌, if◌then◌else◌, length, keep,
}

pub data Severity : Type 0 where
  quiet warning critical : Severity

pub record MetricSample : Type 0 where
  pub at : ℕ
  pub memory_bytes : ℕ

abbrev pub memory_samples : ℕ
memory_samples = 3

abbrev pub memory_clear_margin : ℕ
memory_clear_margin = 10

abbrev pub disk_clear_margin : ℕ
disk_clear_margin = 5

abbrev pub disk_critical_percent : ℕ
disk_critical_percent = 95

abbrev pub restart_alert_count : ℕ
restart_alert_count = 3

abbrev pub minute : ℕ
minute = 60_000_000_000

abbrev pub restart_alert_window : ℕ
restart_alert_window = 10 * minute

abbrev pub unhealthy_warning : ℕ
unhealthy_warning = 5 * minute

abbrev pub unhealthy_critical : ℕ
unhealthy_critical = 60 * minute

-- percentOf(part, whole) >= percent
abbrev pub at_least : ℕ → ℕ → ℕ → Bool
at_least part whole percent =
    if whole == 0 then leb percent 0 else leb (percent * whole) (100 * part)

-- The samples of the last few intervals: they are the oldest first.
unfoldable pub recent : ℕ → ℕ → List MetricSample → List MetricSample
recent now interval [] = []
recent now interval (m ∷ ms) =
    let rest = recent now interval ms in
    if ltb (m.at + (interval * memory_samples - interval / 2)) now then rest else m ∷ ms

abbrev pub last_bytes : MetricSample → List MetricSample → ℕ
last_bytes m [] = m.memory_bytes
last_bytes m (n ∷ ns) = last_bytes n ns

-- The last three of the samples, and whether all of them are over the threshold.
abbrev pub last_three_over : ℕ → ℕ → List MetricSample → Bool
last_three_over limit percent [] = false
last_three_over limit percent (a ∷ []) = false
last_three_over limit percent (a ∷ b ∷ []) = false
last_three_over limit percent (a ∷ b ∷ c ∷ []) =
    at_least a.memory_bytes limit percent
    && at_least b.memory_bytes limit percent
    && at_least c.memory_bytes limit percent
last_three_over limit percent (a ∷ b ∷ c ∷ d ∷ rest) =
    last_three_over limit percent (b ∷ c ∷ d ∷ rest)

unfoldable pub judged : Bool → ℕ → ℕ → List MetricSample → Bool
judged was limit percent [] = was
judged true limit percent (m ∷ ms) =
    at_least (last_bytes m ms) limit (percent - memory_clear_margin)
judged false limit percent (m ∷ ms) = last_three_over limit percent (m ∷ ms)

unfoldable pub memory_alerting : Bool → List MetricSample → ℕ → ℕ → ℕ → ℕ → Bool
unfolding recent judged
memory_alerting was samples now interval limit percent =
    if limit == 0 then was else judged was limit percent (recent now interval samples)

abbrev pub is_critical : Severity → Bool
is_critical critical = true
is_critical _ = false

abbrev pub is_quiet : Severity → Bool
is_quiet quiet = true
is_quiet _ = false

unfoldable pub disk_severity : Severity → ℕ → ℕ → ℕ → Severity
disk_severity was used total percent =
    if at_least used total disk_critical_percent
    then critical
    else if is_critical was && at_least used total (disk_critical_percent - disk_clear_margin)
    then critical
    else if at_least used total percent
    then warning
    else if not (is_quiet was) && at_least used total (percent - disk_clear_margin)
    then warning
    else quiet

-- The times that lie in the window ending at now; they are the oldest first.
unfoldable pub within : List ℕ → ℕ → ℕ → List ℕ
within [] now window = []
within (t ∷ ts) now window =
    let rest = within ts now window in if ltb (t + window) now then rest else t ∷ ts

unfoldable pub restart_alerting : Bool → List ℕ → ℕ → Bool → Bool
restart_alerting was restarts now held =
    if held
    then was
    else leb restart_alert_count (length (within restarts now restart_alert_window))

unfoldable pub unhealthy_severity : ℕ → ℕ → Severity
unhealthy_severity since now =
    if leb (since + unhealthy_critical) now
    then critical
    else if leb (since + unhealthy_warning) now
    then warning
    else quiet

-- The kinds and the names of applications are numbers here: they are only compared.
pub record AlertKey : Type 0 where
  pub kind : ℕ
  pub application : ℕ
  pub replica : ℕ

pub record Alert : Type 0 where
  pub key : AlertKey
  pub severity : Severity
  pub since : ℕ

abbrev pub same_key : AlertKey → AlertKey → Bool
same_key a b = a.kind == b.kind && (a.application == b.application && a.replica == b.replica)

abbrev pub severity_rank : Severity → ℕ
severity_rank quiet = 0
severity_rank warning = 1
severity_rank critical = 2

abbrev pub same_severity : Severity → Severity → Bool
same_severity a b = severity_rank a == severity_rank b

unfoldable pub get : AlertKey → List Alert → Option Alert
get k [] = none
get k (a ∷ rest) = if same_key a.key k then some a else get k rest

unfoldable pub put : Alert → List Alert → List Alert
put a [] = a ∷ []
put a (b ∷ rest) = if same_key b.key a.key then a ∷ rest else b ∷ put a rest

-- What the operator is told.
pub data Told : Type 0 where
  nothing : Told
  raised : AlertKey → Severity → Told
  cleared : AlertKey → Severity → Told
  -- in the feed alone
  noted : AlertKey → Told

unfoldable pub raised_over : Option Alert → AlertKey → Severity → ℕ → List Alert → List Alert × Told
raised_over none k severity now book =
    (put (record { key = k; severity = severity; since = now }) book, raised k severity)
raised_over (some was) k severity now book =
    if same_severity was.severity severity then (book, nothing) else (
      put (record { key = k; severity = severity; since = was.since }) book,
      if is_critical severity then raised k severity else nothing,
    )

unfoldable pub raise_alert : AlertKey → Severity → ℕ → List Alert → List Alert × Told
unfolding raised_over get put
raise_alert k severity now book = raised_over (get k book) k severity now book

unfoldable pub clear_alert : AlertKey → Bool → List Alert → List Alert × Told
unfolding get
clear_alert k is_told_elsewhere book = elim (get k book) [
  | none ↦ (keep (λ a. not (same_key a.key k)) book, nothing)
  | some was ↦ (
    keep (λ a. not (same_key a.key k)) book,
    if is_told_elsewhere then noted k else cleared k was.severity,
  )
]

unfoldable pub drop_alerts : (AlertKey → Bool) → List Alert → List Alert
drop_alerts gone = keep (λ a. not (gone a.key))

-- The restarts that the book remembers of one container.
unfoldable pub note_restart : ℕ → List ℕ → List ℕ
unfolding within
note_restart now times = within times now restart_alert_window ++ now ∷ []

-- The disk's alert after a measurement, if there is one (a disk of no size is none); kind 0 is the disk's here.
abbrev pub disk_key : AlertKey
disk_key = record { kind = 0; application = 0; replica = 0 }

abbrev pub severity_of : Option Alert → Severity
severity_of none = quiet
severity_of (some a) = a.severity

unfoldable pub check_disk : ℕ → ℕ → ℕ → ℕ → List Alert → List Alert × Told
unfolding disk_severity raise_alert clear_alert
check_disk used total percent now book =
    let checked : List Alert × Told =
      elim (disk_severity (severity_of (get disk_key book)) used total percent) [
        | critical ↦ raise_alert disk_key critical now book
        | warning ↦ raise_alert disk_key warning now book
        | quiet ↦ clear_alert disk_key false book
      ] in
    if total == 0 then (book, nothing) else checked
