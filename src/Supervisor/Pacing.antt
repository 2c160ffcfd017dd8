-- ===== src/Supervisor/Pacing.antt =====
-- Restarts are spaced out: what one replica goes through, tick by tick.
use shipwick.Base.{
  ℕ, ◌+◌, ◌≤◌, ◌≡◌, ◌⊎◌, inl, inr, refl, min, Bool, true, false, ◌&&◌, Option, none, some, ltb,
  if◌then◌else◌, arith, Bool-cases, both_branches, Option-cases, ap,
}
use shipwick.Supervisor.{
  Options, Spec, HealthCheck, ReplicaState, Exit, delay, should_restart, restarted, look, is_stable,
  forgive, seen_running, check_health, probed, seen_down, decided, due,
}

-- What happens to a replica: a tick finds it running (with an address or not), a tick finds it down,
-- or a probe launched by an earlier tick is answered.
pub data Happening : Type 0 where
  found_up : Bool → Happening
  found_down : Option Exit → Happening
  answered : ℕ → HealthCheck → Bool → Happening

-- The replica is restarted by the tick at `now`, from the state that the tick has made.
unfoldable pub ready_to_restart :
    Options → Spec → ℕ → Happening → ReplicaState → Option ReplicaState
unfolding due
ready_to_restart o spec now (found_up has_ip) st =
    let l = look o spec now has_ip st in if l.restarts_unhealthy then some l.state else none
ready_to_restart o spec now (found_down inspected) st =
    let down = seen_down spec st in
    if st.exit_seen then (if due now down then some down else none) else elim inspected [
      | none ↦ none
      | some c ↦
          let fate = decided o spec now c down in
          if should_restart spec.policy c && due now fate then some fate else none
    ]
ready_to_restart o spec now (answered launched h answer) st = none

-- The state without a restart.
unfoldable pub waits : Options → Spec → ℕ → Happening → ReplicaState → ReplicaState
waits o spec now (found_up has_ip) st = (look o spec now has_ip st).state
waits o spec now (found_down inspected) st =
    let down = seen_down spec st in
    if st.exit_seen
    then down
    else elim inspected [ none ↦ down | some c ↦ decided o spec now c down ]
waits o spec now (answered launched h answer) st = probed launched h answer st

unfoldable pub happens : Options → Spec → ℕ → Happening → ReplicaState → ReplicaState
unfolding ready_to_restart waits
happens o spec now e st = elim (ready_to_restart o spec now e st) [
  | some before ↦ restarted o now before
  | none ↦ waits o spec now e st
]

pub record IsPaced (o : Options) (clock : ℕ) (st : ReplicaState) : Type 0 where
  pub past : st.last_restart ≤ clock
  pub spaced :
      ((st.restarts ≡ 0) × ((st.last_restart ≡ 0) ⊎ (st.last_restart + o.stable_after ≤ clock)))
      ⊎ (st.last_restart + delay o st.restarts ≤ st.next_restart)

abbrev Keeps : ReplicaState → ReplicaState → Type 0
Keeps st t =
    (t.restarts ≡ st.restarts)
    × (t.last_restart ≡ st.last_restart)
    × (t.next_restart ≡ st.next_restart)

probed-Keeps :
    (launched : ℕ) (h : HealthCheck) (answer : Bool) (st : ReplicaState)
    → Keeps st (probed launched h answer st)
unfolding probed
probed-Keeps launched h true st = (refl, refl, refl)
probed-Keeps launched h false st = ground arith

Keeps-IsPaced :
    (o : Options) (clock now : ℕ) (st t : ReplicaState)
    → clock ≤ now
    → Keeps st t
    → IsPaced o clock st
    → IsPaced o now t
Keeps-IsPaced o clock now st t le k p = ground (arith, ap (delay o) k.0)

-- The state after the past has been forgiven, or not.
abbrev calm : Options → ℕ → ReplicaState → ReplicaState
calm o now st =
    if is_stable o now (seen_running now st)
    then forgive (seen_running now st)
    else seen_running now st

is_stable-le :
    (o : Options) (now : ℕ) (st : ReplicaState)
    → is_stable o now st ≡ true
    → st.last_restart + o.stable_after ≤ now
unfolding is_stable
is_stable-le o now st h = ground arith

calm-IsPaced :
    (o : Options) (clock now : ℕ) (st : ReplicaState)
    → clock ≤ now
    → IsPaced o clock st
    → IsPaced o now (calm o now st)
unfolding forgive seen_running
calm-IsPaced o clock now st le p = elim (Bool-cases (is_stable o now (seen_running now st))) [
  | inl long ↦ rw long (record {
    past = omega (arith, p.past);
    spaced = inl (refl, inr (is_stable-le o now (seen_running now st) long));
  })
  | inr short ↦
      rw short (Keeps-IsPaced o clock now st (seen_running now st) le (refl, refl, refl) p)
]

check_health-Keeps :
    (o : Options) (spec : Spec) (now : ℕ) (has_ip recovered : Bool) (h : HealthCheck)
    (st : ReplicaState)
    → Keeps st (check_health o spec now has_ip recovered h st).state
unfolding check_health
check_health-Keeps o spec now has_ip recovered h st = ground arith

look-IsPaced :
    (o : Options) (spec : Spec) (clock now : ℕ) (has_ip : Bool) (st : ReplicaState)
    → clock ≤ now
    → IsPaced o clock st
    → IsPaced o now (look o spec now has_ip st).state
unfolding look seen_running
look-IsPaced o spec clock now has_ip st le p = elim (Option-cases spec.health) [
  | inl e ↦ rw (e, look) (calm-IsPaced o clock now st le p)
  | inr (h, e) ↦
      rw (e, look)
        (Keeps-IsPaced o now now (calm o now st) _ (omega arith)
          (check_health-Keeps o spec now has_ip
            (is_stable o now (seen_running now st) && st.crash_loop) h (calm o now st))
          (calm-IsPaced o clock now st le p))
]

seen_down-Keeps : (spec : Spec) (st : ReplicaState) → Keeps st (seen_down spec st)
unfolding seen_down
seen_down-Keeps spec st = ground arith

restarted-IsPaced : (o : Options) (now : ℕ) (st : ReplicaState) → IsPaced o now (restarted o now st)
unfolding restarted
restarted-IsPaced o now st = record { past = omega arith; spaced = inr (omega arith) }

decided-IsPaced :
    (o : Options) (spec : Spec) (clock now : ℕ) (c : Exit) (st : ReplicaState)
    → clock ≤ now
    → IsPaced o clock st
    → IsPaced o now (decided o spec now c st)
unfolding decided
decided-IsPaced o spec clock now c st le p = record {
  past = omega (arith, p.past);
  spaced = inr (omega (arith, p.past));
}

waits-IsPaced :
    (o : Options) (spec : Spec) (clock now : ℕ) (e : Happening) (st : ReplicaState)
    → clock ≤ now
    → IsPaced o clock st
    → IsPaced o now (waits o spec now e st)
unfolding waits
waits-IsPaced o spec clock now (found_up has_ip) st le p =
    look-IsPaced o spec clock now has_ip st le p
waits-IsPaced o spec clock now (answered launched h answer) st le p =
    Keeps-IsPaced o clock now st _ le (probed-Keeps launched h answer st) p
waits-IsPaced o spec clock now (found_down inspected) st le p =
    let down = Keeps-IsPaced o clock now st (seen_down spec st) le (seen_down-Keeps spec st) p in
    both_branches (IsPaced o now) st.exit_seen _ _ (λ _. down) (λ _. after inspected down)
  where
    after :
        (i : Option Exit)
        → IsPaced o now (seen_down spec st)
        → IsPaced o now (elim i [
          | none ↦ seen_down spec st
          | some c ↦ decided o spec now c (seen_down spec st)
        ])
    after none down = down
    after (some c) down = decided-IsPaced o spec now now c (seen_down spec st) (omega arith) down

-- Whatever happens at a time that is not before the last one, the books stay paced: the last restart
-- is not later than the clock, and either the restarts were forgiven after a stable run (or never
-- were), or the next one is not before the delay for their count has passed.
pub happens-IsPaced :
    (o : Options) (spec : Spec) (clock now : ℕ) (e : Happening) (st : ReplicaState)
    → clock ≤ now
    → IsPaced o clock st
    → IsPaced o now (happens o spec now e st)
unfolding happens
happens-IsPaced o spec clock now e st le p =
    elim (Option-cases (ready_to_restart o spec now e st)) [
      | inl n ↦ rw (n, happens) (waits-IsPaced o spec clock now e st le p)
      | inr (before, n) ↦ rw (n, happens) (restarted-IsPaced o now before)
    ]

abbrev pub IsSpaced : Options → ℕ → ReplicaState → Type 0
IsSpaced o now st =
    (st.last_restart ≡ 0) ⊎ (st.last_restart + min (delay o st.restarts) o.stable_after ≤ now)

due-IsSpaced :
    (o : Options) (now : ℕ) (st : ReplicaState)
    → IsPaced o now st
    → ltb now st.next_restart ≡ false
    → IsSpaced o now st
due-IsSpaced o now st p h = ground arith

look_again :
    (o : Options) (spec : Spec) (now : ℕ) (has_ip : Bool) (st : ReplicaState)
    → (look o spec now has_ip st).restarts_unhealthy ≡ true
    → ltb now st.next_restart ≡ false
unfolding look check_health is_stable forgive seen_running
look_again o spec now has_ip st h = ground arith

due-ltb :
    (spec : Spec) (now : ℕ) (st : ReplicaState)
    → due now (seen_down spec st) ≡ true
    → ltb now st.next_restart ≡ false
unfolding due seen_down
due-ltb spec now st h = ground arith

decided-IsSpaced :
    (o : Options) (spec : Spec) (now : ℕ) (c : Exit) (st : ReplicaState)
    → IsPaced o now st
    → due now (decided o spec now c (seen_down spec st)) ≡ true
    → IsSpaced o now st
unfolding due decided seen_down
decided-IsSpaced o spec now c st p h = ground arith

-- When a paced replica is restarted, its last restart, if there was one, lies at least the smaller
-- of two times back: the delay of the schedule for the restarts that are counted, and the length of
-- a stable run.
pub restarts-IsSpaced :
    (o : Options) (spec : Spec) (clock now : ℕ) (e : Happening) (st before : ReplicaState)
    → clock ≤ now
    → IsPaced o clock st
    → ready_to_restart o spec now e st ≡ some before
    → IsSpaced o now st
unfolding ready_to_restart due
restarts-IsSpaced o spec clock now (answered launched c answer) st before le p h = absurd (cc)
restarts-IsSpaced o spec clock now (found_up has_ip) st before le p h =
    due-IsSpaced o now st (Keeps-IsPaced o clock now st st le (refl, refl, refl) p)
      (look_again o spec now has_ip st (ground arith))
restarts-IsSpaced o spec clock now (found_down inspected) st before le p h =
    elim (Bool-cases st.exit_seen) [
      | inl seen ↦ due-IsSpaced o now st here (due-ltb spec now st (ground arith))
      | inr new ↦ first inspected (ground arith)
    ]
  where
    here : IsPaced o now st
    here = Keeps-IsPaced o clock now st st le (refl, refl, refl) p

    first :
        (i : Option Exit)
        → elim i [
          | none ↦ none
          | some c ↦
              let fate = decided o spec now c (seen_down spec st) in
              if should_restart spec.policy c && due now fate then some fate else none
        ]
          ≡ some before
        → IsSpaced o now st
    first none k = absurd (cc)
    first (some c) k = decided-IsSpaced o spec now c st here (ground arith)
