-- ===== src/Supervisor/Policy.antt =====
-- What the restart policy and the count of restarts promise over a replica's whole history.
use shipwick.Base.{
  ℕ, ◌≡◌, ◌⊎◌, inl, inr, refl, true, false, ◌&&◌, none, some, List, [], ◌∷◌, leb, ltb, length,
  arith, Option-cases,
}
use shipwick.Supervisor.{
  Options, Spec, ReplicaState, never, first_sight, should_restart, restarted, look, is_stable,
  forgive, seen_running, check_health, probed, seen_down, decided, due,
}
use shipwick.Supervisor.Pacing.{
  Happening, found_up, found_down, answered, happens, ready_to_restart, waits,
}

-- A replica's history: what happens to it, and when.
unfoldable pub history : Options → Spec → List (ℕ × Happening) → ReplicaState → ReplicaState
history o spec [] st = st
history o spec ((now, e) ∷ es) st = history o spec es (happens o spec now e st)

abbrev IsLeft : ReplicaState → Type 0
IsLeft st = (st.restarts ≡ 0) × ((st.exit_seen ≡ false) ⊎ (st.leave_stopped ≡ true))

never-ready :
    (o : Options) (spec : Spec) (now : ℕ) (e : Happening) (st : ReplicaState)
    → spec.policy ≡ never
    → IsLeft st
    → ready_to_restart o spec now e st ≡ none
unfolding ready_to_restart look check_health is_stable forgive seen_running due seen_down decided
    should_restart
never-ready o spec now (answered launched h answer) st p l = refl
never-ready o spec now (found_up has_ip) st p l = ground arith
never-ready o spec now (found_down none) st p l = ground arith
never-ready o spec now (found_down (some c)) st p l = ground arith

never-waits :
    (o : Options) (spec : Spec) (now : ℕ) (e : Happening) (st : ReplicaState)
    → spec.policy ≡ never
    → IsLeft st
    → IsLeft (waits o spec now e st)
unfolding waits look check_health is_stable forgive seen_running seen_down decided should_restart
    probed
never-waits o spec now (answered launched h true) st p l = ground arith
never-waits o spec now (answered launched h false) st p l = ground arith
never-waits o spec now (found_up has_ip) st p l = ground arith
never-waits o spec now (found_down none) st p l = ground arith
never-waits o spec now (found_down (some c)) st p l = ground arith

never-IsLeft :
    (o : Options) (spec : Spec) (es : List (ℕ × Happening)) (st : ReplicaState)
    → spec.policy ≡ never
    → IsLeft st
    → IsLeft (history o spec es st)
unfolding history happens
never-IsLeft o spec [] st p l = l
never-IsLeft o spec ((now, e) ∷ es) st p l =
    never-IsLeft o spec es (happens o spec now e st) p
      (rw (happens, never-ready o spec now e st p l) (never-waits o spec now e st p l))

-- Under the policy `never` no history restarts a replica.
pub never_restarts :
    (o : Options) (spec : Spec) (es : List (ℕ × Happening))
    → spec.policy ≡ never
    → (history o spec es (first_sight spec)).restarts ≡ 0
unfolding first_sight
never_restarts o spec es p = (never-IsLeft o spec es (first_sight spec) p (refl, inl refl)).0

abbrev IsCounted : Options → ReplicaState → Type 0
IsCounted o st = st.crash_loop ≡ (ltb 0 st.restarts && leb (length o.restart_delays) st.restarts)

ready-IsCounted :
    (o : Options) (spec : Spec) (now : ℕ) (e : Happening) (st before : ReplicaState)
    → IsCounted o st
    → ready_to_restart o spec now e st ≡ some before
    → IsCounted o before
unfolding ready_to_restart look check_health is_stable forgive seen_running seen_down decided
ready-IsCounted o spec now (answered launched h answer) st before c e = absurd (cc)
ready-IsCounted o spec now (found_up has_ip) st before c e = ground arith
ready-IsCounted o spec now (found_down none) st before c e = ground arith
ready-IsCounted o spec now (found_down (some x)) st before c e = ground arith

restarted-IsCounted :
    (o : Options) (now : ℕ) (st : ReplicaState) → IsCounted o st → IsCounted o (restarted o now st)
unfolding restarted
restarted-IsCounted o now st c = ground arith

waits-IsCounted :
    (o : Options) (spec : Spec) (now : ℕ) (e : Happening) (st : ReplicaState)
    → IsCounted o st
    → IsCounted o (waits o spec now e st)
unfolding waits look check_health is_stable forgive seen_running seen_down decided probed
waits-IsCounted o spec now (answered launched h true) st c = ground arith
waits-IsCounted o spec now (answered launched h false) st c = ground arith
waits-IsCounted o spec now (found_up has_ip) st c = ground arith
waits-IsCounted o spec now (found_down none) st c = ground arith
waits-IsCounted o spec now (found_down (some x)) st c = ground arith

history-IsCounted :
    (o : Options) (spec : Spec) (es : List (ℕ × Happening)) (st : ReplicaState)
    → IsCounted o st
    → IsCounted o (history o spec es st)
unfolding history happens
history-IsCounted o spec [] st c = c
history-IsCounted o spec ((now, e) ∷ es) st c =
    history-IsCounted o spec es (happens o spec now e st)
      (elim (Option-cases (ready_to_restart o spec now e st)) [
        | inl n ↦ rw (happens, n) (waits-IsCounted o spec now e st c)
        | inr (before, n) ↦
            rw (happens, n)
              (restarted-IsCounted o now before (ready-IsCounted o spec now e st before c n))
      ])

-- After any history a replica counts as crash-looping exactly when it has been restarted, since its
-- last stable run, at least as often as the schedule has delays (and at least once).
pub crash_loop-iff_count :
    (o : Options) (spec : Spec) (es : List (ℕ × Happening))
    → let st = history o spec es (first_sight spec) in
      st.crash_loop ≡ (ltb 0 st.restarts && leb (length o.restart_delays) st.restarts)
unfolding first_sight
crash_loop-iff_count o spec es = history-IsCounted o spec es (first_sight spec) refl
