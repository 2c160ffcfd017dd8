-- ===== src/Supervisor/Refinement.antt =====
-- The handlers over the supervisor's books do to one replica what `happens` says, and nothing to
-- any other.
use shipwick.Base.{
  ℕ, ◌≡◌, sym, ◌∙◌, inl, inr, Bool, true, false, Option, none, some, List, [], ◌==◌, if◌then◌else◌,
  arith, Bool-cases, ◌&&◌,
}
use shipwick.Supervisor.{
  Options, Spec, ReplicaState, Exit, look, seen_down, decided, due, restarted, should_restart,
}
use shipwick.Supervisor.Book.{get, put, get-put, get-put_self}
use shipwick.Supervisor.Handlers.{
  Supervisor, Event, state, set_state, restart, supervise_running, when_due, after_inspection,
  supervise_down,
}
use shipwick.Supervisor.Pacing.{found_up, found_down, happens, ready_to_restart, waits}

-- The entry of `id` becomes `st`, and the other entries stay.
abbrev pub Becomes : ℕ → ReplicaState → Supervisor → Supervisor → Type 0
Becomes id st s t = (j : ℕ) → get j t.states ≡ (if id == j then some st else get j s.states)

restart-Becomes :
    (o : Options) (now id : ℕ) (done : Bool) (st : ReplicaState) (s : Supervisor)
    → Becomes id (restarted o now st) s (restart o now id done (set_state id st s)).0
unfolding restart
restart-Becomes o now id done st s j =
    rw (get-put_self id st s.states, restart)
      (ground
        (arith, get-put id j (restarted o now st) (put id st s.states), get-put id j st s.states))

-- A tick over a running replica leaves in its entry of the books what `happens` makes of the state
-- that the books had for it (that of the first sight, if they had none), and every other entry as
-- it was.
pub running-Becomes :
    (o : Options) (spec : Spec) (now id : ℕ) (has_ip done : Bool) (s : Supervisor)
    → Becomes id
        (happens o spec now (found_up has_ip) (state spec id s))
        s
        (supervise_running o spec now id has_ip done s).0
unfolding supervise_running happens ready_to_restart waits
running-Becomes o spec now id has_ip done s j =
    let l = look o spec now has_ip (state spec id s) in
    elim (Bool-cases l.restarts_unhealthy) [
      | inl again ↦
          rw (again, supervise_running, happens, ready_to_restart)
            (restart-Becomes o now id done l.state s j)
      | inr calm ↦
          rw (calm, supervise_running, happens, ready_to_restart) (get-put id j l.state s.states)
    ]

due-Becomes :
    (o : Options) (now id : ℕ) (done : Bool) (st : ReplicaState) (s : Supervisor)
    → Becomes id
        (if due now st then restarted o now st else st)
        s
        (when_due o now id done st (set_state id st s)).0
unfolding when_due
due-Becomes o now id done st s j = elim (Bool-cases (due now st)) [
  | inl d ↦ rw (d, when_due) (restart-Becomes o now id done st s j)
  | inr d ↦ rw (d, when_due) (get-put id j st s.states)
]

seen-happens :
    (o : Options) (spec : Spec) (now : ℕ) (i : Option Exit) (st : ReplicaState)
    → st.exit_seen ≡ true
    → happens o spec now (found_down i) st ≡ (
        if due now (seen_down spec st)
        then restarted o now (seen_down spec st)
        else seen_down spec st)
unfolding happens ready_to_restart waits
seen-happens o spec now i st h = ground arith

unasked-happens :
    (o : Options) (spec : Spec) (now : ℕ) (st : ReplicaState)
    → st.exit_seen ≡ false
    → happens o spec now (found_down none) st ≡ seen_down spec st
unfolding happens ready_to_restart waits
unasked-happens o spec now st h = ground arith

ended-happens :
    (o : Options) (spec : Spec) (now : ℕ) (c : Exit) (st : ReplicaState)
    → st.exit_seen ≡ false
    → let fate = decided o spec now c (seen_down spec st) in
      happens o spec now (found_down (some c)) st
      ≡ (if should_restart spec.policy c && due now fate then restarted o now fate else fate)
unfolding happens ready_to_restart waits
ended-happens o spec now c st h = ground arith

Becomes-over :
    (id : ℕ) (old new : ReplicaState) (s t : Supervisor)
    → Becomes id new (set_state id old s) t
    → Becomes id new s t
Becomes-over id old new s t h j = ground (arith, h j, get-put id j old s.states)

seen_down-exit_seen :
    (spec : Spec) (st : ReplicaState) → (seen_down spec st).exit_seen ≡ st.exit_seen
unfolding seen_down
seen_down-exit_seen spec st = ground arith

-- The tick that finds a replica newly down.
decided-Becomes :
    (o : Options) (spec : Spec) (now id : ℕ) (c : Exit) (done : Bool) (st : ReplicaState)
    (s : Supervisor)
    → let fate = decided o spec now c st in
      Becomes id
        (if should_restart spec.policy c && due now fate then restarted o now fate else fate)
        s
        (after_inspection o spec now id c done st (set_state id st s)).0
unfolding after_inspection
decided-Becomes o spec now id c done st s j = elim (Bool-cases (should_restart spec.policy c)) [
  | inl r ↦
      rw (r, after_inspection)
        (Becomes-over id st
          (if due now (decided o spec now c st)
            then restarted o now (decided o spec now c st)
            else decided o spec now c st)
          s
          (when_due o now id done (decided o spec now c st)
            (set_state id (decided o spec now c st) (set_state id st s))).0
          (due-Becomes o now id done (decided o spec now c st) (set_state id st s)) j)
  | inr r ↦
      rw (r, after_inspection)
        (Becomes-over id st (decided o spec now c st) s
          (set_state id (decided o spec now c st) (set_state id st s))
          (λ k. get-put id k (decided o spec now c st) (put id st s.states)) j)
]

-- A tick over a replica that is down leaves in its entry of the books what `happens` makes of the
-- state that they had for it (that of the first sight, if they had none), whatever Docker says of
-- its end, and every other entry as it was.
pub down-Becomes :
    (o : Options) (spec : Spec) (now id : ℕ) (inspected : Option Exit) (done : Bool)
    (s : Supervisor)
    → Becomes id
        (happens o spec now (found_down inspected) (state spec id s))
        s
        (supervise_down o spec now id inspected done s).0
unfolding supervise_down seen_down
down-Becomes o spec now id inspected done s j =
    let st : ReplicaState = state spec id s in
    elim (Bool-cases (seen_down spec st).exit_seen) [
      | inl seen ↦
          rw
            (
              seen,
              supervise_down,
              seen-happens o spec now inspected st (sym (seen_down-exit_seen spec st) ∙ seen),
            )
            (due-Becomes o now id done (seen_down spec st) s j)
      | inr new ↦
          rw (new, supervise_down) (first (sym (seen_down-exit_seen spec st) ∙ new) inspected)
    ]
  where
    first :
        (state spec id s).exit_seen ≡ false
        → (i : Option Exit)
        → get j
            (elim i as (λ _. Supervisor × List Event) [
              | none ↦ (set_state id (seen_down spec (state spec id s)) s, [])
              | some c ↦
                  after_inspection o spec now id c done
                    (seen_down spec (state spec id s))
                    (set_state id (seen_down spec (state spec id s)) s)
            ]).0.states
          ≡ (if id == j
              then some (happens o spec now (found_down i) (state spec id s))
              else get j s.states)
    first new none =
        rw (unasked-happens o spec now (state spec id s) new)
          (get-put id j (seen_down spec (state spec id s)) s.states)
    first new (some c) =
        rw (ended-happens o spec now c (state spec id s) new)
          (decided-Becomes o spec now id c done (seen_down spec (state spec id s)) s j)
