-- ===== src/Supervisor/Ticks.antt =====
-- One tick of the supervisor over all applications: `tick` of agent/internal/deploy/supervisor.go,
-- without the proxy and the alerts.
use shipwick.Base.{
  ℕ, ◌≡◌, ◌∙◌, refl, inl, inr, Bool, true, false, not, ◌&&◌, ◌||◌, Option, none, some, List, [],
  ◌∷◌, ◌++◌, ◌==◌, if◌then◌else◌, any, length, ltb, arith, Bool-cases,
}
use shipwick.Supervisor.{Options, Spec, reset_state}
use shipwick.Supervisor.Book.{get, only, get-put, get-only}
use shipwick.Supervisor.Handlers.{
  Supervisor, Event, Found, Replica, gone, unasked, up, down, other, reset, reset_all, forget_gone,
  supervise_replica, supervise_replicas, missing_indexes, recreate_replicas, supervise_app,
}
use shipwick.Supervisor.Refinement.{running-Becomes, down-Becomes}

-- What a tick reads of an application, with what Docker answers about its replicas. `free`: no user
-- operation owns it. The record is the one that is read again under the lock.
pub record Visit : Type 0 where
  pub deployment : Option ℕ
  pub is_wanted : Bool
  pub free : Bool
  pub spec : Spec
  pub desired : ℕ
  pub replicas : List Replica
  pub created : List ℕ
  pub fails : Bool

-- The active deployments of the applications that are to run.
unfoldable pub is_active : List Visit → ℕ → Bool
is_active vs d = any (λ v. v.is_wanted && (elim v.deployment [ none ↦ false | some k ↦ k == d ])) vs

unfoldable pub visit : Options → ℕ → Visit → Supervisor → Supervisor × List Event
unfolding supervise_app
visit o now v s = elim v.deployment [
  | none ↦ (s, [])
  | some d ↦
      let r = supervise_app o v.spec v.desired now d v.replicas v.created v.fails s in
      if v.is_wanted && v.free then r else (s, [])
]

unfoldable pub visit_all : Options → ℕ → List Visit → Supervisor → Supervisor × List Event
unfolding visit
visit_all o now [] s = (s, [])
visit_all o now (v ∷ vs) s =
    let (t, events) = visit o now v s in let (u, more) = visit_all o now vs t in (u, events ++ more)

unfoldable pub tick :
    Options → Bool → (ℕ → Bool) → ℕ → List Visit → Supervisor → Supervisor × List Event
unfolding visit_all forget_gone is_active
tick o answers listed now vs s =
    if answers then visit_all o now vs (forget_gone listed (is_active vs) s) else (s, [])

-- The containers that a visit may write about.
abbrev pub touches : Visit → ℕ → Bool
touches v id =
    v.free && (any (λ (r : Replica). r.container == id) v.replicas || any (λ c. c == id) v.created)

replica-elsewhere :
    (o : Options) (spec : Spec) (now j : ℕ) (r : Replica) (s : Supervisor)
    → (r.container == j) ≡ false
    → get j (supervise_replica o spec now r s).0.states ≡ get j s.states
unfolding supervise_replica
replica-elsewhere o spec now j r s n = by_found r.found refl
  where
    by_found :
        (f : Found)
        → r.found ≡ f
        → get j (supervise_replica o spec now r s).0.states ≡ get j s.states
    by_found gone e = rw (supervise_replica, e) refl
    by_found unasked e = rw (supervise_replica, e) refl
    by_found (up has_ip) e =
        rw (supervise_replica, e)
          (running-Becomes o spec now r.container has_ip r.comes_back s j ∙ cc n)
    by_found (down inspected) e =
        rw (supervise_replica, e)
          (down-Becomes o spec now r.container inspected r.comes_back s j ∙ cc n)
    by_found other e = rw (supervise_replica, e) refl

replicas-elsewhere :
    (o : Options) (spec : Spec) (now j : ℕ) (rs : List Replica) (s : Supervisor)
    → any (λ (r : Replica). r.container == j) rs ≡ false
    → get j (supervise_replicas o spec now rs s).0.states ≡ get j s.states
unfolding supervise_replicas
replicas-elsewhere o spec now j [] s n = refl
replicas-elsewhere o spec now j (r ∷ rs) s n =
    replicas-elsewhere o spec now j rs (supervise_replica o spec now r s).0 (ground (arith, n))
    ∙ replica-elsewhere o spec now j r s (ground (arith, n))

reset-elsewhere :
    (has_health_check : Bool) (j : ℕ) (ids : List ℕ) (s : Supervisor)
    → any (λ c. c == j) ids ≡ false
    → get j (reset_all has_health_check ids s).states ≡ get j s.states
unfolding reset_all reset
reset-elsewhere has_health_check j [] s n = refl
reset-elsewhere has_health_check j (id ∷ ids) s n =
    reset-elsewhere has_health_check j ids (reset id has_health_check s) (ground (arith, n))
    ∙ ground (arith, n, get-put id j (reset_state has_health_check) s.states)

recreate-elsewhere :
    (o : Options) (spec : Spec) (now d missing j : ℕ) (created : List ℕ) (fails : Bool)
    (s : Supervisor)
    → any (λ c. c == j) created ≡ false
    → get j (recreate_replicas o spec now d missing created fails s).0.states ≡ get j s.states
unfolding recreate_replicas
recreate-elsewhere o spec now d missing j created fails s n =
    let kept : Supervisor = record s { recreate = only (λ k. not (k == d)) s.recreate } in
    ground (arith, reset-elsewhere true j created kept n, reset-elsewhere false j created kept n)

app-elsewhere :
    (o : Options) (now d j : ℕ) (v : Visit) (s : Supervisor)
    → any (λ (r : Replica). r.container == j) v.replicas ≡ false
    → any (λ c. c == j) v.created ≡ false
    → get j (supervise_app o v.spec v.desired now d v.replicas v.created v.fails s).0.states
      ≡ get j s.states
unfolding supervise_app
app-elsewhere o now d j v s n m =
    let after = (supervise_replicas o v.spec now v.replicas s).0 in
    let same = replicas-elsewhere o v.spec now j v.replicas s n in
    elim (Bool-cases (ltb 0 (length (missing_indexes v.desired v.replicas)))) [
      | inl some_missing ↦
          rw (supervise_app, some_missing)
            (recreate-elsewhere o v.spec now d (length (missing_indexes v.desired v.replicas)) j
                v.created v.fails after m
              ∙ same)
      | inr all_there ↦ rw (supervise_app, all_there) same
    ]

visit-elsewhere :
    (o : Options) (now j : ℕ) (v : Visit) (s : Supervisor)
    → touches v j ≡ false
    → get j (visit o now v s).0.states ≡ get j s.states
unfolding visit
visit-elsewhere o now j v s n = by_deployment v.deployment refl
  where
    by_deployment :
        (k : Option ℕ) → v.deployment ≡ k → get j (visit o now v s).0.states ≡ get j s.states
    by_deployment none e = rw (visit, e) refl
    by_deployment (some d) e = elim (Bool-cases (v.is_wanted && v.free)) [
      | inr busy ↦ rw (visit, e, busy) refl
      | inl taken ↦
          rw (visit, e, taken)
            (app-elsewhere o now d j v s (ground (arith, n, taken)) (ground (arith, n, taken)))
    ]

all-elsewhere :
    (o : Options) (now j : ℕ) (vs : List Visit) (s : Supervisor)
    → any (λ v. touches v j) vs ≡ false
    → get j (visit_all o now vs s).0.states ≡ get j s.states
unfolding visit_all
all-elsewhere o now j [] s n = refl
all-elsewhere o now j (v ∷ vs) s n =
    all-elsewhere o now j vs (visit o now v s).0 (ground (arith, n))
    ∙ visit-elsewhere o now j v s (ground (arith, n))

-- A tick forgets what it remembered of a container that does not exist, and leaves alone what it
-- remembers of one that belongs to no application which it may work on, an application that a user
-- operation owns among them; while Docker does not answer, it leaves everything alone.
pub tick-elsewhere :
    (o : Options) (answers : Bool) (listed : ℕ → Bool) (now j : ℕ) (vs : List Visit)
    (s : Supervisor)
    → any (λ v. touches v j) vs ≡ false
    → get j (tick o answers listed now vs s).0.states
      ≡ (if answers && not (listed j) then none else get j s.states)
unfolding tick forget_gone
tick-elsewhere o false listed now j vs s n = refl
tick-elsewhere o true listed now j vs s n =
    all-elsewhere o now j vs (forget_gone listed (is_active vs) s) n
    ∙ get-only listed j s.states
    ∙ ground arith
