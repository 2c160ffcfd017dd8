-- ===== src/Locks/Exclusion.antt =====
-- Operations that take, release and end in any order.
use shipwick.Base.{
  ℕ, suc, ◌+◌, ◌≡◌, ◌∙◌, ap, sym, subst, refl, Bool, true, false, not, ◌&&◌, none, List, [], ◌∷◌,
  ◌==◌, if◌then◌else◌, keep, any, length, IsDistinct, IsDistinct-keep, update_rows, arith,
}
use shipwick.Locks.{AppLock, Engine, took, idle, try_lock, release, op_done, close, held}

-- An operation on an application; it may go on after it has released the application.
pub record Operation : Type 0 where
  pub app : ℕ
  pub holding : Bool

abbrev pub holds : ℕ → Operation → Bool
holds app o = o.app == app && o.holding

-- Takes the first operation out that is on the application and does not hold it.
pub finished : ℕ → List Operation → List Operation
finished app [] = []
finished app (o ∷ os) =
    let rest = finished app os in if o.app == app && not o.holding then os else o ∷ rest

abbrev pub is_over : ℕ → Operation → Bool
is_over app o = o.app == app && not o.holding

pub record World : Type 0 where
  pub engine : Engine
  pub running : List Operation

-- What may happen: an operation begins, the one that holds an application releases it, one that has
-- released it ends, or the agent begins to shut down.
pub data Step (w : World) : World → Type 0 where
  begins :
      (app : ℕ) (by_supervisor : Bool) (e : Engine)
      → try_lock app by_supervisor w.engine ≡ took e
      → Step w (record { engine = e; running = record { app = app; holding = true } ∷ w.running })
  releases :
      (app : ℕ)
      → any (holds app) w.running ≡ true
      → Step w (record {
        engine = release app w.engine;
        running = update_rows (holds app) (λ o. record o { holding = false }) w.running;
      })
  ends :
      (app : ℕ)
      → any (is_over app) w.running ≡ true
      → Step w (record { engine = op_done w.engine; running = finished app w.running })
  closes : Step w (record { engine = close w.engine; running = w.running })

pub data Reach : World → Type 0 where
  start : Reach (record { engine = idle; running = [] })
  next : {w v : World} → Reach w → Step w v → Reach v

-- The applications that operations hold, and those that are locked.
abbrev pub holders : List Operation → List ℕ
holders [] = []
holders (o ∷ os) = if o.holding then o.app ∷ holders os else holders os

abbrev pub locked : List AppLock → List ℕ
locked [] = []
locked (l ∷ ls) = l.app ∷ locked ls

pub record IsExclusive (w : World) : Type 0 where
  pub distinct : IsDistinct (λ (l : AppLock). l.app) w.engine.locks
  pub agree : locked w.engine.locks ≡ holders w.running
  pub counted : w.engine.ops ≡ length w.running

locked-keep :
    (app : ℕ) (ls : List AppLock)
    → locked (keep (λ l. not (l.app == app)) ls) ≡ keep (λ a. not (a == app)) (locked ls)
locked-keep app [] = refl
locked-keep app (l ∷ ls) = ground (arith, locked-keep app ls)

holders-release :
    (app : ℕ) (os : List Operation)
    → holders (update_rows (holds app) (λ o. record o { holding = false }) os)
      ≡ keep (λ a. not (a == app)) (holders os)
unfolding update_rows
holders-release app [] = refl
holders-release app (o ∷ os) = ground (arith, holders-release app os)

length-update :
    (app : ℕ) (os : List Operation)
    → length (update_rows (holds app) (λ o. record o { holding = false }) os) ≡ length os
unfolding update_rows
length-update app [] = refl
length-update app (o ∷ os) = ap suc (length-update app os)

holders-finished : (app : ℕ) (os : List Operation) → holders (finished app os) ≡ holders os
unfolding finished
holders-finished app [] = refl
holders-finished app (o ∷ os) = ground (arith, holders-finished app os)

length-finished :
    (app : ℕ) (os : List Operation)
    → any (is_over app) os ≡ true
    → length os ≡ length (finished app os) + 1
unfolding finished
length-finished app [] h = cc
length-finished app (o ∷ os) h = ground (arith, length-finished app os)

begins-IsExclusive :
    (app : ℕ) (by_supervisor : Bool) (w : World)
    → IsExclusive w
    → held app w.engine.locks ≡ none
    → IsExclusive (record {
      engine = record w.engine {
        locks = record { app = app; by_supervisor = by_supervisor } ∷ w.engine.locks;
        ops = w.engine.ops + 1;
      };
      running = record { app = app; holding = true } ∷ w.running;
    })
begins-IsExclusive app by_supervisor w x free = record {
  distinct = (free, x.distinct);
  agree = ap (λ apps. app ∷ apps) x.agree;
  counted = omega (arith, x.counted);
}

took-held :
    (app : ℕ) (by_supervisor : Bool) (e taken : Engine)
    → try_lock app by_supervisor e ≡ took taken
    → (held app e.locks ≡ none)
      × (taken ≡ record e {
        locks = record { app = app; by_supervisor = by_supervisor } ∷ e.locks;
        ops = e.ops + 1;
      })
unfolding try_lock
took-held app by_supervisor e taken h = ground arith

Step-IsExclusive : {w v : World} → Step w v → IsExclusive w → IsExclusive v
unfolding release op_done close
Step-IsExclusive {w} {v} (begins app by_supervisor e h) x =
    let (free, is) = took-held app by_supervisor w.engine e h in
    subst
      (λ t.
        IsExclusive
          (record { engine = t; running = record { app = app; holding = true } ∷ w.running }))
      (sym is) (begins-IsExclusive app by_supervisor w x free)
Step-IsExclusive {w} {v} (releases app h) x = record {
  distinct =
      IsDistinct-keep (λ (l : AppLock). l.app) (λ l. not (l.app == app)) w.engine.locks x.distinct;
  agree =
      locked-keep app w.engine.locks
      ∙ ap (keep (λ a. not (a == app))) x.agree
      ∙ sym (holders-release app w.running);
  counted = x.counted ∙ sym (length-update app w.running);
}
Step-IsExclusive {w} {v} (ends app h) x = record {
  distinct = x.distinct;
  agree = x.agree ∙ sym (holders-finished app w.running);
  counted = omega (arith, x.counted, length-finished app w.running h);
}
Step-IsExclusive {w} {v} closes x = record {
  distinct = x.distinct;
  agree = x.agree;
  counted = x.counted;
}

-- In whatever order operations take their applications, release them and end, no two locks are on
-- one application, the locked applications are those of the operations that hold one, and the
-- engine counts the operations that run.
pub Reach-IsExclusive : {w : World} → Reach w → IsExclusive w
Reach-IsExclusive start = record { distinct = tt; agree = refl; counted = refl }
Reach-IsExclusive (next r step) = Step-IsExclusive step (Reach-IsExclusive r)
