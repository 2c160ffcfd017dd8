-- ===== src/Locks.antt =====
-- The locks of the applications: `tryLock`, `release`, `opDone`, `unlock` and the closing of
-- `Shutdown` in agent/internal/deploy/engine.go. An application is a number here: names are only
-- compared. The channel that is closed on release is the lock's absence.
pub mod Exclusion
use shipwick.Base.{
  ℕ, ◌+◌, ◌-◌, Bool, true, false, not, ◌&&◌, Option, none, some, List, [], ◌∷◌, ◌==◌, if◌then◌else◌,
  keep, find_row,
}

pub record AppLock : Type 0 where
  pub app : ℕ
  pub by_supervisor : Bool

pub record Engine : Type 0 where
  pub closed : Bool
  pub locks : List AppLock
  pub ops : ℕ

abbrev pub idle : Engine
idle = record { closed = false; locks = []; ops = 0 }

-- Why a lock was not taken: the supervisor holds it and is to be waited for, or the error.
pub data Attempt : Type 0 where
  took : Engine → Attempt
  waits busy shutting_down : Attempt

abbrev pub held : ℕ → List AppLock → Option AppLock
held = find_row (λ l. l.app)

unfoldable pub try_lock : ℕ → Bool → Engine → Attempt
unfolding find_row
try_lock app by_supervisor e = if e.closed then shutting_down else elim (held app e.locks) [
  | some l ↦ if l.by_supervisor && not by_supervisor then waits else busy
  | none ↦ took (record e {
    locks = record { app = app; by_supervisor = by_supervisor } ∷ e.locks;
    ops = e.ops + 1;
  })
]

unfoldable pub release : ℕ → Engine → Engine
release app e = record e { locks = keep (λ l. not (l.app == app)) e.locks }

unfoldable pub op_done : Engine → Engine
op_done e = record e { ops = e.ops - 1 }

unfoldable pub unlock : ℕ → Engine → Engine
unfolding op_done release
unlock app e = op_done (release app e)

-- The start of `Shutdown`.
unfoldable pub close : Engine → Engine
close e = record e { closed = true }
