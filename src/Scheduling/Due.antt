-- ===== src/Scheduling/Due.antt =====
-- When a job is due.
use shipwick.Base.{
  ℕ, ◌+◌, ◌*◌, ◌/◌, ◌%◌, ◌≤◌, ◌<◌, ◌≡◌, ◌≢◌, ◌↔◌, ap, subst, refl, inl, inr, true, not, Option,
  none, some, ltb, arith, Bool-cases,
}
use shipwick.Cron.{Schedule, matches, next}
use shipwick.Cron.Calendar.{years_later}
use shipwick.Cron.Search.{IsFirst, next-IsFirst}
use shipwick.Scheduling.{not_after, is_due}

-- The schedule fires in a minute after `last` and not after `minute`.
abbrev pub Fires : Schedule → ℕ → ℕ → Type 0
Fires s last minute = (u : ℕ) × (last < u) × (u ≤ minute) × (matches s u ≡ true)

first_due :
    (s : Schedule) (last minute limit : ℕ) (o : Option ℕ)
    → IsFirst s (last + 1) limit o
    → o ≢ none
    → (not_after minute o ≡ true) ↔ Fires s last minute
unfolding not_after
first_due s last minute limit none first some' = absurd (some' refl)
first_due s last minute limit (some r) (le, lt, hit, before) some' = (
  (λ h. (r, omega (arith, le), ground (arith, h), hit)),
  λ (u, after, upto, fires). elim (Bool-cases (ltb minute r)) [
    | inl past ↦ absurd (cc (fires, before u (omega (arith, after)) (ground (arith, past, upto))))
    | inr now ↦ ap not now
  ],
)

-- A job whose schedule fires within eight years of the last look is due at a minute exactly when it
-- fires in a minute after that look, and not after this one.
pub is_due_iff :
    (s : Schedule) (last minute : ℕ)
    → next s (last * 60) ≢ none
    → (is_due last minute (some s) ≡ true) ↔ Fires s last minute
unfolding is_due
is_due_iff s last minute fires =
    let t = last * 60 / 60 + 1 in
    let same : t ≡ last + 1 = omega arith in
    first_due s last minute (years_later 8 (t / 1440) * 1440 + t % 1440) (next s (last * 60))
      (subst (λ v. IsFirst s v (years_later 8 (t / 1440) * 1440 + t % 1440) (next s (last * 60)))
        same (next-IsFirst s (last * 60)))
      fires
