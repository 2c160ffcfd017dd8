-- ===== src/Cron/Search.antt =====
-- The search for the next minute, against all minutes.
use shipwick.Base.{
  ℕ, zero, suc, ◌+◌, ◌-◌, ◌*◌, ◌/◌, ◌%◌, ◌≤◌, ◌<◌, ◌≡◌, ◌⊎◌, refl, inl, inr, Bool, true, false,
  ◌&&◌, Option, none, some, ltb, arith, Bool-cases,
}
use shipwick.Cron.{Schedule, has, matches_day, matches, advance, search, next}
use shipwick.Cron.Calendar.{years_later}

abbrev pub IsFirst : Schedule → ℕ → ℕ → Option ℕ → Type 0
IsFirst s t limit none = (u : ℕ) → t ≤ u → u < limit → matches s u ≡ false
IsFirst s t limit (some r) =
    (t ≤ r) × (r < limit) × (matches s r ≡ true) × ((u : ℕ) → t ≤ u → u < r → matches s u ≡ false)

advance-day :
    (s : Schedule) (t : ℕ) → matches_day s (t / 1440) ≡ false → advance s t ≡ (t / 1440 + 1) * 1440
unfolding advance
advance-day s t day = rw (advance, day) refl

advance-hour :
    (s : Schedule) (t : ℕ)
    → matches_day s (t / 1440) ≡ true
    → has s.hours (t / 60 % 24) ≡ false
    → advance s t ≡ (t / 60 + 1) * 60
unfolding advance
advance-hour s t day hour = rw (advance, day, hour) refl

advance-minute :
    (s : Schedule) (t : ℕ)
    → matches_day s (t / 1440) ≡ true
    → has s.hours (t / 60 % 24) ≡ true
    → advance s t ≡ t + 1
unfolding advance
advance-minute s t day hour = rw (advance, day, hour) refl

advance_further : (s : Schedule) (t : ℕ) → t < advance s t
advance_further s t = elim (Bool-cases (matches_day s (t / 1440))) [
  | inr day ↦ omega (arith, advance-day s t day)
  | inl day ↦ elim (Bool-cases (has s.hours (t / 60 % 24))) [
    | inr hour ↦ omega (arith, advance-hour s t day hour)
    | inl hour ↦ omega (arith, advance-minute s t day hour)
  ]
]

&&_false : (b : Bool) → (b && false) ≡ false
&&_false b = ground arith

-- What is skipped does not fire.
skipped :
    (s : Schedule) (t u : ℕ) → matches s t ≡ false → t ≤ u → u < advance s t → matches s u ≡ false
unfolding matches
skipped s t u quiet le lt = elim (Bool-cases (matches_day s (t / 1440))) [
  | inr day ↦
      let same : u / 1440 ≡ t / 1440 = omega (arith, le, lt, advance-day s t day) in
      cc (same, day, &&_false (has s.minutes (u % 60) && has s.hours (u / 60 % 24)))
  | inl day ↦ elim (Bool-cases (has s.hours (t / 60 % 24))) [
    | inr hour ↦
        let same : u / 60 ≡ t / 60 = omega (arith, le, lt, advance-hour s t day hour) in
        cc (same, hour, &&_false (has s.minutes (u % 60)))
    | inl hour ↦
        let same : u ≡ t = omega (arith, le, lt, advance-minute s t day hour) in rw same quiet
  ]
]

search-IsFirst :
    (fuel : ℕ) (s : Schedule) (t limit : ℕ)
    → limit ≤ t + fuel
    → IsFirst s t limit (search fuel s t limit)
unfolding search
search-IsFirst zero s t limit enough = λ u le lt. absurd (omega (arith, enough, le, lt))
search-IsFirst (suc fuel) s t limit enough = elim (Bool-cases (ltb t limit)) [
  | inr past ↦ rw past (λ u le lt. absurd (ground (arith, past)))
  | inl within ↦ rw within (elim (Bool-cases (matches s t)) [
    | inl hit ↦
        rw hit (omega arith, ground (arith, within), hit, λ u le lt. absurd (omega (arith, le, lt)))
    | inr quiet ↦ rw quiet (
        further (search fuel s (advance s t) limit) quiet
          (search-IsFirst fuel s (advance s t) limit (omega (arith, enough, advance_further s t))))
  ])
]
  where
    before : (u : ℕ) → matches s t ≡ false → t ≤ u → (u < advance s t) ⊎ (advance s t ≤ u)
    before u quiet le = omega arith

    further :
        (o : Option ℕ) → matches s t ≡ false → IsFirst s (advance s t) limit o → IsFirst s t limit o
    further none quiet h = λ u le lt. elim (before u quiet le) [
      | inl skip ↦ skipped s t u quiet le skip
      | inr on ↦ h u on lt
    ]
    further (some r) quiet (le', lt', hit, h) = (
      omega (arith, le', advance_further s t),
      lt',
      hit,
      λ u le lt. elim (before u quiet le) [
        | inl skip ↦ skipped s t u quiet le skip
        | inr on ↦ h u on lt
      ],
    )

-- `next` returns the first minute after the one that holds the given time in which the schedule
-- fires, if there is one before the same time eight years later, and nothing otherwise.
pub next-IsFirst :
    (s : Schedule) (after : ℕ)
    → let t = after / 60 + 1 in
      IsFirst s t (years_later 8 (t / 1440) * 1440 + t % 1440) (next s after)
unfolding next
next-IsFirst s after =
    let t = after / 60 + 1 in
    let limit = years_later 8 (t / 1440) * 1440 + t % 1440 in
    search-IsFirst (limit - t) s t limit (omega arith)
