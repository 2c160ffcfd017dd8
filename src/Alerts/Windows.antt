-- ===== src/Alerts/Windows.antt =====
-- The restart times that the book keeps, against all the restarts that there were.
use mathlib.Core.List.{append_assoc, append-nil}
use shipwick.Base.{
  ℕ, ◌+◌, ◌≤◌, ◌≡◌, ◌∙◌, sym, ap, inl, inr, refl, Bool, true, false, not, List, [], ◌∷◌, ◌++◌, leb,
  ltb, keep, keep-append, length, All, arith, Bool-cases,
}
use shipwick.Alerts.{
  within, note_restart, restart_alerting, restart_alert_window, restart_alert_count,
}

-- A restart at `t` lies in the window that ends at `now`.
abbrev pub in_window : ℕ → ℕ → Bool
in_window now t = not (ltb (t + restart_alert_window) now)

abbrev pub IsAscending : List ℕ → Type 0
IsAscending [] = Unit
IsAscending (x ∷ xs) = All (λ y. x ≤ y) xs × IsAscending xs

-- The book after the restarts of a container.
pub noted : List ℕ → List ℕ → List ℕ
noted times [] = times
noted times (t ∷ ts) = noted (note_restart t times) ts

-- What was forgotten at `t` lies in no later window.
keep-within :
    (t now : ℕ) (xs : List ℕ)
    → t ≤ now
    → keep (in_window now) (within xs t restart_alert_window) ≡ keep (in_window now) xs
unfolding within
keep-within t now [] le = refl
keep-within t now (x ∷ xs) le = ground (arith, keep-within t now xs le)

keep-noted :
    (now : ℕ) (times ts : List ℕ)
    → All (λ t. t ≤ now) ts
    → keep (in_window now) (noted times ts) ≡ keep (in_window now) (times ++ ts)
unfolding noted note_restart
keep-noted now times [] le = rw append-nil
keep-noted now times (t ∷ ts) le =
    keep-noted now (within times t restart_alert_window ++ t ∷ []) ts le.1
    ∙ rw (
      append_assoc,
      keep-append (in_window now) (within times t restart_alert_window) (t ∷ ts),
      keep-within t now times le.0,
      keep-append (in_window now) times (t ∷ ts),
    )

IsAscending-within :
    (t : ℕ) (xs ys : List ℕ)
    → IsAscending (xs ++ ys)
    → IsAscending (within xs t restart_alert_window ++ ys)
unfolding within
IsAscending-within t [] ys a = a
IsAscending-within t (x ∷ xs) ys a = elim (Bool-cases (ltb (x + restart_alert_window) t)) [
  | inl old ↦ rw old (IsAscending-within t xs ys a.1)
  | inr new ↦ rw new a
]

noted-IsAscending : (times ts : List ℕ) → IsAscending (times ++ ts) → IsAscending (noted times ts)
unfolding noted note_restart
noted-IsAscending times [] a = rw append-nil at a
noted-IsAscending times (t ∷ ts) a =
    noted-IsAscending (within times t restart_alert_window ++ t ∷ []) ts
      (rw append_assoc (IsAscending-within t times (t ∷ ts) a))

keep-true : (p : ℕ → Bool) (xs : List ℕ) → All (λ x. p x ≡ true) xs → keep p xs ≡ xs
keep-true p [] h = refl
keep-true p (x ∷ xs) h = ground (arith, h.0, keep-true p xs h.1)

later-in_window :
    (now x : ℕ) (xs : List ℕ)
    → in_window now x ≡ true
    → All (λ y. x ≤ y) xs
    → All (λ y. in_window now y ≡ true) xs
later-in_window now x [] h le = tt
later-in_window now x (y ∷ ys) h le = (ground (arith, le.0), later-in_window now x ys h le.1)

within-keep :
    (now : ℕ) (xs : List ℕ)
    → IsAscending xs
    → within xs now restart_alert_window ≡ keep (in_window now) xs
unfolding within
within-keep now [] a = refl
within-keep now (x ∷ xs) a = elim (Bool-cases (ltb (x + restart_alert_window) now)) [
  | inl old ↦ rw old (within-keep now xs a.1)
  | inr new ↦ rw new (
      ap (λ (r : List ℕ). x ∷ r)
        (sym (keep-true (in_window now) xs (later-in_window now x xs (ap not new) a.0))))
]

-- The alert on restarts stands, while nothing holds it, exactly when at least three of all the
-- restarts that were ever noted, in the order of time, lie in the window: what the book has
-- forgotten does not count.
pub restart_alerting-noted :
    (was : Bool) (ts : List ℕ) (now : ℕ)
    → IsAscending ts
    → All (λ t. t ≤ now) ts
    → restart_alerting was (noted [] ts) now false
      ≡ leb restart_alert_count (length (keep (in_window now) ts))
unfolding restart_alerting
restart_alerting-noted was ts now a le =
    rw (within-keep now (noted [] ts) (noted-IsAscending [] ts a), keep-noted now [] ts le)
