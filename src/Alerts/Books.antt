-- ===== src/Alerts/Books.antt =====
-- The book of active alerts: each is told about once.
use shipwick.Base.{
  ℕ, ◌≡◌, ◌∙◌, ap, inl, inr, refl, Bool, true, false, not, ◌&&◌, Option, none, some, List, [], ◌∷◌,
  if◌then◌else◌, subst, sym, keep, arith, Bool-cases,
}
use shipwick.Alerts.{
  Severity, AlertKey, Alert, Told, nothing, raised, same_key, same_severity, get, put, raised_over,
  raise_alert, clear_alert, drop_alerts, is_critical,
}

same_key_refl : (k : AlertKey) → same_key k k ≡ true
same_key_refl k = ground arith

get-put :
    (k : AlertKey) (a : Alert) (book : List Alert)
    → get k (put a book) ≡ (if same_key a.key k then some a else get k book)
unfolding get put
get-put k a [] = refl
get-put k a (b ∷ book) = ground (arith, get-put k a book)

get-keep :
    (k j : AlertKey) (book : List Alert)
    → get j (keep (λ a. not (same_key a.key k)) book) ≡ (if same_key k j then none else get j book)
unfolding get
get-keep k j [] = ground arith
get-keep k j (b ∷ book) = ground (arith, get-keep k j book)

same_key_eq : (a b : AlertKey) → same_key a b ≡ true → a ≡ b
same_key_eq a b h = ground arith

key-get : (k : AlertKey) (book : List Alert) (a : Alert) → get k book ≡ some a → a.key ≡ k
unfolding get
key-get k [] a h = cc
key-get k (b ∷ book) a h = elim (Bool-cases (same_key b.key k)) [
  | inl hit ↦ ground (arith, same_key_eq b.key k hit, hit)
  | inr miss ↦ key-get k book a (ground (arith, miss))
]

same_severity_eq : (a b : Severity) → same_severity a b ≡ true → a ≡ b
same_severity_eq a b h = ground arith

-- The alert that is active after a raise.
abbrev pub standing : Option Alert → AlertKey → Severity → ℕ → Alert
standing none k severity now = record { key = k; severity = severity; since = now }
standing (some was) k severity now = record { key = k; severity = severity; since = was.since }

abbrev pub telling : Option Alert → AlertKey → Severity → Told
telling none k severity = raised k severity
telling (some was) k severity =
    if not (same_severity was.severity severity) && is_critical severity
    then raised k severity
    else nothing

raised_over_lem :
    (o : Option Alert) (k j : AlertKey) (severity : Severity) (now : ℕ) (book : List Alert)
    → get k book ≡ o
    → let r = raised_over o k severity now book in
      (get k r.0 ≡ some (standing o k severity now))
      × (same_key k j ≡ false → get j r.0 ≡ get j book)
      × (r.1 ≡ telling o k severity)
unfolding raised_over
raised_over_lem none k j severity now book e =
    let a : Alert = record { key = k; severity = severity; since = now } in
    (rw (get-put k a book, same_key_refl k), λ n. rw (get-put j a book, n), refl)
raised_over_lem (some was) k j severity now book e =
    elim (Bool-cases (same_severity was.severity severity)) [
      | inl same ↦
          rw (same, raised_over)
            (
              e ∙ ap some (cc (key-get k book was e, same_severity_eq was.severity severity same)),
              λ n. refl,
              refl,
            )
      | inr other ↦
          let a : Alert = record { key = k; severity = severity; since = was.since } in
          rw (other, raised_over)
            (rw (get-put k a book, same_key_refl k), λ n. rw (get-put j a book, n), refl)
    ]

-- After an alert is raised it is active at the severity asked for, since the time that it was first
-- raised; no other alert is touched. It is told about exactly when it was not active, or was active
-- at another severity and is critical now.
pub raise_alert_lem :
    (k j : AlertKey) (severity : Severity) (now : ℕ) (book : List Alert)
    → let r = raise_alert k severity now book in
      (get k r.0 ≡ some (standing (get k book) k severity now))
      × (same_key k j ≡ false → get j r.0 ≡ get j book)
      × (r.1 ≡ telling (get k book) k severity)
unfolding raise_alert
raise_alert_lem k j severity now book = raised_over_lem (get k book) k j severity now book refl

-- A condition that persists is told about once: raised again at the same severity, the alert
-- changes nothing and says nothing.
pub raise_alert-twice :
    (k : AlertKey) (severity : Severity) (now later : ℕ) (book : List Alert)
    → let first = (raise_alert k severity now book).0 in
      raise_alert k severity later first ≡ (first, nothing)
unfolding raise_alert raised_over
raise_alert-twice k severity now later book =
    again (raise_alert k severity now book).0 (standing (get k book) k severity now)
      (raise_alert_lem k k severity now book).0 (same (get k book))
  where
    same : (o : Option Alert) → same_severity (standing o k severity now).severity severity ≡ true
    same none = ground arith
    same (some a) = ground arith

    again :
        (after : List Alert) (a : Alert)
        → get k after ≡ some a
        → same_severity a.severity severity ≡ true
        → raise_alert k severity later after ≡ (after, nothing)
    again after a e s = rw (e, s) refl

cleared_book :
    (k : AlertKey) (elsewhere : Bool) (book : List Alert) (o : Option Alert)
    → get k book ≡ o
    → (clear_alert k elsewhere book).0 ≡ keep (λ a. not (same_key a.key k)) book
unfolding clear_alert
cleared_book k elsewhere book none e = ground (arith, e)
cleared_book k elsewhere book (some a) e = ground (arith, e)

clear_missing :
    (k : AlertKey) (elsewhere : Bool) (book : List Alert)
    → get k book ≡ none
    → (clear_alert k elsewhere book).1 ≡ nothing
unfolding clear_alert
clear_missing k elsewhere book e = ground (arith, e)

-- Once cleared an alert is not active, and a second clearing says nothing; other alerts stay.
pub clear_alert_lem :
    (k j : AlertKey) (elsewhere again : Bool) (book : List Alert)
    → let r = (clear_alert k elsewhere book).0 in
      (get k r ≡ none)
      × (same_key k j ≡ false → get j r ≡ get j book)
      × ((clear_alert k again r).1 ≡ nothing)
clear_alert_lem k j elsewhere again book =
    let without : List Alert = keep (λ a. not (same_key a.key k)) book in
    let gone : get k without ≡ none = get-keep k k book ∙ cc (same_key_refl k) in
    subst
      (λ r.
        (get k r ≡ none)
        × (same_key k j ≡ false → get j r ≡ get j book)
        × ((clear_alert k again r).1 ≡ nothing))
      (sym (cleared_book k elsewhere book (get k book) refl))
      (gone, λ n. get-keep k j book ∙ cc n, clear_missing k again without gone)

-- What is active after alerts were dropped.
pub get-drop_alerts :
    (gone : AlertKey → Bool) (k : AlertKey) (book : List Alert)
    → get k (drop_alerts gone book) ≡ (if gone k then none else get k book)
unfolding get drop_alerts
get-drop_alerts gone k [] = ground arith
get-drop_alerts gone k (b ∷ book) = elim (Bool-cases (same_key b.key k)) [
  | inl hit ↦ ground (arith, get-drop_alerts gone k book, hit, ap gone (same_key_eq b.key k hit))
  | inr miss ↦ ground (arith, get-drop_alerts gone k book, miss)
]
