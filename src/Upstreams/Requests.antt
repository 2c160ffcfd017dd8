-- ===== src/Upstreams/Requests.antt =====
-- Requests and drops of one name.
use shipwick.Base.{ℕ, ◌+◌, ◌≡◌, refl, inl, inr, true, none, List, Bool-cases}
use shipwick.Upstreams.{
  Settings, Entry, unanswered, waits, found, result, kept, wait_or_reply, request, woken, settled,
  drop_entry,
}

module _ {A : Type 0} where
  -- The next request of a name that was dropped waits for a lookup, with no answer to fall back on,
  -- whatever the entry was.
  pub drop_entry-request :
      (s : Settings) (now : ℕ) (e : Entry A)
      → ((request s now (drop_entry e)).begin ≡ waits none (e.dropped + 1))
        × ((request s now (drop_entry e)).entry.in_flight ≡ true)
  unfolding request wait_or_reply kept result drop_entry
  drop_entry-request s now e = elim (Bool-cases e.failing) [
    | inl fails ↦ elim (Bool-cases e.in_flight) [
      | inl out ↦ simp (fails, out) (refl, refl)
      | inr idle ↦ simp (fails, idle) (refl, refl)
    ]
    | inr works ↦ elim (Bool-cases e.in_flight) [
      | inl out ↦ simp (works, out) (refl, refl)
      | inr idle ↦ simp (works, idle) (refl, refl)
    ]
  ]

  -- A request that a lookup wakes with an answer, after the name was dropped once more, is replied to
  -- with an error that has no reason.
  pub settled-drop_entry :
      (sorted : List A → List A) (s : Settings) (earlier now : ℕ) (addrs : List A) (e : Entry A)
      → woken s now (drop_entry (settled sorted earlier (found addrs) e)) ≡ unanswered none
  unfolding woken drop_entry settled result
  settled-drop_entry sorted s earlier now addrs e = refl
