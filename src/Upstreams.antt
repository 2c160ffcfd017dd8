-- ===== src/Upstreams.antt =====
-- The proxy's table of replicas: caddy/table.go. An entry is what one name last resolved to; a time
-- that is zero in the source is `none`. The type of addresses and the order that they are sorted
-- in are parameters. A request is its first part, which holds the lock, and what it does when it is
-- woken, gives up or is cancelled; a lookup is its turns.
pub mod Worlds
pub mod Fresh
pub mod Lookups
pub mod Drops
pub mod Requests
use shipwick.Base.{
  ℕ, zero, suc, ◌+◌, ◌-◌, Bool, true, false, not, ◌&&◌, ◌||◌, Option, none, some, List, [], ◌∷◌,
  ltb, leb, ◌==◌, if◌then◌else◌, is_none, keep, length,
}

pub record Settings : Type 0 where
  pub refresh : ℕ
  pub wait : ℕ
  pub keep_for : ℕ

-- Why there is no answer; `nobody` is the answer that nobody carries the name.
pub data Reason : Type 0 where
  nobody no_answer : Reason

pub record Entry (A : Type 0) : Type 0 where
  pub addrs : List A
  pub answered : Option ℕ
  pub asked : Option ℕ
  pub failing : Bool
  pub err : Option Reason
  pub in_flight : Bool
  pub used : ℕ
  pub dropped : ℕ

pub data Reply (A : Type 0) : Type 0 where
  served : List A → Reply A
  unanswered : Option Reason → Reply A
  cancelled : Reply A

-- Less than `d` has passed since a time.
abbrev pub within_time : Option ℕ → ℕ → ℕ → Bool
within_time none now d = false
within_time (some t) now d = ltb (now - t) d

abbrev pub is_empty {ℓ} : {A : Type ℓ} → List A → Bool
is_empty [] = true
is_empty (x ∷ xs) = false

abbrev pub served_or {ℓ} : {A : Type ℓ} {B : Type 0} → Option A → (A → B) → B → B
served_or none serve fail = fail
served_or (some a) serve fail = serve a

-- The first part of a request ends with a reply, or waits for a lookup: with the last answer, if
-- it may fall back on that, and the number of drops so far.
pub data Begin (A : Type 0) : Type 0 where
  replies : Reply A → Begin A
  waits : Option (List A) → ℕ → Begin A

pub data Answer (A : Type 0) : Type 0 where
  found : List A → Answer A
  none_carry lost : Answer A

pub record Turn (A : Type 0) : Type 0 where
  pub entry : Entry A
  pub again : Bool

pub record Begun (A : Type 0) : Type 0 where
  pub begin : Begin A
  pub entry : Entry A
  pub starts : Bool

module _ {A : Type 0} where
  unfoldable pub result : Entry A → Reply A
  result e = if is_empty e.addrs then unanswered e.err else served e.addrs

  unfoldable pub kept : ℕ → ℕ → Entry A → Option (List A)
  kept now keep_for e =
      if is_empty e.addrs || not (within_time e.answered now keep_for) then none else some e.addrs

  abbrev pub kept_or_reason : Option (List A) → Option Reason → Reply A
  kept_or_reason old reason = served_or old served (unanswered reason)

  -- The rest of the first part, once it is decided whether a lookup begins.
  unfoldable pub wait_or_reply : Settings → ℕ → Bool → Entry A → Begun A
  wait_or_reply s now starts e =
      let old = kept now s.keep_for e in
      let impatient = e.failing || not (within_time e.asked now s.wait) in
      record {
        begin =
            if not e.in_flight || (not (is_none old) && impatient)
            then replies (kept_or_reason old e.err)
            else waits old e.dropped;
        entry = e;
        starts = starts;
      }

  unfoldable pub request : Settings → ℕ → Entry A → Begun A
  request s now entry =
      let e = record entry { used = now } in
      let starts = not e.in_flight && not (within_time e.asked now s.refresh) in
      if not e.failing && within_time e.answered now s.refresh
      then record { begin = replies (result e); entry = e; starts = false }
      else wait_or_reply s now starts
          (if starts then record e { asked = some now; in_flight = true } else e)

  -- What a request replies that was woken by the end of a lookup.
  unfoldable pub woken : Settings → ℕ → Entry A → Reply A
  woken s now e = if not e.failing then result e else kept_or_reason (kept now s.keep_for e) e.err

  -- What it replies that waited long enough, unless the name was dropped meanwhile.
  unfoldable pub given_up : List A → ℕ → Entry A → Option (Reply A)
  given_up old dropped e = if e.dropped == dropped then some (served old) else none

  unfoldable pub settled : (List A → List A) → ℕ → Answer A → Entry A → Entry A
  settled sorted now (found addrs) e = record e {
    addrs = sorted addrs;
    answered = some now;
    failing = false;
    err = none;
    in_flight = false;
  }
  settled sorted now none_carry e = record e {
    addrs = [];
    answered = some now;
    failing = false;
    err = some nobody;
    in_flight = false;
  }
  settled sorted now lost e = record e { failing = true; err = some no_answer; in_flight = false }

  -- A turn of a lookup that began when the name had been dropped `dropped` times.
  unfoldable pub lookup_turn : (List A → List A) → ℕ → ℕ → Answer A → Entry A → Turn A
  lookup_turn sorted dropped now answer e =
      if e.dropped == dropped
      then record { entry = settled sorted now answer e; again = false }
      else record { entry = record e { asked = some now }; again = true }

  unfoldable pub drop_entry : Entry A → Entry A
  drop_entry e = record e { dropped = e.dropped + 1; addrs = []; answered = none; asked = none }

  -- The table; names are numbers.
  abbrev pub drop_name : ℕ → List (ℕ × Entry A) → List (ℕ × Entry A)
  drop_name name [] = []
  drop_name name ((other, e) ∷ entries) =
      (other, if other == name then drop_entry e else e) ∷ drop_name name entries

  unfoldable pub drop_names : List ℕ → List (ℕ × Entry A) → List (ℕ × Entry A)
  drop_names [] entries = entries
  drop_names (name ∷ names) entries = drop_names names (drop_name name entries)

  unfoldable pub forget : ℕ → List (ℕ × Entry A) → List (ℕ × Entry A)
  forget now entries =
      if ltb (length entries) 256
      then entries
      else keep (λ (e : ℕ × Entry A). e.1.in_flight || leb (now - e.1.used) 600_000_000_000) entries
