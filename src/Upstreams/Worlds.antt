-- ===== src/Upstreams/Worlds.antt =====
-- The requests and the lookups of one name, in any order of their steps. Nothing here keeps a second
-- lookup from beginning but the entry's own flag. `stamp` says of an address
-- how often the name had been dropped when the question was put that it answers.
use shipwick.Base.{
  ℕ, ◌+◌, ◌≡◌, Bool, true, false, Option, none, some, List, [], ◌∷◌, ◌++◌, ◌==◌, if◌then◌else◌, All,
}
use shipwick.Upstreams.{
  Settings, Entry, Reply, cancelled, Begin, replies, waits, Answer, found, Turn, Begun, request,
  woken, given_up, lookup_turn, drop_entry,
}

-- A lookup has begun, has read the number of drops, and has put its question, with the number of
-- drops that it read and the number at that moment.
pub data Lookup : Type 0 where
  began : Lookup
  reading : ℕ → Lookup
  asking : ℕ → ℕ → Lookup

pub record Waiting (A : Type 0) : Type 0 where
  pub settings : Settings
  pub old : Option (List A)
  pub dropped : ℕ
  pub is_woken : Bool

pub record World (A : Type 0) : Type 0 where
  pub entry : Entry A
  pub drops : ℕ
  pub lookups : List Lookup
  pub waiting : ℕ → Option (Waiting A)
  pub replied : List (ℕ × Reply A)

abbrev pub Stamped : {A : Type 0} → (A → ℕ) → ℕ → A → Type 0
Stamped stamp n a = stamp a ≡ n

abbrev pub AnswersQuestion : {A : Type 0} → (A → ℕ) → ℕ → Answer A → Type 0
AnswersQuestion stamp n (found addrs) = All (Stamped stamp n) addrs
AnswersQuestion stamp n _ = Unit

module _ {A : Type 0} where
  abbrev pub set_waiting :
      ℕ → Option (Waiting A) → (ℕ → Option (Waiting A)) → ℕ → Option (Waiting A)
  set_waiting id value waiting = λ other. if other == id then value else waiting other

  abbrev pub wake_one : Option (Waiting A) → Option (Waiting A)
  wake_one none = none
  wake_one (some v) = some (record v { is_woken = true })

  abbrev pub reply_to : ℕ → Reply A → World A → World A
  reply_to id reply w = record w {
    waiting = set_waiting id none w.waiting;
    replied = (w.drops, reply) ∷ w.replied;
  }

  -- What a request leaves that has begun.
  abbrev pub after_begin : ℕ → Settings → Begin A → World A → World A
  after_begin id s (replies reply) w = record w { replied = (w.drops, reply) ∷ w.replied }
  after_begin id s (waits old dropped) w = record w {
    waiting =
        set_waiting id
          (some (record { settings = s; old = old; dropped = dropped; is_woken = false }))
          w.waiting;
  }

  abbrev pub after_request : ℕ → Settings → Begun A → World A → World A
  after_request id s b w =
      after_begin id s b.begin
        (record w { entry = b.entry; lookups = if b.starts then began ∷ w.lookups else w.lookups })

  -- What the turn of a lookup leaves, which is between the others.
  abbrev pub after_turn : List Lookup → List Lookup → Turn A → World A → World A
  after_turn before after t w = record w {
    entry = t.entry;
    lookups = before ++ (if t.again then began ∷ after else after);
    waiting = if t.again then w.waiting else λ id. wake_one (w.waiting id);
  }

  -- Who gives up replies with the old answer, or goes on waiting without it.
  abbrev pub after_giving_up : ℕ → Waiting A → Option (Reply A) → World A → World A
  after_giving_up id v (some reply) w = reply_to id reply w
  after_giving_up id v none w = record w {
    waiting = set_waiting id (some (record v { old = none })) w.waiting;
  }

module _ {A : Type 0} (sorted : List A → List A) (stamp : A → ℕ) where
  pub data Step (w : World A) : World A → Type 0 where
    begins :
        (id now : ℕ) (s : Settings)
        → w.waiting id ≡ none
        → Step w (after_request id s (request s now w.entry) w)
    reads :
        (before after : List Lookup)
        → w.lookups ≡ before ++ began ∷ after
        → Step w (record w { lookups = before ++ reading w.entry.dropped ∷ after })
    asks :
        (before after : List Lookup) (dropped : ℕ)
        → w.lookups ≡ before ++ reading dropped ∷ after
        → Step w (record w { lookups = before ++ asking dropped w.drops ∷ after })
    answers :
        (before after : List Lookup) (dropped put now : ℕ) (answer : Answer A)
        → w.lookups ≡ before ++ asking dropped put ∷ after
        → AnswersQuestion stamp put answer
        → Step w (after_turn before after (lookup_turn sorted dropped now answer w.entry) w)
    wakes :
        (id now : ℕ) (v : Waiting A)
        → w.waiting id ≡ some v
        → v.is_woken ≡ true
        → Step w (reply_to id (woken v.settings now w.entry) w)
    gives_up :
        (id : ℕ) (v : Waiting A) (old : List A)
        → w.waiting id ≡ some v
        → v.old ≡ some old
        → Step w (after_giving_up id v (given_up old v.dropped w.entry) w)
    leaves : (id : ℕ) (v : Waiting A) → w.waiting id ≡ some v → Step w (reply_to id cancelled w)
    drops_name : Step w (record w { entry = drop_entry w.entry; drops = w.drops + 1 })

  abbrev pub unknown : Entry A
  unknown = record {
    addrs = [];
    answered = none;
    asked = none;
    failing = false;
    err = none;
    in_flight = false;
    used = 0;
    dropped = 0;
  }

  abbrev pub first_world : World A
  first_world = record {
    entry = unknown;
    drops = 0;
    lookups = [];
    waiting = λ id. none;
    replied = [];
  }

  pub data Reach : World A → Type 0 where
    start : Reach first_world
    next : {w v : World A} → Reach w → Step w v → Reach v
