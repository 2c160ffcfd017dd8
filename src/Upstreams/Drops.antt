-- ===== src/Upstreams/Drops.antt =====
-- Every step keeps replies, waiting requests and the entry from before a drop apart from those after.
use shipwick.Base.{
  ℕ, ◌≡◌, ◌∙◌, sym, subst, refl, false, Option, none, some, List, ◌∷◌, length, ◌==◌, if◌then◌else◌,
  All, both_branches, arith,
}
use shipwick.Upstreams.{
  Settings, Entry, Reply, served, cancelled, Begin, replies, waits, Turn, Begun, request, woken,
  given_up, lookup_turn, drop_entry,
}
use shipwick.Upstreams.Worlds.{
  Lookup, began, reading, asking, Waiting, World, Stamped, set_waiting, wake_one, reply_to,
  after_begin, after_request, after_turn, after_giving_up, Step, begins, reads, asks, answers,
  wakes, gives_up, leaves, drops_name, Reach, start, next,
}
use shipwick.Upstreams.Fresh.{
  From, OldFrom, ReplyFrom, IsPut, one_if, WaitingFrom, BeginFrom, BegunFrom, IsFresh,
  request-BegunFrom, woken-ReplyFrom,
}
use shipwick.Upstreams.Lookups.{
  TurnFrom, At, flies_on, lookup-At, goes_on, turns_on, lookup_turn-TurnFrom, All-IsPut-suc,
}

module _ {A : Type 0} (sorted : List A → List A) (stamp : A → ℕ)
    (sorts : (n : ℕ) (xs : List A)
      → All (Stamped stamp n) xs
      → All (Stamped stamp n) (sorted xs)) where
  abbrev Fresh : World A → Type 0
  Fresh w = IsFresh sorted stamp sorts w

  set_waiting-WaitingFrom :
      (id : ℕ) (value : Option (Waiting A)) (waiting : ℕ → Option (Waiting A))
      → WaitingFrom sorted stamp sorts value
      → ((other : ℕ) → WaitingFrom sorted stamp sorts (waiting other))
      → (other : ℕ) → WaitingFrom sorted stamp sorts (set_waiting id value waiting other)
  set_waiting-WaitingFrom id value waiting h hs other =
      both_branches (WaitingFrom sorted stamp sorts) (other == id) value (waiting other) (λ e. h)
        (λ e. hs other)

  wake_one-WaitingFrom :
      (v : Option (Waiting A))
      → WaitingFrom sorted stamp sorts v
      → WaitingFrom sorted stamp sorts (wake_one v)
  wake_one-WaitingFrom none h = h
  wake_one-WaitingFrom (some v) h = h

  reply_to-IsFresh :
      (id : ℕ) (reply : Reply A) (w : World A)
      → Fresh w
      → ReplyFrom sorted stamp sorts w.drops reply
      → Fresh (reply_to id reply w)
  reply_to-IsFresh id reply w h k = record {
    stored = h.stored;
    counted = h.counted;
    put = h.put;
    flying = h.flying;
    waiting = set_waiting-WaitingFrom id none w.waiting tt h.waiting;
    replied = (k, h.replied);
  }

  begin_with_reply :
      (id : ℕ) (s : Settings) (b : Begin A) (w : World A)
      → Fresh w
      → BeginFrom sorted stamp sorts w.drops w.entry b
      → Fresh (after_begin id s b w)
  begin_with_reply id s (replies reply) w h k = record {
    stored = h.stored;
    counted = h.counted;
    put = h.put;
    flying = h.flying;
    waiting = h.waiting;
    replied = (k, h.replied);
  }
  begin_with_reply id s (waits old dropped) w h k = record {
    stored = h.stored;
    counted = h.counted;
    put = h.put;
    flying = h.flying;
    waiting =
        set_waiting-WaitingFrom id
          (some (record { settings = s; old = old; dropped = dropped; is_woken = false })) w.waiting
          (subst (λ n. OldFrom sorted stamp sorts n old) (sym (k.1 ∙ h.counted)) k.0) h.waiting;
    replied = h.replied;
  }

  after_request-IsFresh :
      (id : ℕ) (s : Settings) (b : Begun A) (w : World A)
      → Fresh w
      → BegunFrom sorted stamp sorts w.drops w.entry b
      → Fresh (after_request id s b w)
  after_request-IsFresh id s b w h k =
      let f =
        flies_on sorted stamp sorts w.drops b.starts w.entry.in_flight b.entry.in_flight w.lookups
          h.put h.flying k.flies k.starts_once in
      begin_with_reply id s b.begin
        (record w { entry = b.entry; lookups = if b.starts then began ∷ w.lookups else w.lookups })
        (record {
          stored = subst (From sorted stamp sorts w.drops) (sym k.same_addrs) h.stored;
          counted = k.same_dropped ∙ h.counted;
          put = f.0;
          flying = f.1;
          waiting = h.waiting;
          replied = h.replied;
        })
        (begins_as w.drops w.entry b.entry b.begin (sym k.same_dropped) k.begin)
    where
      begins_as :
          (n : ℕ) (e g : Entry A) (c : Begin A)
          → e.dropped ≡ g.dropped
          → BeginFrom sorted stamp sorts n e c
          → BeginFrom sorted stamp sorts n g c
      begins_as n e g (replies reply) same x = x
      begins_as n e g (waits old dropped) same x = (x.0, x.1 ∙ same)

  after_turn-IsFresh :
      (before : List Lookup) (l : Lookup) (after : List Lookup) (t : Turn A) (w : World A)
      → Fresh w
      → At sorted stamp sorts w before l after
      → TurnFrom sorted stamp sorts w.drops w.entry t
      → Fresh (after_turn before after t w)
  after_turn-IsFresh before l after t w h p k =
      let f = turns_on sorted stamp sorts w before l after t.again t.entry.in_flight p k.flies in
      record {
        stored = k.addrs;
        counted = k.same_dropped ∙ h.counted;
        put = f.0;
        flying = f.1;
        waiting =
            both_branches
              (λ (ws : ℕ → Option (Waiting A)). (id : ℕ) → WaitingFrom sorted stamp sorts (ws id))
              t.again w.waiting (λ id. wake_one (w.waiting id)) (λ e. h.waiting)
              (λ e id. wake_one-WaitingFrom (w.waiting id) (h.waiting id));
        replied = h.replied;
      }

  with_lookups :
      (w : World A) (ls : List Lookup)
      → Fresh w
      → All (IsPut sorted stamp sorts w.drops) ls
        × (length ls ≡ one_if sorted stamp sorts w.entry.in_flight)
      → Fresh (record w { lookups = ls })
  with_lookups w ls h k = record {
    stored = h.stored;
    counted = h.counted;
    put = k.0;
    flying = k.1;
    waiting = h.waiting;
    replied = h.replied;
  }

  after_giving_up-IsFresh :
      (id : ℕ) (v : Waiting A) (old : List A) (w : World A)
      → Fresh w
      → OldFrom sorted stamp sorts v.dropped v.old
      → v.old ≡ some old
      → Fresh (after_giving_up id v (given_up old v.dropped w.entry) w)
  unfolding given_up
  after_giving_up-IsFresh id v old w h k is =
      both_branches (λ (r : Option (Reply A)). Fresh (after_giving_up id v r w))
        (w.entry.dropped == v.dropped) (some (served old)) none
        (λ same.
          let n : v.dropped ≡ w.drops = ground (arith, same, h.counted) in
          reply_to-IsFresh id (served old) w h (
            subst (λ m. From sorted stamp sorts m old) n
              (subst (OldFrom sorted stamp sorts v.dropped) is k)))
        (λ differs. record {
          stored = h.stored;
          counted = h.counted;
          put = h.put;
          flying = h.flying;
          waiting =
              set_waiting-WaitingFrom id (some (record v { old = none })) w.waiting tt h.waiting;
          replied = h.replied;
        })

  waits_from :
      (id : ℕ) (v : Waiting A) (w : World A)
      → Fresh w
      → w.waiting id ≡ some v
      → OldFrom sorted stamp sorts v.dropped v.old
  waits_from id v w h e = subst (WaitingFrom sorted stamp sorts) e (h.waiting id)

  Step-IsFresh : (w v : World A) → Fresh w → Step sorted stamp w v → Fresh v
  unfolding drop_entry
  Step-IsFresh w v h (begins id now s free) =
      after_request-IsFresh id s (request s now w.entry) w h
        (request-BegunFrom sorted stamp sorts w.drops s now w.entry h.stored)
  Step-IsFresh w v h (reads before after is) = with_lookups w _ h (
      goes_on sorted stamp sorts w before began (reading w.entry.dropped) after
        (lookup-At sorted stamp sorts w before began after h is) (omega (arith, h.counted)))
  Step-IsFresh w v h (asks before after dropped is) =
      let p = lookup-At sorted stamp sorts w before (reading dropped) after h is in
      with_lookups w _ h (
        goes_on sorted stamp sorts w before (reading dropped) (asking dropped w.drops) after p
          (p.put, omega arith))
  Step-IsFresh w v h (answers before after dropped put now answer is k) =
      let p = lookup-At sorted stamp sorts w before (asking dropped put) after h is in
      after_turn-IsFresh before (asking dropped put) after
        (lookup_turn sorted dropped now answer w.entry) w h p
        (lookup_turn-TurnFrom sorted stamp sorts w.drops dropped put now answer w.entry h.stored
          h.counted p.out p.put.0 p.put.1 k)
  Step-IsFresh w v h (wakes id now u is woke) =
      reply_to-IsFresh id (woken u.settings now w.entry) w h
        (woken-ReplyFrom sorted stamp sorts w.drops now u.settings w.entry h.stored)
  Step-IsFresh w v h (gives_up id u old is has) =
      after_giving_up-IsFresh id u old w h (waits_from id u w h is) has
  Step-IsFresh w v h (leaves id u is) = reply_to-IsFresh id cancelled w h tt
  Step-IsFresh w v h drops_name = record {
    stored = tt;
    counted = omega (arith, h.counted);
    put = All-IsPut-suc sorted stamp sorts w.drops w.lookups h.put;
    flying = h.flying;
    waiting = h.waiting;
    replied = h.replied;
  }

  -- Whatever requests, lookups and drops do, in any order: every address that a request was replied
  -- with answers a question that was put after the last drop before that reply; so do those that
  -- the entry holds; and one lookup is out while the entry says so, and none otherwise. The answers of
  -- the resolver are about the time when they were asked for, and sorting loses no address's.
  pub Reach-IsFresh : (w : World A) → Reach sorted stamp w → Fresh w
  Reach-IsFresh w start = record {
    stored = tt;
    counted = refl;
    put = tt;
    flying = refl;
    waiting = λ id. tt;
    replied = tt;
  }
  Reach-IsFresh w (next {w = u} r s) = Step-IsFresh u w (Reach-IsFresh u r) s
