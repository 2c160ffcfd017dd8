-- ===== src/Upstreams/Fresh.antt =====
-- No reply is older than the last drop.
use shipwick.Base.{
  ℕ, ◌≤◌, ◌≡◌, ◌∙◌, ap, sym, subst, refl, inl, inr, Bool, true, false, not, ◌&&◌, ◌||◌, Option,
  none, some, List, if◌then◌else◌, All, length, Bool-cases, both_branches, is_none, arith,
}
use shipwick.Upstreams.{
  Settings, Entry, Reply, Reason, within_time, served, unanswered, cancelled, Begin, replies, waits,
  Begun, result, kept, kept_or_reason, wait_or_reply, request, woken, is_empty,
}
use shipwick.Upstreams.Worlds.{Lookup, began, reading, asking, Waiting, World, Stamped}

module _ {A : Type 0} (sorted : List A → List A) (stamp : A → ℕ)
    (sorts : (n : ℕ) (xs : List A)
      → All (Stamped stamp n) xs
      → All (Stamped stamp n) (sorted xs)) where
  -- The addresses answer questions that were put after `n` drops.
  abbrev pub From : ℕ → List A → Type 0
  From n addrs = All (Stamped stamp n) addrs

  abbrev pub OldFrom : ℕ → Option (List A) → Type 0
  OldFrom n none = Unit
  OldFrom n (some addrs) = From n addrs

  abbrev pub ReplyFrom : ℕ → Reply A → Type 0
  ReplyFrom n (served addrs) = From n addrs
  ReplyFrom n (unanswered reason) = Unit
  ReplyFrom n cancelled = Unit

  result-ReplyFrom : (n : ℕ) (e : Entry A) → From n e.addrs → ReplyFrom n (result e)
  unfolding result
  result-ReplyFrom n e h =
      both_branches (ReplyFrom n) (is_empty e.addrs) (unanswered e.err) (served e.addrs) (λ k. tt)
        (λ k. h)

  kept-OldFrom :
      (n now keep_for : ℕ) (e : Entry A) → From n e.addrs → OldFrom n (kept now keep_for e)
  unfolding kept
  kept-OldFrom n now keep_for e h =
      both_branches (OldFrom n) (is_empty e.addrs || not (within_time e.answered now keep_for)) none
        (some e.addrs) (λ k. tt) (λ k. h)

  kept_or_reason-ReplyFrom :
      (n : ℕ) (old : Option (List A)) (reason : Option Reason)
      → OldFrom n old
      → ReplyFrom n (kept_or_reason old reason)
  kept_or_reason-ReplyFrom n none reason h = tt
  kept_or_reason-ReplyFrom n (some addrs) reason h = h

  pub woken-ReplyFrom :
      (n now : ℕ) (s : Settings) (e : Entry A) → From n e.addrs → ReplyFrom n (woken s now e)
  unfolding woken
  woken-ReplyFrom n now s e h =
      both_branches (ReplyFrom n) (not e.failing) (result e)
        (kept_or_reason (kept now s.keep_for e) e.err) (λ k. result-ReplyFrom n e h)
        (λ k.
          kept_or_reason-ReplyFrom n (kept now s.keep_for e) e.err
            (kept-OldFrom n now s.keep_for e h))

  -- What is known of a lookup: it read the number of drops before it put its question.
  abbrev pub IsPut : ℕ → Lookup → Type 0
  IsPut drops began = Unit
  IsPut drops (reading dropped) = dropped ≤ drops
  IsPut drops (asking dropped put) = (dropped ≤ put) × (put ≤ drops)

  -- How many lookups there are of an entry that is being looked up, or is not.
  abbrev pub one_if : Bool → ℕ
  one_if true = 1
  one_if false = 0

  abbrev pub WaitingFrom : Option (Waiting A) → Type 0
  WaitingFrom none = Unit
  WaitingFrom (some v) = OldFrom v.dropped v.old

  pub record IsFresh (w : World A) : Type 0 where
    pub stored : From w.drops w.entry.addrs
    pub counted : w.entry.dropped ≡ w.drops
    pub put : All (IsPut w.drops) w.lookups
    pub flying : length w.lookups ≡ one_if w.entry.in_flight
    pub waiting : (id : ℕ) → WaitingFrom (w.waiting id)
    pub replied : All (λ (r : ℕ × Reply A). ReplyFrom r.0 r.1) w.replied

  abbrev pub BeginFrom : ℕ → Entry A → Begin A → Type 0
  BeginFrom n e (replies reply) = ReplyFrom n reply
  BeginFrom n e (waits old dropped) = OldFrom n old × (dropped ≡ e.dropped)

  -- What the first part of a request leaves of an entry.
  pub record BegunFrom (n : ℕ) (e : Entry A) (b : Begun A) : Type 0 where
    pub same_addrs : b.entry.addrs ≡ e.addrs
    pub same_dropped : b.entry.dropped ≡ e.dropped
    pub begin : BeginFrom n e b.begin
    pub flies : b.entry.in_flight ≡ (b.starts || e.in_flight)
    pub starts_once : (b.starts && e.in_flight) ≡ false

  wait_or_reply-BeginFrom :
      (n : ℕ) (s : Settings) (now : ℕ) (starts : Bool) (e : Entry A)
      → From n e.addrs
      → BeginFrom n e (wait_or_reply s now starts e).begin
  unfolding wait_or_reply
  wait_or_reply-BeginFrom n s now starts e h =
      let old = kept now s.keep_for e in
      let impatient = e.failing || not (within_time e.asked now s.wait) in
      both_branches (BeginFrom n e) (not e.in_flight || (not (is_none old) && impatient))
        (replies (kept_or_reason old e.err)) (waits old e.dropped)
        (λ k. kept_or_reason-ReplyFrom n old e.err (kept-OldFrom n now s.keep_for e h))
        (λ k. (kept-OldFrom n now s.keep_for e h, refl))

  wait_or_reply-entry :
      (s : Settings) (now : ℕ) (starts : Bool) (e : Entry A)
      → ((wait_or_reply s now starts e).entry ≡ e)
        × ((wait_or_reply s now starts e).starts ≡ starts)
  unfolding wait_or_reply
  wait_or_reply-entry s now starts e = (refl, refl)

  begins_alike :
      (n : ℕ) (e f : Entry A) (b : Begin A)
      → e.dropped ≡ f.dropped
      → BeginFrom n e b
      → BeginFrom n f b
  begins_alike n e f (replies reply) same h = h
  begins_alike n e f (waits old dropped) same h = (h.0, h.1 ∙ same)

  begun_with :
      (n : ℕ) (s : Settings) (now : ℕ) (starts : Bool) (entry e : Entry A)
      → From n entry.addrs
      → e.addrs ≡ entry.addrs
      → e.dropped ≡ entry.dropped
      → e.in_flight ≡ (starts || entry.in_flight)
      → (starts && entry.in_flight) ≡ false
      → BegunFrom n entry (wait_or_reply s now starts e)
  begun_with n s now starts entry e h addrs dropped flies once =
      let w = wait_or_reply-entry s now starts e in
      record {
        same_addrs = ap (λ (v : Entry A). v.addrs) w.0 ∙ addrs;
        same_dropped = ap (λ (v : Entry A). v.dropped) w.0 ∙ dropped;
        begin =
            begins_alike n e entry (wait_or_reply s now starts e).begin dropped
              (wait_or_reply-BeginFrom n s now starts e (subst (From n) (sym addrs) h));
        flies = cc (ap (λ (v : Entry A). v.in_flight) w.0, w.1, flies);
        starts_once = cc (w.1, once);
      }

  pub request-BegunFrom :
      (n : ℕ) (s : Settings) (now : ℕ) (entry : Entry A)
      → From n entry.addrs
      → BegunFrom n entry (request s now entry)
  unfolding request
  request-BegunFrom n s now entry h =
      let e = record entry { used = now } in
      let starts = not e.in_flight && not (within_time e.asked now s.refresh) in
      let asked = record e { asked = some now; in_flight = true } in
      both_branches (BegunFrom n entry) (not e.failing && within_time e.answered now s.refresh)
        (record { begin = replies (result e); entry = e; starts = false })
        (wait_or_reply s now starts (if starts then asked else e))
        (λ k. record {
          same_addrs = refl;
          same_dropped = refl;
          begin = result-ReplyFrom n e h;
          flies = refl;
          starts_once = refl;
        })
        (λ k. elim (Bool-cases starts) [
          | inl y ↦ rw y (begun_with n s now true entry asked h refl refl refl (ground (arith, y)))
          | inr y ↦ rw y (begun_with n s now false entry e h refl refl refl refl)
        ])
