-- ===== src/Upstreams/Lookups.antt =====
-- The lookups of a name that are out: what their turns leave, and that there is one at most.
use shipwick.Base.{
  ℕ, ◌+◌, ◌≤◌, ◌≡◌, ◌∙◌, ap, sym, subst, refl, Bool, true, false, ◌&&◌, ◌||◌, some, List, [], ◌∷◌,
  ◌++◌, length, length-middle, All-middle, All-between, ◌==◌, if◌then◌else◌, All, both_branches,
  arith,
}
use shipwick.Upstreams.{Entry, Answer, found, none_carry, lost, Turn, settled, lookup_turn}
use shipwick.Upstreams.Worlds.{Lookup, began, reading, asking, World, Stamped, AnswersQuestion}
use shipwick.Upstreams.Fresh.{IsPut, one_if, IsFresh}

module _ {A : Type 0} (sorted : List A → List A) (stamp : A → ℕ)
    (sorts : (n : ℕ) (xs : List A)
      → All (Stamped stamp n) xs
      → All (Stamped stamp n) (sorted xs)) where
  abbrev Fresh : World A → Type 0
  Fresh w = IsFresh sorted stamp sorts w

  -- What a turn of a lookup that is out leaves of an entry.
  pub record TurnFrom (n : ℕ) (e : Entry A) (t : Turn A) : Type 0 where
    pub addrs : All (Stamped stamp n) t.entry.addrs
    pub same_dropped : t.entry.dropped ≡ e.dropped
    pub flies : t.entry.in_flight ≡ t.again

  settled-TurnFrom :
      (n now : ℕ) (answer : Answer A) (e : Entry A)
      → All (Stamped stamp n) e.addrs
      → AnswersQuestion stamp n answer
      → TurnFrom n e (record { entry = settled sorted now answer e; again = false })
  unfolding settled
  settled-TurnFrom n now (found addrs) e h k = record {
    addrs = sorts n addrs k;
    same_dropped = refl;
    flies = refl;
  }
  settled-TurnFrom n now none_carry e h k = record { addrs = tt; same_dropped = refl; flies = refl }
  settled-TurnFrom n now lost e h k = record { addrs = h; same_dropped = refl; flies = refl }

  pub lookup_turn-TurnFrom :
      (n dropped put now : ℕ) (answer : Answer A) (e : Entry A)
      → All (Stamped stamp n) e.addrs
      → e.dropped ≡ n
      → e.in_flight ≡ true
      → dropped ≤ put
      → put ≤ n
      → AnswersQuestion stamp put answer
      → TurnFrom n e (lookup_turn sorted dropped now answer e)
  unfolding lookup_turn
  lookup_turn-TurnFrom n dropped put now answer e h counted flies le le_put k =
      both_branches (TurnFrom n e) (e.dropped == dropped)
        (record { entry = settled sorted now answer e; again = false })
        (record { entry = record e { asked = some now }; again = true })
        (λ same.
          let is_now : put ≡ n = ground (arith, same, counted, le, le_put) in
          settled-TurnFrom n now answer e h (subst (λ m. AnswersQuestion stamp m answer) is_now k))
        (λ differs. record { addrs = h; same_dropped = refl; flies = flies })

  IsPut-suc :
      (n : ℕ) (l : Lookup) → IsPut sorted stamp sorts n l → IsPut sorted stamp sorts (n + 1) l
  IsPut-suc n began h = tt
  IsPut-suc n (reading dropped) h = omega (arith, h)
  IsPut-suc n (asking dropped put) h = (h.0, omega (arith, h.1))

  pub All-IsPut-suc :
      (n : ℕ) (ls : List Lookup)
      → All (IsPut sorted stamp sorts n) ls
      → All (IsPut sorted stamp sorts (n + 1)) ls
  All-IsPut-suc n [] h = tt
  All-IsPut-suc n (l ∷ ls) h = (IsPut-suc n l h.0, All-IsPut-suc n ls h.1)

  -- A lookup begins only where none is out.
  pub flies_on :
      (drops : ℕ) (starts before after : Bool) (ls : List Lookup)
      → All (IsPut sorted stamp sorts drops) ls
      → length ls ≡ one_if sorted stamp sorts before
      → after ≡ (starts || before)
      → (starts && before) ≡ false
      → All (IsPut sorted stamp sorts drops) (if starts then began ∷ ls else ls)
        × (length (if starts then began ∷ ls else ls) ≡ one_if sorted stamp sorts after)
  flies_on drops true before after ls h flying flies once = (
    (tt, h),
    rw flies (omega (arith, subst (λ b. length ls ≡ one_if sorted stamp sorts b) once flying)),
  )
  flies_on drops false before after ls h flying flies once = (h, rw flies flying)

  -- The lookup that a step is of, the others, and what is known of them.
  pub record At (w : World A) (before : List Lookup) (l : Lookup) (after : List Lookup)
      : Type 0 where
    pub put : IsPut sorted stamp sorts w.drops l
    pub out : w.entry.in_flight ≡ true
    pub alone : length (before ++ after) ≡ 0
    pub others : All (IsPut sorted stamp sorts w.drops) (before ++ after)

  one_out : (b : Bool) (n : ℕ) → n + 1 ≡ one_if sorted stamp sorts b → (b ≡ true) × (n ≡ 0)
  one_out true n h = (refl, omega (arith, h))
  one_out false n h = absurd (omega (arith, h))

  pub lookup-At :
      (w : World A) (before : List Lookup) (l : Lookup) (after : List Lookup)
      → Fresh w
      → w.lookups ≡ before ++ l ∷ after
      → At w before l after
  lookup-At w before l after h is =
      let puts =
        All-middle (IsPut sorted stamp sorts w.drops) before l after
          (subst (All (IsPut sorted stamp sorts w.drops)) is h.put) in
      let one =
        one_out w.entry.in_flight (length (before ++ after))
          (sym (length-middle before l after) ∙ ap length (sym is) ∙ h.flying) in
      record { put = puts.0; out = one.0; alone = one.1; others = puts.1 }

  -- A lookup that goes on between the others.
  pub goes_on :
      (w : World A) (before : List Lookup) (l m : Lookup) (after : List Lookup)
      → At w before l after
      → IsPut sorted stamp sorts w.drops m
      → All (IsPut sorted stamp sorts w.drops) (before ++ m ∷ after)
        × (length (before ++ m ∷ after) ≡ one_if sorted stamp sorts w.entry.in_flight)
  goes_on w before l m after p k = (
    All-between (IsPut sorted stamp sorts w.drops) before m after p.others k,
    rw p.out (omega (arith, length-middle before m after, p.alone)),
  )

  pub turns_on :
      (w : World A) (before : List Lookup) (l : Lookup) (after : List Lookup) (again flies : Bool)
      → At w before l after
      → flies ≡ again
      → All (IsPut sorted stamp sorts w.drops) (before ++ (if again then began ∷ after else after))
        × (length (before ++ (if again then began ∷ after else after))
            ≡ one_if sorted stamp sorts flies)
  turns_on w before l after true flies p h =
      let on = goes_on w before l began after p tt in
      (on.0, rw h (on.1 ∙ ap (one_if sorted stamp sorts) p.out))
  turns_on w before l after false flies p h = (p.others, rw h p.alone)
