-- ===== src/Rollout/Capacity.antt =====
-- Serving capacity over a whole rollout.
use shipwick.Base.{
  ℕ, ◌+◌, ◌≤◌, ◌≡◌, ◌∙◌, sym, ap, inl, inr, refl, Bool, true, not, ◌||◌, Option, some, List, [],
  ◌∷◌, ◌++◌, ◌==◌, keep, keep-append, length, length-append, length-keep-le, find_row, All, arith,
  Bool-cases, Option-cases,
}
use mathlib.Core.List.{append_assoc}
use shipwick.Rollout.{
  Replica, Rollout, desired, leaves, predecessors, sorted_replicas, insert_sorted, outgoing,
  rerouted, retires, swap, swap_over, nothing, after, roll, is_empty,
}
use shipwick.Rollout.Swaps.{
  AreApart, length-predecessors, length-leaves, AreApart-keep, AreApart-left,
}

abbrev pub concat : List (List Replica) → List Replica
concat [] = []
concat (b ∷ bs) = b ++ concat bs

-- Who serves after each swap of the loop, the last one included.
pub servings : List (List Replica) → Rollout → List (List Replica)
servings [] r = (roll [] r).serving ∷ []
servings (b ∷ bs) r = let next = after (swap nothing (some b) r) in next.serving ∷ servings bs next

swapped : Option (List Replica) → Rollout → Rollout
swapped ready r = retires (outgoing ready r.old) (rerouted ready r)

roll-some :
    (b : List Replica) (bs : List (List Replica)) (r : Rollout)
    → roll (b ∷ bs) r ≡ roll bs (swapped (some b) r)
unfolding roll swap_over swapped
roll-some b bs r = refl

servings-some :
    (b : List Replica) (bs : List (List Replica)) (r : Rollout)
    → servings (b ∷ bs) r ≡ (swapped (some b) r).serving ∷ servings bs (swapped (some b) r)
unfolding servings swap swap_over swapped
servings-some b bs r = refl

servings-none : (r : Rollout) → servings [] r ≡ (roll [] r).serving ∷ []
unfolding servings
servings-none r = refl

serving-swapped :
    (b : List Replica) (r : Rollout)
    → (swapped (some b) r).serving
      ≡ keep (λ m. not (leaves (predecessors b r.old) m)) r.serving ++ b
unfolding swapped rerouted retires outgoing
serving-swapped b r = refl

-- A batch that is ready never leaves fewer replicas in rotation.
serving-grows :
    (b : List Replica) (r : Rollout)
    → AreApart r.serving
    → length r.serving ≤ length (swapped (some b) r).serving
serving-grows b r u = rw (serving-swapped b r) (
    omega (
      arith,
      length-append (keep (λ m. not (leaves (predecessors b r.old) m)) r.serving) b,
      length-leaves (predecessors b r.old) r.serving u,
      length-predecessors b r.old,
    ))

swapped-AreApart :
    (b rest : List Replica) (r : Rollout)
    → AreApart (r.serving ++ (b ++ rest))
    → AreApart ((swapped (some b) r).serving ++ rest)
swapped-AreApart b rest r u =
    rw (serving-swapped b r, append_assoc)
      (AreApart-keep (λ m. not (leaves (predecessors b r.old) m)) r.serving (b ++ rest) u)

-- The replicas of the new version, told from the old ones by their containers.
abbrev pub is_new : List Replica → Replica → Bool
is_new first m = not (leaves first m)

abbrev news : List Replica → List Replica → List Replica
news first = keep (is_new first)

keep-implied :
    (p q : Replica → Bool) (xs : List Replica)
    → ((m : Replica) → q m ≡ true → p m ≡ true)
    → keep q (keep p xs) ≡ keep q xs
keep-implied p q [] h = refl
keep-implied p q (x ∷ xs) h = ground (arith, h x, keep-implied p q xs h)

keep-true : (p : Replica → Bool) (xs : List Replica) → All (λ m. p m ≡ true) xs → keep p xs ≡ xs
keep-true p [] h = refl
keep-true p (x ∷ xs) h = ground (arith, h.0, keep-true p xs h.1)

-- Everything old was there at the start.
abbrev IsFrom : List Replica → List Replica → Type 0
IsFrom first old = (m : Replica) → leaves old m ≡ true → leaves first m ≡ true

find_row-leaves :
    (i : ℕ) (old : List Replica) (o m : Replica)
    → find_row (λ (r : Replica). r.index) i old ≡ some o
    → (o.container_id == m.container_id) ≡ true
    → leaves old m ≡ true
unfolding find_row
find_row-leaves i [] o m e h = cc
find_row-leaves i (r ∷ old) o m e h = ground (arith, find_row-leaves i old o m)

predecessors-IsFrom : (ready old : List Replica) → IsFrom old (predecessors ready old)
unfolding predecessors
predecessors-IsFrom [] old m h = cc
predecessors-IsFrom (r ∷ rs) old m h =
    elim (Option-cases (find_row (λ (o : Replica). o.index) r.index old)) [
      | inl e ↦ predecessors-IsFrom rs old m (rw (predecessors, e) at h)
      | inr (o, e) ↦ elim (Bool-cases (o.container_id == m.container_id)) [
        | inl hit ↦ find_row-leaves r.index old o m e hit
        | inr miss ↦ predecessors-IsFrom rs old m (ground (arith, e, h, miss))
      ]
    ]

insert_sorted-leaves :
    (x : Replica) (ys : List Replica) (m : Replica)
    → leaves (insert_sorted x ys) m ≡ ((x.container_id == m.container_id) || leaves ys m)
unfolding insert_sorted
insert_sorted-leaves x [] m = refl
insert_sorted-leaves x (y ∷ ys) m = ground (arith, insert_sorted-leaves x ys m)

sorted-leaves : (old : List Replica) (m : Replica) → leaves (sorted_replicas old) m ≡ leaves old m
unfolding sorted_replicas
sorted-leaves [] m = refl
sorted-leaves (o ∷ old) m =
    insert_sorted-leaves o (sorted_replicas old) m
    ∙ ap (λ c. (o.container_id == m.container_id) || c) (sorted-leaves old m)

keep-leaves_at_first : (p : Replica → Bool) (old : List Replica) → IsFrom old (keep p old)
keep-leaves_at_first p [] m h = h
keep-leaves_at_first p (o ∷ old) m h = ground (arith, keep-leaves_at_first p old m)

implied :
    (first out : List Replica)
    → IsFrom first out
    → (m : Replica) → is_new first m ≡ true
    → not (leaves out m) ≡ true
implied first out from m h = ground (arith, from m)

news-swapped :
    (first b : List Replica) (r : Rollout)
    → IsFrom first r.old
    → All (λ m. is_new first m ≡ true) b
    → news first (swapped (some b) r).serving ≡ news first r.serving ++ b
news-swapped first b r from fresh = rw (
  serving-swapped b r,
  keep-append (is_new first) (keep (λ m. not (leaves (predecessors b r.old) m)) r.serving) b,
  keep-implied (λ m. not (leaves (predecessors b r.old) m)) (is_new first) r.serving
      (implied first (predecessors b r.old) (λ m h. from m (predecessors-IsFrom b r.old m h))),
  keep-true (is_new first) b fresh,
)

old-swapped : (ready : Option (List Replica)) (r : Rollout) → IsFrom r.old (swapped ready r).old
unfolding swapped rerouted retires
old-swapped ready r m h = keep-leaves_at_first _ r.old m h

length-news : (first xs : List Replica) → length (news first xs) ≤ length xs
length-news first xs = length-keep-le (is_new first) xs

last-news :
    (first : List Replica) (r : Rollout)
    → IsFrom first r.old
    → length (news first r.serving) ≤ length (roll [] r).serving
unfolding roll swap swap_over rerouted retires
last-news first r from = elim (Bool-cases (is_empty (sorted_replicas r.old))) [
  | inl idle ↦ rw (idle, roll, swap) (length-news first r.serving)
  | inr left ↦
      rw (left, roll, swap)
        (omega (
          arith,
          length-append (keep stays r.serving) [],
          ap length (
              keep-implied stays (is_new first) r.serving (
                implied first (sorted_replicas r.old)
                  (λ m h. from m (sym (sorted-leaves r.old m) ∙ h)))),
          length-news first (keep stays r.serving),
        ))
]
  where
    stays : Replica → Bool
    stays m = not (leaves (sorted_replicas r.old) m)

All-left : (P : Replica → Type 0) (xs ys : List Replica) → All P (xs ++ ys) → All P xs
All-left P [] ys h = tt
All-left P (x ∷ xs) ys h = (h.0, All-left P xs ys h.1)

All-right : (P : Replica → Type 0) (xs ys : List Replica) → All P (xs ++ ys) → All P ys
All-right P [] ys h = h
All-right P (x ∷ xs) ys h = All-right P xs ys h.1

roll-news :
    (first : List Replica) (bs : List (List Replica)) (r : Rollout)
    → IsFrom first r.old
    → All (λ m. is_new first m ≡ true) (concat bs)
    → length (news first r.serving) + length (concat bs) ≤ length (roll bs r).serving
roll-news first [] r from fresh = omega (arith, last-news first r from)
roll-news first (b ∷ bs) r from fresh = rw (roll-some b bs r) (
    omega (
      arith,
      ap length (news-swapped first b r from (All-left _ b (concat bs) fresh)),
      length-append (news first r.serving) b,
      length-append b (concat bs),
      roll-news first bs (swapped (some b) r) (λ m h. from m (old-swapped (some b) r m h))
          (All-right _ b (concat bs) fresh),
    ))

abbrev pub AtLeast : ℕ → List Replica → Type 0
AtLeast n s = n ≤ length s

AtLeast-All : (m n : ℕ) (ss : List (List Replica)) → n ≤ m → All (AtLeast m) ss → All (AtLeast n) ss
AtLeast-All m n [] le h = tt
AtLeast-All m n (s ∷ ss) le h = (omega (arith, h.0), AtLeast-All m n ss le h.1)

servings-AtLeast :
    (n : ℕ) (first : List Replica) (bs : List (List Replica)) (r : Rollout)
    → AreApart (r.serving ++ concat bs)
    → IsFrom first r.old
    → All (λ m. is_new first m ≡ true) (concat bs)
    → n ≤ length r.serving
    → n ≤ length (news first r.serving) + length (concat bs)
    → All (AtLeast n) (servings bs r)
servings-AtLeast n first [] r apart from fresh now end =
    rw (servings-none r) (omega (arith, roll-news first [] r from fresh), tt)
servings-AtLeast n first (b ∷ bs) r apart from fresh now end = rw (servings-some b bs r) (
  omega (arith, grows),
  servings-AtLeast n first bs (swapped (some b) r) (swapped-AreApart b (concat bs) r apart)
      (λ m h. from m (old-swapped (some b) r m h)) (All-right _ b (concat bs) fresh)
      (omega (arith, grows))
      (omega (
        arith,
        ap length (news-swapped first b r from (All-left _ b (concat bs) fresh)),
        length-append (news first r.serving) b,
        length-append b (concat bs),
      )),
)
  where
    grows : length r.serving ≤ length (swapped (some b) r).serving
    grows = serving-grows b r (AreApart-left r.serving (b ++ concat bs) apart)

-- From the moment that the replicas of the old version serve to the end of the rollout, after every
-- swap at least `desired` replicas are in rotation: as many as the smaller of the two versions asks
-- for. The batches are those that became ready, with containers of their own, and bring up the
-- number of replicas that the new version asks for.
pub servings-desired :
    (bs : List (List Replica)) (r : Rollout) (n : ℕ)
    → r.previous ≡ some n
    → length r.serving ≡ n
    → length (concat bs) ≡ r.replicas
    → AreApart (r.serving ++ concat bs)
    → All (λ m. is_new r.old m ≡ true) (concat bs)
    → All (AtLeast (desired r)) (servings bs r)
unfolding desired
servings-desired bs r n previous serving ready apart fresh =
    servings-AtLeast (desired r) r.old bs r apart (λ m h. h) fresh
      (ground (arith, previous, serving)) (ground (arith, previous, ready))
