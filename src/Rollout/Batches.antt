-- ===== src/Rollout/Batches.antt =====
-- The order in which the replicas of a new version are started.
use shipwick.Base.{
  ℕ, zero, suc, ◌+◌, ◌≡◌, ◌⊎◌, ◌∙◌, inl, inr, refl, Bool, false, not, ◌&&◌, List, [], ◌∷◌, ◌++◌,
  leb, ltb, ◌==◌, if◌then◌else◌, keep, length, one_to, All, All-append, arith, Bool-cases,
}
use shipwick.Rollout.{
  Rollout, Replica, has_index, contains, pending_indexes, singles, batch, batches,
}

-- How often a number stands in a list, and in a list of lists.
abbrev pub count : ℕ → List ℕ → ℕ
count k [] = 0
count k (x ∷ xs) = (if x == k then 1 else 0) + count k xs

abbrev pub count_all : ℕ → List (List ℕ) → ℕ
count_all k [] = 0
count_all k (xs ∷ xss) = count k xs + count_all k xss

count-append : (k : ℕ) (xs ys : List ℕ) → count k (xs ++ ys) ≡ count k xs + count k ys
count-append k [] ys = omega arith
count-append k (x ∷ xs) ys = omega (arith, count-append k xs ys)

count_all-append :
    (k : ℕ) (xss yss : List (List ℕ)) → count_all k (xss ++ yss) ≡ count_all k xss + count_all k yss
count_all-append k [] yss = omega arith
count_all-append k (xs ∷ xss) yss = omega (arith, count_all-append k xss yss)

count_all-singles : (k : ℕ) (xs : List ℕ) → count_all k (singles xs) ≡ count k xs
count_all-singles k [] = refl
count_all-singles k (x ∷ xs) = omega (arith, count_all-singles k xs)

count_all-batch : (k : ℕ) (xs : List ℕ) → count_all k (batch xs) ≡ count k xs
count_all-batch k [] = refl
count_all-batch k (x ∷ xs) = omega arith

count-keep :
    (p : ℕ → Bool) (k : ℕ) (xs : List ℕ) → count k (keep p xs) ≡ (if p k then count k xs else 0)
count-keep p k [] = ground arith
count-keep p k (x ∷ xs) = ground (arith, count-keep p k xs)

count-split :
    (p : ℕ → Bool) (k : ℕ) (xs : List ℕ)
    → count k (keep p xs) + count k (keep (λ i. not (p i)) xs) ≡ count k xs
count-split p k xs = ground (arith, count-keep p k xs, count-keep (λ i. not (p i)) k xs)

count-one_to : (k n : ℕ) → count k (one_to n) ≡ (if ltb 0 k && leb k n then 1 else 0)
count-one_to k zero = ground arith
count-one_to k (suc n) = ground (arith, count-append k (one_to n) (suc n ∷ []), count-one_to k n)

batches-pending : (r : Rollout) (i : ℕ) → count_all i (batches r) ≡ count i (pending_indexes r)
unfolding batches
batches-pending r i = elim (Bool-cases r.recreate) [
  | inl all ↦ rw (all, batches) (count_all-batch i (pending_indexes r))
  | inr some' ↦
      rw (some', batches)
        (omega (
          arith,
          count_all-append i (singles (keep (λ k. has_index k r.old) (pending_indexes r)))
              (batch (keep (λ k. not (has_index k r.old)) (pending_indexes r))),
          count_all-singles i (keep (λ k. has_index k r.old) (pending_indexes r)),
          count_all-batch i (keep (λ k. not (has_index k r.old)) (pending_indexes r)),
          count-split (λ k. has_index k r.old) i (pending_indexes r),
        ))
]

-- Over all the batches each index from 1 to the number of replicas is started once, unless a resumed
-- rollout has it serving already, and no other index is.
pub batches_count :
    (r : Rollout) (i : ℕ)
    → count_all i (batches r)
      ≡ (if ltb 0 i && leb i r.replicas && not (contains r.in_service i) then 1 else 0)
unfolding pending_indexes
batches_count r i =
    batches-pending r i
    ∙ ground (
      arith,
      count-keep (λ k. not (contains r.in_service k)) i (one_to r.replicas),
      count-one_to i r.replicas,
    )

All-singles : (P : List ℕ → Type 0) → ((i : ℕ) → P (i ∷ [])) → (xs : List ℕ) → All P (singles xs)
All-singles P h [] = tt
All-singles P h (x ∷ xs) = (h x, All-singles P h xs)

-- A batch that replaces something is one replica: the others hold only newcomers.
abbrev pub IsGentle : List Replica → List ℕ → Type 0
IsGentle old b = (length b ≡ 1) ⊎ All (λ i. has_index i old ≡ false) b

keep-All : (p : ℕ → Bool) (xs : List ℕ) → All (λ i. p i ≡ false) (keep (λ i. not (p i)) xs)
keep-All p [] = tt
keep-All p (x ∷ xs) = elim (Bool-cases (p x)) [
  | inl h ↦ rw h (keep-All p xs)
  | inr h ↦ rw h (h, keep-All p xs)
]

batch-All : (P : List ℕ → Type 0) (xs : List ℕ) → P xs → All P (batch xs)
batch-All P [] h = tt
batch-All P (x ∷ xs) h = (h, tt)

batch-IsGentle :
    (old : List Replica) (xs : List ℕ)
    → All (IsGentle old) (batch (keep (λ i. not (has_index i old)) xs))
batch-IsGentle old xs = batch-All (IsGentle old) _ (inr (keep-All (λ i. has_index i old) xs))

-- Unless the old version is stopped first, replicas that have a predecessor start one at a time, so
-- that no more than one container is added to what runs.
pub batches-IsGentle : (r : Rollout) → r.recreate ≡ false → All (IsGentle r.old) (batches r)
unfolding batches
batches-IsGentle r h =
    rw (h, batches)
      (All-append (IsGentle r.old) _ _ (All-singles (IsGentle r.old) (λ i. inl refl) _)
        (batch-IsGentle r.old (pending_indexes r)))
