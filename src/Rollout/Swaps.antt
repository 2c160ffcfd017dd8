-- ===== src/Rollout/Swaps.antt =====
-- What one swap does to the replicas that serve.
use shipwick.Base.{
  ℕ, suc, ◌+◌, ◌≤◌, ◌≡◌, ap, inl, inr, refl, Bool, true, not, none, List, [], ◌∷◌, ◌++◌, ◌==◌, keep,
  length, find_row, find_row-keep-none, find_row-append, IsDistinct, IsDistinct-keep, arith,
  Bool-cases, Option-cases,
}
use shipwick.Rollout.{Replica, leaves, predecessors}

abbrev pub container : Replica → ℕ
container m = m.container_id

abbrev pub AreApart : List Replica → Type 0
AreApart = IsDistinct container

pub length-predecessors :
    (ready old : List Replica) → length (predecessors ready old) ≤ length ready
unfolding predecessors
length-predecessors [] old = omega arith
length-predecessors (r ∷ rs) old =
    elim (Option-cases (find_row (λ (o : Replica). o.index) r.index old)) [
      | inl e ↦ rw (e, predecessors) (omega (arith, length-predecessors rs old))
      | inr (o, e) ↦ rw (e, predecessors) (omega (arith, length-predecessors rs old))
    ]

keep-absent :
    (c : ℕ) (xs : List Replica)
    → find_row container c xs ≡ none
    → length (keep (λ m. not (c == m.container_id)) xs) ≡ length xs
unfolding find_row
keep-absent c [] e = refl
keep-absent c (x ∷ xs) e = ground (arith, keep-absent c xs)

-- Of replicas with containers of their own, at most one has a given container.
keep-one :
    (c : ℕ) (xs : List Replica)
    → AreApart xs
    → length xs ≤ length (keep (λ m. not (c == m.container_id)) xs) + 1
keep-one c [] u = omega arith
keep-one c (x ∷ xs) u = ground (arith, keep-one c xs u.1, keep-absent c xs)

keep-leaves :
    (o : Replica) (os xs : List Replica)
    → keep (λ m. not (leaves (o ∷ os) m)) xs
      ≡ keep (λ m. not (leaves os m)) (keep (λ m. not (o.container_id == m.container_id)) xs)
keep-leaves o os [] = refl
keep-leaves o os (x ∷ xs) = ground (arith, keep-leaves o os xs)

-- No more replicas leave the rotation than are told to.
pub length-leaves :
    (out xs : List Replica)
    → AreApart xs
    → length xs ≤ length (keep (λ m. not (leaves out m)) xs) + length out
length-leaves [] xs u = ground (arith, keep_true xs)
  where
    keep_true : (ys : List Replica) → length (keep (λ m. true) ys) ≡ length ys
    keep_true [] = refl
    keep_true (y ∷ ys) = ap suc (keep_true ys)
length-leaves (o ∷ os) xs u = rw (keep-leaves o os xs) (
    omega (
      arith,
      keep-one o.container_id xs u,
      length-leaves os (keep (λ m. not (o.container_id == m.container_id)) xs)
          (IsDistinct-keep container _ xs u),
    ))

-- Distinct containers stay distinct when some of the first part leave.
pub AreApart-keep :
    (p : Replica → Bool) (xs ys : List Replica) → AreApart (xs ++ ys) → AreApart (keep p xs ++ ys)
AreApart-keep p [] ys u = u
AreApart-keep p (x ∷ xs) ys u = elim (Bool-cases (p x)) [
  | inl h ↦ rw h (absent, AreApart-keep p xs ys u.1)
  | inr h ↦ rw h (AreApart-keep p xs ys u.1)
]
  where
    absent : find_row container x.container_id (keep p xs ++ ys) ≡ none
    absent = ground (
      arith,
      find_row-append container x.container_id xs ys,
      find_row-append container x.container_id (keep p xs) ys,
      find_row-keep-none container p x.container_id xs,
    )

pub AreApart-left : (xs ys : List Replica) → AreApart (xs ++ ys) → AreApart xs
AreApart-left [] ys u = tt
AreApart-left (x ∷ xs) ys u =
    (ground (arith, find_row-append container x.container_id xs ys, u.0), AreApart-left xs ys u.1)
