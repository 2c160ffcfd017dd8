-- ===== src/Supervisor/Book.antt =====
-- A Go map with numeric keys, as an association list: the supervisor's books by container and by
-- deployment.
use shipwick.Base.{
  ℕ, ◌≡◌, refl, Bool, Option, none, some, List, [], ◌∷◌, ◌==◌, if◌then◌else◌, arith,
}

module _ {A : Type 0} where
  unfoldable pub get : ℕ → List (ℕ × A) → Option A
  get k [] = none
  get k ((j, v) ∷ m) = if j == k then some v else get k m

  unfoldable pub put : ℕ → A → List (ℕ × A) → List (ℕ × A)
  put k v [] = (k, v) ∷ []
  put k v ((j, w) ∷ m) = if j == k then (k, v) ∷ m else (j, w) ∷ put k v m

  -- The entries whose key passes.
  unfoldable pub only : (ℕ → Bool) → List (ℕ × A) → List (ℕ × A)
  only p [] = []
  only p ((j, v) ∷ m) = let rest = only p m in if p j then (j, v) ∷ rest else rest

  pub get-put :
      (k j : ℕ) (v : A) (m : List (ℕ × A))
      → get j (put k v m) ≡ (if k == j then some v else get j m)
  unfolding get put
  get-put k j v [] = refl
  get-put k j v ((i, w) ∷ m) = ground (arith, get-put k j v m)

  pub get-put_self : (k : ℕ) (v : A) (m : List (ℕ × A)) → get k (put k v m) ≡ some v
  get-put_self k v m = ground (arith, get-put k k v m)

  pub get-only :
      (p : ℕ → Bool) (k : ℕ) (m : List (ℕ × A)) → get k (only p m) ≡ (if p k then get k m else none)
  unfolding get only
  get-only p k [] = ground arith
  get-only p k ((j, v) ∷ m) = ground (arith, get-only p k m)
