-- ===== src/Base/Tables.antt =====
-- A table of a database as the list of its rows: lookup by a numeric key, updates and deletions.
use Prim.Native.Nat.{ℕ}
use mathlib.Core.Path.{◌≡◌, refl}
use mathlib.Core.Bool.{Bool, true, false, ◌&&◌}
use mathlib.Core.Option.{Option, none, some}
use mathlib.Core.List.{List, [], ◌∷◌, ◌++◌}
use native.Mathlib.Omega.{arith}
use shipwick.Base.Tests.{if◌then◌else◌, ◌==◌}
use shipwick.Base.Lists.{keep, any}

module _ {A : Type 0} (key : A → ℕ) where
  unfoldable pub find_row : ℕ → List A → Option A
  find_row k [] = none
  find_row k (x ∷ xs) = if key x == k then some x else find_row k xs

  -- No two rows have one key.
  abbrev pub IsDistinct : List A → Type 0
  IsDistinct [] = Unit
  IsDistinct (x ∷ xs) = (find_row (key x) xs ≡ none) × IsDistinct xs

module _ {A : Type 0} where
  unfoldable pub update_rows : (A → Bool) → (A → A) → List A → List A
  update_rows hit change [] = []
  update_rows hit change (x ∷ xs) = (if hit x then change x else x) ∷ update_rows hit change xs

  abbrev pub changed : (A → Bool) → (A → A) → Option A → Option A
  changed hit change none = none
  changed hit change (some x) = some (if hit x then change x else x)

  abbrev pub or_row : Option A → Option A → Option A
  or_row none o = o
  or_row (some x) o = some x

module _ {A : Type 0} (key : A → ℕ) where
  pub key-find_row : (k : ℕ) (xs : List A) (x : A) → find_row key k xs ≡ some x → key x ≡ k
  unfolding find_row
  key-find_row k [] x h = cc
  key-find_row k (y ∷ ys) x h = ground (arith, key-find_row k ys x)

  pub find_row-append :
      (k : ℕ) (xs ys : List A)
      → find_row key k (xs ++ ys) ≡ or_row (find_row key k xs) (find_row key k ys)
  unfolding find_row
  find_row-append k [] ys = refl
  find_row-append k (x ∷ xs) ys = ground (arith, find_row-append k xs ys)

  pub find_row-update :
      (hit : A → Bool) (change : A → A)
      → ((x : A) → key (change x) ≡ key x)
      → (k : ℕ) (xs : List A)
      → find_row key k (update_rows hit change xs) ≡ changed hit change (find_row key k xs)
  unfolding find_row update_rows
  find_row-update hit change same k [] = refl
  find_row-update hit change same k (x ∷ xs) =
      ground (arith, same x, find_row-update hit change same k xs)

  pub find_row-keep-none :
      (p : A → Bool) (k : ℕ) (xs : List A)
      → find_row key k xs ≡ none
      → find_row key k (keep p xs) ≡ none
  unfolding find_row
  find_row-keep-none p k [] h = refl
  find_row-keep-none p k (x ∷ xs) h = ground (arith, find_row-keep-none p k xs)

  -- Of a table with distinct keys, exactly the rows that pass are found after a deletion.
  pub find_row-keep :
      (p : A → Bool) (k : ℕ) (xs : List A) (x : A)
      → IsDistinct key xs
      → find_row key k (keep p xs) ≡ some x
      → (find_row key k xs ≡ some x) × (p x ≡ true)
  unfolding find_row
  find_row-keep p k [] x u h = cc
  find_row-keep p k (y ∷ ys) x u h =
      ground (arith, find_row-keep p k ys x u.1, find_row-keep-none p (key y) ys)

  pub find_row-kept :
      (p : A → Bool) (k : ℕ) (xs : List A) (x : A)
      → find_row key k xs ≡ some x
      → p x ≡ true
      → find_row key k (keep p xs) ≡ some x
  unfolding find_row
  find_row-kept p k [] x h q = cc
  find_row-kept p k (y ∷ ys) x h q = ground (arith, find_row-kept p k ys x)

  pub IsDistinct-update :
      (hit : A → Bool) (change : A → A)
      → ((x : A) → key (change x) ≡ key x)
      → (xs : List A) → IsDistinct key xs
      → IsDistinct key (update_rows hit change xs)
  unfolding update_rows
  IsDistinct-update hit change same [] u = u
  IsDistinct-update hit change same (x ∷ xs) u = ground (
    arith,
    same x,
    find_row-update hit change same (key x) xs,
    IsDistinct-update hit change same xs u.1,
  )

  pub IsDistinct-append :
      (xs : List A) (x : A)
      → IsDistinct key xs
      → find_row key (key x) xs ≡ none
      → IsDistinct key (xs ++ x ∷ [])
  unfolding find_row
  IsDistinct-append [] x u h = (refl, tt)
  IsDistinct-append (y ∷ ys) x u h =
      ground (arith, find_row-append (key y) ys (x ∷ []), IsDistinct-append ys x u.1)

  pub IsDistinct-keep :
      (p : A → Bool) (xs : List A) → IsDistinct key xs → IsDistinct key (keep p xs)
  IsDistinct-keep p [] u = u
  IsDistinct-keep p (x ∷ xs) u =
      ground (arith, find_row-keep-none p (key x) xs u.0, IsDistinct-keep p xs u.1)

  -- Whether an update by key and a condition hits a row.
  pub any-find_none :
      (q : A → Bool) (k : ℕ) (xs : List A)
      → find_row key k xs ≡ none
      → any (λ x. key x == k && q x) xs ≡ false
  unfolding find_row
  any-find_none q k [] e = refl
  any-find_none q k (x ∷ xs) e = ground (arith, any-find_none q k xs)

  pub any-find :
      (q : A → Bool) (k : ℕ) (xs : List A) (x : A)
      → IsDistinct key xs
      → find_row key k xs ≡ some x
      → any (λ y. key y == k && q y) xs ≡ q x
  unfolding find_row
  any-find q k [] x u e = cc
  any-find q k (y ∷ ys) x u e = ground (arith, any-find q k ys x u.1, any-find_none q k ys)
