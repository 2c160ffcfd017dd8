-- ===== src/Base/Results.antt =====
-- Errors as values, for the operations of the agent that may fail.
use mathlib.Core.Path.{◌≡◌, refl, ap, subst}
use mathlib.Core.Option.{Option, none, some}
use mathlib.Core.Bool.{Bool, true, false}

-- `conflict` and `not_found` are the store's errors; `refused` stands for a statement that the
-- database did not take, and `illegal` for a transition that the state machine does not allow.
pub data Error : Type 0 where
  conflict not_found refused illegal : Error

pub data Result {ℓ} (A : Type ℓ) : Type ℓ where
  err : Error → Result A
  ok : A → Result A

-- A value that must be there.
abbrev pub or_fail {ℓ} : {A : Type ℓ} → Option A → Error → Result A
or_fail none problem = err problem
or_fail (some a) problem = ok a

-- A condition that must hold.
abbrev pub guard : Bool → Error → Result (Unit {0})
guard false problem = err problem
guard true problem = ok tt

infixl 5 ◌>>=◌ ◌>>◌
abbrev pub ◌>>=◌ {κ ℓ} : {B : Type κ} {A : Type ℓ} → Result B → (B → Result A) → Result A
err problem >>= rest = err problem
ok b >>= rest = rest b

abbrev pub ◌>>◌ {κ} : {A : Type κ} → Result (Unit {0}) → Result A → Result A
first >> rest = first >>= λ done. rest

-- A postcondition of a result that is no error.
abbrev pub OnOk {ℓ κ} : {A : Type ℓ} → (A → Type κ) → Result A → Type κ
OnOk P (ok a) = P a
OnOk P (err e) = Unit

ok_part {ℓ} : {A : Type ℓ} → A → Result A → A
ok_part a (ok b) = b
ok_part a (err e) = a

pub ok-injective {ℓ} : {A : Type ℓ} {a b : A} → ok a ≡ ok b → a ≡ b
unfolding ok_part
ok-injective {a = a} h = ap (ok_part a) h

module _ {ℓ κ} {A : Type ℓ} (P : A → Type κ) where
  pub OnOk-ok : (r : Result A) (a : A) → OnOk P r → r ≡ ok a → P a
  OnOk-ok (ok b) a h e = subst P (ok-injective e) h
  OnOk-ok (err x) a h e = absurd (cc)

  pub OnOk-guard :
      (b : Bool) (e : Error) (k : Result A) → (b ≡ true → OnOk P k) → OnOk P (guard b e >> k)
  OnOk-guard true e k h = h refl
  OnOk-guard false e k h = tt

  pub OnOk-or_fail {κ'} :
      {B : Type κ'} (o : Option B) (e : Error) (f : B → Result A)
      → ((b : B) → o ≡ some b → OnOk P (f b))
      → OnOk P (or_fail o e >>= f)
  OnOk-or_fail none e f h = tt
  OnOk-or_fail (some b) e f h = h b refl

  pub OnOk-bind {κ'} :
      {B : Type κ'} (r : Result B) (f : B → Result A) → ((b : B) → OnOk P (f b)) → OnOk P (r >>= f)
  OnOk-bind (ok b) f h = h b
  OnOk-bind (err e) f h = tt

pub OnOk-map {ℓ κ ℓ' κ'} :
    {A : Type ℓ} {B : Type ℓ'} (P : A → Type κ) (Q : B → Type κ') (r : Result B) (f : B → A)
    → ((b : B) → Q b → P (f b))
    → OnOk Q r
    → OnOk P (r >>= λ b. ok (f b))
OnOk-map P Q (ok b) f k h = k b h
OnOk-map P Q (err e) f k h = tt
