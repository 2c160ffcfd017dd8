-- ===== src/Rotation/Each.antt =====
-- Lists of things that are opened and sealed again one by one, and things beside a number.
use shipwick.Base.{ℕ, ◌≡◌, ◌∙◌, ap, sym, refl, Option, none, some, List, [], ◌∷◌}
use shipwick.Rotation.{cons_each, each, with_number}

-- `r` is what was sealed again of something whose plain form is `p`: it opens to `p` under the new
-- key, and to nothing else under any.
pub record Resealed {ℓ} {X : Type ℓ} (open_with : ℕ → X → Option X) (next : ℕ) (r : Option X)
    (p : X) : Type ℓ where
  pub result : X
  pub is_result : r ≡ some result
  pub opens : open_with next result ≡ some p
  pub only : (key : ℕ) (q : X) → open_with key result ≡ some q → q ≡ p

pub record Both {ℓ} {X : Type ℓ} (first : Option X) (rest : Option (List X)) (all : List X)
    : Type ℓ where
  pub head : X
  pub tail : List X
  pub is_first : first ≡ some head
  pub is_rest : rest ≡ some tail
  pub is_all : head ∷ tail ≡ all

pub cons_each_lem {ℓ} :
    {X : Type ℓ} (first : Option X) (rest : Option (List X)) (all : List X)
    → cons_each first rest ≡ some all
    → Both first rest all
cons_each_lem none rest all h = absurd (cc h)
cons_each_lem (some x) none all h = absurd (cc h)
cons_each_lem (some x) (some xs) all h = record {
  head = x;
  tail = xs;
  is_first = refl;
  is_rest = refl;
  is_all = cc h;
}

module _ {ℓ} {X : Type ℓ} (open_with : ℕ → X → Option X) (again : X → Option X) (old next : ℕ)
    (one : (x p : X) → open_with old x ≡ some p → Resealed open_with next (again x) p) where
  pub each-Resealed :
      (xs ps : List X)
      → each (open_with old) xs ≡ some ps
      → Resealed (λ key. each (open_with key)) next (each again xs) ps
  unfolding each
  each-Resealed [] ps h = record {
    result = [];
    is_result = refl;
    opens = h;
    only = λ key q e. cc (h, e);
  }
  each-Resealed (x ∷ xs) ps h =
      let b = cons_each_lem (open_with old x) (each (open_with old) xs) ps h in
      let r = one x b.head b.is_first in
      let rs = each-Resealed xs b.tail b.is_rest in
      record {
        result = r.result ∷ rs.result;
        is_result = rw (r.is_result, rs.is_result) refl;
        opens = rw (r.opens, rs.opens) (ap some b.is_all);
        only = λ key q e.
            let k = cons_each_lem (open_with key r.result) (each (open_with key) rs.result) q e in
            cc (k.is_all, r.only key k.head k.is_first, rs.only key k.tail k.is_rest, b.is_all);
      }

pub record Numbered {ℓ κ} {A : Type ℓ} {B : Type κ} (n : A) (o : Option B) (p : A × B)
    : Type (ℓ ⊔ κ) where
  pub value : B
  pub is_value : o ≡ some value
  pub is_pair : (n, value) ≡ p

pub with_number_lem {ℓ κ} :
    {A : Type ℓ} {B : Type κ} (n : A) (o : Option B) (p : A × B)
    → with_number n o ≡ some p
    → Numbered n o p
with_number_lem n none p h = absurd (cc h)
with_number_lem n (some b) p h = record { value = b; is_value = refl; is_pair = cc h }

-- What stands beside a number or a name.
pub numbered-Resealed :
    {A B : Type 0} (outer : ℕ → A × B → Option (A × B)) (inner : ℕ → B → Option B) (old next : ℕ)
    (n : A) (stored : B) (again : Option B) (p : A × B)
    → ((key : ℕ) (y : B) → outer key (n, y) ≡ with_number n (inner key y))
    → ((plain : B) → inner old stored ≡ some plain → Resealed inner next again plain)
    → outer old (n, stored) ≡ some p
    → Resealed outer next (with_number n again) p
numbered-Resealed outer inner old next n stored again p computes one h =
    let v = with_number_lem n (inner old stored) p (sym (computes old stored) ∙ h) in
    let r = one v.value v.is_value in
    record {
      result = (n, r.result);
      is_result = rw r.is_result refl;
      opens = computes next r.result ∙ rw r.opens (ap some v.is_pair);
      only = λ key q e.
          let k = with_number_lem n (inner key r.result) q (sym (computes key r.result) ∙ e) in
          cc (k.is_pair, r.only key k.value k.is_value, v.is_pair);
    }
