-- ===== src/Routing/Texts.antt =====
-- Sets of texts as lists.
use Prim.Native.String.{String}
use text.Mathlib.Text.{◌==◌ as str_eq}
use text.Mathlib.TextEquality.{eq_iff}
use text.Mathlib.TextPositions.{eq_refl}
use shipwick.Base.{
  ◌≡◌, subst, ◌⊎◌, inl, inr, refl, ap, Bool, true, false, not, ◌||◌, List, [], ◌∷◌, ◌++◌, keep,
  arith, Bool-cases,
}

unfoldable pub has_text : String → List String → Bool
has_text t [] = false
has_text t (x ∷ xs) = str_eq x t || has_text t xs

-- All of one are in the other, or none.
abbrev pub Within : List String → List String → Type 0
Within xs ys = (t : String) → has_text t xs ≡ true → has_text t ys ≡ true

abbrev pub Avoids : List String → List String → Type 0
Avoids xs ys = (t : String) → has_text t xs ≡ true → has_text t ys ≡ false

pub has_first : (x : String) (xs : List String) → has_text x (x ∷ xs) ≡ true
unfolding has_text
has_first x xs = rw (eq_refl x) refl

pub has_text-append :
    (t : String) (xs ys : List String) → has_text t (xs ++ ys) ≡ (has_text t xs || has_text t ys)
unfolding has_text
has_text-append t [] ys = refl
has_text-append t (x ∷ xs) ys = ground (arith, has_text-append t xs ys)

pub has_text-one : (t x : String) → has_text t (x ∷ []) ≡ true → x ≡ t
unfolding has_text
has_text-one t x h = (eq_iff x t).0 (or_false (str_eq x t) h)
  where
    or_false : (b : Bool) → (b || false) ≡ true → b ≡ true
    or_false b h = ground arith

pub has_text-keep : (p : String → Bool) (xs : List String) → Within (keep p xs) xs
unfolding has_text
has_text-keep p [] t h = h
has_text-keep p (x ∷ xs) t h = ground (arith, has_text-keep p xs t)

pub Avoids-within : (xs ys zs : List String) → Within ys zs → Avoids xs zs → Avoids xs ys
Avoids-within xs ys zs w a t h = elim (Bool-cases (has_text t ys)) [
  | inr not_in ↦ not_in
  | inl is_in ↦ absurd (cc (w t is_in, a t h))
]

pub Within-nil : (ys : List String) → Within [] ys
unfolding has_text
Within-nil ys t h = cc

pub Within-trans : (xs ys zs : List String) → Within xs ys → Within ys zs → Within xs zs
Within-trans xs ys zs f g t h = g t (f t h)

pub Within-left : (xs ys : List String) → Within xs (xs ++ ys)
Within-left xs ys t h = rw (has_text-append t xs ys, h) refl

pub Within-right : (xs ys : List String) → Within ys (xs ++ ys)
Within-right xs ys t h = rw (has_text-append t xs ys, h) (or_true (has_text t xs))
  where
    or_true : (b : Bool) → (b || true) ≡ true
    or_true b = ground arith

-- What is in an append is in one of the two.
pub in_append :
    (t : String) (xs ys : List String)
    → has_text t (xs ++ ys) ≡ true
    → (has_text t xs ≡ true) ⊎ (has_text t ys ≡ true)
in_append t xs ys h = elim (Bool-cases (has_text t xs)) [
  | inl in_first ↦ inl in_first
  | inr not_in ↦ inr (ground (arith, has_text-append t xs ys, h, not_in))
]

pub Within-append : (xs ys zs : List String) → Within xs zs → Within ys zs → Within (xs ++ ys) zs
Within-append xs ys zs f g t h = elim (in_append t xs ys h) [ inl a ↦ f t a | inr b ↦ g t b ]

pub Avoids-nil : (ys : List String) → Avoids [] ys
unfolding has_text
Avoids-nil ys t h = cc

pub Avoids-append : (xs ys zs : List String) → Avoids xs zs → Avoids ys zs → Avoids (xs ++ ys) zs
Avoids-append xs ys zs f g t h = elim (in_append t xs ys h) [ inl a ↦ f t a | inr b ↦ g t b ]

pub Avoids-one : (x : String) (ys : List String) → has_text x ys ≡ false → Avoids (x ∷ []) ys
Avoids-one x ys h t k = subst (λ v. has_text v ys ≡ false) (has_text-one t x k) h

keep_kept :
    (p : String → Bool) (xs : List String) (t : String) → has_text t (keep p xs) ≡ true → p t ≡ true
unfolding has_text
keep_kept p [] t h = cc
keep_kept p (x ∷ xs) t h = elim (Bool-cases (str_eq x t)) [
  | inl is ↦ elim (Bool-cases (p x)) [
    | inl yes' ↦ subst (λ v. p v ≡ true) ((eq_iff x t).0 is) yes'
    | inr no' ↦ keep_kept p xs t (ground (arith, no', h))
  ]
  | inr other ↦ keep_kept p xs t (ground (arith, other, h))
]

pub Avoids-keep : (ys xs : List String) → Avoids (keep (λ x. not (has_text x ys)) xs) ys
Avoids-keep ys xs t h = not_true (has_text t ys) (keep_kept (λ x. not (has_text x ys)) xs t h)
  where
    not_true : (b : Bool) → not b ≡ true → b ≡ false
    not_true b k = ground arith

pub Within-later : (x : String) (xs ys : List String) → Within xs ys → Within xs (x ∷ ys)
unfolding has_text
Within-later x xs ys w t h = rw (w t h) (or_true (str_eq x t))
  where
    or_true : (b : Bool) → (b || true) ≡ true
    or_true b = ground arith

pub Within-cons : (x : String) (xs ys : List String) → Within xs ys → Within (x ∷ xs) (x ∷ ys)
Within-cons x xs ys w =
    Within-append (x ∷ []) xs (x ∷ ys) (Within-left (x ∷ []) ys) (Within-later x xs ys w)

pub Avoids-new :
    (x : String) (xs ys : List String) → has_text x xs ≡ false → Avoids xs ys → Avoids xs (x ∷ ys)
unfolding has_text
Avoids-new x xs ys new a t h = elim (Bool-cases (str_eq x t)) [
  | inl is ↦ absurd (cc (new, h, (eq_iff x t).0 is))
  | inr other ↦ rw (other, a t h) refl
]

pub Avoids-both : (xs ys zs : List String) → Avoids xs ys → Avoids xs zs → Avoids xs (ys ++ zs)
Avoids-both xs ys zs a b t h = rw (has_text-append t ys zs, a t h, b t h) refl

pub keep_all : (ys xs : List String) → Avoids xs ys → keep (λ x. not (has_text x ys)) xs ≡ xs
keep_all ys [] a = refl
keep_all ys (x ∷ xs) a =
    simp (a x (has_first x xs))
      (ap (λ l. x ∷ l) (keep_all ys xs (λ t h. a t (Within-right (x ∷ []) xs t h))))
