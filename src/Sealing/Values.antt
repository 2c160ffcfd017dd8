-- ===== src/Sealing/Values.antt =====
-- Sealed values open to what was sealed.
use shipwick.Base.{
  ℕ, ◌+◌, ◌≤◌, ◌<◌, ◌≡◌, ◌≢◌, ◌∙◌, sym, refl, inl, inr, Bool, true, false, Option, none, some, [],
  ◌∷◌, ◌++◌, ltb, ◌==◌, length, take, drop, arith, Bool-cases, length-append, length-drop,
  both_branches, take-append, drop-append,
}
use shipwick.Sealing.{
  Text, Name, Cipher, is_sealed, trim_prefix, seal, open_raw, open_value, Values, Nonces,
  cons_opened, seal_values, open_values,
}

-- What the code relies on of AES-GCM and base64: what was sealed opens under the same key and name,
-- not under another key; a tag is added; base64 is read back and does not shorten.
pub record IsCipher (c : Cipher) : Type 0 where
  pub decode-encode : (raw : Text) → c.decode (c.encode raw) ≡ some raw
  pub unlock-lock :
      (key : ℕ) (nonce plain : Text) (name : Name)
      → c.unlock key nonce (c.lock key nonce plain name) name ≡ some plain
  pub unlock_other :
      (key other : ℕ) (nonce plain : Text) (name : Name)
      → other ≢ key
      → c.unlock other nonce (c.lock key nonce plain name) name ≡ none
  pub unlock-length :
      (key : ℕ) (nonce sealed : Text) (name : Name) (plain : Text)
      → c.unlock key nonce sealed name ≡ some plain
      → length sealed ≡ length plain + 16
  pub decode-length : (text raw : Text) → c.decode text ≡ some raw → length raw ≤ length text

-- What was opened of a list, in its parts.
pub record Opened (name : Name) (first : Option Text) (rest : Option Values) (all : Values)
    : Type 0 where
  pub value : Text
  pub values : Values
  pub is_first : first ≡ some value
  pub is_rest : rest ≡ some values
  pub is_all : all ≡ (name, value) ∷ values

pub cons_opened_lem :
    (name : Name) (first : Option Text) (rest : Option Values) (all : Values)
    → cons_opened name first rest ≡ some all
    → Opened name first rest all
cons_opened_lem name none rest all h = absurd (cc h)
cons_opened_lem name (some value) none all h = absurd (cc h)
cons_opened_lem name (some value) (some values) all h = record {
  value = value;
  values = values;
  is_first = refl;
  is_rest = refl;
  is_all = cc h;
}

module _ (c : Cipher) (laws : IsCipher c) where
  -- What another key opens, if anything, of a sealed value.
  pub open_other :
      (key other : ℕ) (nonce : Text) (name : Name) (value : Text)
      → length nonce ≡ c.nonce_size
      → open_value c other name (seal c key nonce name value)
        ≡ c.unlock other nonce (c.lock key nonce value name) name
  unfolding open_value seal
  open_other key other nonce name value size =
      let locked = c.lock key nonce value name in
      let long : ltb (length (nonce ++ locked)) c.nonce_size ≡ false =
        ground (arith, size, length-append nonce locked) in
      rw
        (
          laws.decode-encode (nonce ++ locked),
          long,
          take-append c.nonce_size nonce locked (sym size),
          drop-append c.nonce_size nonce locked (sym size),
        )
        refl

  pub open_value-seal :
      (key : ℕ) (nonce : Text) (name : Name) (value : Text)
      → length nonce ≡ c.nonce_size
      → open_value c key name (seal c key nonce name value) ≡ some value
  open_value-seal key nonce name value size =
      open_other key key nonce name value size ∙ laws.unlock-lock key nonce value name

  pub open_value-seal_any :
      (key other : ℕ) (nonce : Text) (name : Name) (value found : Text)
      → length nonce ≡ c.nonce_size
      → open_value c other name (seal c key nonce name value) ≡ some found
      → found ≡ value
  open_value-seal_any key other nonce name value found size h = elim (Bool-cases (other == key)) [
    | inl same ↦
        let e : other ≡ key = ground (arith, same) in
        cc (h, open_other key other nonce name value size, laws.unlock-lock key nonce value name, e)
    | inr differs ↦
        let apart : other ≢ key = λ e. ground (arith, differs, e) in
        absurd (
          cc (
            h,
            open_other key other nonce name value size,
            laws.unlock_other key other nonce value name apart,
          ))
  ]

  -- An opened value is shorter than what was stored.
  open_raw-length :
      (key : ℕ) (name : Name) (text : Text) (raw : Option Text) (value : Text)
      → c.decode text ≡ raw
      → open_raw c key name raw ≡ some value
      → length value < length text
  open_raw-length key name text none value e h = absurd (cc h)
  open_raw-length key name text (some raw) value e h =
      elim (Bool-cases (ltb (length raw) c.nonce_size)) [
        | inl short ↦ absurd (cc (h, short))
        | inr long ↦ omega (
          arith,
          length-drop c.nonce_size raw,
          laws.decode-length text raw e,
          laws.unlock-length key (take c.nonce_size raw) (drop c.nonce_size raw) name value
              (cc (h, long)),
        )
      ]

  trim_prefix-length : (text : Text) → length (trim_prefix text) ≤ length text
  trim_prefix-length text =
      both_branches (λ t. length t ≤ length text) (is_sealed text) (drop 5 text) text
        (λ h. omega (arith, length-drop 5 text)) (λ h. omega arith)

  pub open_value-length :
      (key : ℕ) (name : Name) (stored value : Text)
      → open_value c key name stored ≡ some value
      → length value < length stored
  unfolding open_value
  open_value-length key name stored value h = omega (
    arith,
    trim_prefix-length stored,
    open_raw-length key name (trim_prefix stored) (c.decode (trim_prefix stored)) value refl h,
  )

  pub is_sealed-seal :
      (key : ℕ) (nonce : Text) (name : Name) (value : Text)
      → is_sealed (seal c key nonce name value) ≡ true
  unfolding seal
  is_sealed-seal key nonce name value = refl

  module _ (drawn : Nonces) (size : (name : Name) → length (drawn name) ≡ c.nonce_size)
      (lenient : Bool) where
    pub open_values-seal_values :
        (key : ℕ) (values : Values)
        → open_values c lenient key (seal_values c key drawn values) ≡ some values
    unfolding open_values seal_values
    open_values-seal_values key [] = refl
    open_values-seal_values key ((name, value) ∷ values) =
        rw
          (
            is_sealed-seal key (drawn name) name value,
            open_value-seal key (drawn name) name value (size name),
            open_values-seal_values key values,
          )
          refl

    pub open_values-seal_any :
        (key other : ℕ) (values found : Values)
        → open_values c lenient other (seal_values c key drawn values) ≡ some found
        → found ≡ values
    unfolding open_values seal_values
    open_values-seal_any key other [] found h = cc h
    open_values-seal_any key other ((name, value) ∷ values) found h =
        let first = open_value c other name (seal c key (drawn name) name value) in
        let rest = open_values c lenient other (seal_values c key drawn values) in
        let o =
          cons_opened_lem name first rest found
            (cc (h, is_sealed-seal key (drawn name) name value)) in
        let e =
          open_value-seal_any key other (drawn name) name value o.value (size name) o.is_first in
        let es = open_values-seal_any key other values o.values o.is_rest in cc (o.is_all, e, es)
