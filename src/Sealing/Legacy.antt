-- ===== src/Sealing/Legacy.antt =====
-- The pass over records that were written before environment values were sealed: encryptLegacyEnv
-- of agent/internal/store/crypto.go. A record is its number and its environment.
use shipwick.Base.{
  ℕ, ◌+◌, ◌≡◌, sym, refl, inl, inr, Bool, true, false, ◌||◌, Option, none, some, List, [], ◌∷◌,
  if◌then◌else◌, length, Bool-cases,
}
use shipwick.Sealing.{
  Text, Name, Cipher, is_sealed, seal, open_value, Values, Nonces, cons_opened, open_values,
}
use shipwick.Sealing.Values.{IsCipher, open_value-seal, is_sealed-seal, cons_opened_lem}

-- What the pass makes of values, and whether there was anything to rewrite.
abbrev Pass : Type 0
Pass = Option (Values × Bool)

abbrev add_value : Name → Text → Bool → Pass → Pass
add_value name value fresh none = none
add_value name value fresh (some (values, rewrites)) =
    some ((name, value) ∷ values, fresh || rewrites)

-- A sealed value stays, if the key opens it.
abbrev add_opened : Name → Text → Option Text → Pass → Pass
add_opened name value none rest = none
add_opened name value (some plain) rest = add_value name value false rest

unfoldable pub encrypt_env : Cipher → ℕ → Nonces → Values → Option (Values × Bool)
encrypt_env c key drawn [] = some ([], false)
encrypt_env c key drawn ((name, value) ∷ values) =
    let rest = encrypt_env c key drawn values in
    if is_sealed value
    then add_opened name value (open_value c key name value) rest
    else add_value name (seal c key (drawn name) name value) true rest

-- The records and how many were rewritten; the transaction keeps nothing if one fails.
abbrev add_record : ℕ → Pass → Option (List (ℕ × Values) × ℕ) → Option (List (ℕ × Values) × ℕ)
add_record id none rest = none
add_record id (some (values, rewrites)) none = none
add_record id (some (values, rewrites)) (some (records, n)) =
    some ((id, values) ∷ records, if rewrites then n + 1 else n)

unfoldable pub encrypt_legacy :
    Cipher → ℕ → (ℕ → Nonces) → List (ℕ × Values) → Option (List (ℕ × Values) × ℕ)
encrypt_legacy c key drawn [] = some ([], 0)
encrypt_legacy c key drawn ((id, env) ∷ records) =
    add_record id (encrypt_env c key (drawn id) env) (encrypt_legacy c key drawn records)

module _ (c : Cipher) (laws : IsCipher c) (key : ℕ) (drawn : Nonces)
    (size : (name : Name) → length (drawn name) ≡ c.nonce_size) where
  -- `r` is what a pass made of values that read as `plain`: all are sealed and open to that, and
  -- another pass finds nothing to rewrite.
  pub record IsEncrypted (r : Option (Values × Bool)) (plain : Values) : Type 0 where
    pub values : Values
    pub rewrites : Bool
    pub is_result : r ≡ some (values, rewrites)
    pub opens : open_values c false key values ≡ some plain
    pub again : encrypt_env c key drawn values ≡ some (values, false)

  kept_value :
      (name : Name) (value opened : Text) (rest : Pass) (plain : Values)
      → is_sealed value ≡ true
      → open_value c key name value ≡ some opened
      → IsEncrypted rest plain
      → (fresh : Bool) → IsEncrypted (add_value name value fresh rest) ((name, opened) ∷ plain)
  unfolding open_values encrypt_env
  kept_value name value opened rest plain sealed opens r fresh = record {
    values = (name, value) ∷ r.values;
    rewrites = fresh || r.rewrites;
    is_result = rw r.is_result refl;
    opens = rw (sealed, opens, r.opens) refl;
    again = rw (sealed, opens, r.again) refl;
  }

  -- Whatever part of an environment was sealed before, the pass seals the rest and changes no value:
  -- if the environment reads, what stands unsealed being read as it is, the pass goes through, what
  -- it leaves opens strictly to the same values, and another pass rewrites nothing.
  pub encrypt_env-IsEncrypted :
      (values plain : Values)
      → open_values c true key values ≡ some plain
      → IsEncrypted (encrypt_env c key drawn values) plain
  unfolding open_values encrypt_env
  encrypt_env-IsEncrypted [] plain h = record {
    values = [];
    rewrites = false;
    is_result = refl;
    opens = h;
    again = refl;
  }
  encrypt_env-IsEncrypted ((name, value) ∷ values) plain h = elim (Bool-cases (is_sealed value)) [
    | inl sealed ↦
        let o =
          cons_opened_lem name (open_value c key name value) (open_values c true key values) plain
            (cc (h, sealed)) in
        let r = encrypt_env-IsEncrypted values o.values o.is_rest in
        rw (sealed, o.is_first, o.is_all)
          (kept_value name value o.value (encrypt_env c key drawn values) o.values sealed o.is_first
            r false)
    | inr bare ↦
        let o =
          cons_opened_lem name (some value) (open_values c true key values) plain (cc (h, bare)) in
        let r = encrypt_env-IsEncrypted values o.values o.is_rest in
        let first : value ≡ o.value = cc o.is_first in
        rw (bare, o.is_all, sym first)
          (kept_value name (seal c key (drawn name) name value) value
            (encrypt_env c key drawn values) o.values
            (is_sealed-seal c laws key (drawn name) name value)
            (open_value-seal c laws key (drawn name) name value (size name)) r true)
  ]

  opened_none :
      (name : Name) (value : Text) (o : Option Text) (rest : Option Values) (pass : Pass)
      → cons_opened name o rest ≡ none
      → (rest ≡ none → pass ≡ none)
      → add_opened name value o pass ≡ none
  opened_none name value none rest pass h k = refl
  opened_none name value (some plain) none pass h k = rw (k refl) refl
  opened_none name value (some plain) (some values) pass h k = absurd (cc h)

  bare_none :
      (name : Name) (value sealed : Text) (rest : Option Values) (pass : Pass)
      → cons_opened name (some value) rest ≡ none
      → (rest ≡ none → pass ≡ none)
      → add_value name sealed true pass ≡ none
  bare_none name value sealed none pass h k = rw (k refl) refl
  bare_none name value sealed (some values) pass h k = absurd (cc h)

  -- An environment with a sealed value that the key does not open stops the pass.
  pub encrypt_env-none :
      (values : Values)
      → open_values c true key values ≡ none
      → encrypt_env c key drawn values ≡ none
  unfolding open_values encrypt_env
  encrypt_env-none [] h = absurd (cc h)
  encrypt_env-none ((name, value) ∷ values) h = elim (Bool-cases (is_sealed value)) [
    | inl sealed ↦ rw sealed (
        opened_none name value (open_value c key name value) (open_values c true key values)
          (encrypt_env c key drawn values) (cc (h, sealed)) (encrypt_env-none values))
    | inr bare ↦ rw bare (
        bare_none name value (seal c key (drawn name) name value) (open_values c true key values)
          (encrypt_env c key drawn values) (cc (h, bare)) (encrypt_env-none values))
  ]

-- Every record reads, as one of the given environments.
abbrev pub Reads : Cipher → ℕ → Bool → List (ℕ × Values) → List Values → Type 0
Reads c key lenient [] [] = Unit
Reads c key lenient ((id, env) ∷ records) (plain ∷ plains) =
    (open_values c lenient key env ≡ some plain) × Reads c key lenient records plains
Reads c key lenient [] (plain ∷ plains) = ◌≡◌ {A = Bool} true false
Reads c key lenient (r ∷ records) [] = ◌≡◌ {A = Bool} true false

module _ (c : Cipher) (laws : IsCipher c) (key : ℕ) (drawn : ℕ → Nonces)
    (size : (id : ℕ) (name : Name) → length (drawn id name) ≡ c.nonce_size) where
  -- What the pass made of records.
  pub record IsPassed (r : Option (List (ℕ × Values) × ℕ)) (plains : List Values) : Type 0 where
    pub records : List (ℕ × Values)
    pub count : ℕ
    pub is_result : r ≡ some (records, count)
    pub reads : Reads c key false records plains
    pub again : encrypt_legacy c key drawn records ≡ some (records, 0)

  -- The pass over records that read, values that stand unsealed being read as they are, goes
  -- through: every value is sealed then and opens to what it was, and the next start rewrites
  -- nothing.
  pub encrypt_legacy-IsPassed :
      (records : List (ℕ × Values)) (plains : List Values)
      → Reads c key true records plains
      → IsPassed (encrypt_legacy c key drawn records) plains
  unfolding encrypt_legacy
  encrypt_legacy-IsPassed [] [] h = record {
    records = [];
    count = 0;
    is_result = refl;
    reads = tt;
    again = refl;
  }
  encrypt_legacy-IsPassed [] (plain ∷ plains) h = absurd (cc h)
  encrypt_legacy-IsPassed (r ∷ records) [] h = absurd (cc h)
  encrypt_legacy-IsPassed ((id, env) ∷ records) (plain ∷ plains) h =
      let one = encrypt_env-IsEncrypted c laws key (drawn id) (size id) env plain h.0 in
      let rest = encrypt_legacy-IsPassed records plains h.1 in
      record {
        records = (id, one.values) ∷ rest.records;
        count = if one.rewrites then rest.count + 1 else rest.count;
        is_result = rw (one.is_result, rest.is_result) refl;
        reads = (one.opens, rest.reads);
        again = rw (one.again, rest.again) refl;
      }
