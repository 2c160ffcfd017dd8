-- ===== src/Rotation/Contents.antt =====
-- What a database holds is the same under the new key.
use shipwick.Base.{
  ℕ, suc, ◌≡◌, ◌∙◌, ap, refl, inl, inr, Bool, true, false, ◌&&◌, Option, none, some, List, [], ◌∷◌,
  ◌==◌, length, arith, &&_true, Bool-cases,
}
use shipwick.Sealing.{
  Text, Name, Cipher, seal, open_value, Values, Nonces, Spec, seal_spec, open_spec, open_values,
  seal_values, spec_of, is_sealed,
}
use shipwick.Sealing.Values.{
  IsCipher, open_value-seal, open_value-seal_any, open_value-length, open_values-seal_values,
  open_values-seal_any, cons_opened_lem,
}
use shipwick.Rotation.Each.{Resealed, each-Resealed, numbered-Resealed}
use shipwick.Rotation.{
  each, Database, database_of, open_cell, open_column, open_stored, open_all, Draws, same_text,
  same_values, kept_or_sealed, sealed_again, reencrypt_cell, reencrypt_column, resealed,
  reencrypt_spec, reencrypt,
}

same_text-length : (x y : Text) → same_text x y ≡ true → length x ≡ length y
same_text-length [] [] h = refl
same_text-length [] (y ∷ ys) h = absurd (cc h)
same_text-length (x ∷ xs) [] h = absurd (cc h)
same_text-length (x ∷ xs) (y ∷ ys) h =
    ap (λ n. suc n) (same_text-length xs ys (&&_true (x == y) (same_text xs ys) h).1)

module _ (c : Cipher) (laws : IsCipher c) (old next : ℕ) where
  module _ (drawn : Nonces) (size : (name : Name) → length (drawn name) ≡ c.nonce_size) where
    sealed_again-Resealed :
        (name : Name) (stored plain : Text)
        → open_value c old name stored ≡ some plain
        → Resealed
            (λ key. open_value c key name)
            next
            (sealed_again c old next drawn name (open_value c old name stored))
            plain
    sealed_again-Resealed name stored plain h = record {
      result = seal c next (drawn name) name plain;
      is_result = rw h refl;
      opens = open_value-seal c laws next (drawn name) name plain (size name);
      only = λ key q e. open_value-seal_any c laws next key (drawn name) name plain q (size name) e;
    }

    reencrypt_cell-Resealed :
        (x p : Name × Text)
        → open_cell c old x ≡ some p
        → Resealed (open_cell c) next (reencrypt_cell c old next drawn x) p
    unfolding open_cell reencrypt_cell
    reencrypt_cell-Resealed (name, stored) p h =
        numbered-Resealed (open_cell c) (λ key. open_value c key name) old next name stored
          (sealed_again c old next drawn name (open_value c old name stored)) p (λ key y. refl)
          (sealed_again-Resealed name stored) h

    -- Opening that changed nothing opened nothing.
    same_values_lem :
        (lenient : Bool) (stored opened : Values)
        → open_values c lenient old stored ≡ some opened
        → same_values opened stored ≡ true
        → (key : ℕ) → open_values c lenient key stored ≡ some opened
    unfolding open_values
    same_values_lem lenient [] opened h same key = h
    same_values_lem lenient ((name, value) ∷ stored) opened h same key =
        elim (Bool-cases (is_sealed value)) [
          | inl sealed ↦
              let o =
                cons_opened_lem name (open_value c old name value)
                  (open_values c lenient old stored) opened (cc (h, sealed)) in
              let first : (same_text o.value value && same_values o.values stored) ≡ true =
                cc (same, o.is_all) in
              absurd (
                omega (
                  arith,
                  open_value-length c laws old name value o.value o.is_first,
                  same_text-length o.value value
                      (&&_true (same_text o.value value) (same_values o.values stored) first).0,
                ))
          | inr plain ↦ rw plain (elim (Bool-cases lenient) [
            | inl may ↦
                let o =
                  cons_opened_lem name (some value) (open_values c lenient old stored) opened
                    (cc (h, plain, may)) in
                let both : (same_text o.value value && same_values o.values stored) ≡ true =
                  cc (same, o.is_all) in
                let ih =
                  same_values_lem lenient stored o.values o.is_rest
                    (&&_true (same_text o.value value) (same_values o.values stored) both).1 key in
                rw (may, ih) (cc (o.is_first, o.is_all))
            | inr not_may ↦ absurd (cc (h, plain, not_may))
          ])
        ]

    kept_or_sealed-Resealed :
        (lenient : Bool) (stored opened : Values)
        → open_values c lenient old stored ≡ some opened
        → Resealed
            (open_values c lenient)
            next
            (some (kept_or_sealed stored opened (seal_values c next drawn opened)))
            opened
    unfolding kept_or_sealed
    kept_or_sealed-Resealed lenient stored opened h =
        elim (Bool-cases (same_values opened stored)) [
          | inl same ↦
              let keeps = same_values_lem lenient stored opened h same in
              rw same (record {
                result = stored;
                is_result = refl;
                opens = keeps next;
                only = λ key q e. cc (keeps key, e);
              })
          | inr differs ↦ rw differs (record {
            result = seal_values c next drawn opened;
            is_result = refl;
            opens = open_values-seal_values c laws drawn size lenient next opened;
            only = λ key q e. open_values-seal_any c laws drawn size lenient next key opened q e;
          })
        ]

record Fields (options env basic_auth : Option Values) (app : Spec) : Type 0 where
  is_options : options ≡ some app.options
  is_env : env ≡ some app.env
  is_basic_auth : basic_auth ≡ some app.basic_auth

spec_of_lem :
    (options env basic_auth : Option Values) (app : Spec)
    → spec_of options env basic_auth ≡ some app
    → Fields options env basic_auth app
spec_of_lem none env basic_auth app h = absurd (cc h)
spec_of_lem (some o) none basic_auth app h = absurd (cc h)
spec_of_lem (some o) (some e) none app h = absurd (cc h)
spec_of_lem (some o) (some e) (some b) app h =
    let same : ◌≡◌ {A = Spec} (record { env = e; basic_auth = b; options = o }) app = cc h in
    record {
      is_options = ap (λ (s : Spec). some s.options) same;
      is_env = ap (λ (s : Spec). some s.env) same;
      is_basic_auth = ap (λ (s : Spec). some s.basic_auth) same;
    }

pub record Parts (columns : Option (List (ℕ × Values))) (specs : Option (List (ℕ × Spec)))
    (db : Database) : Type 0 where
  pub is_columns : columns ≡ some db.columns
  pub is_specs : specs ≡ some db.specs

pub database_of_lem :
    (columns : Option (List (ℕ × Values))) (specs : Option (List (ℕ × Spec))) (db : Database)
    → database_of columns specs ≡ some db
    → Parts columns specs db
database_of_lem none specs db h = absurd (cc h)
database_of_lem (some c) none db h = absurd (cc h)
database_of_lem (some c) (some s) db h =
    let same : ◌≡◌ {A = Database} (record { columns = c; specs = s }) db = cc h in
    record {
      is_columns = ap (λ (d : Database). some d.columns) same;
      is_specs = ap (λ (d : Database). some d.specs) same;
    }

kept_result :
    {open_with : ℕ → Values → Option Values} {next : ℕ} {kept p : Values}
    → (r : Resealed open_with next (some kept) p) → kept ≡ r.result
kept_result {kept = kept} r = let e : some kept ≡ some r.result = r.is_result in cc e

same_spec :
    (a b : Spec) → a.env ≡ b.env → a.basic_auth ≡ b.basic_auth → a.options ≡ b.options → a ≡ b
same_spec a b e f g i = record { env = e i; basic_auth = f i; options = g i }

same_database : (a b : Database) → a.columns ≡ b.columns → a.specs ≡ b.specs → a ≡ b
same_database a b e f i = record { columns = e i; specs = f i }

module _ (c : Cipher) (laws : IsCipher c) (old next : ℕ) (draws : Draws)
    (columns_size : (n : ℕ) (name : Name) → length (draws.for_column n name) ≡ c.nonce_size)
    (specs_size : (n : ℕ) (name : Name) → length (draws.for_spec n name) ≡ c.nonce_size) where
  reencrypt_column-Resealed :
      (x p : ℕ × Values)
      → open_column c old x ≡ some p
      → Resealed (open_column c) next (reencrypt_column c old next draws x) p
  unfolding open_column reencrypt_column
  reencrypt_column-Resealed (number, values) p h =
      let again = reencrypt_cell c old next (draws.for_column number) in
      numbered-Resealed (open_column c) (λ key. each (open_cell c key)) old next number values
        (each again values) p (λ key y. refl)
        (λ plain e.
          each-Resealed (open_cell c) again old next
            (reencrypt_cell-Resealed c laws old next (draws.for_column number)
              (columns_size number))
            values plain e)
        h

  resealed-Resealed :
      (id : ℕ) (stored plain : Spec)
      → open_spec c old stored ≡ some plain
      → Resealed
          (open_spec c)
          next
          (resealed c old next (draws.for_spec id) stored (open_spec c old stored))
          plain
  unfolding open_spec seal_spec
  resealed-Resealed id stored plain h =
      let drawn = draws.for_spec id in
      let f =
        spec_of_lem (open_values c true old stored.options) (open_values c false old stored.env)
          (open_values c false old stored.basic_auth) plain h in
      let field =
        λ (lenient : Bool) (from to : Values) (e : open_values c lenient old from ≡ some to).
          kept_or_sealed-Resealed c laws old next drawn (specs_size id) lenient from to e in
      let env = field false stored.env plain.env f.is_env in
      let basic_auth = field false stored.basic_auth plain.basic_auth f.is_basic_auth in
      let options = field true stored.options plain.options f.is_options in
      record {
        result = record {
          env = env.result;
          basic_auth = basic_auth.result;
          options = options.result;
        };
        is_result =
            ap (resealed c old next drawn stored) h
            ∙ ap some
                (same_spec _ _ (kept_result env) (kept_result basic_auth) (kept_result options));
        opens = rw (env.opens, basic_auth.opens, options.opens) refl;
        only = λ key q e.
            let g =
              spec_of_lem (open_values c true key options.result)
                (open_values c false key env.result) (open_values c false key basic_auth.result) q
                e in
            same_spec q plain (env.only key q.env g.is_env)
              (basic_auth.only key q.basic_auth g.is_basic_auth)
              (options.only key q.options g.is_options);
      }

  reencrypt_spec-Resealed :
      (x p : ℕ × Spec)
      → open_stored c old x ≡ some p
      → Resealed (open_stored c) next (reencrypt_spec c old next draws x) p
  unfolding open_stored reencrypt_spec
  reencrypt_spec-Resealed (id, stored) p h =
      numbered-Resealed (open_stored c) (open_spec c) old next id stored
        (resealed c old next (draws.for_spec id) stored (open_spec c old stored)) p (λ key y. refl)
        (resealed-Resealed id stored) h

  -- A database that the old key opens is sealed again as one that the new key opens to the same
  -- contents, and no key opens to others.
  pub reencrypt-Resealed :
      (db plain : Database)
      → open_all c old db ≡ some plain
      → Resealed (open_all c) next (reencrypt c old next draws db) plain
  unfolding open_all reencrypt
  reencrypt-Resealed db plain h =
      let parts =
        database_of_lem (each (open_column c old) db.columns) (each (open_stored c old) db.specs)
          plain h in
      let columns =
        each-Resealed (open_column c) (reencrypt_column c old next draws) old next
          reencrypt_column-Resealed db.columns plain.columns parts.is_columns in
      let specs =
        each-Resealed (open_stored c) (reencrypt_spec c old next draws) old next
          reencrypt_spec-Resealed db.specs plain.specs parts.is_specs in
      record {
        result = record { columns = columns.result; specs = specs.result };
        is_result = rw (columns.is_result, specs.is_result) refl;
        opens = rw (columns.opens, specs.opens) refl;
        only = λ key q e.
            let g =
              database_of_lem (each (open_column c key) columns.result)
                (each (open_stored c key) specs.result) q e in
            same_database q plain (columns.only key q.columns g.is_columns)
              (specs.only key q.specs g.is_specs);
      }
