-- ===== src/Rotation/Unfit.antt =====
-- A database that was sealed again with anything in its columns is one that no other key opens.
use shipwick.Base.{ℕ, ◌≡◌, ◌≢◌, ◌∙◌, subst, refl, false, Option, none, some, List, ◌∷◌, length}
use shipwick.Sealing.{Text, Name, Cipher, seal, open_value, Values, Nonces}
use shipwick.Sealing.Values.{IsCipher, open_other}
use shipwick.Rotation.{
  each, Database, open_cell, open_column, open_all, key_fits, Draws, sealed_again, reencrypt_cell,
  reencrypt_column, reencrypt_spec, reencrypt,
}
use shipwick.Rotation.Each.{cons_each_lem, with_number_lem}
use shipwick.Rotation.Contents.{database_of_lem}

-- The first column that is listed has a value.
pub record HasColumn (db : Database) : Type 0 where
  pub number : ℕ
  pub name : Name
  pub stored : Text
  pub values : Values
  pub columns : List (ℕ × Values)
  pub is_first : db.columns ≡ (number, (name, stored) ∷ values) ∷ columns

module _ (c : Cipher) (laws : IsCipher c) (old next other : ℕ) (apart : other ≢ next) where
  sealed_again-none :
      (drawn : Nonces) (name : Name) (o : Option Text) (t : Text)
      → length (drawn name) ≡ c.nonce_size
      → sealed_again c old next drawn name o ≡ some t
      → open_value c other name t ≡ none
  sealed_again-none drawn name none t size h = absurd (cc h)
  sealed_again-none drawn name (some p) t size h =
      let is : seal c next (drawn name) name p ≡ t = cc h in
      rw⁻¹ is (
        open_other c laws next other (drawn name) name p size
        ∙ laws.unlock_other next other (drawn name) p name apart)

  reencrypt_cell-none :
      (drawn : Nonces) (name : Name) (stored : Text) (v : Name × Text)
      → length (drawn name) ≡ c.nonce_size
      → reencrypt_cell c old next drawn (name, stored) ≡ some v
      → open_cell c other v ≡ none
  unfolding reencrypt_cell open_cell
  reencrypt_cell-none drawn name stored v size h =
      let n =
        with_number_lem name (sealed_again c old next drawn name (open_value c old name stored)) v
          h in
      let unopened =
        sealed_again-none drawn name (open_value c old name stored) n.value size n.is_value in
      rw⁻¹ n.is_pair (rw unopened refl)

  reencrypt_column-none :
      (draws : Draws) (number : ℕ) (name : Name) (stored : Text) (values : Values) (v : ℕ × Values)
      → length (draws.for_column number name) ≡ c.nonce_size
      → reencrypt_column c old next draws (number, (name, stored) ∷ values) ≡ some v
      → open_column c other v ≡ none
  unfolding reencrypt_column open_column each
  reencrypt_column-none draws number name stored values v size h =
      let again = reencrypt_cell c old next (draws.for_column number) in
      let n = with_number_lem number (each again ((name, stored) ∷ values)) v h in
      let b = cons_each_lem (again (name, stored)) (each again values) n.value n.is_value in
      let unopened =
        reencrypt_cell-none (draws.for_column number) name stored b.head size b.is_first in
      rw⁻¹ n.is_pair (rw⁻¹ b.is_all (rw unopened refl))

  -- Once a database with a value in a column is sealed again, no other key fits.
  pub reencrypt-unfit :
      (draws : Draws) (db after : Database)
      → ((n : ℕ) (name : Name) → length (draws.for_column n name) ≡ c.nonce_size)
      → HasColumn db
      → reencrypt c old next draws db ≡ some after
      → key_fits c other after ≡ false
  unfolding reencrypt key_fits open_all each
  reencrypt-unfit draws db after size has h =
      let again = reencrypt_column c old next draws in
      let p =
        database_of_lem (each again db.columns) (each (reencrypt_spec c old next draws) db.specs)
          after h in
      let first : ℕ × Values = (has.number, (has.name, has.stored) ∷ has.values) in
      let columns : each again (first ∷ has.columns) ≡ some after.columns =
        subst (λ xs. each again xs ≡ some after.columns) has.is_first p.is_columns in
      let b = cons_each_lem (again first) (each again has.columns) after.columns columns in
      let unopened =
        reencrypt_column-none draws has.number has.name has.stored has.values b.head
          (size has.number has.name) b.is_first in
      rw⁻¹ b.is_all (rw unopened refl)
