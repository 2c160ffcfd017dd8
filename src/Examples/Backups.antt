-- ===== src/Examples/Backups.antt =====
-- Small files under a cipher that writes its nonce in front of what it seals.
use shipwick.Base.{
  ℕ, ◌≡◌, ◌↔◌, refl, Bool, true, ◌&&◌, none, some, List, [], ◌∷◌, ◌++◌, ◌==◌, if◌then◌else◌, length,
  drop, arith,
}
use mathlib.Core.List.{flatten}
use shipwick.Backupfile.{
  Aead, Ciphers, plain, is_broken, read_file, new_writer, close, make_header, byte_at, plain_size,
}
use shipwick.Backupfile.Stream.{IsAead, feed, sealed_end}
use shipwick.Backupfile.Files.{
  write_all, fresh, read_file-close, read_file-write_all, close-write_all,
}
use shipwick.Backupfile.Sizes.{plain_size-close}

abbrev front : ℕ → Bool → List ℕ
front i last =
    (if last then 1 else 0) ∷ i ∷ 0 ∷ 0 ∷ 0 ∷ 0 ∷ 0 ∷ 0 ∷ 0 ∷ 0 ∷ 0 ∷ 0 ∷ 0 ∷ 0 ∷ 0 ∷ 0 ∷ []

abbrev tagged : Aead
tagged = record {
  seal = λ i last p. front i last ++ p;
  unseal = λ i last s.
      if byte_at 0 s == (if last then 1 else 0) && byte_at 1 s == i then some (drop 16 s) else none;
}

tagged-IsAead : IsAead tagged
tagged-IsAead = record {
  length-seal = λ i last p. omega arith;
  unseal-seal = λ i last p. ground arith;
  unseal_other = λ i p. refl;
}

abbrev ciphers : Ciphers
ciphers passphrase it salt header = tagged

abbrev secret : List ℕ
secret = 112 ∷ 119 ∷ []

abbrev salt : List ℕ
salt = 7 ∷ 0 ∷ 0 ∷ 0 ∷ 0 ∷ 0 ∷ 0 ∷ 0 ∷ 0 ∷ 0 ∷ 0 ∷ 0 ∷ 0 ∷ 0 ∷ 0 ∷ 9 ∷ []

abbrev always : ℕ → Bool
always k = true

abbrev pieces : List (List ℕ)
pieces = (1 ∷ 2 ∷ []) ∷ [] ∷ (3 ∷ []) ∷ []

abbrev done_file : List ℕ
done_file = (close tagged always (write_all tagged always 65_536 pieces (fresh 3 salt))).out

read_file-close_example : read_file ciphers secret done_file ≡ plain (1 ∷ 2 ∷ 3 ∷ [])
unfolding flatten new_writer
read_file-close_example =
    read_file-close ciphers secret 3 salt tagged-IsAead always (λ k. refl) refl (omega arith)
      (omega arith) pieces (fresh 3 salt) refl

read_file-write_all_example :
    is_broken (read_file ciphers secret (write_all tagged always 65_536 pieces (fresh 3 salt)).out)
    ≡ true
unfolding new_writer
read_file-write_all_example =
    read_file-write_all ciphers secret 3 salt tagged-IsAead always (λ k. refl) refl (omega arith)
      (omega arith) pieces (fresh 3 salt) refl

-- Chunks of two bytes.
close-write_all_example :
    (close tagged always (write_all tagged always 2 pieces (fresh 3 salt))).out
    ≡ make_header 3 salt ++ feed tagged 2 (sealed_end tagged) 0 [] (1 ∷ 2 ∷ 3 ∷ [])
unfolding flatten
close-write_all_example =
    close-write_all tagged always 2 (omega arith) (λ k. refl) pieces (fresh 3 salt) (omega arith)
      refl refl

plain_size-close_example : (plain_size 52 ≡ some 3) ↔ (52 ≡ length done_file)
unfolding flatten new_writer
plain_size-close_example =
    plain_size-close tagged tagged-IsAead always (λ k. refl) secret 3 salt refl pieces
      (fresh 3 salt) 52 refl
