-- ===== src/Backupfile/Chunks.antt =====
-- The chunks that a reader opens, against the reference.
use shipwick.Base.{
  ℕ, zero, suc, ◌+◌, ◌≤◌, ◌<◌, ◌≡◌, ◌∙◌, ap, sym, refl, inl, inr, Bool, true, false, ◌||◌, List, [],
  ◌∷◌, ◌++◌, ltb, ◌==◌, if◌then◌else◌, length, take, drop, arith, Bool-cases, length-append,
  take-append, drop-append, take_all, drop_all,
}
use mathlib.Core.List.{append_assoc, append-nil}
use shipwick.Backupfile.{
  Aead, Reading, plain, broken, wrong_passphrase, corrupt, then_plain, is_broken, opened, is_nil,
  tag_size, read_chunks,
}
use shipwick.Backupfile.Stream.{IsAead, feed, sealed_end, no_end}

||_true : (b : Bool) → (b || true) ≡ true
||_true true = refl
||_true false = refl

module _ (a : Aead) (c : ℕ) (laws : IsAead a) (room : 0 < c) where
  is_nil-length : (bytes : List ℕ) → 0 < length bytes → is_nil bytes ≡ false
  is_nil-length [] lt = absurd (omega (arith, lt))
  is_nil-length (b ∷ bs) lt = refl

  -- One turn of the loop over a file that begins with a chunk.
  read_chunks_turn :
      (fuel i : ℕ) (sealed rest : List ℕ)
      → tag_size ≤ length sealed
      → take (c + tag_size) (sealed ++ rest) ≡ sealed
      → drop (c + tag_size) (sealed ++ rest) ≡ rest
      → (last : Bool) → (ltb (length sealed) (c + tag_size) || is_nil rest) ≡ last
      → read_chunks a c (suc fuel) i (sealed ++ rest)
        ≡ opened
            (a.unseal i last sealed)
            last
            (if i == 0 then wrong_passphrase else corrupt)
            (read_chunks a c fuel (i + 1) rest)
  unfolding read_chunks
  read_chunks_turn fuel i sealed rest long first later last is =
      let whole : ltb (length sealed) tag_size ≡ false = ground (arith, long) in
      rw (first, later, whole, is) refl

  -- A chunk that is followed by more.
  read_chunks-more :
      (fuel i : ℕ) (buf rest : List ℕ)
      → length buf ≡ c
      → 0 < length rest
      → read_chunks a c (suc fuel) i (a.seal i false buf ++ rest)
        ≡ then_plain buf (read_chunks a c fuel (i + 1) rest)
  read_chunks-more fuel i buf rest full lt =
      let sealed = a.seal i false buf in
      let size : c + tag_size ≡ length sealed = omega (arith, laws.length-seal i false buf, full) in
      read_chunks_turn fuel i sealed rest (omega (arith, size))
        (take-append (c + tag_size) sealed rest size) (drop-append (c + tag_size) sealed rest size)
        false (ground (arith, size, is_nil-length rest lt))
      ∙ rw (laws.unseal-seal i false buf) refl

  -- The last chunk.
  read_chunks-last :
      (fuel i : ℕ) (buf : List ℕ)
      → length buf ≤ c
      → read_chunks a c (suc fuel) i (a.seal i true buf) ≡ plain buf
  read_chunks-last fuel i buf fits =
      let sealed = a.seal i true buf in
      let size : length sealed ≤ c + tag_size = omega (arith, laws.length-seal i true buf, fits) in
      ap (read_chunks a c (suc fuel) i) (sym (append-nil sealed))
      ∙ read_chunks_turn fuel i sealed [] (omega (arith, laws.length-seal i true buf))
          (take_all (c + tag_size) (sealed ++ []) (rw append-nil size) ∙ append-nil sealed)
          (drop_all (c + tag_size) (sealed ++ []) (rw append-nil size)) true
          (||_true (ltb (length sealed) (c + tag_size)))
      ∙ rw (laws.unseal-seal i true buf) refl

  length-feed : (i : ℕ) (buf bs : List ℕ) → 0 < length (feed a c (sealed_end a) i buf bs)
  unfolding feed
  length-feed i buf [] = omega (arith, laws.length-seal i true buf)
  length-feed i buf (b ∷ bs) = elim (Bool-cases (length buf == c)) [
    | inl full ↦ rw full (
        omega (
          arith,
          length-append (a.seal i false buf) (feed a c (sealed_end a) (i + 1) (b ∷ []) bs),
          laws.length-seal i false buf,
        ))
    | inr roomy ↦ rw roomy (length-feed i (buf ++ b ∷ []) bs)
  ]

  -- What was fed in is read back.
  pub read_chunks-feed :
      (fuel i : ℕ) (buf bs : List ℕ)
      → length buf ≤ c
      → length bs < fuel
      → read_chunks a c fuel i (feed a c (sealed_end a) i buf bs) ≡ plain (buf ++ bs)
  unfolding feed
  read_chunks-feed zero i buf bs fits lt = absurd (omega (arith, lt))
  read_chunks-feed (suc fuel) i buf [] fits lt =
      read_chunks-last fuel i buf fits ∙ ap plain (sym (append-nil buf))
  read_chunks-feed (suc fuel) i buf (b ∷ bs) fits lt = elim (Bool-cases (length buf == c)) [
    | inl full ↦ rw full (
        read_chunks-more fuel i buf (feed a c (sealed_end a) (i + 1) (b ∷ []) bs)
          (ground (arith, full)) (length-feed (i + 1) (b ∷ []) bs)
        ∙ ap (then_plain buf)
            (read_chunks-feed fuel (i + 1) (b ∷ []) bs (omega (arith, room)) (omega (arith, lt))))
    | inr roomy ↦ rw roomy (
        read_chunks-feed (suc fuel) i (buf ++ b ∷ []) bs
          (ground (arith, roomy, fits, length-append buf (b ∷ []))) (omega (arith, lt))
        ∙ ap plain (append_assoc buf (b ∷ []) bs))
  ]

  broken-then_plain :
      (bytes : List ℕ) (r : Reading) → is_broken r ≡ true → is_broken (then_plain bytes r) ≡ true
  broken-then_plain bytes (plain rest) h = h
  broken-then_plain bytes (broken e) h = h

  -- A file that is cut behind a chunk that is not its last.
  read_chunks-cut :
      (fuel i : ℕ) (buf : List ℕ)
      → length buf ≡ c
      → is_broken (read_chunks a c (suc fuel) i (a.seal i false buf)) ≡ true
  read_chunks-cut fuel i buf full =
      let sealed = a.seal i false buf in
      let size : length sealed ≡ c + tag_size = omega (arith, laws.length-seal i false buf, full) in
      ap (λ l. is_broken (read_chunks a c (suc fuel) i l)) (sym (append-nil sealed))
      ∙ ap is_broken (
          read_chunks_turn fuel i sealed [] (omega (arith, size))
            (take_all (c + tag_size) (sealed ++ []) (rw append-nil (omega (arith, size)))
              ∙ append-nil sealed)
            (drop_all (c + tag_size) (sealed ++ []) (rw append-nil (omega (arith, size)))) true
            (||_true (ltb (length sealed) (c + tag_size))))
      ∙ rw (laws.unseal_other i buf) refl

  read_chunks-empty : (fuel i : ℕ) → is_broken (read_chunks a c fuel i []) ≡ true
  unfolding read_chunks
  read_chunks-empty zero i = refl
  read_chunks-empty (suc fuel) i =
      let none_left : ◌≡◌ {A = List ℕ} (take (c + tag_size) []) [] =
        take_all (c + tag_size) [] (omega arith) in
      rw none_left refl

  no_fuel : (i : ℕ) (l : List ℕ) → is_broken (read_chunks a c zero i l) ≡ true
  unfolding read_chunks
  no_fuel i l = refl

  -- The chunk that fills the buffer, and what follows it.
  read_chunks-step :
      (fuel i : ℕ) (buf rest : List ℕ)
      → length buf ≡ c
      → is_broken (read_chunks a c fuel (i + 1) rest) ≡ true
      → is_broken (read_chunks a c (suc fuel) i (a.seal i false buf ++ rest)) ≡ true
  read_chunks-step fuel i buf [] full h =
      rw (append-nil (a.seal i false buf)) (read_chunks-cut fuel i buf full)
  read_chunks-step fuel i buf (r ∷ rest) full h =
      rw (read_chunks-more fuel i buf (r ∷ rest) full (omega arith))
        (broken-then_plain buf (read_chunks a c fuel (i + 1) (r ∷ rest)) h)

  -- A file that was not closed.
  pub read_chunks-no_end :
      (fuel i : ℕ) (buf bs : List ℕ)
      → length buf ≤ c
      → is_broken (read_chunks a c fuel i (feed a c no_end i buf bs)) ≡ true
  unfolding feed
  read_chunks-no_end zero i buf bs fits = no_fuel i (feed a c no_end i buf bs)
  read_chunks-no_end (suc fuel) i buf [] fits = read_chunks-empty (suc fuel) i
  read_chunks-no_end (suc fuel) i buf (b ∷ bs) fits = elim (Bool-cases (length buf == c)) [
    | inl full ↦ rw full (
        read_chunks-step fuel i buf (feed a c no_end (i + 1) (b ∷ []) bs) (ground (arith, full))
          (read_chunks-no_end fuel (i + 1) (b ∷ []) bs (omega (arith, room))))
    | inr roomy ↦ rw roomy (
        read_chunks-no_end (suc fuel) i (buf ++ b ∷ []) bs
          (ground (arith, roomy, fits, length-append buf (b ∷ []))))
  ]
