-- ===== src/Backupfile/Sizes.antt =====
-- How large a file is that holds a number of bytes: `PlainSize` and the writer.
use shipwick.Base.{
  ℕ, ◌+◌, ◌*◌, ◌≤◌, ◌<◌, ◌≡◌, sym, subst, refl, inl, inr, ◌⊎◌, ◌↔◌, Bool, true, false, some, List,
  [], ◌∷◌, ◌++◌, ◌==◌, length, arith, Bool-cases, length-append,
}
use mathlib.Core.List.{flatten}
use shipwick.Backupfile.{Aead, Writer, close, new_writer, make_header, chunk_size, plain_size}
use shipwick.Backupfile.Stream.{IsAead, feed, sealed_end}
use shipwick.Backupfile.Header.{length-make_header}
use shipwick.Backupfile.Files.{write_all, close-write_all, new_writer_lem, fresh}

-- The chunks of `n` bytes, `total` bytes long: the last one holds something, or there is no other.
record Sizes (n total : ℕ) : Type 0 where
  full : ℕ
  rest : ℕ
  bytes : n ≡ full * 65_536 + rest
  fits : rest ≤ 65_536
  some_rest : (full ≡ 0) ⊎ (0 < rest)
  sealed : total ≡ full * 65_552 + rest + 16

plain_size_lem : {n total : ℕ} → Sizes n total → plain_size (33 + total) ≡ some n
unfolding plain_size
plain_size_lem s = ground (arith, s.bytes, s.fits, s.some_rest, s.sealed)

same_total : {n total other : ℕ} → Sizes n total → plain_size other ≡ some n → 33 + total ≡ other
unfolding plain_size
same_total s h = ground (arith, h, s.bytes, s.fits, s.some_rest, s.sealed)

module _ (a : Aead) (laws : IsAead a) where
  feed-Sizes :
      (i : ℕ) (buf bs : List ℕ)
      → length buf ≤ chunk_size
      → Sizes (length buf + length bs) (length (feed a chunk_size (sealed_end a) i buf bs))
  unfolding feed
  feed-Sizes i buf [] fits = record {
    full = 0;
    rest = length buf;
    bytes = omega arith;
    fits = fits;
    some_rest = inl refl;
    sealed = omega (arith, laws.length-seal i true buf);
  }
  feed-Sizes i buf (b ∷ bs) fits = elim (Bool-cases (length buf == chunk_size)) [
    | inl is_full ↦
        let s = feed-Sizes (i + 1) (b ∷ []) bs (omega arith) in
        let size : length buf ≡ 65_536 = ground (arith, is_full) in
        let next = feed a chunk_size (sealed_end a) (i + 1) (b ∷ []) bs in
        rw is_full (record {
          full = s.full + 1;
          rest = s.rest;
          bytes = omega (arith, s.bytes, size);
          fits = s.fits;
          some_rest = inr (omega (arith, s.bytes, s.some_rest));
          sealed = omega (
            arith,
            s.sealed,
            size,
            length-append (a.seal i false buf) next,
            laws.length-seal i false buf,
          );
        })
    | inr roomy ↦
        let more : length (buf ++ b ∷ []) ≡ length buf + 1 =
          omega (arith, length-append buf (b ∷ [])) in
        let s = feed-Sizes i (buf ++ b ∷ []) bs (ground (arith, roomy, fits, more)) in
        rw roomy (record {
          full = s.full;
          rest = s.rest;
          bytes = omega (arith, s.bytes, more);
          fits = s.fits;
          some_rest = s.some_rest;
          sealed = s.sealed;
        })
  ]

module _ (a : Aead) (laws : IsAead a) (takes : ℕ → Bool) (all : (k : ℕ) → takes k ≡ true)
    (passphrase : List ℕ) (it : ℕ) (salt : List ℕ) (size : length salt ≡ 16) where
  -- A closed file, and its size.
  length-close :
      (ps : List (List ℕ)) (w : Writer)
      → new_writer passphrase it salt ≡ some w
      → length (close a takes (write_all a takes chunk_size ps w)).out
        ≡ 33 + length (feed a chunk_size (sealed_end a) 0 [] (flatten ps))
  length-close ps w made =
      subst
        (λ v.
          length (close a takes (write_all a takes chunk_size ps v)).out
          ≡ 33 + length (feed a chunk_size (sealed_end a) 0 [] (flatten ps)))
        (new_writer_lem passphrase it salt w made).1
        (rw
          (close-write_all a takes chunk_size (omega arith) all ps (fresh it salt) (omega arith)
            refl refl)
          (omega (
            arith,
            length-make_header it salt size,
            length-append (make_header it salt)
                (feed a chunk_size (sealed_end a) 0 [] (flatten ps)),
          )))

  -- The size of a file tells how much it holds, and no other size does: `PlainSize` gives the number
  -- of bytes written exactly for the size of the file that was written, in any pieces, and closed,
  -- the sink having taken all, the salt having its 16 bytes and the cipher keeping its laws.
  pub plain_size-close :
      (ps : List (List ℕ)) (w : Writer) (encrypted : ℕ)
      → new_writer passphrase it salt ≡ some w
      → (plain_size encrypted ≡ some (length (flatten ps)))
        ↔ (encrypted ≡ length (close a takes (write_all a takes chunk_size ps w)).out)
  plain_size-close ps w encrypted made =
      let s = feed-Sizes a laws 0 [] (flatten ps) (omega arith) in
      let none_before : length {A = ℕ} [] + length (flatten ps) ≡ length (flatten ps) =
        omega arith in
      rw (length-close ps w made, sym none_before)
        ((λ h. sym (same_total s h)), (λ h. rw h (plain_size_lem s)))
