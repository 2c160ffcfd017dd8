-- ===== src/Backupfile/Files.antt =====
-- Whole files: a writer that is written to in any number of pieces and closed, and its reader.
use shipwick.Base.{
  ℕ, ◌+◌, ◌≤◌, ◌<◌, ◌≡◌, ◌∙◌, ap, sym, subst, refl, inl, inr, Bool, true, false, some, List, [],
  ◌∷◌, ◌++◌, ◌==◌, length, arith, Bool-cases, length-append,
}
use mathlib.Core.List.{append_assoc, append-nil, flatten}
use shipwick.Backupfile.{
  Aead, Writer, write, close, seal_chunk, new_writer, make_header, read_file, read_parsed,
  read_chunks, plain, is_broken, Ciphers, chunk_size, max_iterations, is_nil,
}
use shipwick.Backupfile.Stream.{IsAead, Takes, feed, sealed_end, no_end, write-Takes}
use shipwick.Backupfile.Header.{parse_header-make_header, header_of, body_of, length-make_header}
use shipwick.Backupfile.Chunks.{read_chunks-feed, read_chunks-no_end}

-- What a program that writes one piece after another leaves of the writer.
unfoldable pub write_all : Aead → (ℕ → Bool) → ℕ → List (List ℕ) → Writer → Writer
write_all a takes c [] w = w
write_all a takes c (p ∷ ps) w = write_all a takes c ps (write a takes c p w).0

module _ (a : Aead) (takes : ℕ → Bool) (c : ℕ) (room : 0 < c) (all : (k : ℕ) → takes k ≡ true) where
  write_all-Takes :
      (ending : ℕ → List ℕ → List ℕ) (ps : List (List ℕ)) (w : Writer)
      → length w.buf ≤ c
      → w.failed ≡ false
      → w.closed ≡ false
      → Takes a c ending w (write_all a takes c ps w) (flatten ps)
  unfolding write_all flatten
  write_all-Takes ending [] w fits works opened = record {
    same = λ rest. refl;
    works = works;
    stays = refl;
    fits = fits;
  }
  write_all-Takes ending (p ∷ ps) w fits works opened =
      let t = write-Takes a c ending takes room all p w fits works opened in
      let r = write_all-Takes ending ps (write a takes c p w).0 t.fits t.works (t.stays ∙ opened) in
      record {
        same = λ rest.
            r.same rest
            ∙ t.same (flatten ps ++ rest)
            ∙ ap (λ l. w.out ++ feed a c ending w.index w.buf l)
                (sym (append_assoc p (flatten ps) rest));
        works = r.works;
        stays = r.stays ∙ t.stays;
        fits = r.fits;
      }

  close-out :
      (w : Writer)
      → w.failed ≡ false
      → w.closed ≡ false
      → (close a takes w).out ≡ w.out ++ a.seal w.index true w.buf
  unfolding close seal_chunk
  close-out w works opened = rw (works, opened, all w.index) refl

  -- The file that is closed is the same however its bytes were split into writes.
  pub close-write_all :
      (ps : List (List ℕ)) (w : Writer)
      → length w.buf ≤ c
      → w.failed ≡ false
      → w.closed ≡ false
      → (close a takes (write_all a takes c ps w)).out
        ≡ w.out ++ feed a c (sealed_end a) w.index w.buf (flatten ps)
  unfolding feed
  close-write_all ps w fits works opened =
      let t = write_all-Takes (sealed_end a) ps w fits works opened in
      close-out (write_all a takes c ps w) t.works (t.stays ∙ opened)
      ∙ t.same []
      ∙ ap (λ l. w.out ++ feed a c (sealed_end a) w.index w.buf l) (append-nil (flatten ps))

  write_all-out :
      (ps : List (List ℕ)) (w : Writer)
      → length w.buf ≤ c
      → w.failed ≡ false
      → w.closed ≡ false
      → (write_all a takes c ps w).out ≡ w.out ++ feed a c no_end w.index w.buf (flatten ps)
  unfolding feed
  write_all-out ps w fits works opened =
      let t = write_all-Takes no_end ps w fits works opened in
      sym (append-nil (write_all a takes c ps w).out)
      ∙ t.same []
      ∙ ap (λ l. w.out ++ feed a c no_end w.index w.buf l) (append-nil (flatten ps))

-- The writer of a new file.
abbrev pub fresh : ℕ → List ℕ → Writer
fresh it salt = record {
  out = make_header it salt;
  buf = [];
  index = 0;
  failed = false;
  closed = false;
}

abbrev pub cipher_of : Ciphers → List ℕ → ℕ → List ℕ → Aead
cipher_of ciphers passphrase it salt = ciphers passphrase it salt (make_header it salt)

pub new_writer_lem :
    (passphrase : List ℕ) (it : ℕ) (salt : List ℕ) (w : Writer)
    → new_writer passphrase it salt ≡ some w
    → (is_nil passphrase ≡ false) × (fresh it salt ≡ w)
unfolding new_writer
new_writer_lem [] it salt w h = absurd (cc h)
new_writer_lem (b ∷ bs) it salt w h = (refl, cc h)

module _ (ciphers : Ciphers) (passphrase : List ℕ) (it : ℕ) (salt : List ℕ)
    (laws : IsAead (cipher_of ciphers passphrase it salt)) (takes : ℕ → Bool)
    (all : (k : ℕ) → takes k ≡ true) (size : length salt ≡ 16) (some_it : 0 < it)
    (few_it : it ≤ max_iterations) where
  abbrev a : Aead
  a = cipher_of ciphers passphrase it salt

  read_file-make_header :
      (rest : List ℕ)
      → is_nil passphrase ≡ false
      → read_file ciphers passphrase (make_header it salt ++ rest)
        ≡ read_chunks a chunk_size (length (make_header it salt ++ rest)) 0 rest
  unfolding read_file read_parsed
  read_file-make_header rest given =
      rw
        (
          parse_header-make_header it salt rest size some_it few_it,
          given,
          header_of it salt rest size,
          body_of it salt rest size,
        )
        refl

  -- A file is longer than what it holds.
  length-feed-ge :
      (c i : ℕ) (ending : ℕ → List ℕ → List ℕ) (buf bs : List ℕ)
      → ((j : ℕ) (l : List ℕ) → length l ≤ length (ending j l))
      → length buf + length bs ≤ length (feed a c ending i buf bs)
  unfolding feed
  length-feed-ge c i ending buf [] le = omega (arith, le i buf)
  length-feed-ge c i ending buf (b ∷ bs) le = elim (Bool-cases (length buf == c)) [
    | inl full ↦ rw full (
        omega (
          arith,
          length-append (a.seal i false buf) (feed a c ending (i + 1) (b ∷ []) bs),
          laws.length-seal i false buf,
          length-feed-ge c (i + 1) ending (b ∷ []) bs le,
        ))
    | inr roomy ↦
        rw roomy (
          omega
            (arith, length-append buf (b ∷ []), length-feed-ge c i ending (buf ++ b ∷ []) bs le))
  ]

  file-length :
      (bs : List ℕ)
      → length bs < length (make_header it salt ++ feed a chunk_size (sealed_end a) 0 [] bs)
  file-length bs = omega (
    arith,
    length-make_header it salt size,
    length-append (make_header it salt) (feed a chunk_size (sealed_end a) 0 [] bs),
    length-feed-ge chunk_size 0 (sealed_end a) [] bs
        (λ j l. omega (arith, laws.length-seal j true l)),
  )

  -- A file that was written in any pieces and closed reads, with its passphrase, as those pieces
  -- one after the other: the sink took every chunk, the salt has its 16 bytes, the iterations are
  -- between 1 and the reader's limit, and the cipher keeps its laws.
  pub read_file-close :
      (ps : List (List ℕ)) (w : Writer)
      → new_writer passphrase it salt ≡ some w
      → read_file ciphers passphrase (close a takes (write_all a takes chunk_size ps w)).out
        ≡ plain (flatten ps)
  read_file-close ps w made =
      let n = new_writer_lem passphrase it salt w made in
      subst
        (λ v.
          read_file ciphers passphrase (close a takes (write_all a takes chunk_size ps v)).out
          ≡ plain (flatten ps))
        n.1
        (rw
          (
            close-write_all a takes chunk_size (omega arith) all ps (fresh it salt) (omega arith)
                refl refl,
            read_file-make_header (feed a chunk_size (sealed_end a) 0 [] (flatten ps)) n.0,
          )
          (read_chunks-feed a chunk_size laws (omega arith) _ 0 [] (flatten ps) (omega arith)
            (file-length (flatten ps))))

  -- A file that was written to but not closed is refused, whatever was written, on the same
  -- conditions.
  pub read_file-write_all :
      (ps : List (List ℕ)) (w : Writer)
      → new_writer passphrase it salt ≡ some w
      → is_broken (read_file ciphers passphrase (write_all a takes chunk_size ps w).out) ≡ true
  read_file-write_all ps w made =
      let n = new_writer_lem passphrase it salt w made in
      subst
        (λ v.
          is_broken (read_file ciphers passphrase (write_all a takes chunk_size ps v).out) ≡ true)
        n.1
        (rw
          (
            write_all-out a takes chunk_size (omega arith) all ps (fresh it salt) (omega arith) refl
                refl,
            read_file-make_header (feed a chunk_size no_end 0 [] (flatten ps)) n.0,
          )
          (read_chunks-no_end a chunk_size laws (omega arith) _ 0 [] (flatten ps) (omega arith)))
