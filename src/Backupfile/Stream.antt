-- ===== src/Backupfile/Stream.antt =====
-- The chunks of a file: a reference that takes its bytes one by one, and the writer's buffer.
use shipwick.Base.{
  ℕ, zero, suc, ◌+◌, ◌-◌, ◌≤◌, ◌<◌, ◌≡◌, ◌∙◌, ap, sym, refl, inl, inr, min, Bool, true, false,
  Option, none, some, List, [], ◌∷◌, ◌++◌, ◌==◌, if◌then◌else◌, length, take, drop, arith,
  Bool-cases, both_branches, length-append, length-take, length-drop, take-drop,
}
use mathlib.Core.List.{append_assoc, append-nil}
use shipwick.Backupfile.{Aead, Writer, WriteError, seal_chunk, write_loop, write}

-- What the code relies on of the cipher: a chunk grows by the tag, opens to what was sealed, and
-- does not open as the last one if it was not sealed as that.
pub record IsAead (a : Aead) : Type 0 where
  pub length-seal : (i : ℕ) (last : Bool) (p : List ℕ) → length (a.seal i last p) ≡ length p + 16
  pub unseal-seal : (i : ℕ) (last : Bool) (p : List ℕ) → a.unseal i last (a.seal i last p) ≡ some p
  pub unseal_other : (i : ℕ) (p : List ℕ) → a.unseal i true (a.seal i false p) ≡ none

-- The chunks of `bytes` after `buf`, with an ending for what is left in the buffer.
unfoldable pub feed : Aead → ℕ → (ℕ → List ℕ → List ℕ) → ℕ → List ℕ → List ℕ → List ℕ
feed a c ending i buf [] = ending i buf
feed a c ending i buf (b ∷ bs) =
    let next = feed a c ending (i + 1) (b ∷ []) bs in
    let more = feed a c ending i (buf ++ b ∷ []) bs in
    if length buf == c then a.seal i false buf ++ next else more

-- The ending of a file that is closed, and of one that is not.
abbrev pub sealed_end : Aead → ℕ → List ℕ → List ℕ
sealed_end a i buf = a.seal i true buf

abbrev pub no_end : ℕ → List ℕ → List ℕ
no_end i buf = []

module _ (a : Aead) (c : ℕ) (ending : ℕ → List ℕ → List ℕ) where
  feed-append :
      (i : ℕ) (buf p rest : List ℕ)
      → length buf + length p ≤ c
      → feed a c ending i buf (p ++ rest) ≡ feed a c ending i (buf ++ p) rest
  unfolding feed
  feed-append i buf [] rest le = rw append-nil
  feed-append i buf (b ∷ p) rest le =
      let roomy : (length buf == c) ≡ false = ground (arith, le) in
      rw roomy (
        feed-append i (buf ++ b ∷ []) p rest (omega (arith, le, length-append buf (b ∷ [])))
        ∙ ap (λ l. feed a c ending i l rest) (append_assoc buf (b ∷ []) p))

-- `r` is the writer `w` after it took `p`, whatever is written next.
pub record Takes (a : Aead) (c : ℕ) (ending : ℕ → List ℕ → List ℕ) (w r : Writer) (p : List ℕ)
    : Type 0 where
  pub same :
      (rest : List ℕ)
      → r.out ++ feed a c ending r.index r.buf rest
        ≡ w.out ++ feed a c ending w.index w.buf (p ++ rest)
  pub works : r.failed ≡ false
  pub stays : r.closed ≡ w.closed
  pub fits : length r.buf ≤ c

module _ (a : Aead) (c : ℕ) (ending : ℕ → List ℕ → List ℕ) (takes : ℕ → Bool) (room : 0 < c)
    (all : (k : ℕ) → takes k ≡ true) where
  -- A buffer with room takes the first part of what is written.
  abbrev filled : Writer → List ℕ → Writer
  filled v p = record v { buf = v.buf ++ take (min (c - length v.buf) (length p)) p }

  abbrev left : Writer → List ℕ → List ℕ
  left v p = drop (min (c - length v.buf) (length p)) p

  filled-same :
      (v : Writer) (p rest : List ℕ)
      → length v.buf < c
      → v.out ++ feed a c ending v.index (filled v p).buf (left v p ++ rest)
        ≡ v.out ++ feed a c ending v.index v.buf (p ++ rest)
  filled-same v p rest lt =
      let n = min (c - length v.buf) (length p) in
      let fit : length v.buf + length (take n p) ≤ c = omega (arith, lt, length-take n p) in
      let whole : take n p ++ (drop n p ++ rest) ≡ p ++ rest =
        sym (append_assoc (take n p) (drop n p) rest) ∙ ap (λ l. l ++ rest) (take-drop n p) in
      ap (λ l. v.out ++ l)
        (sym (feed-append a c ending v.index v.buf (take n p) (drop n p ++ rest) fit)
          ∙ ap (λ l. feed a c ending v.index v.buf l) whole)

  grown-Takes :
      (w v r : Writer) (p : List ℕ)
      → length v.buf < c
      → ((rest : List ℕ)
          → v.out ++ feed a c ending v.index v.buf (p ++ rest)
            ≡ w.out ++ feed a c ending w.index w.buf (p ++ rest))
      → v.closed ≡ w.closed
      → Takes a c ending (filled v p) r (left v p)
      → Takes a c ending w r p
  grown-Takes w v r p lt same closed t = record {
    same = λ rest. t.same rest ∙ filled-same v p rest lt ∙ same rest;
    works = t.works;
    stays = t.stays ∙ closed;
    fits = t.fits;
  }

  -- A full buffer is sealed once more arrives.
  sealed-same :
      (w : Writer) (b : ℕ) (bs rest : List ℕ)
      → length w.buf ≡ c
      → let v = seal_chunk a takes false w in
        v.out ++ feed a c ending v.index v.buf (b ∷ bs ++ rest)
        ≡ w.out ++ feed a c ending w.index w.buf (b ∷ bs ++ rest)
  unfolding seal_chunk feed
  sealed-same w b bs rest full =
      let is_full : (length w.buf == c) ≡ true = ground (arith, full) in
      let is_new : (0 == c) ≡ false = ground (arith, room) in
      rw (all w.index, is_full, is_new) (append_assoc w.out _ _)

  sealed-works : (w : Writer) → (seal_chunk a takes false w).failed ≡ false
  unfolding seal_chunk
  sealed-works w = rw (all w.index) refl

  sealed_room : (w : Writer) → length (seal_chunk a takes false w).buf < c
  unfolding seal_chunk
  sealed_room w = room

  sealed-closed : (w : Writer) → (seal_chunk a takes false w).closed ≡ w.closed
  unfolding seal_chunk
  sealed-closed w = refl

  left-length-le :
      (v : Writer) (b : ℕ) (bs : List ℕ) (fuel : ℕ)
      → length v.buf < c
      → length bs ≤ fuel
      → length (left v (b ∷ bs)) ≤ fuel
  left-length-le v b bs fuel lt le =
      omega (arith, lt, le, length-drop (min (c - length v.buf) (length (b ∷ bs))) (b ∷ bs))

  filled_fits : (v : Writer) (p : List ℕ) → length v.buf < c → length (filled v p).buf ≤ c
  filled_fits v p lt = omega (
    arith,
    lt,
    length-append v.buf (take (min (c - length v.buf) (length p)) p),
    length-take (min (c - length v.buf) (length p)) p,
  )

  pub write_loop-Takes :
      (fuel : ℕ) (p : List ℕ) (n : ℕ) (w : Writer)
      → length p ≤ fuel
      → length w.buf ≤ c
      → w.failed ≡ false
      → Takes a c ending w (write_loop a takes c fuel p n w).0 p
  unfolding write_loop
  write_loop-Takes zero [] n w le fits works = record {
    same = λ rest. refl;
    works = works;
    stays = refl;
    fits = fits;
  }
  write_loop-Takes zero (b ∷ bs) n w le fits works = absurd (omega (arith, le))
  write_loop-Takes (suc fuel) [] n w le fits works = record {
    same = λ rest. refl;
    works = works;
    stays = refl;
    fits = fits;
  }
  write_loop-Takes (suc fuel) (b ∷ bs) n w le fits works = elim (Bool-cases (length w.buf == c)) [
    | inl full ↦
        let v = seal_chunk a takes false w in
        rw full (
          both_branches (λ (q : Writer × ℕ). Takes a c ending w q.0 (b ∷ bs)) v.failed (v, n) _
            (λ h. absurd (cc (h, sealed-works w)))
            (λ h.
              grown-Takes w v _ (b ∷ bs) (sealed_room w)
                (λ rest. sealed-same w b bs rest (ground (arith, full))) (sealed-closed w)
                (write_loop-Takes fuel (left v (b ∷ bs)) _ (filled v (b ∷ bs))
                  (left-length-le v b bs fuel (sealed_room w) (omega (arith, le)))
                  (filled_fits v (b ∷ bs) (sealed_room w)) (sealed-works w))))
    | inr roomy ↦
        let lt : length w.buf < c = ground (arith, roomy, fits) in
        rw roomy (
          both_branches (λ (q : Writer × ℕ). Takes a c ending w q.0 (b ∷ bs)) w.failed (w, n) _
            (λ h. absurd (cc (h, works)))
            (λ h.
              grown-Takes w w _ (b ∷ bs) lt (λ rest. refl) refl
                (write_loop-Takes fuel (left w (b ∷ bs)) _ (filled w (b ∷ bs))
                  (left-length-le w b bs fuel lt (omega (arith, le))) (filled_fits w (b ∷ bs) lt)
                  works)))
  ]

  -- A write to a writer that works takes it all.
  pub write-Takes :
      (p : List ℕ) (w : Writer)
      → length w.buf ≤ c
      → w.failed ≡ false
      → w.closed ≡ false
      → Takes a c ending w (write a takes c p w).0 p
  unfolding write
  write-Takes p w fits works stays =
      both_branches (λ (q : Writer × ℕ × Option WriteError). Takes a c ending w q.0 p) w.failed _ _
        (λ h. absurd (cc (h, works)))
        (λ h.
          both_branches (λ (q : Writer × ℕ × Option WriteError). Takes a c ending w q.0 p) w.closed
            _ _ (λ k. absurd (cc (k, stays)))
            (λ k. write_loop-Takes (length p) p 0 w (omega arith) fits works))
