-- ===== src/Uploads/Parts.antt =====
-- The parts of an upload are the source, in order, and few enough.
use shipwick.Base.{
  ℕ, zero, suc, ◌+◌, ◌-◌, ◌*◌, ◌≤◌, ◌<◌, ◌≡◌, ◌∙◌, ap, sym, subst, refl, inl, inr, min, Option,
  none, some, List, [], ◌∷◌, ◌++◌, ltb, leb, length, take, drop, take-drop, length-take,
  length-drop, drop_all, Bool-cases, arith,
}
use shipwick.Uploads.{
  Answers, Part, cons_part, part_size_for, max_parts, part_attempts, send_part, send_parts,
}

-- The bytes of parts in order.
abbrev pub bodies : List Part → List ℕ
bodies [] = []
bodies (p ∷ ps) = p.body ++ bodies ps

-- Numbered from `n` on, none empty and none longer than `size`.
abbrev pub IsCut : ℕ → ℕ → List Part → Type 0
IsCut size n [] = Unit
IsCut size n (p ∷ ps) =
    (p.number ≡ n) × (0 < length p.body) × (length p.body ≤ size) × IsCut size (n + 1) ps

pub part_size_for_fits :
    (size usual : ℕ)
    → 0 < usual
    → (0 < part_size_for size usual) × (size ≤ max_parts * part_size_for size usual)
unfolding part_size_for
part_size_for_fits size usual some_size = (ground (arith, some_size), ground (arith, some_size))

-- What was cut from an offset on.
pub record CutFrom (src : List ℕ) (size n offset : ℕ) (ps : List Part) : Type 0 where
  pub all : bodies ps ≡ drop offset src
  pub cut : IsCut size n ps
  pub few : (count : ℕ) → length src - offset ≤ count * size → length ps ≤ count

drop_none : (m : ℕ) → ◌≡◌ {A = List ℕ} (drop m []) []
drop_none zero = refl
drop_none (suc m) = refl

drop-drop : (m n : ℕ) (xs : List ℕ) → drop m (drop n xs) ≡ drop (n + m) xs
drop-drop m zero xs = let e : m ≡ 0 + m = omega arith in ap (λ k. drop k xs) e
drop-drop m (suc n) [] = drop_none m ∙ sym (drop_none (suc n + m))
drop-drop m (suc n) (x ∷ xs) =
    let e : suc (n + m) ≡ suc n + m = omega arith in drop-drop m n xs ∙ ap (λ k. drop k (x ∷ xs)) e

module _ (a : Answers) (src : List ℕ) (size : ℕ) (some_size : 0 < size) where
  abbrev body_at : ℕ → List ℕ
  body_at offset = take (min size (length src - offset)) (drop offset src)

  body-rest :
      (offset : ℕ)
      → offset < length src
      → body_at offset ++ drop (offset + size) src ≡ drop offset src
  body-rest offset lt =
      let n = min size (length src - offset) in
      let d = drop offset src in
      ap (λ l. take n d ++ l)
        (elim (Bool-cases (leb size (length src - offset))) [
          | inl long ↦
              let e : n ≡ size = ground (arith, long) in
              sym (ap (λ k. drop k d) e ∙ drop-drop size offset src)
          | inr short ↦
              drop_all (offset + size) src (ground (arith, short))
              ∙ sym (drop_all n d (ground (arith, short, length-drop offset src)))
        ])
      ∙ take-drop n d

  length-body_at :
      (offset : ℕ)
      → offset < length src
      → (0 < length (body_at offset)) × (length (body_at offset) ≤ size)
  length-body_at offset lt =
      let e = length-take (min size (length src - offset)) (drop offset src) in
      let f = length-drop offset src in (omega (arith, e, f, lt, some_size), omega (arith, e, f))

  record Consed (p : Part) (rest : Option (List Part)) (ps : List Part) : Type 0 where
    tail : List Part
    is_rest : rest ≡ some tail
    is_all : p ∷ tail ≡ ps

  cons_part_lem :
      (p : Part) (rest : Option (List Part)) (ps : List Part)
      → cons_part p rest ≡ some ps
      → Consed p rest ps
  cons_part_lem p none ps h = absurd (cc h)
  cons_part_lem p (some tail) ps h = record { tail = tail; is_rest = refl; is_all = cc h }

  CutFrom-nil :
      (number offset : ℕ) (ps : List Part)
      → length src ≤ offset
      → ◌≡◌ {A = Option (List Part)} (some []) (some ps)
      → CutFrom src size number offset ps
  CutFrom-nil number offset ps le h =
      let e : ◌≡◌ {A = List Part} [] ps = cc h in
      subst (CutFrom src size number offset) e
        (record { all = sym (drop_all offset src le); cut = tt; few = λ count enough. omega arith })

  CutFrom-cons :
      (number offset : ℕ) (qs : List Part)
      → offset < length src
      → CutFrom src size (number + 1) (offset + size) qs
      → CutFrom src size number offset (record { number = number; body = body_at offset } ∷ qs)
  CutFrom-cons number offset qs lt c = record {
    all = ap (λ l. body_at offset ++ l) c.all ∙ body-rest offset lt;
    cut = (refl, (length-body_at offset lt).0, (length-body_at offset lt).1, c.cut);
    few = one_more;
  }
    where
      one_more : (count : ℕ) → length src - offset ≤ count * size → suc (length qs) ≤ count
      one_more zero enough = absurd (omega (arith, enough, lt))
      one_more (suc count) enough = omega (arith, c.few count (omega (arith, enough)))

  pub send_parts-CutFrom :
      (fuel offset number : ℕ) (ps : List Part)
      → length src - offset ≤ fuel
      → send_parts a src size fuel offset number ≡ some ps
      → CutFrom src size number offset ps
  unfolding send_parts
  send_parts-CutFrom zero offset number ps le h = CutFrom-nil number offset ps (omega (arith, le)) h
  send_parts-CutFrom (suc fuel) offset number ps le h =
      elim (Bool-cases (ltb offset (length src))) [
        | inl more ↦ elim (Bool-cases (send_part a number 1 part_attempts)) [
          | inl took ↦
              let rest = send_parts a src size fuel (offset + size) (number + 1) in
              let p : Part = record { number = number; body = body_at offset } in
              let k = cons_part_lem p rest ps (cc (h, more, took)) in
              subst (CutFrom src size number offset) k.is_all (
                CutFrom-cons number offset k.tail (ground (arith, more)) (
                  send_parts-CutFrom fuel (offset + size) (number + 1) k.tail
                    (omega (arith, le, some_size)) k.is_rest))
          | inr failed ↦ absurd (cc (h, more, failed))
        ]
        | inr done ↦ CutFrom-nil number offset ps (ground (arith, done)) (cc (h, done))
      ]
