-- ===== src/BackupRuns/Ends.antt =====
-- The ends of verifications, restores and removals.
use shipwick.Base.{
  ℕ, ◌≤◌, ◌≡◌, ◌∙◌, ap, sym, subst, refl, inl, inr, Bool, true, false, not, ◌&&◌, Option, none,
  some, List, [], ◌∷◌, ◌++◌, ◌==◌, ==_iff, &&_true, keep, any, find_row, update_rows, changed,
  IsDistinct, IsDistinct-keep, IsDistinct-update, find_row-update, find_row-keep-none, key-find_row,
  any-find, any-find_none, Bool-cases, arith,
}
use shipwick.BackupRuns.{Activity, idle, Run, is_running, is_idle, find_run, has_id, can_claim}
use shipwick.BackupRuns.Works.{Work, World, works_on, shown, IsClaimed}

works_on-append :
    (id : ℕ) (xs ys : List Work) → works_on id (xs ++ ys) ≡ works_on id xs ++ works_on id ys
works_on-append id [] ys = refl
works_on-append id (x ∷ xs) ys = ground (arith, works_on-append id xs ys)

shown_one : {x y : Activity} (xs : List Activity) (o : Option Run) → x ∷ y ∷ xs ≡ shown o → 1 ≤ 0
shown_one xs none h = absurd (cc h)
shown_one xs (some r) h = elim (Bool-cases (is_idle r.activity)) [
  | inl i ↦ absurd (cc (simp i at h))
  | inr i ↦ absurd (cc (simp i at h))
]

-- Of a work that is the row's, there is no other one.
alone :
    (x : Activity) (xs ys : List Activity) (o : Option Run) → xs ++ x ∷ ys ≡ shown o → xs ++ ys ≡ []
alone x [] [] o h = refl
alone x [] (y ∷ ys) o h = absurd (omega (arith, shown_one ys o h))
alone x (z ∷ []) ys o h = absurd (omega (arith, shown_one ys o h))
alone x (z ∷ v ∷ zs) ys o h = absurd (omega (arith, shown_one (zs ++ x ∷ ys) o h))

shown-changed :
    (hit : Run → Bool) (change : Run → Run) (o : Option Run)
    → ((r : Run) → (change r).activity ≡ r.activity)
    → shown (changed hit change o) ≡ shown o
shown-changed hit change none same = refl
shown-changed hit change (some r) same = elim (Bool-cases (hit r)) [
  | inl h ↦ simp (h, same r) refl
  | inr h ↦ simp h refl
]

-- An update that leaves ids and activities.
pub update-IsClaimed :
    (hit : Run → Bool) (change : Run → Run) (w : World)
    → ((r : Run) → (change r).id ≡ r.id)
    → ((r : Run) → (change r).activity ≡ r.activity)
    → IsClaimed w
    → IsClaimed (record w { table = record w.table { rows = update_rows hit change w.table.rows } })
update-IsClaimed hit change w same_id same x = record {
  distinct = IsDistinct-update (λ (r : Run). r.id) hit change same_id w.table.rows x.distinct;
  counted = λ id past.
      find_row-update (λ (r : Run). r.id) hit change same_id id w.table.rows
      ∙ ap (changed hit change) (x.counted id past);
  agree = λ id.
      x.agree id
      ∙ sym (
          ap shown (find_row-update (λ (r : Run). r.id) hit change same_id id w.table.rows)
          ∙ shown-changed hit change (find_run id w.table.rows) same);
}

shown-idle :
    (id : ℕ) (change : Run → Run) (rows : List Run) (o : Option Run)
    → find_run id rows ≡ o
    → ((r : Run) → (change r).activity ≡ idle)
    → shown (changed (has_id id) change o) ≡ []
shown-idle id change rows none e to_idle = refl
shown-idle id change rows (some r) e to_idle =
    let is = key-find_row (λ (x : Run). x.id) id rows r e in
    let hit : has_id id r ≡ true = (==_iff r.id id).1 is in simp (hit, to_idle r) refl

shown-elsewhere :
    (id other : ℕ) (change : Run → Run) (rows : List Run) (o : Option Run)
    → find_run other rows ≡ o
    → (id == other) ≡ false
    → changed (has_id id) change o ≡ o
shown-elsewhere id other change rows none e differ = refl
shown-elsewhere id other change rows (some r) e differ =
    let is = key-find_row (λ (x : Run). x.id) other rows r e in
    let miss : has_id id r ≡ false = ground (arith, is, differ) in simp miss refl

module _ (before after : List Work) (id other : ℕ) (activity : Activity) (o : Option Run)
    (now : works_on other (before ++ record { run = id; activity = activity } ∷ after)
      ≡ shown o) where
  ended_here : (id == other) ≡ true → works_on other (before ++ after) ≡ []
  ended_here same =
      let first : works_on other (record { run = id; activity = activity } ∷ after)
          ≡ activity ∷ works_on other after =
        simp same refl in
      works_on-append other before after
      ∙ alone activity (works_on other before) (works_on other after) o (
          ap (λ l. works_on other before ++ l) (sym first)
          ∙ sym (works_on-append other before (record { run = id; activity = activity } ∷ after))
          ∙ now)

  ended_elsewhere : (id == other) ≡ false → works_on other (before ++ after) ≡ shown o
  ended_elsewhere differ =
      let first : works_on other (record { run = id; activity = activity } ∷ after)
          ≡ works_on other after =
        simp differ refl in
      works_on-append other before after
      ∙ ap (λ l. works_on other before ++ l) (sym first)
      ∙ sym (works_on-append other before (record { run = id; activity = activity } ∷ after))
      ∙ now

-- The end of a work, which leaves the backup idle.
pub finish-IsClaimed :
    (change : Run → Run) (w : World) (before after : List Work) (id : ℕ) (activity : Activity)
    → ((r : Run) → (change r).id ≡ r.id)
    → ((r : Run) → (change r).activity ≡ idle)
    → w.works ≡ before ++ record { run = id; activity = activity } ∷ after
    → IsClaimed w
    → IsClaimed (record {
      table = record w.table { rows = update_rows (has_id id) change w.table.rows };
      works = before ++ after;
    })
finish-IsClaimed change w before after id activity same_id to_idle is x = record {
  distinct =
      IsDistinct-update (λ (r : Run). r.id) (has_id id) change same_id w.table.rows x.distinct;
  counted = λ other past.
      find_row-update (λ (r : Run). r.id) (has_id id) change same_id other w.table.rows
      ∙ ap (changed (has_id id) change) (x.counted other past);
  agree = λ other.
      let now =
        subst (λ ws. works_on other ws ≡ shown (find_run other w.table.rows)) is (x.agree other) in
      let found =
        find_row-update (λ (r : Run). r.id) (has_id id) change same_id other w.table.rows in
      elim (Bool-cases (id == other)) [
        | inl same ↦
            let e = (==_iff id other).0 same in
            ended_here before after id other activity (find_run other w.table.rows) now same
            ∙ sym (
                ap shown found
                ∙ subst (λ v. shown (changed (has_id v) change (find_run other w.table.rows)) ≡ [])
                    (sym e)
                    (shown-idle other change w.table.rows (find_run other w.table.rows) refl
                      to_idle))
        | inr differ ↦
            ended_elsewhere before after id other activity (find_run other w.table.rows) now differ
            ∙ sym (
                ap shown (
                  found
                  ∙ shown-elsewhere id other change w.table.rows (find_run other w.table.rows) refl
                      differ))
      ];
}

find-gone : (id : ℕ) (rows : List Run) → find_run id (keep (λ r. not (has_id id r)) rows) ≡ none
unfolding find_row
find-gone id [] = refl
find-gone id (r ∷ rs) = ground (arith, find-gone id rs)

find-left :
    (id other : ℕ) (rows : List Run)
    → (id == other) ≡ false
    → find_run other (keep (λ r. not (has_id id r)) rows) ≡ find_run other rows
unfolding find_row
find-left id other [] differ = refl
find-left id other (r ∷ rs) differ = ground (arith, differ, find-left id other rs differ)

pub delete-IsClaimed :
    (w : World) (before after : List Work) (id : ℕ) (activity : Activity)
    → w.works ≡ before ++ record { run = id; activity = activity } ∷ after
    → IsClaimed w
    → IsClaimed (record {
      table = record w.table { rows = keep (λ r. not (has_id id r)) w.table.rows };
      works = before ++ after;
    })
delete-IsClaimed w before after id activity is x = record {
  distinct = IsDistinct-keep (λ (r : Run). r.id) (λ r. not (has_id id r)) w.table.rows x.distinct;
  counted = λ other past.
      find_row-keep-none (λ (r : Run). r.id) (λ r. not (has_id id r)) other w.table.rows
        (x.counted other past);
  agree = λ other.
      let now =
        subst (λ ws. works_on other ws ≡ shown (find_run other w.table.rows)) is (x.agree other) in
      elim (Bool-cases (id == other)) [
        | inl same ↦
            let e = (==_iff id other).0 same in
            ended_here before after id other activity (find_run other w.table.rows) now same
            ∙ sym (
                ap shown (
                  subst (λ v. find_run v (keep (λ r. not (has_id id r)) w.table.rows) ≡ none) e
                    (find-gone id w.table.rows)))
        | inr differ ↦
            ended_elsewhere before after id other activity (find_run other w.table.rows) now differ
            ∙ sym (ap shown (find-left id other w.table.rows differ))
      ];
}

module _ (id : ℕ) (activity : Activity) (act : is_idle activity ≡ false) (rows : List Run)
    (distinct : IsDistinct (λ (r : Run). r.id) rows)
    (free : any (λ r. r.id == id && can_claim r) rows ≡ true) (ws : List Work) where
  abbrev claimed_as : Run → Run
  claimed_as r = record r { activity = activity }

  pub claimed_here :
      (o : Option Run)
      → find_run id rows ≡ o
      → works_on id ws ≡ shown o
      → activity ∷ works_on id ws ≡ shown (changed (λ r. r.id == id && can_claim r) claimed_as o)
  claimed_here none e now =
      absurd (cc (free, any-find_none (λ (r : Run). r.id) can_claim id rows e))
  claimed_here (some r) e now =
      let is = key-find_row (λ (x : Run). x.id) id rows r e in
      let same : (r.id == id) ≡ true = (==_iff r.id id).1 is in
      let able : can_claim r ≡ true =
        sym (any-find (λ (x : Run). x.id) can_claim id rows r distinct e) ∙ free in
      let idle' = (&&_true (is_idle r.activity) (not (is_running r.status)) able).0 in
      let none' : works_on id ws ≡ [] = now ∙ simp idle' refl in
      simp (same, able, act) (ap (λ l. activity ∷ l) none')

  pub claimed_elsewhere :
      (other : ℕ) (o : Option Run)
      → (id == other) ≡ false
      → find_run other rows ≡ o
      → changed (λ r. r.id == id && can_claim r) claimed_as o ≡ o
  claimed_elsewhere other none differ e = refl
  claimed_elsewhere other (some r) differ e =
      let is = key-find_row (λ (x : Run). x.id) other rows r e in
      let miss : (r.id == id) ≡ false = ground (arith, is, differ) in simp miss refl
