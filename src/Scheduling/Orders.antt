-- ===== src/Scheduling/Orders.antt =====
-- All orders of looks at applications.
use shipwick.Base.{
  ℕ, ◌<◌, ◌≡◌, ◌∙◌, ap, subst, refl, inl, inr, Bool, false, Option, none, some, List, [], ◌∷◌, ◌==◌,
  if◌then◌else◌, any, keep, arith, ==_iff, ==_refl, Bool-cases, find_row,
}
use shipwick.Locks.{Engine}
use shipwick.Scheduling.{App, Seen, known, last_or, taken_window, look_at, forget_deleted}
use shipwick.Scheduling.Tiles.{
  Window, World, noted, Step, looks, forgets, elsewhere, Reach, fresh, next, times, begun, IsTiled,
  AreTiled, known-see, seen_by, look_through-last_tick, taken_window-last, within_first,
  within_next,
}

-- The windows after a look, for the application that was looked at.
look_on :
    (app last minute : ℕ) (o : Option ℕ) (ws : List Window)
    → last ≡ last_or minute o
    → last < minute
    → IsTiled app o ws
    → IsTiled app (some minute) (record { app = app; last = last; upto = minute } ∷ ws)
look_on app last minute none ws is lt h = λ d.
    let same = (h 0 last).1 in
    simp (==_refl app, same) (lt, λ u. within_first last minute u (times app u ws) (h u last).0)
look_on app last minute (some before) ws is lt h = λ d.
    let (below, once) = h last in
    simp (==_refl app) (
      omega (arith, below, lt, is),
      λ u. rw is (
          within_next (begun app before ws) before minute u (times app u ws) (h before).0
            (omega (arith, is, lt)) ((h before).1 u)),
    )

-- A window of another application.
look_past :
    (app : ℕ) (w : Window) (o : Option ℕ) (ws : List Window)
    → (w.app == app) ≡ false
    → IsTiled app o ws
    → IsTiled app o (w ∷ ws)
look_past app w none ws other h = λ u d. simp other (h u d)
look_past app w (some last) ws other h = λ d. simp other (h d)

IsTiled-same :
    (app : ℕ) (o : Option ℕ) (ws vs : List Window)
    → ((u : ℕ) → times app u vs ≡ times app u ws)
    → ((d : ℕ) → begun app d vs ≡ begun app d ws)
    → IsTiled app o ws
    → IsTiled app o vs
IsTiled-same app none ws vs t b h = λ u d. simp (t u, b d) (h u d)
IsTiled-same app (some last) ws vs t b h =
    λ d. (simp (b d) (h d).0, λ u. simp (t u, b d) ((h d).1 u))

module _ (stays : ℕ → Bool) where
  known-stays :
      (app : ℕ) (seen : List Seen)
      → known app (keep (λ (l : Seen). stays l.app) seen)
        ≡ (if stays app then known app seen else none)
  unfolding find_row
  known-stays app [] = ground arith
  known-stays app (l ∷ ls) = elim (Bool-cases (l.app == app)) [
    | inl is ↦
        let e = (==_iff l.app app).0 is in ground (arith, e, is, known-stays app ls, ap stays e)
    | inr other ↦ ground (arith, other, known-stays app ls)
  ]

  times-stays :
      (app u : ℕ) (ws : List Window)
      → times app u (keep (λ (w : Window). stays w.app) ws)
        ≡ (if stays app then times app u ws else 0)
  times-stays app u [] = ground arith
  times-stays app u (w ∷ ws) = elim (Bool-cases (w.app == app)) [
    | inl is ↦
        let e = (==_iff w.app app).0 is in ground (arith, e, is, times-stays app u ws, ap stays e)
    | inr other ↦ ground (arith, other, times-stays app u ws)
  ]

  begun-stays :
      (app d : ℕ) (ws : List Window)
      → begun app d (keep (λ (w : Window). stays w.app) ws)
        ≡ (if stays app then begun app d ws else d)
  begun-stays app d [] = ground arith
  begun-stays app d (w ∷ ws) = elim (Bool-cases (w.app == app)) [
    | inl is ↦
        let e = (==_iff w.app app).0 is in
        ground (arith, e, is, begun-stays app w.last ws, begun-stays app d ws, ap stays e)
    | inr other ↦ ground (arith, other, begun-stays app d ws)
  ]

  IsTiled-stays :
      (app : ℕ) (seen : List Seen) (ws : List Window)
      → IsTiled app (known app seen) ws
      → IsTiled app
          (known app (keep (λ (l : Seen). stays l.app) seen))
          (keep (λ (w : Window). stays w.app) ws)
  IsTiled-stays app seen ws h = elim (Bool-cases (stays app)) [
    | inl stay ↦
        rw (known-stays app seen, stay)
          (IsTiled-same app (known app seen) ws (keep (λ (w : Window). stays w.app) ws)
            (λ u. times-stays app u ws ∙ simp stay refl)
            (λ d. begun-stays app d ws ∙ simp stay refl) h)
    | inr gone ↦
        rw (known-stays app seen, gone)
          (λ u d. (times-stays app u ws ∙ simp gone refl, begun-stays app d ws ∙ simp gone refl))
  ]

look_through-AreTiled :
    (minute : ℕ) (a : App) (w : Option (ℕ × Engine)) (seen : List Seen) (ws : List Window) (app : ℕ)
    → ((last : ℕ) (e : Engine)
        → w ≡ some (last, e)
        → (last ≡ last_or minute (known a.name seen)) × (last < minute))
    → ((app' : ℕ) → IsTiled app' (known app' seen) ws)
    → IsTiled app (known app (seen_by a minute w seen)) (noted a minute w ws)
look_through-AreTiled minute a none seen ws app facts h = h app
look_through-AreTiled minute a (some (last, e)) seen ws app facts h =
    let (is, lt) = facts last e refl in
    rw (known-see app a.name minute seen) (elim (Bool-cases (a.name == app)) [
      | inl same ↦
          let e = (==_iff a.name app).0 same in
          rw same (
            subst
              (λ v.
                IsTiled v (some minute) (record { app = a.name; last = last; upto = minute } ∷ ws))
              e (look_on a.name last minute (known a.name seen) ws is lt (h a.name)))
      | inr other ↦ rw other (
          look_past app (record { app = a.name; last = last; upto = minute }) (known app seen) ws
            other (h app))
    ])

Step-AreTiled : {w v : World} → Step w v → AreTiled w → AreTiled v
unfolding look_at forget_deleted
Step-AreTiled {w} (looks launches jobs minute a) h = λ app.
    rw (look_through-last_tick launches jobs minute a (taken_window a minute w.agent) w.agent) (
      look_through-AreTiled minute a (taken_window a minute w.agent) w.agent.last_tick w.windows app
        (λ last e is. taken_window-last a minute w.agent last e is) h)
Step-AreTiled {w} (forgets apps) h = λ app.
    IsTiled-stays (λ name. any (λ (a : App). a.name == name) apps) app w.agent.last_tick w.windows
      (h app)
Step-AreTiled {w} (elsewhere s same) h = λ app. rw same (h app)

-- However looks at applications follow each other, from the beginning of the first window of an
-- application to the minute of the last look at it each minute is in exactly one window, and no
-- other minute is in one; an application that the scheduler does not remember has no window.
pub Reach-AreTiled : {w : World} → Reach w → AreTiled w
unfolding find_row
Reach-AreTiled fresh = λ app u d. (refl, refl)
Reach-AreTiled (next r step) = Step-AreTiled step (Reach-AreTiled r)
