-- ===== src/Status/Traces.antt =====
-- What the table of transitions promises of whole histories.
use shipwick.Base.{
  ◌≡◌, ◌≢◌, ap, ◌⊎◌, inl, inr, Bool-cases, refl, Bool, true, false, List, [], ◌∷◌, arith, any, ◌||◌,
}
use shipwick.Status.{
  DeploymentStatus, pending, building, starting, health_checking, healthy, active, superseded,
  failed, rollback, restoring, rolled_back, same_status, can_transition,
}

-- The statuses that follow `s`, each by a legal step.
abbrev pub IsTrace : DeploymentStatus → List DeploymentStatus → Type 0
IsTrace s [] = Unit
IsTrace s (t ∷ ts) = (can_transition s t ≡ true) × IsTrace t ts

abbrev pub last : DeploymentStatus → List DeploymentStatus → DeploymentStatus
last s [] = s
last s (t ∷ ts) = last t ts

-- From here a deployment does not become active.
lost : DeploymentStatus → Bool
lost superseded = true
lost failed = true
lost rollback = true
lost restoring = true
lost rolled_back = true
lost _ = false

lost-step : (s t : DeploymentStatus) → lost s ≡ true → can_transition s t ≡ true → lost t ≡ true
unfolding lost can_transition
lost-step s t h k = ground arith

lost-last :
    (s : DeploymentStatus) (ts : List DeploymentStatus)
    → lost s ≡ true
    → IsTrace s ts
    → lost (last s ts) ≡ true
lost-last s [] h tr = h
lost-last s (t ∷ ts) h tr = lost-last t ts (lost-step s t h tr.0) tr.1

lost-never-active :
    (s : DeploymentStatus) (ts : List DeploymentStatus)
    → lost s ≡ true
    → IsTrace s ts
    → last s ts ≢ active
unfolding lost
lost-never-active s ts h tr e = cc (lost-last s ts h tr, ap lost e)

-- What is left of the way up.
way_up : DeploymentStatus → List DeploymentStatus
way_up pending = building ∷ starting ∷ health_checking ∷ healthy ∷ active ∷ []
way_up building = starting ∷ health_checking ∷ healthy ∷ active ∷ []
way_up starting = health_checking ∷ healthy ∷ active ∷ []
way_up health_checking = healthy ∷ active ∷ []
way_up healthy = active ∷ []
way_up _ = []

way_up-step :
    (s t : DeploymentStatus)
    → lost s ≡ false
    → s ≢ active
    → can_transition s t ≡ true
    → lost t ≡ false
    → way_up s ≡ t ∷ way_up t
unfolding lost can_transition way_up
way_up-step s t h n k l = ground arith

active-step : (t : DeploymentStatus) → can_transition active t ≡ true → lost t ≡ true
unfolding lost can_transition
active-step t h = ground arith

from_active : (ts : List DeploymentStatus) → IsTrace active ts → last active ts ≡ active → ts ≡ []
from_active [] tr e = refl
from_active (t ∷ ts) tr e = absurd (lost-never-active t ts (active-step t tr.0) tr.1 e)

status_cases : (s : DeploymentStatus) → (s ≡ active) ⊎ (s ≢ active)
status_cases active = inl refl
status_cases pending = inr (cc)
status_cases _ = inr (cc)

trace-way_up :
    (s : DeploymentStatus) (ts : List DeploymentStatus)
    → lost s ≡ false
    → IsTrace s ts
    → last s ts ≡ active
    → ts ≡ way_up s
unfolding way_up
trace-way_up active ts l tr e = from_active ts tr e
trace-way_up s [] l tr e = cc
trace-way_up s (t ∷ ts) l tr e = elim (Bool-cases (lost t)) [
  | inl h ↦ absurd (lost-never-active t ts h tr.1 e)
  | inr h ↦ ground (arith, way_up-step s t l (cc) tr.0 h, trace-way_up t ts h tr.1 e)
]

-- A deployment that becomes ACTIVE has passed through BUILDING, STARTING, HEALTH_CHECKING and
-- HEALTHY, in this order and through nothing else.
pub active-trace :
    (ts : List DeploymentStatus)
    → IsTrace pending ts
    → last pending ts ≡ active
    → ts ≡ building ∷ starting ∷ health_checking ∷ healthy ∷ active ∷ []
unfolding lost way_up
active-trace ts tr e = trace-way_up pending ts refl tr e

-- Before FAILED nothing of a rollback is reached.
ascending : DeploymentStatus → Bool
ascending failed = false
ascending rollback = false
ascending restoring = false
ascending rolled_back = false
ascending _ = true

ascending-step :
    (s t : DeploymentStatus)
    → ascending s ≡ true
    → can_transition s t ≡ true
    → same_status failed t ≡ false
    → ascending t ≡ true
unfolding ascending can_transition
ascending-step s t h k n = ground arith

ascending-last :
    (s : DeploymentStatus) (ts : List DeploymentStatus)
    → ascending s ≡ true
    → IsTrace s ts
    → any (same_status failed) ts ≡ false
    → ascending (last s ts) ≡ true
ascending-last s [] h tr n = h
ascending-last s (t ∷ ts) h tr n = elim (Bool-cases (same_status failed t)) [
  | inl f ↦ cc (n, ap (λ b. b || any (same_status failed) ts) f)
  | inr f ↦
      ascending-last t ts (ascending-step s t h tr.0 f) tr.1
        (cc (n, ap (λ b. b || any (same_status failed) ts) f))
]

-- A deployment that was rolled back has failed before.
pub rolled_back-trace :
    (ts : List DeploymentStatus)
    → IsTrace pending ts
    → last pending ts ≡ rolled_back
    → any (same_status failed) ts ≡ true
unfolding ascending
rolled_back-trace ts tr e = elim (Bool-cases (any (same_status failed) ts)) [
  | inl h ↦ h
  | inr h ↦ absurd (cc (ascending-last pending ts refl tr h, ap ascending e))
]
