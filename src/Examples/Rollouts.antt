-- ===== src/Examples/Rollouts.antt =====
-- Two replicas of an application are replaced, one after the other.
use shipwick.Base.{ℕ, refl, false, some, List, [], ◌∷◌, All, find_row}
use shipwick.Rollout.{Replica, Rollout, batches, desired}
use shipwick.Rollout.Batches.{IsGentle, batches-IsGentle}
use shipwick.Rollout.Capacity.{servings, AtLeast, servings-desired}

abbrev replica : ℕ → ℕ → ℕ → Replica
replica deployment index container = record {
  deployment_id = deployment;
  index = index;
  container_id = container;
}

abbrev old_replicas : List Replica
old_replicas = replica 1 1 11 ∷ replica 1 2 12 ∷ []

abbrev rollout : Rollout
rollout = record {
  replicas = 3;
  previous = some 2;
  old = old_replicas;
  fresh = [];
  serving = old_replicas;
  retired = false;
  recreate = false;
  stopped = [];
  in_service = [];
}

abbrev started : List (List Replica)
started = (replica 2 1 21 ∷ []) ∷ (replica 2 2 22 ∷ []) ∷ (replica 2 3 23 ∷ []) ∷ []

servings-desired_example : All (AtLeast (desired rollout)) (servings started rollout)
unfolding find_row
servings-desired_example =
    servings-desired started rollout 2 refl refl refl (refl, (refl, (refl, (refl, (refl, tt)))))
      (refl, (refl, (refl, tt)))

batches-IsGentle_example : All (IsGentle old_replicas) (batches rollout)
batches-IsGentle_example = batches-IsGentle rollout refl
