-- ===== src/Rollout.antt =====
-- A rollout: agent/internal/deploy/rollout.go. The Docker calls, the proxy and the clock are
-- arguments; the events and the log are left out. The map of old replicas is the list of them, and
-- a member of a route is its replica, whose deployment says which port it has.
pub mod Batches
pub mod Swaps
pub mod Capacity
use shipwick.Base.{
  ℕ, zero, suc, min, Bool, true, false, not, ◌&&◌, ◌||◌, Option, none, some, List, [], ◌∷◌, ◌++◌,
  ◌==◌, if◌then◌else◌, any, keep, is_none, length, one_to, find_row, leb,
}

pub record Replica : Type 0 where
  pub deployment_id : ℕ
  pub index : ℕ
  pub container_id : ℕ

pub record Rollout : Type 0 where
  -- the replicas that the new deployment asks for, and those that the one it replaces asked for
  pub replicas : ℕ
  pub previous : Option ℕ
  pub old : List Replica
  pub fresh : List Replica
  pub serving : List Replica
  pub retired : Bool
  pub recreate : Bool
  pub stopped : List Replica
  pub in_service : List ℕ

abbrev pub has_index : ℕ → List Replica → Bool
has_index i = any (λ r. r.index == i)

abbrev pub contains : List ℕ → ℕ → Bool
contains xs i = any (λ j. j == i) xs

-- The capacity that the rollout keeps up throughout.
unfoldable pub desired : Rollout → ℕ
desired r = elim r.previous [ none ↦ r.replicas | some n ↦ min n r.replicas ]

-- The indexes that a resumed rollout does not have serving already.
unfoldable pub pending_indexes : Rollout → List ℕ
pending_indexes r = keep (λ i. not (contains r.in_service i)) (one_to r.replicas)

abbrev pub singles : List ℕ → List (List ℕ)
singles [] = []
singles (i ∷ is) = (i ∷ []) ∷ singles is

-- A batch, unless it is empty.
abbrev pub batch : List ℕ → List (List ℕ)
batch [] = []
batch (i ∷ is) = (i ∷ is) ∷ []

-- Which replicas start together: those that replace one go one by one, and the others at the end.
unfoldable pub batches : Rollout → List (List ℕ)
unfolding pending_indexes
batches r =
    if r.recreate
    then batch (pending_indexes r)
    else singles (keep (λ i. has_index i r.old) (pending_indexes r))
      ++ batch (keep (λ i. not (has_index i r.old)) (pending_indexes r))

-- sort.Slice by index
unfoldable pub insert_sorted : Replica → List Replica → List Replica
insert_sorted x [] = x ∷ []
insert_sorted x (y ∷ ys) = if leb x.index y.index then x ∷ y ∷ ys else y ∷ insert_sorted x ys

unfoldable pub sorted_replicas : List Replica → List Replica
unfolding insert_sorted
sorted_replicas [] = []
sorted_replicas (x ∷ xs) = insert_sorted x (sorted_replicas xs)

-- The predecessors of the replicas that are ready.
unfoldable pub predecessors : List Replica → List Replica → List Replica
predecessors [] old = []
predecessors (r ∷ rs) old = elim (find_row (λ (o : Replica). o.index) r.index old) [
  | none ↦ predecessors rs old
  | some o ↦ o ∷ predecessors rs old
]

-- `none` is the call after the last batch, which retires what has no successor.
unfoldable pub outgoing : Option (List Replica) → List Replica → List Replica
unfolding sorted_replicas predecessors
outgoing none old = sorted_replicas old
outgoing (some ready) old = predecessors ready old

abbrev pub leaves : List Replica → Replica → Bool
leaves out m = any (λ o. o.container_id == m.container_id) out

abbrev pub newcomers : Option (List Replica) → List Replica
newcomers none = []
newcomers (some ready) = ready

-- Routing comes first …
unfoldable pub rerouted : Option (List Replica) → Rollout → Rollout
unfolding outgoing
rerouted ready r = record r {
  serving = keep (λ m. not (leaves (outgoing ready r.old) m)) r.serving ++ newcomers ready;
}

abbrev pub is_empty {ℓ} : {A : Type ℓ} → List A → Bool
is_empty [] = true
is_empty (x ∷ xs) = false

-- … and retiring second: what goes out is taken off the old replicas, by its index.
unfoldable pub retires : List Replica → Rollout → Rollout
retires out r = record r {
  old = keep (λ o. not (has_index o.index out)) r.old;
  retired = r.retired || not (is_empty out);
}

-- What a swap meets: the proxy does not take the routes, the context ends while the names settle or
-- by the time the swap returns, or none of these.
pub data Meets : Type 0 where
  proxy_fails ends_settling ends_after nothing : Meets

pub data Swap : Type 0 where
  done : Rollout → Swap
  fails : Rollout → Swap

abbrev waits_for_names : Option (List Replica) → List Replica → Rollout → Bool
waits_for_names ready out r =
    not (is_empty (newcomers ready)) && not (is_empty out) && not r.recreate

unfoldable pub swap_over : Meets → Option (List Replica) → List Replica → Rollout → Swap
unfolding rerouted retires
swap_over proxy_fails ready out r = fails (rerouted ready r)
swap_over ends_settling ready out r =
    if waits_for_names ready out r
    then fails (rerouted ready r)
    else fails (retires out (rerouted ready r))
swap_over ends_after ready out r = fails (retires out (rerouted ready r))
swap_over nothing ready out r = done (retires out (rerouted ready r))

unfoldable pub swap : Meets → Option (List Replica) → Rollout → Swap
unfolding swap_over outgoing
swap meets ready r =
    let out = outgoing ready r.old in
    if is_none ready && is_empty out then done r else swap_over meets ready out r

abbrev pub after : Swap → Rollout
after (done r) = r
after (fails r) = r

-- The loop of `execute` once every batch that it starts becomes ready and no swap fails; the last
-- swap retires the old replicas that have no successor.
unfoldable pub roll : List (List Replica) → Rollout → Rollout
unfolding swap
roll [] r = after (swap nothing none r)
roll (b ∷ bs) r = roll bs (after (swap nothing (some b) r))

-- What an error leaves to do.
pub data Ending : Type 0 where
  discards rolls_back rolls_back_recreate : Ending

unfoldable pub abort : Bool → Rollout → Ending
abort shutting_down r =
    if shutting_down || is_none r.previous || (not r.retired && not r.recreate)
    then discards
    else if r.recreate
    then rolls_back_recreate
    else rolls_back

-- The old replicas that a rollback has to create again.
unfoldable pub lost_indexes : ℕ → List Replica → List ℕ
lost_indexes n old = keep (λ i. not (has_index i old)) (one_to n)

-- The new replicas that a rollback keeps until the old ones are back, and those it removes at once.
unfoldable pub still_serving : Rollout → List Replica
still_serving r = keep (λ f. leaves r.serving f) r.fresh

unfoldable pub never_served : Rollout → List Replica
never_served r = keep (λ f. not (leaves r.serving f)) r.fresh
