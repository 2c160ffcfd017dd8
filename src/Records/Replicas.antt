-- ===== src/Records/Replicas.antt =====
-- The table of replicas, and the stamp that every deployment gets at startup:
-- agent/internal/store/deployments.go. The names of containers are left out.
use shipwick.Base.{
  ℕ, ◌+◌, ◌≡◌, refl, Bool, true, false, not, ◌&&◌, ◌||◌, Option, none, some, List, [], ◌∷◌, ◌++◌,
  leb, ◌==◌, if◌then◌else◌, is_none, any, update_rows, Result, ok, refused, ◌>>◌, guard, arith,
  OnOk,
}
use shipwick.Records.{Store}

pub record ReplicaRow : Type 0 where
  pub deployment_id : ℕ
  pub index : ℕ
  pub container_id : ℕ
  pub restarts : ℕ
  pub removed_at : Option ℕ

unfoldable pub complete_all_deployments : Bool → ℕ → Store → Result Store
complete_all_deployments takes now s = do
  guard takes refused
  ok (record s {
    deployments =
        update_rows (λ d. is_none d.completed_at) (λ d. record d { completed_at = some now })
          s.deployments;
  })

unfoldable pub add_replica : Bool → ℕ → ℕ → ℕ → List ReplicaRow → Result (List ReplicaRow)
add_replica takes deployment index container rows = do
  guard takes refused
  ok (
      rows
      ++ record {
        deployment_id = deployment;
        index = index;
        container_id = container;
        restarts = 0;
        removed_at = none;
      }
        ∷ [])

-- WHERE container_id = ? AND removed_at IS NULL
abbrev pub is_kept : ℕ → ReplicaRow → Bool
is_kept container r = r.container_id == container && is_none r.removed_at

unfoldable pub mark_replica_removed : Bool → ℕ → ℕ → List ReplicaRow → Result (List ReplicaRow)
mark_replica_removed takes container now rows = do
  guard takes refused
  ok (update_rows (is_kept container) (λ r. record r { removed_at = some now }) rows)

unfoldable pub increment_replica_restarts : Bool → ℕ → List ReplicaRow → Result (List ReplicaRow)
increment_replica_restarts takes container rows = do
  guard takes refused
  ok (update_rows (is_kept container) (λ r. record r { restarts = r.restarts + 1 }) rows)

-- ORDER BY replica_index
unfoldable pub insert_by_index : ReplicaRow → List ReplicaRow → List ReplicaRow
insert_by_index x [] = x ∷ []
insert_by_index x (y ∷ ys) =
    let rest = insert_by_index x ys in if leb x.index y.index then x ∷ y ∷ ys else y ∷ rest

abbrev pub is_listed : ℕ → ReplicaRow → Bool
is_listed deployment r = r.deployment_id == deployment && is_none r.removed_at

unfoldable pub list_replicas : ℕ → List ReplicaRow → List ReplicaRow
unfolding insert_by_index
list_replicas deployment [] = []
list_replicas deployment (r ∷ rs) =
    let rest = list_replicas deployment rs in
    if is_listed deployment r then insert_by_index r rest else rest

-- Whether a container is listed as a replica of a deployment.
abbrev pub lists : ℕ → ℕ → List ReplicaRow → Bool
lists deployment container rows =
    any (λ r. r.container_id == container) (list_replicas deployment rows)

any-insert :
    (container : ℕ) (x : ReplicaRow) (xs : List ReplicaRow)
    → any (λ r. r.container_id == container) (insert_by_index x xs)
      ≡ (x.container_id == container || any (λ r. r.container_id == container) xs)
unfolding insert_by_index
any-insert container x [] = refl
any-insert container x (y ∷ ys) = ground (arith, any-insert container x ys)

lists-removed :
    (deployment container other now : ℕ) (rows : List ReplicaRow)
    → lists deployment other
        (update_rows (is_kept container) (λ r. record r { removed_at = some now }) rows)
      ≡ (not (other == container) && lists deployment other rows)
unfolding list_replicas update_rows
lists-removed deployment container other now [] = ground arith
lists-removed deployment container other now (r ∷ rs) = ground (
  arith,
  lists-removed deployment container other now rs,
  any-insert other r (list_replicas deployment rs),
  any-insert other r (
      list_replicas deployment
        (update_rows (is_kept container) (λ q. record q { removed_at = some now }) rs)),
)

lists-added :
    (deployment other : ℕ) (r : ReplicaRow) (rows : List ReplicaRow)
    → lists deployment other (rows ++ r ∷ [])
      ≡ (lists deployment other rows || (is_listed deployment r && r.container_id == other))
unfolding list_replicas
lists-added deployment other r [] = ground (arith, any-insert other r [])
lists-added deployment other r (q ∷ rows) = ground (
  arith,
  lists-added deployment other r rows,
  any-insert other q (list_replicas deployment rows),
  any-insert other q (list_replicas deployment (rows ++ r ∷ [])),
)

-- After a replica was marked as removed its container is on no deployment's list, and each other
-- container is on the lists that it was on.
pub mark_replica_removed-list_replicas :
    (takes : Bool) (deployment container other now : ℕ) (rows : List ReplicaRow)
    → OnOk
        (λ after.
          lists deployment other after ≡ (not (other == container) && lists deployment other rows))
        (mark_replica_removed takes container now rows)
unfolding mark_replica_removed
mark_replica_removed-list_replicas false deployment container other now rows = tt
mark_replica_removed-list_replicas true deployment container other now rows =
    lists-removed deployment container other now rows

-- A replica that was added is on its deployment's list, and nothing else changes on any list.
pub add_replica-list_replicas :
    (takes : Bool) (mine deployment index container other : ℕ) (rows : List ReplicaRow)
    → OnOk
        (λ after.
          lists deployment other after
          ≡ (lists deployment other rows || (mine == deployment && container == other)))
        (add_replica takes mine index container rows)
unfolding add_replica
add_replica-list_replicas false mine deployment index container other rows = tt
add_replica-list_replicas true mine deployment index container other rows = ground (
  arith,
  lists-added deployment other
      (record {
        deployment_id = mine;
        index = index;
        container_id = container;
        restarts = 0;
        removed_at = none;
      })
      rows,
)
