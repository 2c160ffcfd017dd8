-- ===== src/Examples/Addresses.antt =====
-- A lookup whose name is dropped while its question is out. An address is the number of drops that
-- its question came after.
use shipwick.Base.{ℕ, ◌≡◌, refl, List, [], ◌∷◌}
use shipwick.Upstreams.{
  Settings, served, found, request, wait_or_reply, kept, result, lookup_turn, settled, drop_entry,
  woken,
}
use shipwick.Upstreams.Worlds.{
  World, begins, reads, asks, answers, wakes, drops_name, Reach, start, next,
}
use shipwick.Upstreams.Fresh.{IsFresh}
use shipwick.Upstreams.Drops.{Reach-IsFresh}

abbrev patience : Settings
patience = record { refresh = 1_000; wait = 200; keep_for = 2_000 }

abbrev as_is : List ℕ → List ℕ
as_is xs = xs

abbrev stamp : ℕ → ℕ
stamp a = a

-- The lookup is out, the name is dropped, an old answer comes, the question is put again, answered,
-- and the request is woken.
run : (w : World ℕ) × Reach as_is stamp w × (w.replied ≡ (1, served (1 ∷ [])) ∷ [])
unfolding request wait_or_reply kept lookup_turn settled drop_entry woken result
run = (
  _,
  next
      (next
        (next
          (next
            (next
              (next
                (next (next (next start (begins 0 5 patience refl)) (reads [] [] refl))
                  (asks [] [] 0 refl))
                drops_name)
              (answers [] [] 0 0 7 (found (0 ∷ [])) refl (refl, tt)))
            (reads [] [] refl))
          (asks [] [] 1 refl))
        (answers [] [] 1 1 9 (found (1 ∷ [])) refl (refl, tt)))
      (wakes 0 10 _ refl refl),
  refl,
)

Reach-IsFresh_example : IsFresh as_is stamp (λ n xs h. h) run.0
Reach-IsFresh_example = Reach-IsFresh as_is stamp (λ n xs h. h) run.0 run.1
