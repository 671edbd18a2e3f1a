-- ===== src/Configuration/Tests.antt =====
-- Runs of the lookups on a ring of two segments with an empty one between, and their theorems there.
use cd_praticas.Prelude.{ℕ, ◌≡◌, refl, [], ◌∷◌, some}
use cd_praticas.Configuration.{
  Proc, Configuration, find_id, id_in_seg, leader, last, last_down, previous,
}
use cd_praticas.Configuration.Order.{leader-last-ring}

abbrev daemon : ℕ → ℕ → ℕ → Proc
daemon id seg index = record { name = []; id = id; seg_index = seg; index_in_seg = index }

abbrev conf : Configuration
conf = record {
  hash_code = 0;
  allprocs = daemon 11 0 0 ∷ daemon 12 0 1 ∷ daemon 31 2 0 ∷ [];
  segments =
      record { procs = daemon 11 0 0 ∷ daemon 12 0 1 ∷ [] }
      ∷ record { procs = [] }
      ∷ record { procs = daemon 31 2 0 ∷ [] }
      ∷ [];
}

previous_runs :
    (previous (daemon 12 0 1) conf ≡ some 11)
    × (previous (daemon 31 2 0) conf ≡ some 12)
    × (previous (daemon 11 0 0) conf ≡ some 31)
unfolding previous id_in_seg find_id last_down
previous_runs = (refl, refl, refl)

leader-last-ring_example : (leader conf ≡ some 11) × (last conf ≡ some 31)
leader-last-ring_example = leader-last-ring conf
