-- ===== src/Configuration.antt =====
-- ProjetoFinal/spread/spread-src-5.0.1/daemon/configuration.c and configuration.h: the lookups in a
-- configuration, the segments of daemons that make up the token's ring.
pub mod Walk
pub mod Lookup
pub mod Order
mod Tests
use cd_praticas.Prelude.{
  ℕ, zero, suc, ◌+◌, ◌-◌, Bool, true, false, ◌&&◌, List, [], ◌∷◌, ◌++◌, Option, none, some, length,
  get_elem?, ◌==◌, ltb, if◌then◌else◌,
}
use cd_praticas.Prelude.Int.{ℤ, pos, negsuc, ltb_ℤ, eqb_ℤ, pos_part, ◌+ℤ◌}

-- `name` holds the characters before the terminating nul. Addresses and interfaces are not used here.
pub record Proc : Type 0 where
  pub name : List ℕ
  pub id : ℕ
  pub seg_index : ℕ
  pub index_in_seg : ℕ

-- `num_procs` is the length of the list.
pub record Segment : Type 0 where
  pub procs : List Proc

-- `num_segments` and `num_total_procs` are the lengths of the lists.
pub record Configuration : Type 0 where
  pub hash_code : ℕ
  pub allprocs : List Proc
  pub segments : List Segment

-- `!strcmp`
unfoldable pub same_name : List ℕ → List ℕ → Bool
same_name [] [] = true
same_name [] (y ∷ ys) = false
same_name (x ∷ xs) [] = false
same_name (x ∷ xs) (y ∷ ys) = x == y && same_name xs ys

-- The loops of the lookups by id and by name: the index and the process found.
unfoldable pub find_id : List Proc → ℕ → ℕ → Option (ℕ × Proc)
find_id [] i id = none
find_id (p ∷ ps) i id = if p.id == id then some (i, p) else find_id ps (suc i) id

unfoldable pub find_name : List Proc → ℕ → List ℕ → Option (ℕ × Proc)
unfolding same_name
find_name [] i name = none
find_name (p ∷ ps) i name = if same_name p.name name then some (i, p) else find_name ps (suc i) name

-- Returns the index, -1 if there is none, and what is stored through the pointer `p`.
abbrev found : Option (ℕ × Proc) → Proc → ℤ × Proc
found none p = (negsuc 0, p)
found (some (i, q)) p = (pos i, q)

pub proc_ref_by_id_in_conf : Configuration → ℕ → Proc → ℤ × Proc
proc_ref_by_id_in_conf c id p = found (find_id c.allprocs 0 id) p

pub proc_by_id_in_conf : Configuration → ℕ → Proc → ℤ × Proc
proc_by_id_in_conf c id p =
    let (ret, p2) = proc_ref_by_id_in_conf c id p in
    if ltb_ℤ ret (pos 0) then (ret, p) else (ret, p2)

pub proc_ref_by_name_in_conf : Configuration → List ℕ → Proc → ℤ × Proc
proc_ref_by_name_in_conf c name p = found (find_name c.allprocs 0 name) p

pub proc_by_name_in_conf : Configuration → List ℕ → Proc → ℤ × Proc
proc_by_name_in_conf c name p =
    let (ret, p2) = proc_ref_by_name_in_conf c name p in
    if ltb_ℤ ret (pos 0) then (ret, p) else (ret, p2)

abbrev index_of : Option (ℕ × Proc) → ℤ
index_of none = negsuc 0
index_of (some (i, p)) = pos i

unfoldable pub id_in_seg : Segment → ℕ → ℤ
id_in_seg s id = index_of (find_id s.procs 0 id)

unfoldable pub id_in_conf_from : List Segment → ℕ → ℕ → ℤ
id_in_conf_from [] i id = negsuc 0
id_in_conf_from (s ∷ ss) i id =
    if ltb_ℤ (id_in_seg s id) (pos 0) then id_in_conf_from ss (suc i) id else pos i

unfoldable pub id_in_conf : Configuration → ℕ → ℤ
id_in_conf c id = id_in_conf_from c.segments 0 id

pub num_procs_of : List Segment → ℕ
num_procs_of [] = 0
num_procs_of (s ∷ ss) = length s.procs + num_procs_of ss

pub num_procs : Configuration → ℕ
unfolding num_procs_of
num_procs c = num_procs_of c.segments

-- The id of the last process of a list.
abbrev pub last_id : List Proc → Option ℕ
last_id [] = none
last_id (p ∷ []) = some p.id
last_id (p ∷ q ∷ ps) = last_id (q ∷ ps)

abbrev pub first_id : List Proc → Option ℕ
first_id [] = none
first_id (p ∷ ps) = some p.id

-- `segments[i].procs`
abbrev pub procs_at : List Segment → ℕ → List Proc
procs_at [] i = []
procs_at (s ∷ ss) zero = s.procs
procs_at (s ∷ ss) (suc i) = procs_at ss i

abbrev or_else : Option ℕ → Option ℕ → Option ℕ
or_else none y = y
or_else (some x) y = some x

-- The loops over the segments; they pass over the empty ones. The second runs down from segment
-- `lo + k - 1` to `lo`.
pub leader_from : List Segment → Option ℕ
leader_from [] = none
leader_from (s ∷ ss) = or_else (first_id s.procs) (leader_from ss)

pub last_down : List Segment → ℕ → ℕ → Option ℕ
last_down ss lo zero = none
last_down ss lo (suc k) = or_else (last_id (procs_at ss (lo + k))) (last_down ss lo k)

-- `none`: the daemon stops with a fatal alarm.
pub leader : Configuration → Option ℕ
unfolding leader_from
leader c = leader_from c.segments

pub last : Configuration → Option ℕ
last c = last_down c.segments 0 (length c.segments)

-- `procs[i]->id`
abbrev pub id_at : List Proc → ℕ → Option ℕ
id_at [] i = none
id_at (p ∷ ps) zero = some p.id
id_at (p ∷ ps) (suc i) = id_at ps i

-- `my` is the daemon's own entry, `My`.
pub previous : Proc → Configuration → Option ℕ
previous my c =
    let mine = procs_at c.segments my.seg_index in
    let index_in_seg = id_in_seg (record { procs = mine }) my.id in
    if ltb_ℤ (pos 0) index_in_seg
    then id_at mine (pos_part index_in_seg - 1)
    else or_else (last_down c.segments 0 my.seg_index)
        (last_down c.segments my.seg_index (length c.segments - my.seg_index))

unfoldable pub seg_leader : Configuration → ℕ → Option ℕ
seg_leader c i = first_id (procs_at c.segments i)

pub seg_last : Configuration → ℕ → Option ℕ
seg_last c i = last_id (procs_at c.segments i)

-- `Conf_append_id_to_seg`; `conf` is the global configuration.
pub append_id_to_seg : Configuration → Segment → ℕ → ℤ × Segment
append_id_to_seg conf seg id = elim (find_id conf.allprocs 0 id) [
  | none ↦ (negsuc 0, seg)
  | some (i, p) ↦ (pos 0, record { procs = seg.procs ++ (p ∷ []) })
]
