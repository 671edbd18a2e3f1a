-- ===== src/Membership/Sets.antt =====
-- The sets of members and of representatives: `Insert_member`, `Insert_rep`, `Smallest_member`,
-- `Smallest_rep`, `Sort_members` and `Sort_reps`.
use cd_praticas.Prelude.{
  ℕ, List, [], ◌∷◌, ◌++◌, Bool, true, false, not, ◌&&◌, ◌||◌, Option, none, some, ltb, ◌==◌,
  if◌then◌else◌, ◌>>=◌, length,
}
use cd_praticas.Configuration.{Proc, Configuration, find_id}
use cd_praticas.Membership.Select.{smallest_from, sort_rounds}

abbrev pub potential_rep : ℕ
potential_rep = 0

abbrev pub seg_rep : ℕ
seg_rep = 1

abbrev pub ring_rep : ℕ
ring_rep = 2

abbrev pub max_reps : ℕ
max_reps = 25

abbrev pub max_members : ℕ
max_members = 128

pub record RepInfo : Type 0 where
  pub proc_id : ℕ
  pub type : ℕ
  pub seg_index : ℕ

-- `Conf_proc_by_id`, which returns -1 where there is no such process.
unfoldable pub proc_by_id : Configuration → ℕ → Option Proc
unfolding find_id
proc_by_id cn id = elim (find_id cn.allprocs 0 id) [ none ↦ none | some (i, p) ↦ some p ]

unfoldable pub is_member : List ℕ → ℕ → Bool
is_member [] id = false
is_member (x ∷ xs) id = x == id || is_member xs id

-- Returns the members and whether there is one more.
unfoldable pub insert_member : List ℕ → ℕ → List ℕ × Bool
insert_member m id =
    if is_member m id
    then (m, false)
    else if length m == max_members
    then (m, false)
    else (m ++ (id ∷ []), true)

unfoldable pub has_segment : List RepInfo → ℕ → Bool
has_segment [] s = false
has_segment (r ∷ rs) s = r.seg_index == s || has_segment rs s

-- The loops for a type `t` that is `SEG_REP` or `RING_REP`: they return inside of the loop where there
-- is a potential representative of the segment, or the process itself. `none`: no return.
unfoldable pub replace_rep : ℕ → Proc → List RepInfo → Option (List RepInfo × Bool)
replace_rep t p [] = none
replace_rep t p (r ∷ rs) =
    let rest = replace_rep t p rs >>= λ x. some (r ∷ x.0, x.1) in
    let changed = record r { type = t; proc_id = p.id } ∷ rs in
    if r.seg_index == p.seg_index
    then if r.type == potential_rep
      then some (changed, true)
      else if (r.type == seg_rep || r.type == ring_rep) && r.proc_id == p.id
      then some (changed, not (r.type == t))
      else rest
    else rest

abbrev pub append_rep : List RepInfo → RepInfo → List RepInfo × Bool
append_rep r rep = if length r == max_reps then (r, false) else (r ++ (rep ∷ []), true)

-- `none` is a fatal alarm: the process or the type is unknown.
unfoldable pub insert_rep : Configuration → List RepInfo → RepInfo → Option (List RepInfo × Bool)
insert_rep cn r rep = proc_by_id cn rep.proc_id >>= λ p.
    if rep.type == potential_rep
    then some (if has_segment r p.seg_index then (r, false) else append_rep r rep)
    else if rep.type == seg_rep || rep.type == ring_rep
    then elim (replace_rep rep.type p r) [ some x ↦ some x | none ↦ some (append_rep r rep) ]
    else none

-- The order of the ring.
abbrev pub is_before : Proc → Proc → Bool
is_before p q =
    ltb p.seg_index q.seg_index || (p.seg_index == q.seg_index && ltb p.index_in_seg q.index_in_seg)

-- Whether member `x` replaces the member `c`, the smallest so far.
unfoldable pub better_member : Configuration → ℕ → ℕ → Option Bool
better_member cn x c = proc_by_id cn x >>= λ p. proc_by_id cn c >>= λ q. some (is_before p q)

-- The index; the first member is looked up before the loop. The set is not empty where it is called.
unfoldable pub smallest_member : Configuration → List ℕ → Option ℕ
smallest_member cn [] = none
smallest_member cn (x ∷ xs) = proc_by_id cn x >>= λ p. smallest_from (better_member cn) x 0 1 xs

unfoldable pub sort_members : Configuration → List ℕ → Option (List ℕ)
sort_members cn m = sort_rounds (smallest_member cn) (length m) m

-- Whether `x` replaces `c`: a representative of a segment comes before one of a ring. A potential one is
-- never the smallest so far, but for the first of the list, which is a fatal alarm.
unfoldable pub better_rep : Configuration → RepInfo → RepInfo → Option Bool
better_rep cn x c =
    if c.type == seg_rep
    then some (x.type == seg_rep && ltb x.seg_index c.seg_index)
    else if c.type == ring_rep
    then if x.type == ring_rep
      then if ltb x.seg_index c.seg_index
        then some true
        else if x.seg_index == c.seg_index
        then (proc_by_id cn c.proc_id >>= λ q.
            proc_by_id cn x.proc_id >>= λ p. some (ltb p.index_in_seg q.index_in_seg))
        else some false
      else some (x.type == seg_rep)
    else none

unfoldable pub smallest_rep : Configuration → List RepInfo → Option ℕ
smallest_rep cn [] = none
smallest_rep cn (r ∷ rs) = smallest_from (better_rep cn) r 0 1 rs

unfoldable pub sort_reps : Configuration → List RepInfo → Option (List RepInfo)
sort_reps cn r = sort_rounds (smallest_rep cn) (length r) r
