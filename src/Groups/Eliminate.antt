-- ===== src/Groups/Eliminate.antt =====
-- `G_eliminate_partitioned_daemons` and `G_update_daemon_memb_ids`.
use cd_praticas.Prelude.{
  ℕ, ◌+◌, ◌-◌, ◌≡◌, refl, true, false, List, [], ◌∷◌, arith, if◌then◌else◌, Bool-cases, inl, inr,
  length, ◌==◌,
}
use cd_praticas.Protocol.Types.{MembershipId}
use cd_praticas.Groups.Keyed.{sum, All, Distinct}
use cd_praticas.Groups.State.{DaemonMembers, World, is_partitioned, is_unknown, daemon_keyed}
use cd_praticas.Groups.Shifts.{eliminate, update_memb_ids}
use cd_praticas.Groups.Counts.{count, occurrences, number_of_members}
use cd_praticas.Groups.Valid.{local_boxes, local_boxes-other}
use cd_praticas.Groups.Alike.{Established}

-- How often a name is listed by the daemons that are not partitioned.
unfoldable pub established : List ℕ → List DaemonMembers → ℕ
established n ds = sum (λ d. if is_partitioned d then 0 else count n d.members) ds

pub eliminate-All :
    (P : DaemonMembers → Type 0) (ds : List DaemonMembers) (n : ℕ)
    → All P ds
    → All P (eliminate ds n).0
unfolding eliminate
eliminate-All P [] n a = tt
eliminate-All P (d ∷ ds) n a = elim (Bool-cases (is_partitioned d)) [
  | inl gone ↦ rw gone (eliminate-All P ds (n - length d.members) a.1)
  | inr stays ↦ rw stays (a.0, eliminate-All P ds n a.1)
]

pub eliminate-Distinct :
    (ds : List DaemonMembers) (n : ℕ) → Distinct ℕ ds → Distinct ℕ (eliminate ds n).0
unfolding eliminate
eliminate-Distinct [] n a = tt
eliminate-Distinct (d ∷ ds) n a = elim (Bool-cases (is_partitioned d)) [
  | inl gone ↦ rw gone (eliminate-Distinct ds (n - length d.members) a.1)
  | inr stays ↦ rw stays (
    eliminate-All (λ (x : DaemonMembers). (x.proc_id == d.proc_id) ≡ false) ds n a.0,
    eliminate-Distinct ds n a.1,
  )
]

-- Those who stay are established.
pub eliminate-Established : (ds : List DaemonMembers) (n : ℕ) → All Established (eliminate ds n).0
unfolding eliminate
eliminate-Established [] n = tt
eliminate-Established (d ∷ ds) n = elim (Bool-cases (is_partitioned d)) [
  | inl gone ↦ rw gone (eliminate-Established ds (n - length d.members))
  | inr stays ↦ rw stays (stays, eliminate-Established ds n)
]

-- `num_members` counts the members of those who stay; `k` members were counted before.
eliminate-total :
    (ds : List DaemonMembers) (n k : ℕ)
    → n ≡ number_of_members ds + k
    → (eliminate ds n).1 ≡ number_of_members (eliminate ds n).0 + k
unfolding eliminate number_of_members
eliminate-total [] n k e = e
eliminate-total (d ∷ ds) n k e = elim (Bool-cases (is_partitioned d)) [
  | inl gone ↦ rw gone (eliminate-total ds (n - length d.members) k (omega arith))
  | inr stays ↦ rw stays (omega (arith, eliminate-total ds n (k + length d.members) (omega arith)))
]

pub eliminate-counted :
    (ds : List DaemonMembers) (n : ℕ)
    → n ≡ number_of_members ds
    → (eliminate ds n).1 ≡ number_of_members (eliminate ds n).0
eliminate-counted ds n e = omega (arith, eliminate-total ds n 0 (omega arith))

sum-eliminate :
    (f : DaemonMembers → ℕ) (ds : List DaemonMembers) (n : ℕ)
    → sum f (eliminate ds n).0 ≡ sum (λ d. if is_partitioned d then 0 else f d) ds
unfolding eliminate
sum-eliminate f [] n = refl
sum-eliminate f (d ∷ ds) n = elim (Bool-cases (is_partitioned d)) [
  | inl gone ↦ rw gone (omega (arith, sum-eliminate f ds (n - length d.members)))
  | inr stays ↦ rw stays (omega (arith, sum-eliminate f ds n))
]

pub occurrences-eliminate :
    (m : List ℕ) (ds : List DaemonMembers) (n : ℕ)
    → occurrences m (eliminate ds n).0 ≡ established m ds
unfolding occurrences established
occurrences-eliminate m ds n = sum-eliminate (λ (d : DaemonMembers). count m d.members) ds n

-- The own daemon stays, and with it the mailboxes.
pub local_boxes-eliminate :
    (w : World) (b : ℕ) (ds : List DaemonMembers) (n : ℕ)
    → All (λ (d : DaemonMembers). (d.proc_id == w.my_id) ≡ true → is_partitioned d ≡ false) ds
    → sum (local_boxes w b) (eliminate ds n).0 ≡ sum (local_boxes w b) ds
unfolding eliminate
local_boxes-eliminate w b [] n own = refl
local_boxes-eliminate w b (d ∷ ds) n own = elim (Bool-cases (is_partitioned d)) [
  | inl gone ↦
      rw gone (omega (arith, local_boxes-eliminate w b ds (n - length d.members) own.1, other gone))
  | inr stays ↦ rw stays (omega (arith, local_boxes-eliminate w b ds n own.1))
]
  where
    other : is_partitioned d ≡ true → local_boxes w b d ≡ 0
    other gone = elim (Bool-cases (d.proc_id == w.my_id)) [
      | inl mine ↦ absurd (ground (arith, own.0 mine, gone))
      | inr not_mine ↦ local_boxes-other w b d not_mine
    ]

pub update-Established :
    (id : MembershipId) (ds : List DaemonMembers)
    → is_unknown id ≡ false
    → All Established ds
    → All Established (update_memb_ids id ds)
unfolding update_memb_ids
update-Established id [] k e = tt
update-Established id (d ∷ ds) k e = (rw e.0 k, update-Established id ds k e.1)

-- Where all are established they all list.
pub established-eq-occurrences :
    (m : List ℕ) (ds : List DaemonMembers)
    → All Established ds
    → established m ds ≡ occurrences m ds
unfolding established occurrences
established-eq-occurrences m [] e = refl
established-eq-occurrences m (d ∷ ds) e =
    rw e.0 (omega (arith, established-eq-occurrences m ds e.1))
