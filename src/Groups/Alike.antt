-- ===== src/Groups/Alike.antt =====
-- Daemons that keep their ids and members while their membership ids change.
use cd_praticas.Prelude.{
  ℕ, ◌≡◌, refl, ap, sym, true, false, not, List, [], ◌∷◌, arith, if◌then◌else◌, Bool-cases, inl,
  inr, length, ◌==◌,
}
use mathlib.Core.Path.{subst}
use cd_praticas.Configuration.{Configuration, same_name}
use cd_praticas.Protocol.Types.{MembershipId}
use cd_praticas.Membership.Handlers.{is_in_conf}
use cd_praticas.Groups.Keyed.{is_empty, sum, All, Fresh, Distinct}
use cd_praticas.Groups.State.{
  DaemonMembers, Group, World, is_partitioned, is_unknown, daemon_keyed, member_keyed,
}
use cd_praticas.Groups.Shifts.{any_lost, mark_lost, update_memb_ids}
use cd_praticas.Groups.Counts.{count, occurrences, number_of_members}
use cd_praticas.Groups.Valid.{Belongs, IsValidDaemon, local_boxes}

abbrev pub Alike : List DaemonMembers → List DaemonMembers → Type 0
Alike [] [] = Unit {0}
Alike [] (e ∷ es) = ⊥
Alike (d ∷ ds) [] = ⊥
Alike (d ∷ ds) (e ∷ es) = (e.proc_id ≡ d.proc_id) × (e.members ≡ d.members) × Alike ds es

pub mark_lost-Alike : (c : Configuration) (ds : List DaemonMembers) → Alike ds (mark_lost c ds)
unfolding mark_lost
mark_lost-Alike c [] = tt
mark_lost-Alike c (d ∷ ds) = elim (Bool-cases (is_in_conf c d.proc_id)) [
  | inl still ↦ rw still (refl, refl, mark_lost-Alike c ds)
  | inr lost ↦ rw lost (refl, refl, mark_lost-Alike c ds)
]

pub update_memb_ids-Alike :
    (id : MembershipId) (ds : List DaemonMembers) → Alike ds (update_memb_ids id ds)
unfolding update_memb_ids
update_memb_ids-Alike id [] = tt
update_memb_ids-Alike id (d ∷ ds) = elim (Bool-cases (is_partitioned d)) [
  | inl gone ↦ rw gone (refl, refl, update_memb_ids-Alike id ds)
  | inr there ↦ rw there (refl, refl, update_memb_ids-Alike id ds)
]

-- What depends on ids and members alone stays.
pub sum-Alike :
    (f : DaemonMembers → ℕ)
    → ((d e : DaemonMembers) → e.proc_id ≡ d.proc_id → e.members ≡ d.members → f e ≡ f d)
    → (ds es : List DaemonMembers) → Alike ds es
    → sum f es ≡ sum f ds
sum-Alike f h [] [] a = refl
sum-Alike f h [] (e ∷ es) a = absurd a
sum-Alike f h (d ∷ ds) [] a = absurd a
sum-Alike f h (d ∷ ds) (e ∷ es) a = omega (arith, h d e a.0 a.1, sum-Alike f h ds es a.2)

pub All-Alike :
    (P : DaemonMembers → Type 0)
    → ((d e : DaemonMembers) → e.proc_id ≡ d.proc_id → e.members ≡ d.members → P d → P e)
    → (ds es : List DaemonMembers) → Alike ds es
    → All P ds
    → All P es
All-Alike P h [] [] a p = tt
All-Alike P h [] (e ∷ es) a p = absurd a
All-Alike P h (d ∷ ds) [] a p = absurd a
All-Alike P h (d ∷ ds) (e ∷ es) a p = (h d e a.0 a.1 p.0, All-Alike P h ds es a.2 p.1)

pub Distinct-Alike : (ds es : List DaemonMembers) → Alike ds es → Distinct ℕ ds → Distinct ℕ es
Distinct-Alike [] [] a p = tt
Distinct-Alike [] (e ∷ es) a p = absurd a
Distinct-Alike (d ∷ ds) [] a p = absurd a
Distinct-Alike (d ∷ ds) (e ∷ es) a p = (
  All-Alike (λ (x : DaemonMembers). (x.proc_id == e.proc_id) ≡ false)
      (λ x y i m h. subst (λ (z : ℕ). (z == e.proc_id) ≡ false) (sym i) h) ds es a.2
      (subst (λ (z : ℕ). Fresh z ds) (sym a.0) p.0),
  Distinct-Alike ds es a.2 p.1,
)

pub is_empty-Alike : (ds es : List DaemonMembers) → Alike ds es → is_empty es ≡ is_empty ds
is_empty-Alike [] [] a = refl
is_empty-Alike [] (e ∷ es) a = absurd a
is_empty-Alike (d ∷ ds) [] a = absurd a
is_empty-Alike (d ∷ ds) (e ∷ es) a = refl

pub IsValidDaemon-Alike :
    (w : World) (d e : DaemonMembers)
    → e.proc_id ≡ d.proc_id
    → e.members ≡ d.members
    → IsValidDaemon w d
    → IsValidDaemon w e
IsValidDaemon-Alike w d e i m v = record {
  inhabited = subst (λ (z : List (List ℕ)). is_empty z ≡ false) (sym m) v.inhabited;
  distinct = subst (λ z. Distinct (List ℕ) z) (sym m) v.distinct;
  belong =
      subst (λ (z : ℕ). All (Belongs w z) e.members) (sym i)
        (subst (All (Belongs w d.proc_id)) (sym m) v.belong);
}

pub occurrences-Alike :
    (n : List ℕ) (ds es : List DaemonMembers) → Alike ds es → occurrences n es ≡ occurrences n ds
unfolding occurrences
occurrences-Alike n ds es a =
    sum-Alike (λ (d : DaemonMembers). count n d.members) (λ d e i m. ap (count n) m) ds es a

pub total-Alike :
    (ds es : List DaemonMembers) → Alike ds es → number_of_members es ≡ number_of_members ds
unfolding number_of_members
total-Alike ds es a =
    sum-Alike (λ (d : DaemonMembers). length d.members) (λ d e i m. rw m refl) ds es a

pub local_boxes-Alike :
    (w : World) (b : ℕ) (ds es : List DaemonMembers)
    → Alike ds es
    → sum (local_boxes w b) es ≡ sum (local_boxes w b) ds
unfolding local_boxes
local_boxes-Alike w b ds es a = sum-Alike (local_boxes w b) (λ d e i m. rw (i, m) refl) ds es a

-- Which daemons are partitioned after a transitional membership.
abbrev pub IsMarked : Configuration → DaemonMembers → Type 0
IsMarked c d = is_partitioned d ≡ not (is_in_conf c d.proc_id)

abbrev pub Established : DaemonMembers → Type 0
Established d = is_partitioned d ≡ false

pub mark_lost-none :
    (c : Configuration) (ds : List DaemonMembers)
    → any_lost c ds ≡ false
    → All Established ds
    → (mark_lost c ds ≡ ds) × All (IsMarked c) ds
unfolding mark_lost any_lost
mark_lost-none c [] h e = (refl, tt)
mark_lost-none c (d ∷ ds) h e =
    let still : is_in_conf c d.proc_id ≡ true = ground (arith, h) in
    let rest = mark_lost-none c ds (ground (arith, h)) e.1 in
    (rw (still, rest.0) refl, (rw still e.0, rest.1))

pub update-mark_lost :
    (c : Configuration) (id : MembershipId) (ds : List DaemonMembers)
    → is_unknown id ≡ false
    → All Established ds
    → All (IsMarked c) (update_memb_ids id (mark_lost c ds))
unfolding mark_lost update_memb_ids
update-mark_lost c id [] k e = tt
update-mark_lost c id (d ∷ ds) k e = elim (Bool-cases (is_in_conf c d.proc_id)) [
  | inl still ↦ (rw (still, e.0, still) k, update-mark_lost c id ds k e.1)
  | inr lost ↦ (rw (lost, lost) refl, update-mark_lost c id ds k e.1)
]

-- How often a name is listed by the daemons of a membership.
unfoldable pub surviving : Configuration → List ℕ → List DaemonMembers → ℕ
surviving c n ds = sum (λ d. if is_in_conf c d.proc_id then count n d.members else 0) ds

-- And by those of the group of the name `group`.
unfoldable pub in_surviving : Configuration → List ℕ → List ℕ → Group → ℕ
in_surviving c group n g = if same_name g.name group then surviving c n g.daemons else 0

pub surviving-Alike :
    (c : Configuration) (n : List ℕ) (ds es : List DaemonMembers)
    → Alike ds es
    → surviving c n es ≡ surviving c n ds
unfolding surviving
surviving-Alike c n ds es a =
    sum-Alike (λ (d : DaemonMembers). if is_in_conf c d.proc_id then count n d.members else 0)
      (λ d e i m. rw (i, m) refl) ds es a
