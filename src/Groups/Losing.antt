-- ===== src/Groups/Losing.antt =====
-- `G_handle_trans_memb` in GOP keeps the invariant and the members.
use cd_praticas.Prelude.{
  ℕ, ◌≡◌, refl, ap, sym, ◌∙◌, true, false, not, List, [], ◌∷◌, ◌++◌, arith, Bool-cases, inl, inr,
  ◌==◌, Option, some,
}
use mathlib.Core.Path.{subst}
use cd_praticas.Configuration.{Configuration}
use cd_praticas.Protocol.Types.{MembershipId}
use cd_praticas.Membership.Handlers.{is_in_conf}
use cd_praticas.Groups.Keyed.{sum, All, All-map, Fresh, Distinct}
use cd_praticas.Groups.State.{
  DaemonMembers, Group, Groups, gop, gtrans, World, is_partitioned, is_unknown, group_keyed,
  daemon_keyed,
}
use cd_praticas.Groups.Shifts.{
  any_lost, mark_lost, update_memb_ids, renew, lose_in, lose_all, trans_memb_in, handle_trans_memb,
  update_synced_set,
}
use cd_praticas.Groups.Counts.{occurrences, listed, in_group}
use cd_praticas.Groups.Valid.{IsValidDaemon, IsValidGroup, IsValid}
use cd_praticas.Groups.Killing.{Kept}
use cd_praticas.Groups.Alike.{
  mark_lost-Alike, update_memb_ids-Alike, All-Alike, Distinct-Alike, is_empty-Alike,
  IsValidDaemon-Alike, occurrences-Alike, total-Alike, local_boxes-Alike, IsMarked, Established,
  mark_lost-none, update-mark_lost, surviving, in_surviving, surviving-Alike,
}

-- A group after a transitional membership.
record Lost (w : World) (c : Configuration) (g g' : Group) : Type 0 where
  same : g'.name ≡ g.name
  kept : Kept w g'
  marked : All (IsMarked c) g'.daemons
  lists : (n : List ℕ) → occurrences n g'.daemons ≡ occurrences n g.daemons
  survives : (n : List ℕ) → surviving c n g'.daemons ≡ surviving c n g.daemons

-- Nothing is partitioned in a group that is not changed.
pub unchanged-Established :
    (w : World) (g : Group) → IsValidGroup w g → g.changed ≡ false → All Established g.daemons
unchanged-Established w g v h =
    All-map (λ (d : DaemonMembers). is_partitioned d ≡ true → g.changed ≡ true) Established
      g.daemons (λ d f. ground (arith, f)) v.flagged

-- The own daemon is not marked.
marked-own :
    (w : World) (c : Configuration)
    → is_in_conf c w.my_id ≡ true
    → (ds : List DaemonMembers) → All (IsMarked c) ds
    → All (λ (d : DaemonMembers). (d.proc_id == w.my_id) ≡ true → is_partitioned d ≡ false) ds
marked-own w c here [] m = tt
marked-own w c here (d ∷ ds) m = (
  (λ h.
      let mine : d.proc_id ≡ w.my_id = ground arith in
      m.0 ∙ ap (λ (z : ℕ). not (is_in_conf c z)) mine ∙ ap not here),
  marked-own w c here ds m.1,
)

lose_in-Lost :
    (w : World) (c : Configuration) (id : MembershipId) (g : Group)
    → Kept w g
    → g.changed ≡ false
    → is_unknown id ≡ false
    → is_in_conf c w.my_id ≡ true
    → Lost w c g (lose_in w c id g).0
unfolding lose_in renew
lose_in-Lost w c id g (v, nonempty) h known here =
    let established = unchanged-Established w g v h in
    elim (Bool-cases (any_lost c g.daemons)) [
      | inl lost ↦
          let ds = mark_lost c g.daemons in
          let es = update_memb_ids id ds in
          let a = mark_lost-Alike c g.daemons in
          let b = update_memb_ids-Alike id ds in
          let marked = update-mark_lost c id g.daemons known established in
          rw (lose_in, lost)
            record {
              same = refl;
              kept = (
                record {
                  valid =
                      All-Alike (IsValidDaemon w) (IsValidDaemon-Alike w) ds es b (
                        All-Alike (IsValidDaemon w) (IsValidDaemon-Alike w) g.daemons ds a v.valid);
                  distinct = Distinct-Alike ds es b (Distinct-Alike g.daemons ds a v.distinct);
                  counted = v.counted ∙ sym (total-Alike ds es b ∙ total-Alike g.daemons ds a);
                  boxes = λ m.
                      v.boxes m
                      ∙ sym (local_boxes-Alike w m ds es b ∙ local_boxes-Alike w m g.daemons ds a);
                  flagged =
                      All-map (IsMarked c)
                        (λ (d : DaemonMembers). is_partitioned d ≡ true → true ≡ true) es
                        (λ d x y. refl) marked;
                  known = known;
                  own = marked-own w c here es marked;
                },
                is_empty-Alike ds es b ∙ is_empty-Alike g.daemons ds a ∙ nonempty,
              );
              marked = marked;
              lists = λ n. occurrences-Alike n ds es b ∙ occurrences-Alike n g.daemons ds a;
              survives = λ n. surviving-Alike c n ds es b ∙ surviving-Alike c n g.daemons ds a;
            }
      | inr same ↦
          let (unmarked, marked) = mark_lost-none c g.daemons same established in
          rw (lose_in, same, unmarked)
            record {
              same = refl;
              kept = (v, nonempty);
              marked = marked;
              lists = λ n. refl;
              survives = λ n. refl;
            }
    ]

record LostAll (w : World) (c : Configuration) (gs gs' : List Group) : Type 0 where
  kept : All (Kept w) gs'
  marked : All (λ (g : Group). All (IsMarked c) g.daemons) gs'
  fresh : (q : List ℕ) → Fresh q gs → Fresh q gs'
  distinct : Distinct (List ℕ) gs → Distinct (List ℕ) gs'
  lists : (h n : List ℕ) → sum (in_group h n) gs' ≡ sum (in_group h n) gs
  survives : (h n : List ℕ) → sum (in_surviving c h n) gs' ≡ sum (in_surviving c h n) gs

in_surviving-lost :
    (c : Configuration) (h n : List ℕ) (g g' : Group)
    → g'.name ≡ g.name
    → surviving c n g'.daemons ≡ surviving c n g.daemons
    → in_surviving c h n g' ≡ in_surviving c h n g
unfolding in_surviving
in_surviving-lost c h n g g' e l = rw (e, l) refl

in_group-lost :
    (h n : List ℕ) (g g' : Group)
    → g'.name ≡ g.name
    → occurrences n g'.daemons ≡ occurrences n g.daemons
    → in_group h n g' ≡ in_group h n g
unfolding in_group
in_group-lost h n g g' e l = rw (e, l) refl

lose_all-LostAll :
    (w : World) (c : Configuration) (id : MembershipId)
    → is_unknown id ≡ false
    → is_in_conf c w.my_id ≡ true
    → (gs : List Group) → All (Kept w) gs
    → All (λ (g : Group). g.changed ≡ false) gs
    → LostAll w c gs (lose_all w c id gs).0
unfolding lose_all
lose_all-LostAll w c id known here [] kept settled = record {
  kept = tt;
  marked = tt;
  fresh = λ q f. tt;
  distinct = λ d. tt;
  lists = λ h n. refl;
  survives = λ h n. refl;
}
lose_all-LostAll w c id known here (g ∷ gs) kept settled =
    let one = lose_in-Lost w c id g kept.0 settled.0 known here in
    let rest = lose_all-LostAll w c id known here gs kept.1 settled.1 in
    record {
      kept = (one.kept, rest.kept);
      marked = (one.marked, rest.marked);
      fresh = λ q f. (rw one.same f.0, rest.fresh q f.1);
      distinct = λ d. (
        subst (λ z. Fresh z (lose_all w c id gs).0) (sym one.same) (rest.fresh g.name d.0),
        rest.distinct d.1,
      );
      lists = λ h n.
          omega (
            arith,
            rest.lists h n,
            in_group-lost h n g (lose_in w c id g).0 one.same (one.lists n),
          );
      survives = λ h n. omega (
        arith,
        rest.survives h n,
        in_surviving-lost c h n g (lose_in w c id g).0 one.same (one.survives n),
      );
    }

-- The state after a transitional membership.
pub record IsTransitional (w : World) (c : Configuration) (s : Groups) (r : Option Groups)
    : Type 0 where
  pub state : Groups
  pub returns : r ≡ some state
  pub shifted : state.gstate ≡ gtrans
  pub membership : state.trans_memb ≡ c
  pub valid : IsValid w state
  -- The partitioned daemons are those that the membership lost.
  pub marked : All (λ (g : Group). All (IsMarked c) g.daemons) state.groups
  pub lists : (h n : List ℕ) → listed h n state ≡ listed h n s
  pub survives :
      (h n : List ℕ) → sum (in_surviving c h n) state.groups ≡ sum (in_surviving c h n) s.groups

-- In GOP, a transitional membership with the own daemon in it and an id that is not the unknown one leads to
-- GTRANS. The invariant still holds, every member stays listed, and in each group those daemons are partitioned
-- that are not in the membership.
pub handle_trans_memb-IsTransitional :
    (w : World) (c : Configuration) (id : MembershipId) (s : Groups)
    → IsValid w s
    → s.gstate ≡ gop
    → is_unknown id ≡ false
    → is_in_conf c w.my_id ≡ true
    → IsTransitional w c s (handle_trans_memb w c id s)
unfolding handle_trans_memb trans_memb_in listed
handle_trans_memb-IsTransitional w c id s v op known here =
    let l = lose_all-LostAll w c id known here s.groups v.groups (v.settled (rw op refl)) in
    subst (λ z. IsTransitional w c s (trans_memb_in z w c id s)) (sym op)
      record {
        state = record s {
          trans_memb = c;
          trans_memb_id = id;
          groups = (lose_all w c id s.groups).0;
          sent = s.sent ++ (lose_all w c id s.groups).1;
          gstate = gtrans;
          synced_set = update_synced_set c s.synced_set;
        };
        returns = refl;
        shifted = refl;
        membership = refl;
        valid = record {
          groups = l.kept;
          distinct = l.distinct v.distinct;
          known = (v.known.0, known);
          here = here;
          settled = λ o. absurd (cc);
        };
        marked = l.marked;
        lists = l.lists;
        survives = l.survives;
      }
