-- ===== src/Groups/Shrinking.antt =====
-- All groups, from GOP through GTRANS back to GOP, in a membership that only loses daemons.
use cd_praticas.Prelude.{
  ℕ, ◌≡◌, refl, ap, sym, ◌∙◌, Bool, true, false, List, [], ◌∷◌, ◌++◌, arith, if◌then◌else◌,
  Bool-cases, inl, inr, ◌==◌, Option, none, some, ◌>>=◌,
}
use mathlib.Core.Path.{subst}
use cd_praticas.Configuration.{Configuration, num_procs}
use cd_praticas.Configuration.{same_name}
use cd_praticas.Protocol.Types.{MembershipId}
use cd_praticas.Membership.Handlers.{is_in_conf}
use cd_praticas.Groups.Keyed.{sum, All, Fresh, Distinct}
use cd_praticas.Groups.State.{
  DaemonMembers, Group, Groups, gop, World, Notice, is_unknown, group_keyed,
}
use cd_praticas.Groups.Handlers.{keep}
use cd_praticas.Groups.Shifts.{
  settle_changed, settle_in, for_groups, reg_memb_in_gtrans, handle_trans_memb,
}
use cd_praticas.Groups.Counts.{occurrences, listed, in_group}
use cd_praticas.Groups.Valid.{IsValid}
use cd_praticas.Groups.Remains.{rest_of}
use cd_praticas.Groups.Killing.{Kept}
use cd_praticas.Groups.Losing.{unchanged-Established, handle_trans_memb-IsTransitional}
use cd_praticas.Groups.Alike.{IsMarked, surviving, in_surviving}
use cd_praticas.Groups.Eliminate.{established, established-eq-occurrences}
use cd_praticas.Groups.Settling.{Settled, StaysSettled, settle_changed-Settled}

settle_if :
    (w : World) (id : MembershipId) (g : Group) (changed : Bool)
    → g.changed ≡ changed
    → Kept w g
    → is_unknown id ≡ false
    → Settled w g (if changed then settle_changed w id g else some (some g, []))
settle_if w id g true e (v, nonempty) known = settle_changed-Settled w id g v known
settle_if w id g false e (v, nonempty) known = record {
  group = some g;
  sent = [];
  returns = refl;
  left_over = (refl, (v, nonempty), e);
  lists = λ n. sym (established-eq-occurrences n g.daemons (unchanged-Established w g v e));
}

settle_in-Settled :
    (w : World) (id : MembershipId) (g : Group)
    → Kept w g
    → is_unknown id ≡ false
    → Settled w g (settle_in w id g)
unfolding settle_in
settle_in-Settled w id g kept known = settle_if w id g g.changed refl kept known

-- How often a name is listed by the established daemons of the group of the name `group`.
unfoldable pub in_established : List ℕ → List ℕ → Group → ℕ
in_established group n g = if same_name g.name group then established n g.daemons else 0

record SettledAll (w : World) (gs : List Group) (r : Option (List Group × List (ℕ × Notice)))
    : Type 0 where
  groups : List Group
  sent : List (ℕ × Notice)
  returns : r ≡ some (groups, sent)
  kept : All (Kept w) groups
  settled : All (λ (g : Group). g.changed ≡ false) groups
  fresh : (q : List ℕ) → Fresh q gs → Fresh q groups
  distinct : Distinct (List ℕ) gs → Distinct (List ℕ) groups
  lists : (h n : List ℕ) → sum (in_group h n) groups ≡ sum (in_established h n) gs

in_group-settled :
    (h n : List ℕ) (g g' : Group)
    → g'.name ≡ g.name
    → occurrences n g'.daemons ≡ established n g.daemons
    → in_group h n g' ≡ in_established h n g
unfolding in_group in_established
in_group-settled h n g g' e l = rw (e, l) refl

in_group-dropped :
    (h n : List ℕ) (g : Group)
    → occurrences n [] ≡ established n g.daemons
    → 0 ≡ in_established h n g
unfolding in_established occurrences
in_group-dropped h n g l = ground (arith, l)

keep-SettledAll :
    (w : World) (g : Group) (gs : List Group) (sent : List (ℕ × Notice)) (left : Option Group)
    (rest : Option (List Group × List (ℕ × Notice)))
    → StaysSettled w g left
    → ((n : List ℕ) → occurrences n (rest_of left) ≡ established n g.daemons)
    → SettledAll w gs rest
    → SettledAll w (g ∷ gs) (rest >>= λ b. some (keep left b.0, sent ++ b.1))
keep-SettledAll w g gs sent none rest over lists k = record {
  groups = k.groups;
  sent = sent ++ k.sent;
  returns = rw k.returns refl;
  kept = k.kept;
  settled = k.settled;
  fresh = λ q f. k.fresh q f.1;
  distinct = λ d. k.distinct d.1;
  lists = λ h n. omega (arith, k.lists h n, in_group-dropped h n g (lists n));
}
keep-SettledAll w g gs sent (some g') rest (name, kept, settled) lists k = record {
  groups = g' ∷ k.groups;
  sent = sent ++ k.sent;
  returns = rw k.returns refl;
  kept = (kept, k.kept);
  settled = (settled, k.settled);
  fresh = λ q f. (rw name f.0, k.fresh q f.1);
  distinct = λ d. (subst (λ z. Fresh z k.groups) (sym name) (k.fresh g.name d.0), k.distinct d.1);
  lists = λ h n. omega (arith, k.lists h n, in_group-settled h n g g' name (lists n));
}

for_groups-SettledAll :
    (w : World) (id : MembershipId) (gs : List Group)
    → All (Kept w) gs
    → is_unknown id ≡ false
    → SettledAll w gs (for_groups (settle_in w id) gs)
unfolding for_groups
for_groups-SettledAll w id [] kept known = record {
  groups = [];
  sent = [];
  returns = refl;
  kept = tt;
  settled = tt;
  fresh = λ q f. tt;
  distinct = λ d. tt;
  lists = λ h n. refl;
}
for_groups-SettledAll w id (g ∷ gs) kept known =
    let one = settle_in-Settled w id g kept.0 known in
    rw (for_groups, one.returns)
      (keep-SettledAll w g gs one.sent one.group (for_groups (settle_in w id) gs) one.left_over
        one.lists (for_groups-SettledAll w id gs kept.1 known))

-- Back in GOP after a regular membership: the groups list the members of the established daemons.
pub record IsSettled (w : World) (s : Groups) (r : Option Groups) : Type 0 where
  pub state : Groups
  pub returns : r ≡ some state
  pub shifted : state.gstate ≡ gop
  pub valid : IsValid w state
  pub lists : (h n : List ℕ) → listed h n state ≡ sum (in_established h n) s.groups

-- In GTRANS, a regular membership with as many daemons as the transitional one, and an id that is not the unknown
-- one, leads back to GOP without a fatal alarm or a failed assertion. The invariant still holds, and the groups
-- list just the members of the daemons that were not partitioned.
pub reg_memb_in_gtrans-IsSettled :
    (w : World) (c : Configuration) (id : MembershipId) (s : Groups)
    → IsValid w s
    → is_unknown id ≡ false
    → (num_procs s.trans_memb == num_procs c) ≡ true
    → IsSettled w s (reg_memb_in_gtrans w c id s)
unfolding reg_memb_in_gtrans listed
reg_memb_in_gtrans-IsSettled w c id s v known same_size =
    let l = for_groups-SettledAll w id s.groups v.groups known in
    record {
      state = record s {
        reg_memb = c;
        reg_memb_id = id;
        groups = l.groups;
        sent = s.sent ++ l.sent;
        gstate = gop;
      };
      returns = rw (same_size, l.returns) refl;
      shifted = refl;
      valid = record {
        groups = l.kept;
        distinct = l.distinct v.distinct;
        known = (known, v.known.1);
        here = refl;
        settled = λ o. l.settled;
      };
      lists = l.lists;
    }

-- Where the partitioned daemons are those that the membership lost, the established ones are the others.
established-marked :
    (c : Configuration) (n : List ℕ) (ds : List DaemonMembers)
    → All (IsMarked c) ds
    → established n ds ≡ surviving c n ds
unfolding established surviving
established-marked c n [] m = refl
established-marked c n (d ∷ ds) m = elim (Bool-cases (is_in_conf c d.proc_id)) [
  | inl still ↦ rw (m.0, still) (omega (arith, established-marked c n ds m.1))
  | inr lost ↦ rw (m.0, lost) (omega (arith, established-marked c n ds m.1))
]

-- Back in GOP: the groups list the members of the daemons that are in the membership `c`.
pub record Survives (w : World) (c : Configuration) (s : Groups) (r : Option Groups) : Type 0 where
  pub state : Groups
  pub returns : r ≡ some state
  pub shifted : state.gstate ≡ gop
  pub valid : IsValid w state
  pub lists : (h n : List ℕ) → listed h n state ≡ sum (in_surviving c h n) s.groups

in_established-marked :
    (c : Configuration) (h n : List ℕ) (gs : List Group)
    → All (λ (g : Group). All (IsMarked c) g.daemons) gs
    → sum (in_established h n) gs ≡ sum (in_surviving c h n) gs
unfolding in_established in_surviving
in_established-marked c h n [] m = refl
in_established-marked c h n (g ∷ gs) m = omega (
  arith,
  in_established-marked c h n gs m.1,
  ap (λ (k : ℕ). if same_name g.name h then k else 0) (established-marked c n g.daemons m.0),
)

-- From GOP, a transitional membership with the own daemon in it, and then a regular one with as many daemons, both with
-- ids other than the unknown one, lead back to GOP without a fatal alarm or a failed assertion. The
-- invariant still holds, and each group lists just the members that it listed for daemons in the membership.
pub reg-handle_trans_memb :
    (w : World) (c c' : Configuration) (id id' : MembershipId) (s : Groups)
    → IsValid w s
    → s.gstate ≡ gop
    → is_in_conf c w.my_id ≡ true
    → (num_procs c == num_procs c') ≡ true
    → (is_unknown id ≡ false) × (is_unknown id' ≡ false)
    → Survives w c s (handle_trans_memb w c id s >>= reg_memb_in_gtrans w c' id')
reg-handle_trans_memb w c c' id id' s v op here same_size known =
    let t = handle_trans_memb-IsTransitional w c id s v op known.0 here in
    let r =
      reg_memb_in_gtrans-IsSettled w c' id' t.state t.valid known.1
        (subst (λ z. (num_procs z == num_procs c') ≡ true) (sym t.membership) same_size) in
    record {
      state = r.state;
      returns = rw (t.returns) r.returns;
      shifted = r.shifted;
      valid = r.valid;
      lists =
          λ h n. r.lists h n ∙ in_established-marked c h n t.state.groups t.marked ∙ t.survives h n;
    }
