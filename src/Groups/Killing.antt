-- ===== src/Groups/Killing.antt =====
-- `G_handle_kill` on all groups, and what a leave shares with it.
use cd_praticas.Prelude.{
  ℕ, ◌≡◌, refl, ap, sym, ◌∙◌, Bool, true, false, ◌&&◌, List, [], ◌∷◌, ◌++◌, arith, if◌then◌else◌,
  Bool-cases, Option-cases, inl, inr, Option, none, some, ◌==◌, ◌>>=◌,
}
use mathlib.Core.Path.{subst}
use cd_praticas.Configuration.{same_name}
use cd_praticas.Groups.Keyed.{is_empty, sum, All, Distinct, Fresh, find, find-Fresh}
use cd_praticas.Groups.Names.{eq_of_same_name}
use cd_praticas.Groups.State.{
  Group, Groups, World, Notice, by_disconnect, group_keyed, daemon_keyed, member_keyed,
}
use cd_praticas.Groups.Handlers.{
  is_running, get_daemon, get_member, locate, kill_in, keep, kill_groups, kill_located, handle_kill,
}
use cd_praticas.Groups.Counts.{occurrences, listed, in_group, Fresh-count}
use cd_praticas.Groups.Valid.{IsValidGroup, IsValid, occurrences-find}
use cd_praticas.Groups.Remains.{Departed, LeftOver, rest_of}
use cd_praticas.Groups.Depart.{left_group-Departed}

abbrev pub Kept : World → Group → Type 0
Kept w g = IsValidGroup w g × (is_empty g.daemons ≡ false)

-- A group that does not list the member stays.
not_listed-Departed :
    (w : World) (m : List ℕ) (g : Group)
    → Kept w g
    → occurrences m g.daemons ≡ 0
    → Departed w m g (some (some g, []))
not_listed-Departed w m g kept h = record {
  group = some g;
  sent = [];
  returns = refl;
  left_over = (refl, kept.0, kept.1, λ c. c);
  lists = λ n. elim (Bool-cases (same_name m n)) [
    | inl hit ↦ ground (arith, h, ap (λ z. occurrences z g.daemons) (eq_of_same_name m n hit))
    | inr miss ↦ rw miss refl
  ];
}

kill_in-Departed :
    (w : World) (m private : List ℕ) (id : ℕ) (g : Group)
    → Kept w g
    → locate w m ≡ some (private, some id)
    → ((id == w.my_id) ≡ true → (box : ℕ) × (w.session private ≡ some box))
    → Departed w m g (kill_in w m id (w.session private) g)
unfolding kill_in get_daemon get_member
kill_in-Departed w m private id g kept at session =
    let once = occurrences-find w id m private g.daemons at kept.0.valid kept.0.distinct in
    elim (Option-cases (find id g.daemons)) [
      | inl no_daemon ↦
          rw (kill_in, get_daemon, no_daemon)
            (not_listed-Departed w m g kept (rw no_daemon at once))
      | inr (d, found) ↦ elim (Option-cases (find m d.members)) [
        | inl absent ↦
            rw (kill_in, get_daemon, found, get_member, absent)
              (not_listed-Departed w m g kept
                (rw found at once ∙ Fresh-count m d.members (find-Fresh m d.members absent)))
        | inr (x, member) ↦
            rw (kill_in, get_daemon, found, get_member, member)
              (left_group-Departed w m private id g kept.0 at d found x member by_disconnect
                session)
      ]
    ]

-- The groups after a member has left them all.
record Killed (w : World) (m : List ℕ) (gs : List Group)
    (r : Option (List Group × List (ℕ × Notice))) : Type 0 where
  groups : List Group
  sent : List (ℕ × Notice)
  returns : r ≡ some (groups, sent)
  kept : All (Kept w) groups
  fresh : (q : List ℕ) → Fresh q gs → Fresh q groups
  distinct : Distinct (List ℕ) gs → Distinct (List ℕ) groups
  settled :
      All (λ (g : Group). g.changed ≡ false) gs → All (λ (g : Group). g.changed ≡ false) groups
  lists :
      (h n : List ℕ)
      → sum (in_group h n) groups ≡ (if same_name m n then 0 else sum (in_group h n) gs)

pub in_group-left :
    (m h n : List ℕ) (g g' : Group)
    → g'.name ≡ g.name
    → occurrences n g'.daemons ≡ (if same_name m n then 0 else occurrences n g.daemons)
    → in_group h n g' ≡ (if same_name m n then 0 else in_group h n g)
unfolding in_group
in_group-left m h n g g' e l = rw (e, l) (ground arith)

pub in_group-gone :
    (m h n : List ℕ) (g : Group)
    → occurrences n [] ≡ (if same_name m n then 0 else occurrences n g.daemons)
    → 0 ≡ (if same_name m n then 0 else in_group h n g)
unfolding in_group occurrences
in_group-gone m h n g l = ground (arith, l)

-- One group, or what is left of it, in front of the others.
keep-Killed :
    (w : World) (m : List ℕ) (g : Group) (gs : List Group) (sent : List (ℕ × Notice))
    (left : Option Group) (rest : Option (List Group × List (ℕ × Notice)))
    → LeftOver w g left
    → ((n : List ℕ)
        → occurrences n (rest_of left) ≡ (if same_name m n then 0 else occurrences n g.daemons))
    → Killed w m gs rest
    → Killed w m (g ∷ gs) (rest >>= λ b. some (keep left b.0, sent ++ b.1))
keep-Killed w m g gs sent none rest over lists k = record {
  groups = k.groups;
  sent = sent ++ k.sent;
  returns = rw k.returns refl;
  kept = k.kept;
  fresh = λ q f. k.fresh q f.1;
  distinct = λ d. k.distinct d.1;
  settled = λ s. k.settled s.1;
  lists = λ h n. ground (arith, k.lists h n, in_group-gone m h n g (lists n));
}
keep-Killed w m g gs sent (some g') rest (name, valid, nonempty, settled) lists k = record {
  groups = g' ∷ k.groups;
  sent = sent ++ k.sent;
  returns = rw k.returns refl;
  kept = ((valid, nonempty), k.kept);
  fresh = λ q f. (rw name f.0, k.fresh q f.1);
  distinct = λ d. (subst (λ z. Fresh z k.groups) (sym name) (k.fresh g.name d.0), k.distinct d.1);
  settled = λ s. (settled s.0, k.settled s.1);
  lists = λ h n. ground (arith, k.lists h n, in_group-left m h n g g' name (lists n));
}

kill_groups-Killed :
    (w : World) (m private : List ℕ) (id : ℕ) (gs : List Group)
    → All (Kept w) gs
    → locate w m ≡ some (private, some id)
    → ((id == w.my_id) ≡ true → (box : ℕ) × (w.session private ≡ some box))
    → Killed w m gs (kill_groups w m id (w.session private) gs)
unfolding kill_groups
kill_groups-Killed w m private id [] kept at session = record {
  groups = [];
  sent = [];
  returns = refl;
  kept = tt;
  fresh = λ q f. tt;
  distinct = λ d. tt;
  settled = λ s. tt;
  lists = λ h n. ground arith;
}
kill_groups-Killed w m private id (g ∷ gs) kept at session =
    let d = kill_in-Departed w m private id g kept.0 at session in
    rw (kill_groups, d.returns)
      (keep-Killed w m g gs d.sent d.group (kill_groups w m id (w.session private) gs) d.left_over
        d.lists (kill_groups-Killed w m private id gs kept.1 at session))

-- The state after member `m` has left: it returns, the invariant holds, and of the groups named by `from` each
-- lists what it listed before, but not the member.
pub record HasLeft (w : World) (m : List ℕ) (from : List ℕ → Bool) (s : Groups) (r : Option Groups)
    : Type 0 where
  pub state : Groups
  pub returns : r ≡ some state
  pub same : state.gstate ≡ s.gstate
  pub valid : IsValid w state
  pub lists :
      (h n : List ℕ) → listed h n state ≡ (if from h && same_name m n then 0 else listed h n s)

-- In GOP and GTRANS, the end of the connection of a legal member of a known daemon, with a session where the daemon
-- is the own one, takes the member out of every group without a fatal alarm or a failed assertion. The
-- invariant still holds, the state stays, and the groups list the other members as before.
pub handle_kill-HasLeft :
    (w : World) (m private : List ℕ) (id : ℕ) (s : Groups)
    → IsValid w s
    → is_running s.gstate ≡ true
    → locate w m ≡ some (private, some id)
    → ((id == w.my_id) ≡ true → (box : ℕ) × (w.session private ≡ some box))
    → HasLeft w m (λ h. true) s (handle_kill w m s)
unfolding handle_kill kill_located listed
handle_kill-HasLeft w m private id s v running at session =
    let k = kill_groups-Killed w m private id s.groups v.groups at session in
    record {
      state = record s { groups = k.groups; sent = s.sent ++ k.sent };
      returns = rw (running, at, k.returns) refl;
      same = refl;
      valid = record {
        groups = k.kept;
        distinct = k.distinct v.distinct;
        known = v.known;
        here = v.here;
        settled = λ o. k.settled (v.settled o);
      };
      lists = k.lists;
    }
