-- ===== src/Groups/Join.antt =====
-- `G_handle_join` on one group.
use cd_praticas.Prelude.{
  ℕ, zero, suc, ◌+◌, ◌<◌, ◌≡◌, refl, ap, sym, ◌∙◌, Bool, true, false, ◌||◌, List, [], ◌∷◌, ◌++◌,
  arith, if◌then◌else◌, Bool-cases, Option-cases, inl, inr, Option, none, some, ◌==◌, length, ◌>>=◌,
}
use mathlib.Core.Path.{subst}
use cd_praticas.Configuration.{same_name}
use cd_praticas.Groups.Keyed.{
  is_empty, All-map, insert_at-nonempty, sum, All, find, assign, insert_at, find-Fresh,
  All-insert_at, Distinct-insert_at, sum-insert_at,
}
use cd_praticas.Groups.State.{
  DaemonMembers, Group, Groups, World, Notice, is_partitioned, daemon_keyed, member_keyed,
}
use cd_praticas.Groups.Handlers.{
  is_gop, ensure_daemon, get_member, locate, add_member, add_mailbox, join_notices, join_group,
}
use cd_praticas.Groups.Names.{eq_of_same_name, same_name_refl}
use cd_praticas.Groups.Counts.{
  is_name, count, occurrences, number_of_members, Fresh-count, count-Distinct,
}
use cd_praticas.Groups.Mailboxes.{count_box, count_box-append}
use cd_praticas.Groups.Valid.{
  IsHere, Belongs, IsValidDaemon, IsValidGroup, local_boxes, local_boxes-empty, local_boxes-mine,
  local_boxes-other, has_box, has_box-located, occurrences-find,
}
use cd_praticas.Groups.Ensure.{Ensured, ensure_daemon-Ensured}
use cd_praticas.Groups.Notified.{join_notices-Returns}

-- A group after a member has joined it, or was in it before.
pub record Joined (w : World) (s : Groups) (m : List ℕ) (g : Group)
    (r : Option (Group × List (ℕ × Notice))) : Type 0 where
  pub group : Group
  pub sent : List (ℕ × Notice)
  pub returns : r ≡ some (group, sent)
  pub same : group.name ≡ g.name
  pub valid : IsValidGroup w group
  pub nonempty : is_empty group.daemons ≡ false
  pub lists :
      (n : List ℕ)
      → occurrences n group.daemons ≡ (if same_name m n then 1 else occurrences n g.daemons)
  pub settled : is_gop s.gstate ≡ true → g.changed ≡ false → group.changed ≡ false

pub find-count :
    (m x : List ℕ) (ms : List (List ℕ))
    → find m ms ≡ some x
    → (0 < count m ms) × (is_empty ms ≡ false)
unfolding find count
find-count m x [] e = cc
find-count m x (y ∷ ys) e = ground (arith, find-count m x ys)

find_nonempty :
    (id : ℕ) (d : DaemonMembers) (ds : List DaemonMembers)
    → find id ds ≡ some d
    → is_empty ds ≡ false
unfolding find
find_nonempty id d [] e = cc
find_nonempty id d (x ∷ xs) e = refl

module _ (w : World) (s : Groups) (m private : List ℕ) (id : ℕ) (g : Group) (v : IsValidGroup w g)
    (at : locate w m ≡ some (private, some id)) (ds : List DaemonMembers) (d : DaemonMembers)
    (e : Ensured w s id g ds d) where
  member_there :
      (x : List ℕ)
      → find m d.members ≡ some x
      → Joined w s m g (some (record g { daemons = ds }, []))
  member_there x h =
      let (same_ds, found) = e.old (find-count m x d.members h).1 in
      let one = rw found at (occurrences-find w id m private g.daemons at v.valid v.distinct) in
      record {
        group = g;
        sent = [];
        returns = rw same_ds refl;
        same = refl;
        valid = v;
        nonempty = ground (arith, found, find_nonempty id d g.daemons);
        lists = λ n. elim (Bool-cases (same_name m n)) [
          | inl hit ↦
              rw (hit, sym (eq_of_same_name m n hit))
                (omega (
                  arith,
                  one,
                  (find-count m x d.members h).0,
                  count-Distinct m d.members e.members.0,
                ))
          | inr miss ↦ rw miss refl
        ];
        settled = λ o h. h;
      }

  abbrev after : DaemonMembers
  after = record d { members = insert_at (w.place_member m d.members) m d.members }

  counts_after :
      (n : List ℕ) → occurrences n (assign id after ds) ≡ occurrences n g.daemons + is_name n m
  unfolding occurrences count
  counts_after n = omega (
    arith,
    e.sums (λ (x : DaemonMembers). sum (is_name n) x.members) (λ x h. rw h refl) after,
    sum-insert_at (is_name n) (w.place_member m d.members) m d.members,
  )

  length-insert_at : (k : ℕ) (ms : List (List ℕ)) → length (insert_at k m ms) ≡ length ms + 1
  length-insert_at k [] = omega arith
  length-insert_at zero (x ∷ xs) = omega arith
  length-insert_at (suc k) (x ∷ xs) = omega (arith, length-insert_at k xs)

  counted_after : g.num_members + 1 ≡ number_of_members (assign id after ds)
  unfolding number_of_members
  counted_after = omega (
    arith,
    e.sums (λ (x : DaemonMembers). length x.members) (λ x h. rw h refl) after,
    length-insert_at (w.place_member m d.members) d.members,
    v.counted,
  )

  boxes_after :
      (b : ℕ)
      → sum (local_boxes w b) (assign id after ds)
        ≡ sum (local_boxes w b) g.daemons + (if id == w.my_id then has_box w b m else 0)
  boxes_after b =
      let sums = e.sums (local_boxes w b) (local_boxes-empty w b) after in
      let mine_id = λ (t : Bool) (h : (id == w.my_id) ≡ t).
        subst (λ (z : ℕ). (z == w.my_id) ≡ t) (sym e.has_id) h in
      elim (Bool-cases (id == w.my_id)) [
        | inl mine ↦ rw mine (
            omega (
              arith,
              sums,
              local_boxes-mine w b d (mine_id true mine),
              local_boxes-mine w b after (mine_id true mine),
              sum-insert_at (has_box w b) (w.place_member m d.members) m d.members,
            ))
        | inr other ↦ rw other (
            omega (
              arith,
              sums,
              local_boxes-other w b d (mine_id false other),
              local_boxes-other w b after (mine_id false other),
            ))
      ]

  abbrev grown : List ℕ → Group
  grown mboxes = record {
    name = g.name;
    grp_id = record g.grp_id { index = g.grp_id.index + 1 };
    changed = g.changed || is_partitioned after;
    num_members = g.num_members + 1;
    daemons = assign id after ds;
    mboxes = mboxes;
  }

  module _ (absent : find m d.members ≡ none) where
    after-IsValidDaemon : IsValidDaemon w after
    after-IsValidDaemon = record {
      inhabited = insert_at-nonempty (w.place_member m d.members) m d.members;
      distinct =
          Distinct-insert_at (w.place_member m d.members) m m d.members refl
            (find-Fresh m d.members absent) e.members.0;
      belong =
          subst (λ (z : ℕ). All (Belongs w z) after.members) (sym e.has_id)
            (All-insert_at (Belongs w id) (w.place_member m d.members) m d.members (private, at)
              e.members.1);
    }

    still_flagged :
        All
          (λ (x : DaemonMembers).
            is_partitioned x ≡ true → (g.changed || is_partitioned after) ≡ true)
          (assign id after ds)
    still_flagged =
        e.all
          (λ (x : DaemonMembers).
            is_partitioned x ≡ true → (g.changed || is_partitioned after) ≡ true)
          after (λ h. ground (arith, h))
          (All-map (λ (x : DaemonMembers). is_partitioned x ≡ true → g.changed ≡ true)
            (λ (x : DaemonMembers).
              is_partitioned x ≡ true → (g.changed || is_partitioned after) ≡ true)
            g.daemons (λ x f h. ground (arith, f h)) v.flagged)

    still_own :
        All
          (λ (x : DaemonMembers). (x.proc_id == w.my_id) ≡ true → is_partitioned x ≡ false)
          (assign id after ds)
    still_own =
        e.all (λ (x : DaemonMembers). (x.proc_id == w.my_id) ≡ true → is_partitioned x ≡ false)
          after e.own v.own

    grown-IsValidGroup :
        (mboxes : List ℕ)
        → ((b : ℕ)
            → count_box b mboxes
              ≡ count_box b g.mboxes + (if id == w.my_id then has_box w b m else 0))
        → IsValidGroup w (grown mboxes)
    grown-IsValidGroup mboxes h = record {
      valid = e.all (IsValidDaemon w) after after-IsValidDaemon v.valid;
      distinct = e.distinct after e.has_id;
      counted = counted_after;
      boxes = λ b. omega (arith, h b, v.boxes b, boxes_after b);
      flagged = still_flagged;
      known = v.known;
      own = still_own;
    }

    was_absent : occurrences m g.daemons ≡ 0
    was_absent = elim (Bool-cases (is_empty d.members)) [
      | inl none_yet ↦
          rw (e.counted none_yet) at
            (occurrences-find w id m private g.daemons at v.valid v.distinct)
      | inr members ↦
          rw ((e.old members).1) at
            (occurrences-find w id m private g.daemons at v.valid v.distinct)
          ∙ Fresh-count m d.members (find-Fresh m d.members absent)
    ]

    lists_after :
        (n : List ℕ)
        → occurrences n (assign id after ds)
          ≡ (if same_name m n then 1 else occurrences n g.daemons)
    lists_after n = elim (Bool-cases (same_name m n)) [
      | inl hit ↦ ground (
        arith,
        counts_after n,
        ap (λ z. occurrences z g.daemons) (sym (eq_of_same_name m n hit)) ∙ was_absent,
      )
      | inr miss ↦ ground (arith, counts_after n)
    ]

    grown-Joined :
        (mboxes : List ℕ) (box : Option ℕ)
        → ((b : ℕ)
            → count_box b mboxes
              ≡ count_box b g.mboxes + (if id == w.my_id then has_box w b m else 0))
        → Joined w s m g (join_notices w m box (grown mboxes) >>= λ ms. some (grown mboxes, ms))
    grown-Joined mboxes box h =
        let valid = grown-IsValidGroup mboxes h in
        let (sent, returns) =
          join_notices-Returns w m box (grown mboxes) valid.distinct
            (ground (arith, counts_after m, same_name_refl m)) in
        record {
          group = grown mboxes;
          sent = sent;
          returns = rw returns refl;
          same = refl;
          valid = valid;
          nonempty = e.nonempty after;
          lists = lists_after;
          settled = λ o c. ground (arith, e.settled o c);
        }

  -- A session for the joiner, where it is local.
  member_added :
      find m d.members ≡ none
      → ((id == w.my_id) ≡ true → (box : ℕ) × (w.session private ≡ some box))
      → Joined w s m g (
          add_mailbox w id private (add_member w m id ds d g) >>= λ r.
          join_notices w m r.1 r.0 >>= λ ms. some (r.0, ms))
  unfolding add_mailbox add_member
  member_added absent session = elim (Bool-cases (id == w.my_id)) [
    | inl mine ↦
        let (box, e_box) = session mine in
        rw (add_mailbox, mine, e_box)
          (grown-Joined absent (g.mboxes ++ (box ∷ [])) (some box) (λ b. rw mine (
            omega (
              arith,
              count_box-append b box g.mboxes,
              has_box-located w b box m private (some id) at e_box,
            ))))
    | inr other ↦
        rw (add_mailbox, other) (grown-Joined absent g.mboxes none (λ b. rw other (omega arith)))
  ]

-- Of a group that fulfils the invariant, a legal member of a known daemon can become a member.
pub join_group-Joined :
    (w : World) (s : Groups) (m private : List ℕ) (id : ℕ) (g : Group)
    → IsValidGroup w g
    → IsHere w s
    → locate w m ≡ some (private, some id)
    → ((id == w.my_id) ≡ true → (box : ℕ) × (w.session private ≡ some box))
    → Joined w s m g (join_group w s m private id g)
unfolding join_group get_member
join_group-Joined w s m private id g v here at session =
    let e = ensure_daemon-Ensured w s id g v here in
    let ds = (ensure_daemon w s id g).0 in
    let d = (ensure_daemon w s id g).1 in
    elim (Option-cases (find m d.members)) [
      | inl absent ↦
          rw (join_group, get_member, absent)
            (member_added w s m private id g v at ds d e absent session)
      | inr (x, found) ↦
          rw (join_group, get_member, found) (member_there w s m private id g v at ds d e x found)
    ]
