-- ===== src/Groups/Depart.antt =====
-- What a leave and the end of a connection do with one group.
use cd_praticas.Prelude.{
  ℕ, ◌+◌, ◌-◌, ◌<◌, ◌≡◌, refl, ap, sym, ◌∙◌, Bool, true, false, List, [], arith, if◌then◌else◌,
  Bool-cases, inl, inr, none, some, ◌==◌, length, ◌>>=◌,
}
use mathlib.Core.Path.{subst}
use cd_praticas.Configuration.{same_name}
use cd_praticas.Groups.Keyed.{
  is_empty, sum, All, Distinct, find, erase, assign, key-find, All-find, All-erase, All-assign,
  Distinct-erase, Distinct-assign, sum-erase, sum-assign, erase-assign,
}
use cd_praticas.Groups.Names.{eq_of_same_name}
use cd_praticas.Groups.State.{
  DaemonMembers, Group, World, Cause, is_partitioned, daemon_keyed, member_keyed,
}
use cd_praticas.Groups.Handlers.{
  locate, remove_daemon, extract_member, may_remove, depart, drop_mailbox,
}
use cd_praticas.Groups.Counts.{is_name, count, occurrences, number_of_members, count-Distinct}
use cd_praticas.Groups.Mailboxes.{count_box, count_box-empty, remove_mailbox-BoxRemoved}
use cd_praticas.Groups.Valid.{
  Belongs, IsValidDaemon, IsValidGroup, local_boxes, local_boxes-empty, local_boxes-mine,
  local_boxes-other, has_box, has_box-located, occurrences-find,
}
use cd_praticas.Groups.Notified.{leave_notices-Returns}
use cd_praticas.Groups.Remains.{length-erase, total-empty, empty-total, empty_list, Departed}

module _ (w : World) (m private : List ℕ) (id : ℕ) (g : Group) (v : IsValidGroup w g)
    (at : locate w m ≡ some (private, some id)) (d : DaemonMembers)
    (found : find id g.daemons ≡ some d) (x : List ℕ) (member : find m d.members ≡ some x) where
  abbrev left : DaemonMembers
  left = record d { members = erase m d.members }

  abbrev remaining : List DaemonMembers
  remaining = if is_empty left.members then erase id g.daemons else assign id left g.daemons

  has_id : d.proc_id ≡ id
  has_id = key-find id g.daemons d found

  was_valid : IsValidDaemon w d
  was_valid = All-find (IsValidDaemon w) id g.daemons d found v.valid

  still_holds :
      (P : DaemonMembers → Type 0)
      → (is_empty left.members ≡ false → P left)
      → All P g.daemons
      → All P remaining
  still_holds P p a = elim (Bool-cases (is_empty left.members)) [
    | inl alone ↦ rw alone (All-erase P id g.daemons a)
    | inr others ↦ rw others (All-assign P id left g.daemons (p others) a)
  ]

  remaining-IsValid : All (IsValidDaemon w) remaining
  remaining-IsValid =
      still_holds (IsValidDaemon w)
        (λ others. record {
          inhabited = others;
          distinct = Distinct-erase m d.members was_valid.distinct;
          belong = All-erase (Belongs w d.proc_id) m d.members was_valid.belong;
        })
        v.valid

  remaining-Distinct : Distinct ℕ remaining
  remaining-Distinct = elim (Bool-cases (is_empty left.members)) [
    | inl alone ↦ rw alone (Distinct-erase id g.daemons v.distinct)
    | inr others ↦ rw others (Distinct-assign id left g.daemons has_id v.distinct)
  ]

  sums :
      (f : DaemonMembers → ℕ)
      → ((e : DaemonMembers) → e.members ≡ [] → f e ≡ 0)
      → sum f remaining + f d ≡ sum f g.daemons + f left
  sums f z = elim (Bool-cases (is_empty left.members)) [
    | inl alone ↦
        rw alone
          (omega (arith, sum-erase f id d g.daemons found, z left (empty_list left.members alone)))
    | inr others ↦ rw others (sum-assign f id d left g.daemons found)
  ]

  one_less : (f : List ℕ → ℕ) → sum f left.members + f m ≡ sum f d.members
  one_less f =
      subst (λ z. sum f left.members + f z ≡ sum f d.members) (key-find m d.members x member)
        (sum-erase f m x d.members member)

  counts_after : (n : List ℕ) → occurrences n remaining + is_name n m ≡ occurrences n g.daemons
  unfolding occurrences count
  counts_after n = omega (
    arith,
    sums (λ (e : DaemonMembers). sum (is_name n) e.members) (λ e h. rw h refl),
    one_less (is_name n),
  )

  total_after : number_of_members remaining + 1 ≡ g.num_members
  unfolding number_of_members
  total_after = omega (
    arith,
    sums (λ (e : DaemonMembers). length e.members) (λ e h. rw h refl),
    length-erase m x d.members member,
    v.counted,
  )

  boxes_after :
      (b : ℕ)
      → sum (local_boxes w b) remaining + (if id == w.my_id then has_box w b m else 0)
        ≡ count_box b g.mboxes
  boxes_after b =
      let s = sums (local_boxes w b) (local_boxes-empty w b) in
      let mine_id = λ (t : Bool) (h : (id == w.my_id) ≡ t).
        subst (λ (z : ℕ). (z == w.my_id) ≡ t) (sym has_id) h in
      elim (Bool-cases (id == w.my_id)) [
        | inl mine ↦ rw mine (
            omega (
              arith,
              s,
              one_less (has_box w b),
              local_boxes-mine w b d (mine_id true mine),
              local_boxes-mine w b left (mine_id true mine),
              v.boxes b,
            ))
        | inr other ↦ rw other (
            omega (
              arith,
              s,
              local_boxes-other w b d (mine_id false other),
              local_boxes-other w b left (mine_id false other),
              v.boxes b,
            ))
      ]

  lists_after :
      (n : List ℕ)
      → occurrences n remaining ≡ (if same_name m n then 0 else occurrences n g.daemons)
  lists_after n = elim (Bool-cases (same_name m n)) [
    | inl hit ↦ ground (
      arith,
      counts_after n,
      count-Distinct m d.members was_valid.distinct,
      ap (λ z. occurrences z g.daemons) (sym (eq_of_same_name m n hit)),
      rw found at (occurrences-find w id m private g.daemons at v.valid v.distinct),
    )
    | inr miss ↦ ground (arith, counts_after n)
  ]

  abbrev shrunk : List ℕ → Group
  shrunk mboxes = record {
    name = g.name;
    grp_id = record g.grp_id { index = g.grp_id.index + 1 };
    changed = g.changed;
    num_members = g.num_members - 1;
    daemons = remaining;
    mboxes = mboxes;
  }

  extracted :
      (mboxes : List ℕ)
      → extract_member m id d (record g { mboxes = mboxes })
        ≡ record (shrunk mboxes) { grp_id = g.grp_id }
  unfolding extract_member remove_daemon
  extracted mboxes = elim (Bool-cases (is_empty left.members)) [
    | inl alone ↦
        let erased : erase d.proc_id (assign id left g.daemons) ≡ erase id g.daemons =
          subst (λ (z : ℕ). erase z (assign id left g.daemons) ≡ erase id g.daemons) (sym has_id)
            (erase-assign id left g.daemons has_id) in
        let none_left : g.num_members - 1 - length left.members ≡ g.num_members - 1 =
          rw (empty_list left.members alone) (omega arith) in
        rw (extract_member, alone, remove_daemon, erased, none_left) refl
    | inr others ↦ rw (extract_member, others) refl
  ]

  shrunk-IsValidGroup :
      (mboxes : List ℕ)
      → ((b : ℕ)
          → count_box b mboxes + (if id == w.my_id then has_box w b m else 0)
            ≡ count_box b g.mboxes)
      → IsValidGroup w (shrunk mboxes)
  shrunk-IsValidGroup mboxes h = record {
    valid = remaining-IsValid;
    distinct = remaining-Distinct;
    counted = omega (arith, total_after);
    boxes = λ b. omega (arith, h b, boxes_after b);
    flagged =
        still_holds (λ (e : DaemonMembers). is_partitioned e ≡ true → g.changed ≡ true)
          (λ others.
            All-find (λ (e : DaemonMembers). is_partitioned e ≡ true → g.changed ≡ true) id
              g.daemons d found v.flagged)
          v.flagged;
    known = v.known;
    own =
        still_holds
          (λ (e : DaemonMembers). (e.proc_id == w.my_id) ≡ true → is_partitioned e ≡ false)
          (λ others.
            All-find
              (λ (e : DaemonMembers). (e.proc_id == w.my_id) ≡ true → is_partitioned e ≡ false) id
              g.daemons d found v.own)
          v.own;
  }

  still_some : 0 < number_of_members remaining → is_empty remaining ≡ false
  still_some h = elim (Bool-cases (is_empty remaining)) [
    | inl gone ↦ absurd (omega (arith, h, empty-total remaining gone))
    | inr some_left ↦ some_left
  ]

  depart-Departed :
      (c : Cause) (mboxes : List ℕ)
      → ((b : ℕ)
          → count_box b mboxes + (if id == w.my_id then has_box w b m else 0)
            ≡ count_box b g.mboxes)
      → Departed w m g (depart w c m id d (record g { mboxes = mboxes }))
  unfolding depart may_remove
  depart-Departed c mboxes h =
      let valid = shrunk-IsValidGroup mboxes h in
      let e = extracted mboxes in
      elim (Bool-cases (g.num_members - 1 == 0)) [
        | inl last ↦
            let gone = total-empty w remaining remaining-IsValid (ground (arith, total_after)) in
            let nil = empty_list remaining gone in
            let no_box =
              count_box-empty mboxes
                (λ b. omega (arith, h b, boxes_after b, ap (sum (local_boxes w b)) nil)) in
            record {
              group = none;
              sent = [];
              returns = rw (depart, e, last, may_remove, gone, no_box) refl;
              left_over = tt;
              lists = λ n. ap (occurrences n) (sym nil) ∙ lists_after n;
            }
        | inr more ↦
            let (sent, sends) = leave_notices-Returns w c m (shrunk mboxes) remaining-Distinct in
            record {
              group = some (shrunk mboxes);
              sent = sent;
              returns = rw (depart, e, more, sends) refl;
              left_over = (refl, valid, still_some (ground (arith, more, total_after)), λ k. k);
              lists = lists_after;
            }
      ]

  -- What happens to the group: the mailbox is taken out, and then the member.
  pub left_group-Departed :
      (c : Cause)
      → ((id == w.my_id) ≡ true → (box : ℕ) × (w.session private ≡ some box))
      → Departed w m g (drop_mailbox w id (w.session private) g >>= depart w c m id d)
  unfolding drop_mailbox
  left_group-Departed c session = elim (Bool-cases (id == w.my_id)) [
    | inl mine ↦
        let (box, e_box) = session mine in
        let has = λ (b : ℕ). has_box-located w b box m private (some id) at e_box in
        let r = remove_mailbox-BoxRemoved box g (ground (arith, boxes_after box, has box)) in
        rw (drop_mailbox, mine, e_box, r.returns)
          (depart-Departed c r.mboxes (λ b. rw mine (omega (arith, r.counts b, has b))))
    | inr other ↦
        rw (drop_mailbox, other) (depart-Departed c g.mboxes (λ b. rw other (omega arith)))
  ]
