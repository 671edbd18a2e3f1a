-- ===== src/Groups/Leaving.antt =====
-- `G_handle_leave` on all groups.
use cd_praticas.Prelude.{
  ℕ, ◌⊎◌, ◌+◌, ◌≡◌, refl, ap, sym, ◌∙◌, true, false, ◌&&◌, List, ◌++◌, arith, if◌then◌else◌,
  Bool-cases, Option-cases, inl, inr, Option, none, some, ◌==◌,
}
use mathlib.Core.Path.{subst}
use cd_praticas.Configuration.{same_name}
use cd_praticas.Groups.Keyed.{
  sum, All, Distinct, find, erase, assign, find-Fresh, key-find, All-find, All-erase, All-assign,
  Distinct-erase, Distinct-assign, sum-erase, sum-assign,
}
use cd_praticas.Groups.Names.{eq_of_same_name}
use cd_praticas.Groups.State.{
  Group, Groups, World, by_leave, group_keyed, daemon_keyed, member_keyed,
}
use cd_praticas.Groups.Handlers.{
  is_running, get_group, get_daemon, get_member, locate, put_back, leave_located, handle_leave,
  send_self_leave,
}
use cd_praticas.Groups.Counts.{
  count, count-Distinct, occurrences, listed, in_group, in_group-find, in_group_hit, in_group_miss,
  Fresh-count,
}
use cd_praticas.Groups.Valid.{IsValid, IsValidDaemon, occurrences-find}
use cd_praticas.Groups.Killing.{Kept, HasLeft, in_group-left, in_group-gone}
use cd_praticas.Groups.Join.{find-count}
use cd_praticas.Groups.Remains.{LeftOver, rest_of}
use cd_praticas.Groups.Depart.{left_group-Departed}

-- The groups of a state after one of them was written back, or taken out.
record PutBack (w : World) (m group : List ℕ) (gs : List Group) (gs' : List Group) : Type 0 where
  kept : All (Kept w) gs'
  distinct : Distinct (List ℕ) gs'
  settled : All (λ (g : Group). g.changed ≡ false) gs → All (λ (g : Group). g.changed ≡ false) gs'
  lists :
      (h n : List ℕ)
      → sum (in_group h n) gs'
        ≡ (if same_name group h && same_name m n then 0 else sum (in_group h n) gs)

module _ (w : World) (m group : List ℕ) (gs : List Group) (g : Group)
    (found : find group gs ≡ some g) (kept : All (Kept w) gs)
    (distinct : Distinct (List ℕ) gs) where
  only : (n : List ℕ) → sum (in_group group n) gs ≡ occurrences n g.daemons
  only n = rw found at (in_group-find group n gs distinct)

  -- `after` is what the group lists now, added to what the other groups do.
  lists_put :
      (h n : List ℕ) (sum_after in_after : ℕ)
      → sum_after + in_group h n g ≡ sum (in_group h n) gs + in_after
      → in_after ≡ (if same_name m n then 0 else in_group h n g)
      → sum_after ≡ (if same_name group h && same_name m n then 0 else sum (in_group h n) gs)
  lists_put h n sum_after in_after sums l = elim (Bool-cases (same_name group h)) [
    | inl hit ↦
        let there =
          subst (λ z. sum (in_group z n) gs ≡ occurrences n g.daemons) (eq_of_same_name group h hit)
            (only n) in
        let named = subst (λ z. same_name z h ≡ true) (sym (key-find group gs g found)) hit in
        ground (arith, sums, l, there, in_group_hit h n g named)
    | inr miss ↦
        let named = subst (λ z. same_name z h ≡ false) (sym (key-find group gs g found)) miss in
        ground (arith, sums, l, in_group_miss h n g named)
  ]

  put_back-PutBack :
      (left : Option Group)
      → LeftOver w g left
      → ((n : List ℕ)
          → occurrences n (rest_of left) ≡ (if same_name m n then 0 else occurrences n g.daemons))
      → PutBack w m group gs (put_back group left gs)
  put_back-PutBack none over lists = record {
    kept = All-erase (Kept w) group gs kept;
    distinct = Distinct-erase group gs distinct;
    settled = λ s. All-erase (λ (x : Group). x.changed ≡ false) group gs s;
    lists = λ h n.
        lists_put h n (sum (in_group h n) (erase group gs)) 0
          (omega (arith, sum-erase (in_group h n) group g gs found))
          (in_group-gone m h n g (lists n));
  }
  put_back-PutBack (some g') (name, valid, nonempty, settled) lists =
      let named = name ∙ key-find group gs g found in
      record {
        kept = All-assign (Kept w) group g' gs (valid, nonempty) kept;
        distinct = Distinct-assign group g' gs named distinct;
        settled = λ s.
            All-assign (λ (x : Group). x.changed ≡ false) group g' gs
              (settled (All-find (λ (x : Group). x.changed ≡ false) group gs g found s)) s;
        lists = λ h n.
            lists_put h n (sum (in_group h n) (assign group g' gs)) (in_group h n g')
              (sum-assign (in_group h n) group g g' gs found)
              (in_group-left m h n g g' name (lists n));
      }

-- Where the member is not in the group, the state stays.
not_listed-HasLeft :
    (w : World) (m group : List ℕ) (s : Groups)
    → IsValid w s
    → listed group m s ≡ 0
    → HasLeft w m (same_name group) s (some s)
not_listed-HasLeft w m group s v none_listed = record {
  state = s;
  returns = refl;
  same = refl;
  valid = v;
  lists = λ h n. elim (Bool-cases (same_name group h && same_name m n)) [
    | inl hit ↦ ground (arith, none_listed, two_names h n hit)
    | inr miss ↦ rw miss refl
  ];
}
  where
    two_names :
        (h n : List ℕ)
        → (same_name group h && same_name m n) ≡ true
        → listed h n s ≡ listed group m s
    two_names h n e =
        ap (λ z. listed z n s) (sym (eq_of_same_name group h (ground (arith, e))))
        ∙ ap (λ z. listed group z s) (sym (eq_of_same_name m n (ground (arith, e))))

once_in :
    (m x : List ℕ) (ms : List (List ℕ)) → Distinct (List ℕ) ms → find m ms ≡ some x → count m ms ≡ 1
once_in m x ms distinct member =
    omega (arith, (find-count m x ms member).0, count-Distinct m ms distinct)

-- In GOP and GTRANS, a leave of a legal member of a known daemon, with a session where the daemon is the own
-- one, takes the member out of the group without a fatal alarm or a failed assertion; where the group does not
-- list it, nothing changes and nothing is written. The invariant still holds, the state stays, and all else is
-- listed as before.
pub handle_leave-HasLeft :
    (w : World) (m group private : List ℕ) (id : ℕ) (s : Groups)
    → IsValid w s
    → is_running s.gstate ≡ true
    → locate w m ≡ some (private, some id)
    → ((id == w.my_id) ≡ true → (box : ℕ) × (w.session private ≡ some box))
    → HasLeft w m (same_name group) s (handle_leave w m group s)
      × ((listed group m s ≡ 1) ⊎ (handle_leave w m group s ≡ some s))
unfolding handle_leave leave_located get_group get_daemon get_member listed
handle_leave-HasLeft w m group private id s v running at session =
    let in_all = in_group-find group m s.groups v.distinct in
    elim (Option-cases (find group s.groups)) [
      | inl no_group ↦
          rw (handle_leave, running, at, leave_located, get_group, no_group)
            (not_listed-HasLeft w m group s v (rw no_group at in_all), inr refl)
      | inr (g, found) ↦
          let kept = All-find (Kept w) group s.groups g found v.groups in
          let once = occurrences-find w id m private g.daemons at kept.0.valid kept.0.distinct in
          elim (Option-cases (find id g.daemons)) [
            | inl no_daemon ↦
                rw
                  (
                    handle_leave, running, at, leave_located, get_group, found, get_daemon,
                    no_daemon,
                  )
                  (
                    not_listed-HasLeft w m group s v (rw found at in_all ∙ rw no_daemon at once),
                    inr refl,
                  )
            | inr (d, daemon) ↦ elim (Option-cases (find m d.members)) [
              | inl absent ↦
                  rw
                    (
                      handle_leave, running, at, leave_located, get_group, found, get_daemon,
                      daemon, get_member, absent,
                    )
                    (
                      not_listed-HasLeft w m group s v (
                          rw found at in_all
                          ∙ rw daemon at once
                          ∙ Fresh-count m d.members (find-Fresh m d.members absent)),
                      inr refl,
                    )
              | inr (x, member) ↦
                  let left =
                    left_group-Departed w m private id g kept.0 at d daemon x member by_leave
                      session in
                  let p =
                    put_back-PutBack w m group s.groups g found v.groups v.distinct left.group
                      left.left_over left.lists in
                  let was : listed group m s ≡ 1 =
                    rw found at in_all
                    ∙ rw daemon at once
                    ∙ once_in m x d.members
                        (All-find (IsValidDaemon w) id g.daemons d daemon kept.0.valid).distinct
                        member in
                  (
                    record {
                      state = record s {
                        groups = put_back group left.group s.groups;
                        sent = s.sent ++ (send_self_leave w id (w.session private) g ++ left.sent);
                      };
                      returns =
                          rw
                            (
                              handle_leave, running, at, leave_located, get_group, found,
                              get_daemon, daemon, get_member, member, left.returns,
                            )
                            refl;
                      same = refl;
                      valid = record {
                        groups = p.kept;
                        distinct = p.distinct;
                        known = v.known;
                        here = v.here;
                        settled = λ o. p.settled (v.settled o);
                      };
                      lists = p.lists;
                    },
                    inl was,
                  )
            ]
          ]
    ]
