-- ===== src/Groups/Ensure.antt =====
-- The first half of `G_handle_join`: the group's daemon is found or created, and gets the new member.
use cd_praticas.Prelude.{
  ℕ, ◌+◌, ◌≡◌, refl, true, false, List, [], ◌∷◌, arith, Option-cases, inl, inr, none, some,
}
use mathlib.Core.Path.{subst, sym}
use cd_praticas.Prelude.{◌==◌, ◌||◌}
use cd_praticas.Membership.Handlers.{is_in_conf}
use cd_praticas.Groups.Keyed.{
  is_empty, insert_at-nonempty, sum, All, Distinct, find, assign, insert_at, find-Fresh, key-find,
  All-find, All-insert_at, All-assign, Distinct-insert_at, Distinct-assign, sum-insert_at,
  sum-assign, assign-insert_at,
}
use cd_praticas.Groups.State.{
  DaemonMembers, Group, Groups, World, is_partitioned, daemon_keyed, member_keyed,
}
use cd_praticas.Groups.Handlers.{is_gop, ensure_daemon, new_daemon, get_daemon}
use cd_praticas.Groups.Valid.{Belongs, IsValidDaemon, IsValidGroup, IsHere}

-- What the daemon `d` of the list `ds` is, and what a write through the pointer to it changes.
pub record Ensured (w : World) (s : Groups) (id : ℕ) (g : Group) (ds : List DaemonMembers)
    (d : DaemonMembers) : Type 1 where
  pub has_id : d.proc_id ≡ id
  pub sums :
      (f : DaemonMembers → ℕ)
      → ((e : DaemonMembers) → e.members ≡ [] → f e ≡ 0)
      → (d' : DaemonMembers) → sum f (assign id d' ds) + f d ≡ sum f g.daemons + f d'
  pub all :
      (P : DaemonMembers → Type 0) (d' : DaemonMembers)
      → P d'
      → All P g.daemons
      → All P (assign id d' ds)
  pub distinct : (d' : DaemonMembers) → d'.proc_id ≡ id → Distinct ℕ (assign id d' ds)
  pub nonempty : (d' : DaemonMembers) → is_empty (assign id d' ds) ≡ false
  pub members : Distinct (List ℕ) d.members × All (Belongs w id) d.members
  -- A daemon with members was there.
  pub old : is_empty d.members ≡ false → (ds ≡ g.daemons) × (find id g.daemons ≡ some d)
  pub counted : is_empty d.members ≡ true → find id g.daemons ≡ none
  pub settled : is_gop s.gstate ≡ true → g.changed ≡ false → is_partitioned d ≡ false
  pub own : (d.proc_id == w.my_id) ≡ true → is_partitioned d ≡ false

assign-nonempty :
    (id : ℕ) (d' d : DaemonMembers) (ds : List DaemonMembers)
    → find id ds ≡ some d
    → is_empty (assign id d' ds) ≡ false
unfolding find assign
assign-nonempty id d' d [] e = cc
assign-nonempty id d' d (x ∷ xs) e = ground arith

found-Ensured :
    (w : World) (s : Groups) (id : ℕ) (g : Group) (d : DaemonMembers)
    → IsValidGroup w g
    → find id g.daemons ≡ some d
    → Ensured w s id g g.daemons d
found-Ensured w s id g d v e =
    let vd = All-find (IsValidDaemon w) id g.daemons d e v.valid in
    let has_id = key-find id g.daemons d e in
    record {
      has_id = has_id;
      sums = λ f z d'. sum-assign f id d d' g.daemons e;
      all = λ P d' p a. All-assign P id d' g.daemons p a;
      distinct = λ d' h. Distinct-assign id d' g.daemons h v.distinct;
      nonempty = λ d'. assign-nonempty id d' d g.daemons e;
      members = (vd.distinct, subst (λ (z : ℕ). All (Belongs w z) d.members) has_id vd.belong);
      old = λ h. (refl, e);
      counted = λ h. absurd (ground (arith, h, vd.inhabited));
      settled = λ o h. ground (
        arith,
        All-find (λ (x : DaemonMembers). is_partitioned x ≡ true → g.changed ≡ true) id g.daemons d
            e v.flagged,
      );
      own =
          All-find (λ (x : DaemonMembers). (x.proc_id == w.my_id) ≡ true → is_partitioned x ≡ false)
            id g.daemons d e v.own;
    }

created_own :
    (w : World) (s : Groups) (id : ℕ) (g : Group)
    → IsValidGroup w g
    → IsHere w s
    → (id == w.my_id) ≡ true
    → is_partitioned (new_daemon s id g) ≡ false
created_own w s id g v here h =
    let mine : id ≡ w.my_id = ground arith in
    let there =
      subst (λ (z : ℕ). (is_gop s.gstate || is_in_conf s.trans_memb z) ≡ true) (sym mine) here in
    rw there v.known

created-Ensured :
    (w : World) (s : Groups) (id n : ℕ) (g : Group)
    → IsValidGroup w g
    → IsHere w s
    → find id g.daemons ≡ none
    → Ensured w s id g (insert_at n (new_daemon s id g) g.daemons) (new_daemon s id g)
created-Ensured w s id n g v here e =
    let fresh = find-Fresh id g.daemons e in
    let d = new_daemon s id g in
    let put = λ (d' : DaemonMembers). assign-insert_at n id d d' g.daemons refl fresh in
    record {
      has_id = refl;
      sums = λ f z d'. rw (put d') (omega (arith, sum-insert_at f n d' g.daemons, z d refl));
      all = λ P d' p a. rw (put d') (All-insert_at P n d' g.daemons p a);
      distinct = λ d' h. rw (put d') (Distinct-insert_at n id d' g.daemons h fresh v.distinct);
      nonempty = λ d'. rw (put d') (insert_at-nonempty n d' g.daemons);
      members = (tt, tt);
      old = λ h. absurd (ground (arith, h));
      counted = λ h. e;
      settled = λ o h. rw o (v.known);
      own = λ h. created_own w s id g v here h;
    }

pub ensure_daemon-Ensured :
    (w : World) (s : Groups) (id : ℕ) (g : Group)
    → IsValidGroup w g
    → IsHere w s
    → Ensured w s id g (ensure_daemon w s id g).0 (ensure_daemon w s id g).1
unfolding ensure_daemon get_daemon
ensure_daemon-Ensured w s id g v here = elim (Option-cases (find id g.daemons)) [
  | inl absent ↦
      rw (ensure_daemon, get_daemon, absent)
        (created-Ensured w s id (w.place_daemon (new_daemon s id g) g.daemons) g v here absent)
  | inr (d, found) ↦ rw (ensure_daemon, get_daemon, found) (found-Ensured w s id g d v found)
]
