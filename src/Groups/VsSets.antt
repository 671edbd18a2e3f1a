-- ===== src/Groups/VsSets.antt =====
-- The sets of virtually synchronous members that `G_build_memb_vs_buf` puts into a membership message.
use cd_praticas.Prelude.{
  ℕ, ◌+◌, ◌<◌, ◌≡◌, refl, ap, sym, ◌∙◌, ◌⊎◌, inl, inr, true, false, not, ◌||◌, List, [], ◌∷◌, ◌++◌,
  arith, if◌then◌else◌, Bool-cases, Option, none, some, ◌>>=◌, ◌==◌,
}
use mathlib.Core.Path.{subst}
use cd_praticas.Configuration.{same_name}
use cd_praticas.Protocol.Retrans.{is_equal}
use cd_praticas.Groups.Keyed.{is_empty, Fresh, Distinct}
use cd_praticas.Groups.State.{DaemonMembers, Group, World, daemon_keyed, is_unknown}
use cd_praticas.Groups.Notices.{
  put_seq, VsBuf, vs_members, open_set, note_local, add_daemon, vs_loop, empty_buf, close_sets,
  build_memb_vs,
}
use cd_praticas.Groups.Counts.{count, occurrences, in_sets, in_sets-append}
use cd_praticas.Groups.VsMembers.{
  sum-put_seq, put_seq-Distinct, Apart-nil, left_out, vs_members-count, vs_members-found,
  add_to_last-count, add_to_last-nonempty,
}

-- A set is open once there is one.
abbrev IsOpen : VsBuf → Type 0
IsOpen b = is_empty b.sets ≡ true → is_unknown b.curr_memb_id ≡ true

append-nonempty :
    (sets : List (List (List ℕ))) (x : List (List ℕ)) → is_empty (sets ++ (x ∷ [])) ≡ false
append-nonempty [] x = refl
append-nonempty (s ∷ ss) x = refl

empty_set : (n : List ℕ) → in_sets n ([] ∷ []) ≡ 0
unfolding in_sets count
empty_set n = refl

record Opened (b b' : VsBuf) : Type 0 where
  nonempty : is_empty b'.sets ≡ false
  same_sets : (n : List ℕ) → in_sets n b'.sets ≡ in_sets n b.sets
  same_found : b'.found_joiner ≡ b.found_joiner
  same_local : b'.local_offset ≡ b.local_offset

open_set-Opened : (d : DaemonMembers) (b : VsBuf) → IsOpen b → Opened b (open_set d b)
unfolding open_set
open_set-Opened d b o =
    elim (Bool-cases (is_unknown b.curr_memb_id || not (is_equal b.curr_memb_id d.memb_id))) [
      | inl new ↦ rw new record {
        nonempty = append-nonempty b.sets [];
        same_sets = λ n. omega (arith, in_sets-append n b.sets ([] ∷ []), empty_set n);
        same_found = refl;
        same_local = refl;
      }
      | inr old ↦ rw old record {
        nonempty = ground (arith, o);
        same_sets = λ n. refl;
        same_found = refl;
        same_local = refl;
      }
    ]

-- The own daemon is still to come and nothing is noted, or it does not come any more.
abbrev AtMostOnce : World → List DaemonMembers → ℕ → Type 0
AtMostOnce w ds offset = Fresh w.my_id ds ⊎ (Distinct ℕ ds × (offset ≡ 0))

record Noted (w : World) (ds : List DaemonMembers) (b : VsBuf) (r : Option VsBuf) : Type 0 where
  buf : VsBuf
  returns : r ≡ some buf
  same_sets : buf.sets ≡ b.sets
  same_found : buf.found_joiner ≡ b.found_joiner
  once : AtMostOnce w ds buf.local_offset

note_local-Noted :
    (w : World) (d : DaemonMembers) (ds : List DaemonMembers) (b : VsBuf)
    → AtMostOnce w (d ∷ ds) b.local_offset
    → Noted w ds b (note_local w d b)
unfolding note_local
note_local-Noted w d ds b once = elim (Bool-cases (d.proc_id == w.my_id)) [
  | inl mine ↦ elim once [
    | inl gone ↦ absurd (ground arith)
    | inr (distinct, none_yet) ↦ record {
      buf = record b { local_offset = b.start };
      returns = rw (mine, none_yet) refl;
      same_sets = refl;
      same_found = refl;
      once = inl (subst (λ (z : ℕ). Fresh z ds) (ground arith) distinct.0);
    }
  ]
  | inr other ↦ record {
    buf = b;
    returns = rw other refl;
    same_sets = refl;
    same_found = refl;
    once = elim once [
      | inl gone ↦ inl gone.1
      | inr (distinct, none_yet) ↦ inr (distinct.1, none_yet)
    ];
  }
]

add_daemon-count :
    (joiner : Option (List ℕ)) (d : DaemonMembers) (b : VsBuf) (n : List ℕ)
    → is_empty b.sets ≡ false
    → in_sets n (add_daemon joiner d b).sets
        + left_out joiner (add_daemon joiner d b).found_joiner n
      ≡ in_sets n b.sets + left_out joiner b.found_joiner n + count n d.members
unfolding add_daemon
add_daemon-count joiner d b n h = omega (
  arith,
  vs_members-count joiner b.found_joiner d.members n,
  add_to_last-count n (vs_members joiner b.found_joiner d.members).0 b.sets h,
)

add_daemon-IsOpen :
    (joiner : Option (List ℕ)) (d : DaemonMembers) (b : VsBuf)
    → is_empty b.sets ≡ false
    → IsOpen (add_daemon joiner d b)
unfolding add_daemon
add_daemon-IsOpen joiner d b h e =
    ground (arith, add_to_last-nonempty (vs_members joiner b.found_joiner d.members).0 b.sets h)

add_daemon-local :
    (joiner : Option (List ℕ)) (d : DaemonMembers) (b : VsBuf)
    → (add_daemon joiner d b).local_offset ≡ b.local_offset
unfolding add_daemon
add_daemon-local joiner d b = refl

add_daemon-found :
    (j : List ℕ) (d : DaemonMembers) (b : VsBuf)
    → (add_daemon (some j) d b).found_joiner ≡ false
    → (b.found_joiner ≡ false) × (count j d.members ≡ 0)
unfolding add_daemon
add_daemon-found j d b h = vs_members-found j b.found_joiner d.members h

-- What the loop makes of the daemons `ds`: each name comes into the sets as often as they list it, but for a
-- joiner, who is left out once.
record Looped (joiner : Option (List ℕ)) (ds : List DaemonMembers) (b : VsBuf) (r : Option VsBuf)
    : Type 0 where
  buf : VsBuf
  returns : r ≡ some buf
  counts :
      (n : List ℕ)
      → in_sets n buf.sets + left_out joiner buf.found_joiner n
        ≡ in_sets n b.sets + left_out joiner b.found_joiner n + occurrences n ds
  not_found :
      (j : List ℕ)
      → joiner ≡ some j
      → buf.found_joiner ≡ false
      → (b.found_joiner ≡ false) × (occurrences j ds ≡ 0)

vs_loop-Looped :
    (w : World) (joiner : Option (List ℕ)) (ds : List DaemonMembers) (b : VsBuf)
    → IsOpen b
    → AtMostOnce w ds b.local_offset
    → Looped joiner ds b (vs_loop w joiner ds b)
unfolding vs_loop occurrences
vs_loop-Looped w joiner [] b opn once = record {
  buf = b;
  returns = refl;
  counts = λ n. omega arith;
  not_found = λ j e h. (h, refl);
}
vs_loop-Looped w joiner (d ∷ ds) b opn once =
    let o = open_set-Opened d b opn in
    let noted =
      note_local-Noted w d ds (open_set d b)
        (subst (AtMostOnce w (d ∷ ds)) (sym o.same_local) once) in
    let some_set =
      subst (λ (z : List (List (List ℕ))). is_empty z ≡ false) (sym noted.same_sets) o.nonempty in
    let rest =
      vs_loop-Looped w joiner ds (add_daemon joiner d noted.buf)
        (add_daemon-IsOpen joiner d noted.buf some_set)
        (subst (AtMostOnce w ds) (sym (add_daemon-local joiner d noted.buf)) noted.once) in
    record {
      buf = rest.buf;
      returns = rw noted.returns rest.returns;
      counts = λ n. omega (
        arith,
        rest.counts n,
        add_daemon-count joiner d noted.buf n some_set,
        o.same_sets n,
        ap (in_sets n) noted.same_sets,
        ap (λ f. left_out joiner f n) noted.same_found,
        ap (λ f. left_out joiner f n) o.same_found,
      );
      not_found = λ j e h.
          let (missing, later) = rest.not_found j e h in
          let (before, here) =
            add_daemon-found j d noted.buf
              (subst (λ z. (add_daemon z d noted.buf).found_joiner ≡ false) e missing) in
          (sym o.same_found ∙ sym noted.same_found ∙ before, omega (arith, later, here));
    }

empty_buf-IsOpen : IsOpen empty_buf
empty_buf-IsOpen e = refl

-- The sets of a group's message: the numbers of members add up.
pub record VsSetsBuilt (joiner : Option (List ℕ)) (g : Group) (r : Option VsBuf) : Type 0 where
  pub buf : VsBuf
  pub returns : r ≡ some buf
  pub counts : (n : List ℕ) → in_sets n buf.sets ≡ occurrences n g.daemons

occurrences-put_seq :
    (w : World) (n : List ℕ) (ds : List DaemonMembers)
    → occurrences n (put_seq w [] ds) ≡ occurrences n ds
unfolding occurrences
occurrences-put_seq w n ds =
    omega (arith, sum-put_seq w (λ (d : DaemonMembers). count n d.members) [] ds)

empty_sets : (n : List ℕ) → in_sets n [] ≡ 0
unfolding in_sets
empty_sets n = refl

singleton_set : (j n : List ℕ) → in_sets n ((j ∷ []) ∷ []) ≡ (if same_name j n then 1 else 0)
unfolding in_sets count
singleton_set j n = omega arith

close_sets-VsSetsBuilt :
    (w : World) (joiner : Option (List ℕ)) (g : Group) (r : Option VsBuf)
    → ((j : List ℕ) → joiner ≡ some j → 0 < occurrences j g.daemons)
    → Looped joiner (put_seq w [] g.daemons) empty_buf r
    → VsSetsBuilt joiner g (r >>= close_sets joiner)
unfolding close_sets
close_sets-VsSetsBuilt w none g r is_listed l = record {
  buf = l.buf;
  returns = rw l.returns refl;
  counts = λ n. omega (arith, l.counts n, empty_sets n, occurrences-put_seq w n g.daemons);
}
close_sets-VsSetsBuilt w (some j) g r is_listed l = elim (Bool-cases l.buf.found_joiner) [
  | inl found ↦ record {
    buf = record l.buf { sets = l.buf.sets ++ ((j ∷ []) ∷ []) };
    returns = rw (l.returns, found) refl;
    counts = λ n. omega (
      arith,
      (rw found at (l.counts n)),
      empty_sets n,
      occurrences-put_seq w n g.daemons,
      in_sets-append n l.buf.sets ((j ∷ []) ∷ []),
      singleton_set j n,
    );
  }
  | inr missing ↦ absurd (
      omega (
        arith,
        (l.not_found j refl missing).1,
        occurrences-put_seq w j g.daemons,
        is_listed j refl,
      ))
]

-- For daemons of distinct ids, and a joiner, if there is one, that they list, the message is built without a
-- fatal alarm, and each name stands in the sets of virtually synchronous members just as often as in the group.
pub build_memb_vs-VsSetsBuilt :
    (w : World) (joiner : Option (List ℕ)) (g : Group)
    → Distinct ℕ g.daemons
    → ((j : List ℕ) → joiner ≡ some j → 0 < occurrences j g.daemons)
    → VsSetsBuilt joiner g (build_memb_vs w joiner g)
unfolding build_memb_vs
build_memb_vs-VsSetsBuilt w joiner g distinct is_listed =
    close_sets-VsSetsBuilt w joiner g (vs_loop w joiner (put_seq w [] g.daemons) empty_buf)
      is_listed
      (vs_loop-Looped w joiner (put_seq w [] g.daemons) empty_buf empty_buf-IsOpen
        (inr (put_seq-Distinct w [] g.daemons tt distinct (Apart-nil g.daemons), refl)))
