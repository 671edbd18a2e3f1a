-- ===== src/Groups/Joining.antt =====
-- `G_handle_join` on all groups.
use cd_praticas.Prelude.{
  ℕ, ◌+◌, ◌≡◌, refl, sym, ◌∙◌, Bool, true, false, List, [], ◌++◌, arith, if◌then◌else◌, Bool-cases,
  Option-cases, inl, inr, Option, some, ◌==◌, ◌&&◌,
}
use mathlib.Core.Path.{subst}
use cd_praticas.Configuration.{same_name}
use cd_praticas.Groups.Keyed.{
  is_empty, sum, All, Distinct, find, assign, find-Fresh, key-find, All-find, All-insert_at,
  All-assign, Distinct-insert_at, Distinct-assign, sum-insert_at, sum-assign, assign-insert_at,
}
use cd_praticas.Groups.Names.{eq_of_same_name}
use cd_praticas.Groups.State.{Group, Groups, World, group_keyed}
use cd_praticas.Groups.Handlers.{
  is_gop, is_running, get_group, new_group, ensure_group, locate, join_located, handle_join,
}
use cd_praticas.Groups.Counts.{
  occurrences, listed, number_of_members, in_group, in_group-find, in_group_hit, in_group_miss,
  in_group_empty,
}
use cd_praticas.Groups.Mailboxes.{count_box}
use cd_praticas.Groups.Valid.{IsValidGroup, IsValid}
use cd_praticas.Groups.Join.{join_group-Joined}

-- The group `g` of the list `gs`, and what a write through the pointer to it changes.
record Ready (w : World) (s : Groups) (name : List ℕ) (gs : List Group) (g : Group) : Type 1 where
  has_name : g.name ≡ name
  valid : IsValidGroup w g
  sums :
      (f : Group → ℕ)
      → ((x : Group) → x.daemons ≡ [] → f x ≡ 0)
      → (g' : Group) → sum f (assign name g' gs) + f g ≡ sum f s.groups + f g'
  all : (P : Group → Type 0) (g' : Group) → P g' → All P s.groups → All P (assign name g' gs)
  distinct : (g' : Group) → g'.name ≡ name → Distinct (List ℕ) (assign name g' gs)
  settled : is_gop s.gstate ≡ true → g.changed ≡ false
  only : (n : List ℕ) → listed name n s ≡ occurrences n g.daemons

none_listed : (n : List ℕ) → occurrences n [] ≡ 0
unfolding occurrences
none_listed n = refl

none_counted : 0 ≡ number_of_members []
unfolding number_of_members
none_counted = refl

no_boxes : (b : ℕ) → count_box b [] ≡ 0
unfolding count_box
no_boxes b = refl

new_group-IsValidGroup :
    (w : World) (s : Groups) (name : List ℕ) → IsValid w s → IsValidGroup w (new_group s name)
new_group-IsValidGroup w s name v = record {
  valid = tt;
  distinct = tt;
  counted = none_counted;
  boxes = no_boxes;
  flagged = tt;
  known = ground (arith, v.known);
  own = tt;
}

ensure_group-Ready :
    (w : World) (s : Groups) (name : List ℕ)
    → IsValid w s
    → Ready w s name (ensure_group w name s).0 (ensure_group w name s).1
unfolding ensure_group get_group listed
ensure_group-Ready w s name v = elim (Option-cases (find name s.groups)) [
  | inl absent ↦
      let g = new_group s name in
      let n = w.place_group g s.groups in
      let fresh = find-Fresh name s.groups absent in
      let put = λ (g' : Group). assign-insert_at n name g g' s.groups refl fresh in
      rw (ensure_group, get_group, absent)
        record {
          has_name = refl;
          valid = new_group-IsValidGroup w s name v;
          sums = λ f z g'. rw (put g') (omega (arith, sum-insert_at f n g' s.groups, z g refl));
          all = λ P g' p a. rw (put g') (All-insert_at P n g' s.groups p a);
          distinct = λ g' h. rw (put g') (Distinct-insert_at n name g' s.groups h fresh v.distinct);
          settled = λ o. refl;
          only = λ n. rw absent at (in_group-find name n s.groups v.distinct) ∙ sym (none_listed n);
        }
  | inr (g, found) ↦
      rw (ensure_group, get_group, found)
        record {
          has_name = key-find name s.groups g found;
          valid =
              (All-find (λ (x : Group). IsValidGroup w x × (is_empty x.daemons ≡ false)) name
                s.groups g found v.groups).0;
          sums = λ f z g'. sum-assign f name g g' s.groups found;
          all = λ P g' p a. All-assign P name g' s.groups p a;
          distinct = λ g' h. Distinct-assign name g' s.groups h v.distinct;
          settled =
              λ o. All-find (λ (x : Group). x.changed ≡ false) name s.groups g found (v.settled o);
          only = λ n. rw found at (in_group-find name n s.groups v.distinct);
        }
]

-- The state after a join of member `m` to group `group`: it returns, the invariant holds, and the groups list
-- what they listed before and the member.
pub record HasJoined (w : World) (m group : List ℕ) (s : Groups) (r : Option Groups) : Type 0 where
  pub state : Groups
  pub returns : r ≡ some state
  pub same : state.gstate ≡ s.gstate
  pub valid : IsValid w state
  pub lists :
      (h n : List ℕ)
      → listed h n state ≡ (if same_name group h && same_name m n then 1 else listed h n s)

join_located-HasJoined :
    (w : World) (m group private : List ℕ) (id : ℕ) (s : Groups)
    → IsValid w s
    → locate w m ≡ some (private, some id)
    → ((id == w.my_id) ≡ true → (box : ℕ) × (w.session private ≡ some box))
    → HasJoined w m group s (join_located w m group s (private, some id))
unfolding join_located listed
join_located-HasJoined w m group private id s v at session =
    let ready = ensure_group-Ready w s group v in
    let gs = (ensure_group w group s).0 in
    let g = (ensure_group w group s).1 in
    let j = join_group-Joined w s m private id g ready.valid v.here at session in
    let named = j.same ∙ ready.has_name in
    record {
      state = record s { groups = assign group j.group gs; sent = s.sent ++ j.sent };
      returns = rw j.returns refl;
      same = refl;
      valid = record {
        groups =
            ready.all (λ (x : Group). IsValidGroup w x × (is_empty x.daemons ≡ false)) j.group
              (j.valid, j.nonempty) v.groups;
        distinct = ready.distinct j.group named;
        known = v.known;
        here = v.here;
        settled = λ o.
            ready.all (λ (x : Group). x.changed ≡ false) j.group (j.settled o (ready.settled o))
              (v.settled o);
      };
      lists = λ h n.
          let sums = ready.sums (in_group h n) (in_group_empty h n) j.group in
          let by_name = λ (t : Bool) (k : same_name group h ≡ t).
            subst (λ z. same_name z h ≡ t) (sym named) k in
          let old_name = λ (t : Bool) (k : same_name group h ≡ t).
            subst (λ z. same_name z h ≡ t) (sym ready.has_name) k in
          elim (Bool-cases (same_name group h)) [
            | inl hit ↦ rw hit (
                ground (
                  arith,
                  sums,
                  in_group_hit h n j.group (by_name true hit),
                  in_group_hit h n g (old_name true hit),
                  j.lists n,
                  subst (λ z. listed z n s ≡ occurrences n g.daemons) (eq_of_same_name group h hit)
                      (ready.only n),
                ))
            | inr miss ↦ rw miss (
                omega (
                  arith,
                  sums,
                  in_group_miss h n j.group (by_name false miss),
                  in_group_miss h n g (old_name false miss),
                ))
          ];
    }

-- In GOP and GTRANS, a legal member of a known daemon, with a session where the daemon is the own one, joins a
-- group without a fatal alarm. The invariant still holds, the state stays, and the groups list afterwards
-- what they listed before, and the member once in that group.
pub handle_join-HasJoined :
    (w : World) (m group private : List ℕ) (id : ℕ) (s : Groups)
    → IsValid w s
    → is_running s.gstate ≡ true
    → locate w m ≡ some (private, some id)
    → ((id == w.my_id) ≡ true → (box : ℕ) × (w.session private ≡ some box))
    → HasJoined w m group s (handle_join w m group s)
unfolding handle_join
handle_join-HasJoined w m group private id s v running at session =
    rw (handle_join, running, at) (join_located-HasJoined w m group private id s v at session)
