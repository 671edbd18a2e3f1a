-- ===== src/Groups/Notices.antt =====
-- The membership messages of groups.c: what is built, and which local sessions it is written to.
use cd_praticas.Prelude.{
  ℕ, ◌+◌, ◌-◌, ◌*◌, Bool, true, false, not, ◌||◌, List, [], ◌∷◌, ◌++◌, Option, none, some,
  if◌then◌else◌, ◌==◌, length, ◌>>=◌,
}
use cd_praticas.Configuration.{same_name}
use cd_praticas.Protocol.Types.{MembershipId}
use cd_praticas.Protocol.Retrans.{is_equal}
use cd_praticas.Groups.Keyed.{sum, insert_at}
use cd_praticas.Groups.Names.{max_group_name}
use cd_praticas.Groups.State.{
  DaemonMembers, Group, Cause, by_network, MembMessage, Notice, regular, transition, World,
  unknown_memb_id, is_unknown,
}

-- The members in the order of the daemons, and then of the names.
unfoldable pub members_of : List DaemonMembers → List (List ℕ)
members_of [] = []
members_of (d ∷ ds) = d.members ++ members_of ds

-- `G_build_memb_buf`, with the sets and the offset that its callers append.
unfoldable pub build_memb : Cause → List (List (List ℕ)) → ℕ → Group → MembMessage
build_memb caused sets offset g = record {
  caused = caused;
  group = g.name;
  num_groups = g.num_members;
  members = members_of g.daemons;
  gid = g.grp_id;
  vs_sets = sets;
  vs_offset = offset;
}

-- The loop over the mailboxes of a group.
unfoldable pub write_all : World → Notice → List ℕ → List (ℕ × Notice)
write_all w n [] = []
write_all w n (m ∷ ms) = if w.is_memb_session m then (m, n) ∷ write_all w n ms else write_all w n ms

unfoldable pub lightweight_memb : World → Cause → List ℕ → Group → List (ℕ × Notice)
lightweight_memb w caused name g =
    write_all w (regular (build_memb caused ((name ∷ []) ∷ []) 0 g)) g.mboxes

unfoldable pub trans_memb : World → Group → List (ℕ × Notice)
trans_memb w g = write_all w (transition g.name g.grp_id) g.mboxes

-- `stdskl_put_seq_n` into the list that is sorted by membership id.
unfoldable pub put_seq : World → List DaemonMembers → List DaemonMembers → List DaemonMembers
put_seq w acc [] = acc
put_seq w acc (d ∷ ds) = put_seq w (insert_at (w.place_vs d acc) d acc) ds

-- A set is its number of members and their names.
abbrev pub vs_size : List (List ℕ) → ℕ
vs_size names = 4 + max_group_name * length names

unfoldable pub vs_bytes : List (List (List ℕ)) → ℕ
vs_bytes sets = sum vs_size sets

-- The members that go into the set: the joiner is left out where it is found first. The flag is `found_joiner`.
unfoldable pub vs_members : Option (List ℕ) → Bool → List (List ℕ) → List (List ℕ) × Bool
vs_members none found ms = (ms, found)
vs_members (some j) true ms = (ms, true)
vs_members (some j) false [] = ([], false)
vs_members (some j) false (m ∷ ms) =
    let rest = vs_members (some j) false ms in
    if same_name j m then (ms, true) else (m ∷ rest.0, rest.1)

-- The sets that are complete, the current one with the offset of its size, and the offset of the own one.
pub record VsBuf : Type 0 where
  pub sets : List (List (List ℕ))
  pub start : ℕ
  pub curr_memb_id : MembershipId
  pub found_joiner : Bool
  pub local_offset : ℕ

-- The names of a daemon are appended to the last set.
unfoldable pub add_to_last : List (List ℕ) → List (List (List ℕ)) → List (List (List ℕ))
add_to_last names [] = []
add_to_last names (s ∷ []) = (s ++ names) ∷ []
add_to_last names (s ∷ t ∷ ts) = s ∷ add_to_last names (t ∷ ts)

-- A new set is opened for another membership, and for each partitioned daemon.
unfoldable pub open_set : DaemonMembers → VsBuf → VsBuf
open_set d b =
    if is_unknown b.curr_memb_id || not (is_equal b.curr_memb_id d.memb_id)
    then record b { sets = b.sets ++ ([] ∷ []); start = vs_bytes b.sets; curr_memb_id = d.memb_id }
    else b

-- `none`: the own set is found twice.
unfoldable pub note_local : World → DaemonMembers → VsBuf → Option VsBuf
note_local w d b =
    if not (d.proc_id == w.my_id)
    then some b
    else if b.local_offset == 0
    then some (record b { local_offset = b.start })
    else none

unfoldable pub add_daemon : Option (List ℕ) → DaemonMembers → VsBuf → VsBuf
add_daemon joiner d b =
    let ms = vs_members joiner b.found_joiner d.members in
    record b { sets = add_to_last ms.0 b.sets; found_joiner = ms.1 }

unfoldable pub vs_loop : World → Option (List ℕ) → List DaemonMembers → VsBuf → Option VsBuf
vs_loop w joiner [] b = some b
vs_loop w joiner (d ∷ ds) b =
    note_local w d (open_set d b) >>= λ b'. vs_loop w joiner ds (add_daemon joiner d b')

abbrev pub empty_buf : VsBuf
empty_buf = record {
  sets = [];
  start = 0;
  curr_memb_id = unknown_memb_id;
  found_joiner = false;
  local_offset = 0;
}

-- The joiner gets the last set. `none`: it is not among the members.
unfoldable pub close_sets : Option (List ℕ) → VsBuf → Option VsBuf
close_sets none b = some b
close_sets (some j) b =
    if b.found_joiner then some (record b { sets = b.sets ++ ((j ∷ []) ∷ []) }) else none

-- `G_build_memb_vs_buf`
unfoldable pub build_memb_vs : World → Option (List ℕ) → Group → Option VsBuf
build_memb_vs w joiner g = vs_loop w joiner (put_seq w [] g.daemons) empty_buf >>= close_sets joiner

abbrev pub without_box : Option ℕ → List ℕ → List ℕ
without_box none ms = ms
without_box (some new) [] = []
without_box (some new) (m ∷ ms) =
    if new == m then without_box (some new) ms else m ∷ without_box (some new) ms

-- The joiner's own message: the offset is that of the last set.
unfoldable pub joiner_notice : World → Option ℕ → VsBuf → Group → List (ℕ × Notice)
joiner_notice w none b g = []
joiner_notice w (some new) b g =
    write_all w (regular (build_memb by_network b.sets (vs_bytes b.sets - (4 + max_group_name)) g))
      (new ∷ [])

-- `G_send_heavyweight_join`; without a joiner `G_send_heavyweight_memb`.
unfoldable pub heavyweight_join :
    World → Option (List ℕ) → Option ℕ → Group → Option (List (ℕ × Notice))
heavyweight_join w joiner new g = build_memb_vs w joiner g >>= λ b. some (
    write_all w (regular (build_memb by_network b.sets b.local_offset g)) (without_box new g.mboxes)
    ++ joiner_notice w new b g)

unfoldable pub heavyweight_memb : World → Group → Option (List (ℕ × Notice))
heavyweight_memb w g = heavyweight_join w none none g
