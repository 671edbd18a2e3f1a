-- ===== src/Groups/Tests.antt =====
-- Runs of groups.c on a daemon with one client in a configuration of two daemons, and its theorems on such runs.
use cd_praticas.Prelude.{
  ℕ, ◌⊎◌, ◌≡◌, refl, ◌++◌, length, ◌+◌, sym, eq_of_some, [], ◌∷◌, true, false, none, some, arith,
  List, Option, if◌then◌else◌, ◌==◌, ◌>>=◌, ◌≤◌, ◌<◌,
}
use cd_praticas.Prelude.Int.{pos, ◌<ℤ◌}
use cd_praticas.Configuration.{
  Proc, Configuration, find_id, find_name, id_in_conf, id_in_conf_from, id_in_seg, same_name,
  num_procs,
}
use cd_praticas.Protocol.Types.{MembershipId}
use cd_praticas.Membership.Handlers.{is_in_conf}
use cd_praticas.Groups.Names.{
  private_group_name, private_to_names, split_hash, legal_name, legal_names,
  private_to_names-private_group_name, private_to_names-inverse,
}
use cd_praticas.Groups.State.{
  DaemonMembers, Group, Groups, gop, World, group_keyed, daemon_keyed, member_keyed,
}
use cd_praticas.Groups.Notices.{build_memb_vs}
use cd_praticas.Groups.Handlers.{locate, handle_join, handle_leave, handle_kill}
use cd_praticas.Groups.Shifts.{handle_trans_memb, reg_memb_in_gtrans}
use cd_praticas.Groups.Counts.{count, number_of_members, listed, occurrences}
use cd_praticas.Groups.VsSets.{VsSetsBuilt, build_memb_vs-VsSetsBuilt}
use cd_praticas.Groups.Mailboxes.{count_box}
use cd_praticas.Groups.Valid.{IsValidGroup, IsValid, local_boxes, has_box}
use cd_praticas.Groups.Joining.{HasJoined, handle_join-HasJoined}
use cd_praticas.Groups.Killing.{HasLeft, handle_kill-HasLeft}
use cd_praticas.Groups.Leaving.{handle_leave-HasLeft}
use cd_praticas.Groups.Runs.{Call, join, leave, kill, run, replay, Refines, IsLegal, run-Refines}
use cd_praticas.Groups.Losing.{IsTransitional, handle_trans_memb-IsTransitional}
use cd_praticas.Groups.Shrinking.{Survives, reg-handle_trans_memb}
use cd_praticas.Groups.Compare.{
  compare_proc_ids_by_conf, compare_proc_ids-order, compare_memb_ids, compare_memb_ids-overflows,
}

abbrev daemon : ℕ → ℕ → ℕ → Proc
daemon name id i = record { name = name ∷ []; id = id; seg_index = 0; index_in_seg = i }

abbrev both : Configuration
both = record {
  hash_code = 0;
  allprocs = daemon 65 1 0 ∷ daemon 66 2 1 ∷ [];
  segments = record { procs = daemon 65 1 0 ∷ daemon 66 2 1 ∷ [] } ∷ [];
}

-- The daemon that is left.
abbrev alone : Configuration
alone = record {
  hash_code = 0;
  allprocs = daemon 65 1 0 ∷ [];
  segments = record { procs = daemon 65 1 0 ∷ [] } ∷ [];
}

-- The client "a" of daemon "A" has mailbox 7.
abbrev sessions : List ℕ → Option ℕ
sessions name = if same_name name (97 ∷ []) then some 7 else none

abbrev host : World
host = record {
  my_id = 1;
  conf = both;
  session = sessions;
  is_memb_session = λ m. true;
  place_group = λ g gs. 0;
  place_daemon = λ d ds. 1;
  place_member = λ m ms. 0;
  place_vs = λ d ds. 1;
}

-- "#a#A", "#b#B", "#c#B", and the group "g"
abbrev client_a : List ℕ
client_a = 35 ∷ 97 ∷ 35 ∷ 65 ∷ []

abbrev client_b : List ℕ
client_b = 35 ∷ 98 ∷ 35 ∷ 66 ∷ []

abbrev client_c : List ℕ
client_c = 35 ∷ 99 ∷ 35 ∷ 66 ∷ []

abbrev chat : List ℕ
chat = 103 ∷ []

abbrev ring_id : MembershipId
ring_id = record { proc_id = 1; time = 5 }

abbrev daemon_a : DaemonMembers
daemon_a = record { proc_id = 1; memb_id = ring_id; members = client_a ∷ [] }

abbrev daemon_b : DaemonMembers
daemon_b = record { proc_id = 2; memb_id = ring_id; members = client_b ∷ [] }

abbrev chat_group : Group
chat_group = record {
  name = chat;
  grp_id = record { memb_id = ring_id; index = 2 };
  changed = false;
  num_members = 2;
  daemons = daemon_a ∷ daemon_b ∷ [];
  mboxes = 7 ∷ [];
}

abbrev state_of : List Group → Groups
state_of gs = record {
  gstate = gop;
  trans_memb = both;
  trans_memb_id = ring_id;
  reg_memb = both;
  reg_memb_id = ring_id;
  groups = gs;
  synced_set = 1 ∷ 2 ∷ [];
  sent = [];
}

abbrev chatting : Groups
chatting = state_of (chat_group ∷ [])

located_a : locate host client_a ≡ some (97 ∷ [], some 1)
unfolding locate private_to_names split_hash legal_names legal_name find_name same_name
located_a = refl

located_b : locate host client_b ≡ some (98 ∷ [], some 2)
unfolding locate private_to_names split_hash legal_names legal_name find_name same_name
located_b = refl

located_c : locate host client_c ≡ some (99 ∷ [], some 2)
unfolding locate private_to_names split_hash legal_names legal_name find_name same_name
located_c = refl

session_a : (box : ℕ) × (sessions (97 ∷ []) ≡ some box)
unfolding same_name
session_a = (7, refl)

chat_boxes :
    (b : ℕ) → count_box b (7 ∷ []) ≡ local_boxes host b daemon_a + (local_boxes host b daemon_b + 0)
unfolding count_box local_boxes has_box same_name
chat_boxes b = rw located_a (ground arith)

chat-IsValidGroup : IsValidGroup host chat_group
unfolding number_of_members
chat-IsValidGroup = record {
  valid = (
    record { inhabited = refl; distinct = (tt, tt); belong = ((97 ∷ [], located_a), tt) },
    (record { inhabited = refl; distinct = (tt, tt); belong = ((98 ∷ [], located_b), tt) }, tt),
  );
  distinct = ((refl, tt), (tt, tt));
  counted = refl;
  boxes = chat_boxes;
  flagged = ((λ h. cc), ((λ h. cc), tt));
  known = refl;
  own = ((λ h. refl), ((λ h. refl), tt));
}

chatting-IsValid : IsValid host chatting
chatting-IsValid = record {
  groups = ((chat-IsValidGroup, refl), tt);
  distinct = (tt, tt);
  known = (refl, refl);
  here = refl;
  settled = λ o. (refl, tt);
}

empty-IsValid : IsValid host (state_of [])
empty-IsValid = record {
  groups = tt;
  distinct = tt;
  known = (refl, refl);
  here = refl;
  settled = λ o. tt;
}

handle_join-HasJoined_example :
    HasJoined host client_c chat chatting (handle_join host client_c chat chatting)
handle_join-HasJoined_example =
    handle_join-HasJoined host client_c chat (99 ∷ []) 2 chatting chatting-IsValid refl located_c
      (λ h. cc)

handle_leave-HasLeft_example :
    HasLeft host client_a (same_name chat) chatting (handle_leave host client_a chat chatting)
    × ((listed chat client_a chatting ≡ 1)
        ⊎ (handle_leave host client_a chat chatting ≡ some chatting))
handle_leave-HasLeft_example =
    handle_leave-HasLeft host client_a chat (97 ∷ []) 1 chatting chatting-IsValid refl located_a
      (λ h. session_a)

handle_kill-HasLeft_example :
    HasLeft host client_b (λ h. true) chatting (handle_kill host client_b chatting)
handle_kill-HasLeft_example =
    handle_kill-HasLeft host client_b (98 ∷ []) 2 chatting chatting-IsValid refl located_b (λ h. cc)

client_a-IsLegal : IsLegal host client_a
client_a-IsLegal = record {
  private = 97 ∷ [];
  id = 1;
  located = located_a;
  session = λ h. session_a;
}

client_b-IsLegal : IsLegal host client_b
client_b-IsLegal = record { private = 98 ∷ []; id = 2; located = located_b; session = λ h. cc }

none_listed : (h n : List ℕ) → listed h n (state_of []) ≡ 0
unfolding listed
none_listed h n = refl

abbrev calls : List Call
calls = join client_a chat ∷ join client_b chat ∷ leave client_a chat ∷ kill client_b ∷ []

run-Refines_example : Refines host (replay calls (λ h n. 0)) (run host calls (state_of []))
run-Refines_example =
    run-Refines host calls (state_of []) (λ h n. 0) empty-IsValid refl
      (client_a-IsLegal, (client_b-IsLegal, (client_a-IsLegal, (client_b-IsLegal, tt)))) none_listed

same_size : (num_procs alone == num_procs alone) ≡ true
same_size = ground arith

here_a : is_in_conf alone 1 ≡ true
unfolding id_in_conf id_in_conf_from id_in_seg find_id
here_a = refl

handle_trans_memb-IsTransitional_example :
    IsTransitional host alone chatting (handle_trans_memb host alone ring_id chatting)
handle_trans_memb-IsTransitional_example =
    handle_trans_memb-IsTransitional host alone ring_id chatting chatting-IsValid refl refl here_a

reg-handle_trans_memb_example :
    Survives host alone chatting
      (handle_trans_memb host alone ring_id chatting >>= reg_memb_in_gtrans host alone ring_id)
reg-handle_trans_memb_example =
    reg-handle_trans_memb host alone alone ring_id ring_id chatting chatting-IsValid refl here_a
      same_size (refl, refl)

listed_b : (j : List ℕ) → some client_b ≡ some j → 0 < occurrences j (daemon_a ∷ daemon_b ∷ [])
unfolding occurrences count same_name
listed_b j e = rw (sym (eq_of_some e)) (omega arith)

legal_97 : legal_name (97 ∷ []) ≡ true
unfolding legal_name
legal_97 = refl

legal_65 : legal_name (65 ∷ []) ≡ true
unfolding legal_name
legal_65 = refl

build_memb_vs-VsSetsBuilt_example :
    VsSetsBuilt (some client_b) chat_group (build_memb_vs host (some client_b) chat_group)
build_memb_vs-VsSetsBuilt_example =
    build_memb_vs-VsSetsBuilt host (some client_b) chat_group ((refl, tt), (tt, tt)) listed_b

private_to_names-private_group_name_example :
    private_to_names (private_group_name (97 ∷ []) (65 ∷ [])) ≡ some (97 ∷ [], 65 ∷ [])
private_to_names-private_group_name_example =
    private_to_names-private_group_name (97 ∷ []) (65 ∷ []) legal_97 legal_65
      (omega arith, omega arith) (omega arith, omega arith)

-- What the comparison of the daemons 1 and 2 of `both` has to be, with 9 as a third one.
compare_proc_ids-order_example :
    (compare_proc_ids_by_conf both (daemon 65 1 0) 1 1 ≡ pos 0)
    × (compare_proc_ids_by_conf both (daemon 65 1 0) 1 2 ≡ pos 0 → ◌≡◌ {A = ℕ} 1 2)
    × (compare_proc_ids_by_conf both (daemon 65 1 0) 1 2 <ℤ pos 0
        → pos 0 <ℤ compare_proc_ids_by_conf both (daemon 65 1 0) 2 1)
    × (pos 0 <ℤ compare_proc_ids_by_conf both (daemon 65 1 0) 1 2
        → compare_proc_ids_by_conf both (daemon 65 1 0) 2 1 <ℤ pos 0)
    × (compare_proc_ids_by_conf both (daemon 65 1 0) 1 2 <ℤ pos 0
        → compare_proc_ids_by_conf both (daemon 65 1 0) 2 9 <ℤ pos 0
        → compare_proc_ids_by_conf both (daemon 65 1 0) 1 9 <ℤ pos 0)
    × (0 < 1 → compare_proc_ids_by_conf both (daemon 65 1 0) 1 2 <ℤ pos 0)
compare_proc_ids-order_example = compare_proc_ids-order both (daemon 65 1 0) 1 2 9

-- 127.0.0.1 and 128.0.0.1
abbrev loopback : MembershipId
loopback = record { proc_id = 2130706433; time = 5 }

abbrev beyond : MembershipId
beyond = record { proc_id = 2147483649; time = 5 }

compare_memb_ids-overflows_example :
    (compare_memb_ids loopback beyond ≡ none → 2147483649 ≤ 2130706433 + 2147483648)
    × (2147483649 ≤ 2130706433 + 2147483648 → compare_memb_ids loopback beyond ≡ none)
compare_memb_ids-overflows_example =
    compare_memb_ids-overflows loopback beyond (omega arith) (omega arith) (omega arith)

read_a : private_to_names client_a ≡ some (97 ∷ [], 65 ∷ [])
unfolding private_to_names split_hash legal_names legal_name
read_a = refl

abbrev name_a : List ℕ
name_a = 97 ∷ []

abbrev daemon_name : List ℕ
daemon_name = 65 ∷ []

private_to_names-inverse_example :
    (client_a ≡ 35 ∷ (name_a ++ (35 ∷ daemon_name)))
    × (length name_a ≤ 10)
    × (length daemon_name ≤ 19)
private_to_names-inverse_example = private_to_names-inverse client_a name_a daemon_name read_a
