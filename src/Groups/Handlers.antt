-- ===== src/Groups/Handlers.antt =====
-- The handlers of groups.c for what the sessions do: join, leave and the end of a connection. `none` is a fatal
-- alarm, a failed assertion, or the use of what was never set: the names that `G_private_to_names` leaves
-- unset on an illegal name, `Sessions[-1]`.
use cd_praticas.Prelude.{
  ℕ, suc, ◌+◌, ◌-◌, Bool, true, false, ◌&&◌, ◌||◌, List, [], ◌∷◌, ◌++◌, Option, none, some,
  if◌then◌else◌, ◌==◌, length, ◌>>=◌,
}
use cd_praticas.Configuration.{find_name}
use cd_praticas.Membership.Handlers.{is_in_conf}
use cd_praticas.Membership.Select.{swap_remove}
use cd_praticas.Groups.Keyed.{is_empty, insert_at, find, erase, assign}
use cd_praticas.Groups.Names.{private_to_names}
use cd_praticas.Groups.State.{
  DaemonMembers, Group, GroupsState, gop, gtrans, Cause, by_join, by_leave, by_disconnect, Notice,
  self_leave, Groups, World, unknown_memb_id, is_partitioned, group_keyed, daemon_keyed,
  member_keyed,
}
use cd_praticas.Groups.Notices.{
  lightweight_memb, trans_memb, heavyweight_join, heavyweight_memb, write_all,
}

abbrev pub is_gop : GroupsState → Bool
is_gop gop = true
is_gop _ = false

-- The states in which the handlers run.
abbrev pub is_running : GroupsState → Bool
is_running gop = true
is_running gtrans = true
is_running _ = false

unfoldable pub get_group : List ℕ → Groups → Option Group
get_group name s = find name s.groups

unfoldable pub get_daemon : Group → ℕ → Option DaemonMembers
get_daemon g id = find id g.daemons

unfoldable pub get_member : DaemonMembers → List ℕ → Option (List ℕ)
get_member d name = find name d.members

abbrev pub new_group : Groups → List ℕ → Group
new_group s name = record {
  name = name;
  grp_id = record {
    memb_id = if is_gop s.gstate then s.reg_memb_id else s.trans_memb_id;
    index = 0;
  };
  changed = false;
  num_members = 0;
  daemons = [];
  mboxes = [];
}

abbrev pub new_daemon : Groups → ℕ → Group → DaemonMembers
new_daemon s id g = record {
  proc_id = id;
  memb_id =
      if is_gop s.gstate || is_in_conf s.trans_memb id then g.grp_id.memb_id else unknown_memb_id;
  members = [];
}

-- The group, created where there is none: all groups, and that one.
unfoldable pub ensure_group : World → List ℕ → Groups → List Group × Group
ensure_group w name s = elim (get_group name s) [
  | some g ↦ (s.groups, g)
  | none ↦ let g = new_group s name in (insert_at (w.place_group g s.groups) g s.groups, g)
]

unfoldable pub ensure_daemon : World → Groups → ℕ → Group → List DaemonMembers × DaemonMembers
ensure_daemon w s id g = elim (get_daemon g id) [
  | some d ↦ (g.daemons, d)
  | none ↦ let d = new_daemon s id g in (insert_at (w.place_daemon d g.daemons) d g.daemons, d)
]

-- The mailbox of a local joiner.
unfoldable pub add_mailbox : World → ℕ → List ℕ → Group → Option (Group × Option ℕ)
add_mailbox w id private g =
    if id == w.my_id
    then (w.session private >>= λ m. some (record g { mboxes = g.mboxes ++ (m ∷ []) }, some m))
    else some (g, none)

unfoldable pub join_notices : World → List ℕ → Option ℕ → Group → Option (List (ℕ × Notice))
join_notices w member mbox g =
    if is_empty g.mboxes
    then some []
    else if g.changed
    then (heavyweight_join w (some member) mbox g >>= λ ms. some (ms ++ trans_memb w g))
    else some (lightweight_memb w by_join member g)

-- The group with the member in daemon `d` of `ds`.
unfoldable pub add_member : World → List ℕ → ℕ → List DaemonMembers → DaemonMembers → Group → Group
add_member w member id ds d g =
    let d' = record d { members = insert_at (w.place_member member d.members) member d.members } in
    record g {
      daemons = assign id d' ds;
      num_members = g.num_members + 1;
      grp_id = record g.grp_id { index = g.grp_id.index + 1 };
      changed = g.changed || is_partitioned d';
    }

-- `G_handle_join` from the search for the daemon on: the group afterwards, and what is written.
unfoldable pub join_group :
    World → Groups → List ℕ → List ℕ → ℕ → Group → Option (Group × List (ℕ × Notice))
join_group w s member private id g =
    let (ds, d) = ensure_daemon w s id g in
    elim (get_member d member) [
      | some m ↦ some (record g { daemons = ds }, [])
      | none ↦ add_mailbox w id private (add_member w member id ds d g) >>= λ r.
          join_notices w member r.1 r.0 >>= λ ms. some (r.0, ms)
    ]

-- `G_private_to_names` and `Conf_proc_by_name`: the private name, and the id of the daemon.
unfoldable pub locate : World → List ℕ → Option (List ℕ × Option ℕ)
locate w member = private_to_names member >>= λ n.
    some (n.0, elim (find_name w.conf.allprocs 0 n.1) [ none ↦ none | some r ↦ some r.1.id ])

unfoldable pub join_located : World → List ℕ → List ℕ → Groups → List ℕ × Option ℕ → Option Groups
join_located w member group s (private, none) = some s
join_located w member group s (private, some id) =
    let (gs, g) = ensure_group w group s in
    join_group w s member private id g >>= λ r.
    some (record s { groups = assign group r.0 gs; sent = s.sent ++ r.1 })

unfoldable pub handle_join : World → List ℕ → List ℕ → Groups → Option Groups
handle_join w member group s =
    if is_running s.gstate then locate w member >>= join_located w member group s else none

-- Where a mailbox stands first.
unfoldable pub mailbox_index : ℕ → List ℕ → Option ℕ
mailbox_index m [] = none
mailbox_index m (n ∷ ns) = elim (n == m) [
  | true ↦ some 0
  | false ↦ mailbox_index m ns >>= λ i. some (suc i)
]

unfoldable pub remove_mailbox : ℕ → Group → Option Group
remove_mailbox m g =
    mailbox_index m g.mboxes >>= λ i. some (record g { mboxes = swap_remove i g.mboxes })

-- `num_members` is a C int; it is at least the number of members that are taken off.
unfoldable pub remove_daemon : DaemonMembers → Group → Group
remove_daemon d g = record g {
  daemons = erase d.proc_id g.daemons;
  num_members = g.num_members - length d.members;
}

-- The member leaves daemon `d`, and the daemon the group if it has no other one.
unfoldable pub extract_member : List ℕ → ℕ → DaemonMembers → Group → Group
extract_member member id d g =
    let d' = record d { members = erase member d.members } in
    let g' = record g { daemons = assign id d' g.daemons; num_members = g.num_members - 1 } in
    if is_empty d'.members then remove_daemon d' g' else g'

-- The assertions of `G_remove_group`.
unfoldable pub may_remove : Group → Bool
may_remove g = is_empty g.daemons && is_empty g.mboxes

unfoldable pub leave_notices : World → Cause → List ℕ → Group → Option (List (ℕ × Notice))
leave_notices w caused member g =
    if is_empty g.mboxes
    then some []
    else if g.changed
    then (heavyweight_memb w g >>= λ ms. some (ms ++ trans_memb w g))
    else some (lightweight_memb w caused member g)

-- What leave and kill do with a group once the mailbox is out: the group, unless it is discarded, and
-- what is written.
unfoldable pub depart :
    World → Cause → List ℕ → ℕ → DaemonMembers → Group → Option (Option Group × List (ℕ × Notice))
depart w caused member id d g =
    let g' = extract_member member id d g in
    let g'' = record g' { grp_id = record g'.grp_id { index = g'.grp_id.index + 1 } } in
    if g'.num_members == 0
    then (if may_remove g' then some (none, []) else none)
    else (leave_notices w caused member g'' >>= λ ms. some (some g'', ms))

-- The mailbox of a local member is taken out of the group. `session` is the result of `Sess_get_session`.
unfoldable pub drop_mailbox : World → ℕ → Option ℕ → Group → Option Group
drop_mailbox w id session g =
    if id == w.my_id then (session >>= λ m. remove_mailbox m g) else some g

-- `G_send_self_leave`, for a local member.
unfoldable pub send_self_leave : World → ℕ → Option ℕ → Group → List (ℕ × Notice)
send_self_leave w id none g = []
send_self_leave w id (some m) g =
    if id == w.my_id then write_all w (self_leave g.name) (m ∷ []) else []

abbrev pub put_back : List ℕ → Option Group → List Group → List Group
put_back name none gs = erase name gs
put_back name (some g) gs = assign name g gs

unfoldable pub leave_located : World → List ℕ → List ℕ → Groups → List ℕ × Option ℕ → Option Groups
leave_located w member group s (private, none) = some s
leave_located w member group s (private, some id) = elim (get_group group s) [
  | none ↦ some s
  | some g ↦ elim (get_daemon g id) [
    | none ↦ some s
    | some d ↦ elim (get_member d member) [
      | none ↦ some s
      | some m ↦ drop_mailbox w id (w.session private) g >>= depart w by_leave member id d >>= λ r.
          some (record s {
            groups = put_back group r.0 s.groups;
            sent = s.sent ++ (send_self_leave w id (w.session private) g ++ r.1);
          })
    ]
  ]
]

unfoldable pub handle_leave : World → List ℕ → List ℕ → Groups → Option Groups
handle_leave w member group s =
    if is_running s.gstate then locate w member >>= leave_located w member group s else none

-- The body of the loop of `G_handle_kill`.
unfoldable pub kill_in :
    World → List ℕ → ℕ → Option ℕ → Group → Option (Option Group × List (ℕ × Notice))
kill_in w member id session g = elim (get_daemon g id) [
  | none ↦ some (some g, [])
  | some d ↦ elim (get_member d member) [
    | none ↦ some (some g, [])
    | some m ↦ drop_mailbox w id session g >>= depart w by_disconnect member id d
  ]
]

abbrev pub keep : Option Group → List Group → List Group
keep none gs = gs
keep (some g) gs = g ∷ gs

unfoldable pub kill_groups :
    World → List ℕ → ℕ → Option ℕ → List Group → Option (List Group × List (ℕ × Notice))
kill_groups w member id session [] = some ([], [])
kill_groups w member id session (g ∷ gs) = kill_in w member id session g >>= λ r.
    kill_groups w member id session gs >>= λ rest. some (keep r.0 rest.0, r.1 ++ rest.1)

unfoldable pub kill_located : World → List ℕ → Groups → List ℕ × Option ℕ → Option Groups
kill_located w member s (private, none) = some s
kill_located w member s (private, some id) =
    kill_groups w member id (w.session private) s.groups >>= λ r.
    some (record s { groups = r.0; sent = s.sent ++ r.1 })

unfoldable pub handle_kill : World → List ℕ → Groups → Option Groups
handle_kill w member s =
    if is_running s.gstate then locate w member >>= kill_located w member s else none
