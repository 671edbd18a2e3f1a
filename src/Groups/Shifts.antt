-- ===== src/Groups/Shifts.antt =====
-- What the memberships of the daemons do to the groups: `G_handle_trans_memb`, and `G_handle_reg_memb` in GTRANS.
-- What the leader of a synced set then sends to the others is left out.
use cd_praticas.Prelude.{
  ℕ, ◌-◌, Bool, true, false, not, ◌||◌, List, [], ◌∷◌, ◌++◌, Option, none, some, if◌then◌else◌,
  ◌==◌, length, ◌>>=◌,
}
use cd_praticas.Configuration.{Configuration, num_procs}
use cd_praticas.Protocol.Types.{MembershipId}
use cd_praticas.Membership.Handlers.{is_in_conf}
use cd_praticas.Groups.Keyed.{is_empty}
use cd_praticas.Groups.State.{
  DaemonMembers, Group, GroupsState, gop, gtrans, ggather, ggt, Notice, Groups, World,
  unknown_memb_id, is_partitioned,
}
use cd_praticas.Groups.Notices.{trans_memb, heavyweight_memb}
use cd_praticas.Groups.Handlers.{may_remove, keep}

-- `G_check_if_changed_by_cascade`
unfoldable pub any_lost : Configuration → List DaemonMembers → Bool
any_lost c [] = false
any_lost c (d ∷ ds) = not (is_in_conf c d.proc_id) || any_lost c ds

-- The daemons that are not in the transitional membership are marked as partitioned.
unfoldable pub mark_lost : Configuration → List DaemonMembers → List DaemonMembers
mark_lost c [] = []
mark_lost c (d ∷ ds) =
    (if is_in_conf c d.proc_id then d else record d { memb_id = unknown_memb_id }) ∷ mark_lost c ds

-- `G_update_daemon_memb_ids`
unfoldable pub update_memb_ids : MembershipId → List DaemonMembers → List DaemonMembers
update_memb_ids id [] = []
update_memb_ids id (d ∷ ds) =
    (if is_partitioned d then d else record d { memb_id = id }) ∷ update_memb_ids id ds

-- The group's id is renewed, and that of its established daemons.
unfoldable pub renew : MembershipId → Bool → Group → Group
renew id changed g = record g {
  grp_id = record { memb_id = id; index = 1 };
  changed = changed;
  daemons = update_memb_ids id g.daemons;
}

-- The loop of `G_handle_trans_memb` in GOP, for one group.
unfoldable pub lose_in : World → Configuration → MembershipId → Group → Group × List (ℕ × Notice)
lose_in w c id g =
    let g' = record g { daemons = mark_lost c g.daemons } in
    if any_lost c g.daemons
    then (renew id true g', if is_empty g.mboxes then [] else trans_memb w g')
    else (g', [])

unfoldable pub lose_all :
    World → Configuration → MembershipId → List Group → List Group × List (ℕ × Notice)
lose_all w c id [] = ([], [])
lose_all w c id (g ∷ gs) =
    let r = lose_in w c id g in let rest = lose_all w c id gs in (r.0 ∷ rest.0, r.1 ++ rest.1)

-- The loop in GGATHER.
unfoldable pub mark_cascade : Configuration → List Group → List Group
mark_cascade c [] = []
mark_cascade c (g ∷ gs) =
    (if any_lost c g.daemons then record g { changed = true } else g) ∷ mark_cascade c gs

-- `G_update_synced_set`
unfoldable pub update_synced_set : Configuration → List ℕ → List ℕ
update_synced_set c [] = []
update_synced_set c (i ∷ is) =
    if is_in_conf c i then i ∷ update_synced_set c is else update_synced_set c is

unfoldable pub trans_memb_in :
    GroupsState → World → Configuration → MembershipId → Groups → Option Groups
trans_memb_in gop w c id s =
    let r = lose_all w c id s.groups in
    some (record s {
      trans_memb = c;
      trans_memb_id = id;
      groups = r.0;
      sent = s.sent ++ r.1;
      gstate = gtrans;
      synced_set = update_synced_set c s.synced_set;
    })
trans_memb_in ggather w c id s = some (record s {
  trans_memb = c;
  trans_memb_id = id;
  groups = mark_cascade c s.groups;
  gstate = ggt;
})
trans_memb_in gtrans w c id s = none
trans_memb_in ggt w c id s = none

unfoldable pub handle_trans_memb : World → Configuration → MembershipId → Groups → Option Groups
handle_trans_memb w c id s = trans_memb_in s.gstate w c id s

-- `G_eliminate_partitioned_daemons` out of GGT: the daemons that stay, and `num_members` less those who go.
unfoldable pub eliminate : List DaemonMembers → ℕ → List DaemonMembers × ℕ
eliminate [] n = ([], n)
eliminate (d ∷ ds) n =
    let rest = eliminate ds (if is_partitioned d then n - length d.members else n) in
    if is_partitioned d then rest else (d ∷ rest.0, rest.1)

unfoldable pub eliminate_partitioned_daemons : Group → Group
eliminate_partitioned_daemons g =
    let r = eliminate g.daemons g.num_members in record g { daemons = r.0; num_members = r.1 }

-- A changed group in a membership that only loses daemons.
unfoldable pub settle_changed :
    World → MembershipId → Group → Option (Option Group × List (ℕ × Notice))
settle_changed w id g =
    let g' = eliminate_partitioned_daemons g in
    let g'' = renew id false g' in
    if g'.num_members == 0
    then (if may_remove g' then some (none, []) else none)
    else if is_empty g''.mboxes
    then some (some g'', [])
    else (heavyweight_memb w g'' >>= λ ms. some (some g'', ms))

unfoldable pub settle_in : World → MembershipId → Group → Option (Option Group × List (ℕ × Notice))
settle_in w id g = if g.changed then settle_changed w id g else some (some g, [])

-- A changed group in any other membership.
unfoldable pub thin_in : Group → Option (Option Group × List (ℕ × Notice))
thin_in g =
    let g' = eliminate_partitioned_daemons g in
    if not g.changed
    then some (some g, [])
    else if not (g'.num_members == 0)
    then some (some g', [])
    else if may_remove g'
    then some (none, [])
    else none

-- The loops over the groups.
unfoldable pub for_groups :
    (Group → Option (Option Group × List (ℕ × Notice)))
    → List Group
    → Option (List Group × List (ℕ × Notice))
for_groups f [] = some ([], [])
for_groups f (g ∷ gs) =
    f g >>= λ r. for_groups f gs >>= λ rest. some (keep r.0 rest.0, r.1 ++ rest.1)

-- In GTRANS: back to GOP if the membership has as many daemons as the transitional one, else to GGATHER.
unfoldable pub reg_memb_in_gtrans : World → Configuration → MembershipId → Groups → Option Groups
reg_memb_in_gtrans w c id s =
    let s' = record s { reg_memb = c; reg_memb_id = id } in
    if num_procs s.trans_memb == num_procs c
    then (for_groups (settle_in w id) s.groups >>= λ r.
        some (record s' { groups = r.0; sent = s.sent ++ r.1; gstate = gop }))
    else (for_groups thin_in s.groups >>= λ r. some (record s' { groups = r.0; gstate = ggather }))
