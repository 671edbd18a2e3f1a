-- ===== src/Groups/State.antt =====
-- The state of daemon/groups.c, with the types of sess_body.h and groups.h. `Num_groups` and the sizes of
-- the lists are their lengths; the masks of SPREAD_PROTOCOL 4 are left out.
use cd_praticas.Prelude.{ℕ, ◌≡◌, Bool, true, List, Option, ◌==◌, arith}
use cd_praticas.Configuration.{Configuration, same_name}
use cd_praticas.Protocol.Types.{MembershipId}
use cd_praticas.Groups.Keyed.{Keyed}
use cd_praticas.Groups.Names.{same_name_refl, eq_of_same_name}

pub record GroupId : Type 0 where
  pub memb_id : MembershipId
  pub index : ℕ

-- `daemon_members`: a member is its private group name.
pub record DaemonMembers : Type 0 where
  pub proc_id : ℕ
  pub memb_id : MembershipId
  pub members : List (List ℕ)

pub record Group : Type 0 where
  pub name : List ℕ
  pub grp_id : GroupId
  pub changed : Bool
  pub num_members : ℕ
  pub daemons : List DaemonMembers
  pub mboxes : List ℕ

pub data GroupsState : Type 0 where
  gop gtrans ggather ggt : GroupsState

-- What a membership message is caused by.
pub data Cause : Type 0 where
  by_join by_leave by_disconnect by_network : Cause

-- A membership message: `num_groups` and the names of the header, the group's id, the sets of members that
-- are virtually synchronous, and the offset in bytes of the receiver's own set among them.
pub record MembMessage : Type 0 where
  pub caused : Cause
  pub group : List ℕ
  pub num_groups : ℕ
  pub members : List (List ℕ)
  pub gid : GroupId
  pub vs_sets : List (List (List ℕ))
  pub vs_offset : ℕ

-- What is written to a session.
pub data Notice : Type 0 where
  regular : MembMessage → Notice
  transition : List ℕ → GroupId → Notice
  self_leave : List ℕ → Notice

-- The variables of the file. `sent` holds what was written, with the mailbox of the session.
pub record Groups : Type 0 where
  pub gstate : GroupsState
  pub trans_memb : Configuration
  pub trans_memb_id : MembershipId
  pub reg_memb : Configuration
  pub reg_memb_id : MembershipId
  pub groups : List Group
  pub synced_set : List ℕ
  pub sent : List (ℕ × Notice)

-- What stands outside the file: the daemon's own id and configuration, the sessions (`Sess_get_session`
-- with the mailbox that it leads to, `Is_memb_session`), and where stdskl_put puts a new element.
pub record World : Type 0 where
  pub my_id : ℕ
  pub conf : Configuration
  pub session : List ℕ → Option ℕ
  pub is_memb_session : ℕ → Bool
  pub place_group : Group → List Group → ℕ
  pub place_daemon : DaemonMembers → List DaemonMembers → ℕ
  pub place_member : List ℕ → List (List ℕ) → ℕ
  pub place_vs : DaemonMembers → List DaemonMembers → ℕ

abbrev pub minus_one : ℕ
minus_one = 4294967295

-- The fields are 32-bit words.
abbrev pub unknown_memb_id : MembershipId
unknown_memb_id = record { proc_id = minus_one; time = minus_one }

abbrev pub is_unknown : MembershipId → Bool
is_unknown m = m.proc_id == minus_one

abbrev pub is_partitioned : DaemonMembers → Bool
is_partitioned d = is_unknown d.memb_id

pub id_eq : (a b : ℕ) → (a == b) ≡ true → a ≡ b
id_eq a b h = ground arith

pub id_refl : (a : ℕ) → (a == a) ≡ true
id_refl a = ground arith

-- The keys of the three skip lists.
instance abbrev pub group_keyed : Keyed Group (List ℕ)
group_keyed = record {
  key = λ g. g.name;
  same = same_name;
  same_refl = same_name_refl;
  eq_of_same = eq_of_same_name;
}

instance abbrev pub daemon_keyed : Keyed DaemonMembers ℕ
daemon_keyed = record { key = λ d. d.proc_id; same = ◌==◌; same_refl = id_refl; eq_of_same = id_eq }

instance abbrev pub member_keyed : Keyed (List ℕ) (List ℕ)
member_keyed = record {
  key = λ m. m;
  same = same_name;
  same_refl = same_name_refl;
  eq_of_same = eq_of_same_name;
}
