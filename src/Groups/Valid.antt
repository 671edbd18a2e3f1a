-- ===== src/Groups/Valid.antt =====
-- What holds of the groups at all times: the invariant of `GroupsList`.
use cd_praticas.Prelude.{
  ℕ, ◌≡◌, refl, sym, ◌∙◌, true, false, List, [], ◌∷◌, arith, if◌then◌else◌, Bool-cases, inl, inr,
  Option, none, some, ◌==◌,
}
use cd_praticas.Groups.Keyed.{is_empty, sum, All, Distinct, find, Fresh-find, Fresh}
use cd_praticas.Groups.State.{
  DaemonMembers, Group, Groups, World, is_partitioned, is_unknown, group_keyed, daemon_keyed,
  member_keyed,
}
use cd_praticas.Groups.Handlers.{locate, is_gop}
use cd_praticas.Groups.Counts.{number_of_members, count, occurrences}
use mathlib.Core.Path.{subst}
use cd_praticas.Configuration.{same_name}
use cd_praticas.Membership.Handlers.{is_in_conf}
use cd_praticas.Prelude.{◌||◌}
use cd_praticas.Groups.Names.{eq_of_same_name}
use cd_praticas.Groups.Mailboxes.{count_box, is_box}

-- A member belongs to the daemon that its name gives.
abbrev pub Belongs : World → ℕ → List ℕ → Type 0
Belongs w id m = (private : List ℕ) × (locate w m ≡ some (private, some id))

-- Whether `b` is the mailbox of the session of member `m`.
abbrev pub box_of_session : ℕ → Option ℕ → ℕ
box_of_session b none = 0
box_of_session b (some n) = is_box b n

abbrev pub box_of_names : World → ℕ → Option (List ℕ × Option ℕ) → ℕ
box_of_names w b none = 0
box_of_names w b (some r) = box_of_session b (w.session r.0)

unfoldable pub has_box : World → ℕ → List ℕ → ℕ
has_box w b m = box_of_names w b (locate w m)

-- How many members of a daemon, if it is the own one, have the mailbox `b`.
unfoldable pub local_boxes : World → ℕ → DaemonMembers → ℕ
local_boxes w b d = if d.proc_id == w.my_id then sum (has_box w b) d.members else 0

pub has_box-located :
    (w : World) (b box : ℕ) (m private : List ℕ) (id : Option ℕ)
    → locate w m ≡ some (private, id)
    → w.session private ≡ some box
    → has_box w b m ≡ is_box b box
unfolding has_box
has_box-located w b box m private id e f = rw (e, f) refl

pub local_boxes-empty :
    (w : World) (b : ℕ) (d : DaemonMembers) → d.members ≡ [] → local_boxes w b d ≡ 0
unfolding local_boxes
local_boxes-empty w b d h = rw h (ground arith)

pub local_boxes-mine :
    (w : World) (b : ℕ) (d : DaemonMembers)
    → (d.proc_id == w.my_id) ≡ true
    → local_boxes w b d ≡ sum (has_box w b) d.members
unfolding local_boxes
local_boxes-mine w b d h = rw h refl

pub local_boxes-other :
    (w : World) (b : ℕ) (d : DaemonMembers) → (d.proc_id == w.my_id) ≡ false → local_boxes w b d ≡ 0
unfolding local_boxes
local_boxes-other w b d h = rw h refl

pub record IsValidDaemon (w : World) (d : DaemonMembers) : Type 0 where
  pub inhabited : is_empty d.members ≡ false
  pub distinct : Distinct (List ℕ) d.members
  pub belong : All (Belongs w d.proc_id) d.members

-- The daemons have distinct ids and members of their own, `num_members` counts these, the mailboxes are
-- those of the local members, and a group with a partitioned daemon is marked as changed. No group has the id
-- that marks a partitioned daemon, and the own daemon is never partitioned.
pub record IsValidGroup (w : World) (g : Group) : Type 0 where
  pub valid : All (IsValidDaemon w) g.daemons
  pub distinct : Distinct ℕ g.daemons
  pub counted : g.num_members ≡ number_of_members g.daemons
  pub boxes : (b : ℕ) → count_box b g.mboxes ≡ sum (local_boxes w b) g.daemons
  pub flagged : All (λ (d : DaemonMembers). is_partitioned d ≡ true → g.changed ≡ true) g.daemons
  pub known : is_unknown g.grp_id.memb_id ≡ false
  pub own :
      All
        (λ (d : DaemonMembers). (d.proc_id == w.my_id) ≡ true → is_partitioned d ≡ false)
        g.daemons

-- In GOP, or where the own daemon is in the transitional membership.
abbrev pub IsHere : World → Groups → Type 0
IsHere w s = (is_gop s.gstate || is_in_conf s.trans_memb w.my_id) ≡ true

-- The groups have distinct names and members. In the state GOP none is changed, and in the others
-- the own daemon is in the transitional membership.
pub record IsValid (w : World) (s : Groups) : Type 0 where
  pub groups : All (λ (g : Group). IsValidGroup w g × (is_empty g.daemons ≡ false)) s.groups
  pub distinct : Distinct (List ℕ) s.groups
  pub known : (is_unknown s.reg_memb_id ≡ false) × (is_unknown s.trans_memb_id ≡ false)
  pub here : IsHere w s
  pub settled : is_gop s.gstate ≡ true → All (λ (g : Group). g.changed ≡ false) s.groups

-- A member does not stand under another daemon than its own.
none_elsewhere :
    (w : World) (id other : ℕ) (m private : List ℕ) (ms : List (List ℕ))
    → locate w m ≡ some (private, some id)
    → (other == id) ≡ false
    → All (Belongs w other) ms
    → count m ms ≡ 0
unfolding count
none_elsewhere w id other m private [] e ne b = refl
none_elsewhere w id other m private (n ∷ ns) e ne b = elim (Bool-cases (same_name n m)) [
  | inl hit ↦
      let same : locate w n ≡ some (private, some id) =
        subst (λ z. locate w z ≡ some (private, some id)) (sym (eq_of_same_name n m hit)) e in
      absurd (ground (arith, sym b.0.1 ∙ same))
  | inr miss ↦ rw miss (omega (arith, none_elsewhere w id other m private ns e ne b.1))
]

abbrev pub count_at : List ℕ → Option DaemonMembers → ℕ
count_at m none = 0
count_at m (some d) = count m d.members

-- A member is listed as often as its own daemon lists it.
pub occurrences-find :
    (w : World) (id : ℕ) (m private : List ℕ) (ds : List DaemonMembers)
    → locate w m ≡ some (private, some id)
    → All (IsValidDaemon w) ds
    → Distinct ℕ ds
    → occurrences m ds ≡ count_at m (find id ds)
unfolding occurrences find
occurrences-find w id m private [] e v d = refl
occurrences-find w id m private (x ∷ xs) e v d = elim (Bool-cases (x.proc_id == id)) [
  | inl hit ↦
      let gone : Fresh id xs = subst (λ (z : ℕ). Fresh z xs) (ground arith) d.0 in
      let rest = rw (Fresh-find id xs gone) at (occurrences-find w id m private xs e v.1 d.1) in
      rw hit (omega (arith, rest))
  | inr miss ↦ rw miss (
      omega (
        arith,
        occurrences-find w id m private xs e v.1 d.1,
        none_elsewhere w id x.proc_id m private x.members e miss v.0.belong,
      ))
]
