-- ===== src/Groups/Settling.antt =====
-- `G_handle_reg_memb` in GTRANS, where the membership only loses daemons: back to GOP.
use cd_praticas.Prelude.{
  ℕ, ◌≡◌, refl, ap, sym, ◌∙◌, true, false, List, [], arith, if◌then◌else◌, Bool-cases, inl, inr,
  ◌==◌, Option, none, some,
}
use cd_praticas.Protocol.Types.{MembershipId}
use cd_praticas.Groups.Keyed.{is_empty, sum, All, All-map}
use cd_praticas.Groups.State.{
  DaemonMembers, Group, World, Notice, is_partitioned, is_unknown, group_keyed, daemon_keyed,
}
use cd_praticas.Groups.Handlers.{may_remove}
use cd_praticas.Groups.Shifts.{
  eliminate, eliminate_partitioned_daemons, update_memb_ids, renew, settle_changed,
}
use cd_praticas.Groups.Counts.{occurrences, number_of_members}
use cd_praticas.Groups.Mailboxes.{count_box-empty}
use cd_praticas.Groups.Valid.{IsValidDaemon, IsValidGroup, local_boxes}
use cd_praticas.Groups.Remains.{rest_of, total-empty, empty-total, empty_list}
use cd_praticas.Groups.Killing.{Kept}
use cd_praticas.Groups.Alike.{
  Alike, update_memb_ids-Alike, All-Alike, Distinct-Alike, is_empty-Alike, IsValidDaemon-Alike,
  occurrences-Alike, total-Alike, local_boxes-Alike, Established,
}
use cd_praticas.Groups.Eliminate.{
  established, eliminate-All, eliminate-Distinct, eliminate-Established, eliminate-counted,
  occurrences-eliminate, local_boxes-eliminate, update-Established,
}
use cd_praticas.Groups.Notified.{heavyweight_memb-Returns}

-- A group that is left over is settled.
abbrev pub StaysSettled : World → Group → Option Group → Type 0
StaysSettled w g none = Unit {0}
StaysSettled w g (some g') = (g'.name ≡ g.name) × Kept w g' × (g'.changed ≡ false)

pub record Settled (w : World) (g : Group) (r : Option (Option Group × List (ℕ × Notice)))
    : Type 0 where
  pub group : Option Group
  pub sent : List (ℕ × Notice)
  pub returns : r ≡ some (group, sent)
  pub left_over : StaysSettled w g group
  pub lists : (n : List ℕ) → occurrences n (rest_of group) ≡ established n g.daemons

module _ (w : World) (id : MembershipId) (g : Group) (v : IsValidGroup w g)
    (known : is_unknown id ≡ false) where
  abbrev staying : List DaemonMembers
  staying = (eliminate g.daemons g.num_members).0

  abbrev number : ℕ
  number = (eliminate g.daemons g.num_members).1

  counted : number ≡ number_of_members staying
  counted = eliminate-counted g.daemons g.num_members v.counted

  boxes_stay : (b : ℕ) → sum (local_boxes w b) staying ≡ sum (local_boxes w b) g.daemons
  boxes_stay b = local_boxes-eliminate w b g.daemons g.num_members v.own

  renewed : Group
  renewed = record g {
    grp_id = record { memb_id = id; index = 1 };
    changed = false;
    num_members = number;
    daemons = update_memb_ids id staying;
  }

  alike : Alike staying (update_memb_ids id staying)
  alike = update_memb_ids-Alike id staying

  renewed_daemons : All Established (update_memb_ids id staying)
  renewed_daemons =
      update-Established id staying known (eliminate-Established g.daemons g.num_members)

  renewed-IsValidGroup : IsValidGroup w renewed
  unfolding renewed
  renewed-IsValidGroup = record {
    valid =
        All-Alike (IsValidDaemon w) (IsValidDaemon-Alike w) staying (update_memb_ids id staying)
          alike (eliminate-All (IsValidDaemon w) g.daemons g.num_members v.valid);
    distinct =
        Distinct-Alike staying (update_memb_ids id staying) alike
          (eliminate-Distinct g.daemons g.num_members v.distinct);
    counted = counted ∙ sym (total-Alike staying (update_memb_ids id staying) alike);
    boxes = λ b.
        v.boxes b
        ∙ sym (local_boxes-Alike w b staying (update_memb_ids id staying) alike ∙ boxes_stay b);
    flagged =
        All-map Established (λ (d : DaemonMembers). is_partitioned d ≡ true → false ≡ true)
          (update_memb_ids id staying) (λ d e h. ground (arith, e, h)) renewed_daemons;
    known = known;
    own =
        All-map Established
          (λ (d : DaemonMembers). (d.proc_id == w.my_id) ≡ true → is_partitioned d ≡ false)
          (update_memb_ids id staying) (λ d e h. e) renewed_daemons;
  }

  pub settle_changed-Settled : Settled w g (settle_changed w id g)
  unfolding settle_changed eliminate_partitioned_daemons renew may_remove renewed
  settle_changed-Settled = elim (Bool-cases (number == 0)) [
    | inl last ↦
        let gone =
          total-empty w staying (eliminate-All (IsValidDaemon w) g.daemons g.num_members v.valid)
            (ground (arith, counted)) in
        let nil = empty_list staying gone in
        let no_box =
          count_box-empty g.mboxes
            (λ b. omega (arith, v.boxes b, boxes_stay b, ap (sum (local_boxes w b)) nil)) in
        record {
          group = none;
          sent = [];
          returns = rw (settle_changed, last, may_remove, gone, no_box) refl;
          left_over = tt;
          lists =
              λ n. ap (occurrences n) (sym nil) ∙ occurrences-eliminate n g.daemons g.num_members;
        }
    | inr more ↦
        let nonempty : is_empty staying ≡ false = elim (Bool-cases (is_empty staying)) [
          | inl none_left ↦ absurd (ground (arith, more, counted, empty-total staying none_left))
          | inr some_left ↦ some_left
        ] in
        let (ms, sends) = heavyweight_memb-Returns w renewed renewed-IsValidGroup.distinct in
        record {
          group = some renewed;
          sent = if is_empty g.mboxes then [] else ms;
          returns = elim (Bool-cases (is_empty g.mboxes)) [
            | inl nobody ↦ rw (settle_changed, more, nobody) refl
            | inr somebody ↦ rw (settle_changed, more, somebody, sends) refl
          ];
          left_over = (
            refl,
            (
              renewed-IsValidGroup,
              is_empty-Alike staying (update_memb_ids id staying) alike ∙ nonempty,
            ),
            refl,
          );
          lists = λ n.
              occurrences-Alike n staying (update_memb_ids id staying) alike
              ∙ occurrences-eliminate n g.daemons g.num_members;
        }
  ]
