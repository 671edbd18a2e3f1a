-- ===== src/Groups/Notified.antt =====
-- The notices of a leave, of a join and of a regular membership are built without a fatal alarm.
use cd_praticas.Prelude.{
  ℕ, ◌<◌, ◌≡◌, List, arith, Bool-cases, inl, inr, Option, none, some, some_of_ne, none-ne-some,
  eq_of_some,
}
use cd_praticas.Groups.Keyed.{is_empty, Distinct}
use cd_praticas.Groups.State.{Group, World, Cause, Notice, daemon_keyed}
use cd_praticas.Groups.Notices.{heavyweight_join, heavyweight_memb}
use cd_praticas.Groups.Handlers.{leave_notices, join_notices}
use cd_praticas.Groups.Counts.{occurrences}
use cd_praticas.Groups.VsSets.{build_memb_vs-VsSetsBuilt}

pub leave_notices-Returns :
    (w : World) (c : Cause) (m : List ℕ) (g : Group)
    → Distinct ℕ g.daemons
    → (sent : List (ℕ × Notice)) × (leave_notices w c m g ≡ some sent)
unfolding leave_notices heavyweight_memb heavyweight_join
leave_notices-Returns w c m g d =
    let b = build_memb_vs-VsSetsBuilt w none g d (λ j e. absurd (none-ne-some e)) in
    some_of_ne (leave_notices w c m g) (λ stops. elim (Bool-cases (is_empty g.mboxes)) [
      | inl none_local ↦ ground (arith, stops)
      | inr local ↦ elim (Bool-cases g.changed) [
        | inl has_changed ↦ ground (arith, stops, b.returns)
        | inr unchanged ↦ ground (arith, stops)
      ]
    ])

pub join_notices-Returns :
    (w : World) (m : List ℕ) (box : Option ℕ) (g : Group)
    → Distinct ℕ g.daemons
    → 0 < occurrences m g.daemons
    → (sent : List (ℕ × Notice)) × (join_notices w m box g ≡ some sent)
unfolding join_notices heavyweight_join
join_notices-Returns w m box g d h =
    let b = build_memb_vs-VsSetsBuilt w (some m) g d (λ j e. ground (arith, eq_of_some e)) in
    some_of_ne (join_notices w m box g) (λ stops. elim (Bool-cases (is_empty g.mboxes)) [
      | inl none_local ↦ ground (arith, stops)
      | inr local ↦ elim (Bool-cases g.changed) [
        | inl has_changed ↦ ground (arith, stops, b.returns)
        | inr unchanged ↦ ground (arith, stops)
      ]
    ])

pub heavyweight_memb-Returns :
    (w : World) (g : Group)
    → Distinct ℕ g.daemons
    → (sent : List (ℕ × Notice)) × (heavyweight_memb w g ≡ some sent)
unfolding heavyweight_memb heavyweight_join
heavyweight_memb-Returns w g d =
    let b = build_memb_vs-VsSetsBuilt w none g d (λ j e. absurd (none-ne-some e)) in
    some_of_ne (heavyweight_memb w g) (λ stops. ground (arith, stops, b.returns))
