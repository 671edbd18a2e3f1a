-- ===== src/Membership/Handled.antt =====
-- Each handler of membership.c keeps the state sound.
use mathlib.Core.Path.{subst}
use cd_praticas.Prelude.{
  ℕ, ◌≡◌, refl, ap, inl, inr, List, [], ◌∷◌, Bool, true, false, not, ◌&&◌, Option, none, some,
  length, get_elem?, drop, arith, Bool-cases, Option-cases, eq_of_some, >>=-eq-some, ltb, ◌==◌,
}
use cd_praticas.Configuration.{leader, seg_leader}
use cd_praticas.Protocol.Types.{MembState, op, seg, represented, gather, form, evs}
use cd_praticas.Membership.Sets.{RepInfo, insert_rep, proc_by_id, smallest_rep, smallest_member}
use cd_praticas.Membership.State.{
  Memb, Host, shift_to_op, shift_to_seg, shift_to_gather, shift_to_represented,
  gather_or_represented, insert_reps,
}
use cd_praticas.Membership.Handlers.{
  is_in_conf, is_own_rep, refer_to, is_op, scast_alive, join_in, refer_in, foreign_in,
  join_from_outside, lookup_new_members, back_to_op, not_first, form_or_fail, missing,
}
use cd_praticas.Membership.Sound.{
  IsSound, IsMemberSet, without_token, none_member, one_member, same_fields, token_loss-IsSound,
  if_lost,
}

shift_to_op-IsSound :
    (d : Host) (s : Memb) → IsSound s → s.token_alive ≡ true → IsSound (shift_to_op d s)
unfolding shift_to_op
shift_to_op-IsSound d s v held = elim (Bool-cases d.need_conf_reload) [
  | inl reload ↦
      rw reload (record { op_token = λ t. held; no_token = λ t. cc t; members = v.members })
  | inr stays ↦
      rw stays (record { op_token = λ t. held; no_token = λ t. cc t; members = v.members })
]

pub shift_to_seg-IsSound :
    (d : Host) (s : Memb) → s.token_alive ≡ false → IsSound (shift_to_seg d s)
unfolding shift_to_seg
shift_to_seg-IsSound d s lost = record {
  op_token = λ t. cc t;
  no_token = λ t. lost;
  members = one_member d.my.id;
}

shift_to_gather-IsSound :
    (d : Host) (s : Memb) → IsMemberSet s.f_members → IsSound (shift_to_gather d s)
unfolding shift_to_gather
shift_to_gather-IsSound d s m = record { op_token = λ t. cc t; no_token = λ t. cc t; members = m }

shift_to_represented-IsSound :
    (s : Memb) → IsMemberSet s.f_members → s.token_alive ≡ false → IsSound (shift_to_represented s)
unfolding shift_to_represented
shift_to_represented-IsSound s m lost = record {
  op_token = λ t. cc t;
  no_token = λ t. lost;
  members = m;
}

pub gather_or_represented-IsSound :
    (d : Host) (s s' : Memb)
    → IsSound s
    → s.token_alive ≡ false
    → gather_or_represented d s ≡ some s'
    → IsSound s'
unfolding gather_or_represented
gather_or_represented-IsSound d s s' v lost e =
    let (i, one, rest) = >>=-eq-some (smallest_member d.cn s.f_members) _ e in
    let (id, two, last) = >>=-eq-some (get_elem? s.f_members i) _ rest in
    elim (Bool-cases (id == d.my.id)) [
      | inl self ↦
          subst IsSound (eq_of_some (rw self at last))
            (shift_to_gather-IsSound d (record s { my_seg_rep = none }) v.members)
      | inr other ↦
          subst IsSound (eq_of_some (rw other at last))
            (shift_to_represented-IsSound (record s { my_seg_rep = none }) v.members lost)
    ]

join_from_outside-IsSound :
    (d : Host) (id : ℕ) (rep : RepInfo) (s s' : Memb)
    → IsSound s
    → join_from_outside d id rep s ≡ some s'
    → IsSound s'
unfolding join_from_outside
join_from_outside-IsSound d id rep s s' v e =
    let (l, one, rest) = >>=-eq-some (leader s.membership) _ e in
    elim (Bool-cases (l == d.my.id)) [
      | inl leads ↦
          subst IsSound (eq_of_some (rw leads at rest)) (shift_to_gather-IsSound d _ none_member)
      | inr follows ↦ elim (Bool-cases (not (rep.seg_index == d.my.seg_index))) [
        | inl other ↦
            subst IsSound (eq_of_some (rw (follows, other) at rest))
              (same_fields s _ v refl refl refl)
        | inr mine ↦
            let (sl, two, last) =
              >>=-eq-some (seg_leader s.membership d.my.seg_index) _ (rw (follows, mine) at rest) in
            elim (Bool-cases (sl == d.my.id)) [
              | inl me ↦
                  subst IsSound (eq_of_some (rw me at last)) (same_fields s _ v refl refl refl)
              | inr him ↦ subst IsSound (eq_of_some (rw him at last)) v
            ]
      ]
    ]

pub scast_alive-IsSound : (d : Host) (b : Bool) (s : Memb) → IsSound s → IsSound (scast_alive d b s)
unfolding scast_alive
scast_alive-IsSound d b s v = same_fields s _ v refl refl refl

refer_to-IsSound : (r : Option ℕ) (id : ℕ) (s : Memb) → IsSound s → IsSound (refer_to r id s)
unfolding refer_to
refer_to-IsSound none id s v = v
refer_to-IsSound (some r) id s v = same_fields s _ v refl refl refl

pub join_in-IsSound :
    (st : MembState) (d : Host) (id : ℕ) (rep : RepInfo) (others : List RepInfo) (s s' : Memb)
    → IsSound s
    → s.state ≡ st
    → join_in st d id rep others s ≡ some s'
    → IsSound s'
unfolding join_in
join_in-IsSound op d id rep others s s' v at e =
    elim (Bool-cases (not (is_in_conf s.membership id))) [
      | inl outside ↦ join_from_outside-IsSound d id rep s s' v (rw outside at e)
      | inr inside ↦ elim (Bool-cases (ltb 1 (length d.cn.segments))) [
        | inl many ↦ token_loss-IsSound d s s' (rw (inside, many) at e)
        | inr single ↦ subst IsSound (eq_of_some (rw (inside, single) at e)) v
      ]
    ]
join_in-IsSound seg d id rep others s s' v at e =
    let (p, one, last) = >>=-eq-some (proc_by_id d.cn id) _ e in
    elim (Bool-cases (is_own_rep d p rep)) [
      | inl own ↦ subst IsSound (eq_of_some (rw own at last)) (
          scast_alive-IsSound d false _ (
            shift_to_represented-IsSound (record s { my_seg_rep = some id }) v.members
              (v.no_token (ap without_token at))))
      | inr other ↦ subst IsSound (eq_of_some (rw other at last)) v
    ]
join_in-IsSound represented d id rep others s s' v at e =
    let (p, one, last) = >>=-eq-some (proc_by_id d.cn id) _ e in
    elim (Bool-cases (is_own_rep d p rep)) [
      | inl own ↦
          subst IsSound (eq_of_some (rw own at last))
            (scast_alive-IsSound d false _ (same_fields s _ v refl refl refl))
      | inr other ↦
          subst IsSound (eq_of_some (rw other at last)) (refer_to-IsSound s.my_seg_rep id s v)
    ]
join_in-IsSound gather d id rep others s s' v at e =
    let (f, one, rest) = >>=-eq-some (insert_rep d.cn s.f_reps rep) _ e in
    let (potential, two, rest2) =
      >>=-eq-some (insert_reps d.cn s.potential_reps (rep ∷ others)) _ rest in
    let (i, three, rest3) = >>=-eq-some (smallest_rep d.cn f.0) _ rest2 in
    let (smallest, four, last) = >>=-eq-some (get_elem? f.0 i) _ rest3 in
    elim (Bool-cases (smallest.proc_id == rep.proc_id)) [
      | inl first ↦ subst IsSound (eq_of_some (rw first at last)) (same_fields s _ v refl refl refl)
      | inr later ↦ subst IsSound (eq_of_some (rw later at last)) (same_fields s _ v refl refl refl)
    ]
join_in-IsSound form d id rep others s s' v at e = subst IsSound (eq_of_some e) v
join_in-IsSound evs d id rep others s s' v at e =
    if_lost d id (is_in_conf s.future_membership id) s s' v e

pub refer_in-IsSound :
    (st : MembState) (d : Host) (id type : ℕ) (s s' : Memb)
    → IsSound s
    → refer_in st d id type s ≡ some s'
    → IsSound s'
unfolding refer_in
refer_in-IsSound gather d id type s s' v e = elim (Option-cases (proc_by_id d.cn id)) [
  | inl unknown ↦ subst IsSound (eq_of_some (rw (unknown, refer_in) at e)) v
  | inr (p, known) ↦
      let (r, one, last) =
        >>=-eq-some (insert_rep d.cn s.potential_reps _) _ (rw (known, refer_in) at e) in
      subst IsSound (eq_of_some last) (same_fields s _ v refl refl refl)
]
refer_in-IsSound op d id type s s' v e = subst IsSound (eq_of_some e) v
refer_in-IsSound seg d id type s s' v e = subst IsSound (eq_of_some e) v
refer_in-IsSound represented d id type s s' v e = subst IsSound (eq_of_some e) v
refer_in-IsSound form d id type s s' v e = subst IsSound (eq_of_some e) v
refer_in-IsSound evs d id type s s' v e = subst IsSound (eq_of_some e) v

pub lookup_new_members-IsSound :
    (d : Host) (s : Memb) → IsSound s → IsSound (lookup_new_members d s)
unfolding lookup_new_members
lookup_new_members-IsSound d s v = elim (Bool-cases (not (is_op s.state))) [
  | inl other ↦ rw other v
  | inr lost ↦ elim (Bool-cases (length d.cn.segments == 1)) [
    | inl one ↦ rw (lost, one) (shift_to_gather-IsSound d _ none_member)
    | inr many ↦ elim (Bool-cases (length (missing s.reg_membership d.cn.segments) == 0)) [
      | inl nobody ↦
          rw (lost, many, nobody)
            (record { op_token = v.op_token; no_token = v.no_token; members = none_member })
      | inr some_absent ↦ rw (lost, many, some_absent) (shift_to_gather-IsSound d _ none_member)
    ]
  ]
]

pub foreign_in-IsSound :
    (st : MembState) (d : Host) (id : ℕ) (s s' : Memb)
    → IsSound s
    → foreign_in st d id s ≡ some s'
    → IsSound s'
unfolding foreign_in
foreign_in-IsSound op d id s s' v e = elim (Option-cases (proc_by_id d.cn id)) [
  | inl unknown ↦ subst IsSound (eq_of_some (rw (unknown, foreign_in) at e)) v
  | inr (p, known) ↦
      let (l, one, rest) = >>=-eq-some (leader s.membership) _ (rw (known, foreign_in) at e) in
      elim (Bool-cases (l == d.my.id)) [
        | inl leads ↦
            subst IsSound (eq_of_some (rw leads at rest)) (lookup_new_members-IsSound d s v)
        | inr follows ↦
            let (sl, two, last) =
              >>=-eq-some (seg_leader s.membership d.my.seg_index) _ (rw follows at rest) in
            elim (Bool-cases (sl == d.my.id && not s.foreign_found)) [
              | inl tells ↦
                  subst IsSound (eq_of_some (rw tells at last)) (same_fields s _ v refl refl refl)
              | inr quiet ↦ subst IsSound (eq_of_some (rw quiet at last)) v
            ]
      ]
]
foreign_in-IsSound seg d id s s' v e = subst IsSound (eq_of_some e) v
foreign_in-IsSound represented d id s s' v e = subst IsSound (eq_of_some e) v
foreign_in-IsSound gather d id s s' v e = subst IsSound (eq_of_some e) v
foreign_in-IsSound form d id s s' v e = subst IsSound (eq_of_some e) v
foreign_in-IsSound evs d id s s' v e = subst IsSound (eq_of_some e) v

back_to_op-IsSound :
    (d : Host) (s : Memb) → IsSound s → s.token_alive ≡ true → IsSound (back_to_op d s)
unfolding back_to_op
back_to_op-IsSound d s v held = shift_to_op-IsSound d _ (same_fields s _ v refl refl refl) held

not_first-IsSound :
    (b : Bool) (d : Host) (s s' : Memb)
    → IsSound s
    → s.token_alive ≡ b
    → not_first b d s ≡ some s'
    → IsSound s'
unfolding not_first
not_first-IsSound true d s s' v held e =
    subst IsSound (eq_of_some e) (back_to_op-IsSound d s v held)
not_first-IsSound false d s s' v lost e =
    let (potential, one, last) = >>=-eq-some (insert_reps d.cn [] (drop 1 s.f_reps)) _ e in
    subst IsSound (eq_of_some last) (shift_to_gather-IsSound d _ (one_member d.my.id))

pub form_or_fail-IsSound :
    (d : Host) (s s' : Memb) → IsSound s → form_or_fail d s ≡ some s' → IsSound s'
unfolding form_or_fail
form_or_fail-IsSound d s s' v e =
    let (i, one, rest) = >>=-eq-some (smallest_rep d.cn s.f_reps) _ e in
    let (smallest, two, last) = >>=-eq-some (get_elem? s.f_reps i) _ rest in
    elim (Bool-cases (smallest.proc_id == d.my.id)) [
      | inl first ↦ elim (Bool-cases (s.token_alive && length s.f_reps == 1)) [
        | inl back ↦
            subst IsSound (eq_of_some (rw (first, back) at last))
              (back_to_op-IsSound d s v (ground arith))
        | inr forms ↦
            subst IsSound (eq_of_some (rw (first, forms) at last))
              (same_fields s _ v refl refl refl)
      ]
      | inr later ↦ not_first-IsSound s.token_alive d s s' v refl (rw later at last)
    ]
