-- ===== src/Membership/Loss.antt =====
-- The loss of the token raises no fatal alarm, and whom the daemon asks after it.
use cd_praticas.Prelude.{
  ℕ, zero, suc, ◌+◌, ◌≤◌, ◌<◌, ◌≡◌, refl, ap, inl, inr, List, [], ◌∷◌, Bool, true, false, not, ◌||◌,
  Option, some, length, drop, arith, Bool-cases, Option-cases, ◌==◌,
}
use cd_praticas.Configuration.{Proc, Configuration, first_id, procs_at, seg_leader}
use cd_praticas.Protocol.Types.{MembState, op, seg, represented, gather, form, evs}
use cd_praticas.Membership.Sets.{
  RepInfo, insert_rep, proc_by_id, replace_rep, potential_rep, seg_rep, ring_rep,
}
use cd_praticas.Membership.Sorting.{All}
use cd_praticas.Membership.Beside.{IsRepSet}
use cd_praticas.Membership.Reps.{insert_rep-IsRepSet}
use cd_praticas.Membership.State.{
  Memb, Host, shift_to_seg, insert_reps, segment_reps, type_after, reps_in, token_loss,
}
use cd_praticas.Membership.Sound.{IsSound, without_token}

-- A representative whose segment is that of its process, of one of the three types.
abbrev pub IsTrue : Configuration → RepInfo → Type 0
IsTrue cn r =
    (r.type ≤ 2) × (p : Proc) × (proc_by_id cn r.proc_id ≡ some p) × (r.seg_index ≡ p.seg_index)

-- The first daemon of each segment of `m` is known, and belongs to that segment.
abbrev pub IsPlaced : Configuration → Configuration → Type 0
IsPlaced cn m =
    (i id : ℕ)
    → first_id (procs_at m.segments i) ≡ some id
    → (p : Proc) × (proc_by_id cn id ≡ some p) × (i ≡ p.seg_index)

-- A configuration in which no segment is empty.
abbrev pub IsFilled : Configuration → Type 0
IsFilled cn =
    (i : ℕ) → i < length cn.segments → (id : ℕ) × (first_id (procs_at cn.segments i) ≡ some id)

abbrev ReturnsSet : Option (List RepInfo) → Type 0
ReturnsSet m = (r : List RepInfo) × (m ≡ some r) × IsRepSet r

insert_rep-Returns :
    (cn : Configuration) (r : List RepInfo) (rep : RepInfo)
    → IsRepSet r
    → IsTrue cn rep
    → (x : List RepInfo × Bool) × (insert_rep cn r rep ≡ some x) × IsRepSet x.0
unfolding insert_rep
insert_rep-Returns cn r rep v (small, p, known, placed) =
    let (x, e) = returns in (x, e, (insert_rep-IsRepSet cn r x.0 rep p x.1 v known placed e).0)
  where
    Answers : Option (List RepInfo × Bool) → Type 0
    Answers o = (x : List RepInfo × Bool) × (o ≡ some x)

    returns : Answers (insert_rep cn r rep)
    returns = elim (Bool-cases (rep.type == potential_rep)) [
      | inl potential ↦ rw (known, potential) (_, refl)
      | inr other ↦
          let typed : rep.type == seg_rep || rep.type == ring_rep ≡ true = ground arith in
          elim (Option-cases (replace_rep rep.type p r)) [
            | inl through ↦ rw (known, other, typed, through) (_, refl)
            | inr (x, stops) ↦ rw (known, other, typed, stops) (_, refl)
          ]
    ]

insert_reps-Returns :
    (cn : Configuration) (xs r : List RepInfo)
    → IsRepSet r
    → All (IsTrue cn) xs
    → ReturnsSet (insert_reps cn r xs)
unfolding insert_reps
insert_reps-Returns cn [] r v good = (r, refl, v)
insert_reps-Returns cn (x ∷ xs) r v good =
    let (r2, one, v2) = insert_rep-Returns cn r x v good.0 in
    let (r3, two, v3) = insert_reps-Returns cn xs r2.0 v2 good.1 in (r3, rw one two, v3)

module _ (d : Host) (m : Configuration) (type : ℕ) (small : type ≤ 2) (filled : IsFilled d.cn)
    (placed : IsPlaced d.cn d.cn) (placed_m : IsPlaced d.cn m) where
  segment_reps-Returns :
      (k i : ℕ) (r : List RepInfo)
      → i + k ≤ length d.cn.segments
      → IsRepSet r
      → ReturnsSet (segment_reps d m type k i r)
  unfolding segment_reps seg_leader
  segment_reps-Returns zero i r le v = (r, refl, v)
  segment_reps-Returns (suc k) i r le v = elim (Bool-cases (i == d.my.seg_index)) [
    | inl mine ↦ rw mine (segment_reps-Returns k (suc i) r (omega arith) v)
    | inr other ↦ elim (Option-cases (first_id (procs_at m.segments i))) [
      | inr (id, e) ↦
          let (p, known, at) = placed_m i id e in
          let (x, one, v2) =
            insert_rep-Returns d.cn r (record { proc_id = id; type = type; seg_index = i }) v
              (small, p, known, at) in
          let (r3, two, v3) = segment_reps-Returns k (suc i) x.0 (omega arith) v2 in
          (r3, rw (other, e, one) two, v3)
      | inl e ↦
          let (id, f) = filled i (omega arith) in
          let (p, known, at) = placed i id f in
          let (x, one, v2) =
            insert_rep-Returns d.cn r (record { proc_id = id; type = type; seg_index = i }) v
              (small, p, known, at) in
          let (r3, two, v3) = segment_reps-Returns k (suc i) x.0 (omega arith) v2 in
          (r3, rw (other, e, f, one) two, v3)
    ]
  ]

-- What the daemon knows fits its configuration: the memberships, and the representatives.
pub record IsConfigured (d : Host) (s : Memb) : Type 0 where
  pub filled : IsFilled d.cn
  pub placed : IsPlaced d.cn d.cn
  pub membership : IsPlaced d.cn s.membership
  pub future_membership : IsPlaced d.cn s.future_membership
  pub f_reps : All (IsTrue d.cn) (drop 1 s.f_reps)
  pub potential_reps : IsRepSet s.potential_reps

none_yet : IsRepSet []
none_yet = record { beside = tt; fits = omega arith }

type_after-small :
    (cn : Configuration) (type : ℕ) (xs : List RepInfo)
    → type ≤ 2
    → All (IsTrue cn) xs
    → type_after type xs ≤ 2
type_after-small cn type [] small good = small
type_after-small cn type (x ∷ xs) small good = type_after-small cn x.type xs good.0.0 good.1

reps_in-Returns :
    (st : MembState) (d : Host) (s : Memb)
    → IsConfigured d s
    → without_token st ≡ false
    → s.token_alive ≡ true
    → ReturnsSet (reps_in st d s)
unfolding reps_in
reps_in-Returns op d s c t held =
    segment_reps-Returns d s.membership potential_rep (omega arith) c.filled c.placed c.membership
      (length d.cn.segments) 0 [] (omega arith) none_yet
reps_in-Returns seg d s c t held = cc t
reps_in-Returns represented d s c t held = cc t
reps_in-Returns gather d s c t held =
    let more = drop 1 s.f_reps in
    let has : not s.token_alive ≡ false = ap not held in
    let (r, one, v) = insert_reps-Returns d.cn more [] none_yet c.f_reps in
    let type = type_after potential_rep more in
    let small = type_after-small d.cn potential_rep more (omega arith) c.f_reps in
    let (r2, two, v2) =
      segment_reps-Returns d s.membership type small c.filled c.placed c.membership
        (length d.cn.segments) 0 r (omega arith) v in
    (r2, rw (has, one) two, v2)
reps_in-Returns form d s c t held = (s.potential_reps, refl, c.potential_reps)
reps_in-Returns evs d s c t held =
    segment_reps-Returns d s.future_membership potential_rep (omega arith) c.filled c.placed
      c.future_membership (length d.cn.segments) 0 [] (omega arith) none_yet

-- The daemon's state has a token.
with_token : (s : Memb) → IsSound s → s.token_alive ≡ true → without_token s.state ≡ false
with_token s v held = elim (Bool-cases (without_token s.state)) [
  | inl lost ↦ cc (v.no_token lost, held)
  | inr has ↦ has
]

-- A sound daemon that has a token and whose data fit its configuration loses it without a fatal alarm: it
-- is in the state SEG then, with no token, knows itself only, and the representatives that it is going to
-- ask are a set.
pub token_loss-Returns :
    (d : Host) (s : Memb)
    → IsSound s
    → s.token_alive ≡ true
    → IsConfigured d s
    → (s' : Memb) × (token_loss d s ≡ some s')
      × (s'.state ≡ seg)
      × (s'.token_alive ≡ false)
      × (s'.f_members ≡ d.my.id ∷ [])
      × IsRepSet s'.potential_reps
unfolding token_loss shift_to_seg
token_loss-Returns d s v held c =
    let (reps, one, set) = reps_in-Returns s.state d s c (with_token s v held) held in
    rw one (_, refl, refl, refl, refl, set)
