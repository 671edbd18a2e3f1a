-- ===== src/Protocol/Agreed.antt =====
-- `Deliver_agreed_packets` keeps the window's invariant, and where it stops.
use mathlib.Core.Path.{subst, ap, sym}
use cd_praticas.Prelude.{
  ℕ, zero, suc, ◌+◌, ◌-◌, ◌≤◌, ◌≡◌, refl, ◌⊎◌, inl, inr, true, false, Option, some, arith,
  Bool-cases, ◌==◌, ltb, leb, ◌>>=◌, >>=-eq-some, eq_of_some,
}
use cd_praticas.Protocol.Types.{Window, agreed_type, is_safe, is_evs, pack_entry}
use cd_praticas.Protocol.Window.{
  deliver_packet, delivered_one, agreed_round, agreed_loop, deliver_agreed_packets,
}
use cd_praticas.Protocol.Moves.{Inv-deliver, Inv-skip}
use cd_praticas.Protocol.Delivery.{
  IsValid, Same, deliver_packet-Delivered, Delivered-Inv, Same-trans, Same-refl,
}

-- Where `Deliver_agreed_packets` stops: behind the last packet in order, or before a safe one.
pub Stops : Window → Type 0
Stops w =
    (w.last_delivered ≡ w.my_aru)
    ⊎ ((w.packets (pack_entry (suc w.last_delivered))).exist ≡ 1)
      × (is_safe (w.packets (pack_entry (suc w.last_delivered))).head.type ≡ true)

Same-one : (w u : Window) → Same w u → Same w (delivered_one u)
Same-one w u s = record {
  aru = s.aru;
  my_aru = s.my_aru;
  highest_seq = s.highest_seq;
  last_discarded = s.last_discarded;
  memb_state = s.memb_state;
  threshold = s.threshold;
}

-- One round: it stops before a safe packet, or goes on with the next number.
abbrev Round : Window → Window → (Window → Option Window) → Type 0
Round w w' rest =
    (w' ≡ w)
      × ((w.packets (pack_entry (suc w.last_delivered))).exist ≡ 1)
      × (is_safe (w.packets (pack_entry (suc w.last_delivered))).head.type ≡ true)
    ⊎ (u : Window) × IsValid u
      × Same w u
      × (u.last_delivered ≡ suc w.last_delivered)
      × (rest u ≡ some w')

module _ (w w' : Window) (rest : Window → Option Window) (v : IsValid w) where
  Round-skips :
      (w.packets (pack_entry (suc w.last_delivered))).exist ≡ 2
      → suc w.last_delivered ≤ w.my_aru
      → rest (delivered_one w) ≡ some w'
      → Round w w' rest
  Round-skips done le e =
      let next =
        Inv-skip w.packets w.last_discarded w.last_delivered w.aru w.my_aru w.highest_seq w.trace v
          done le in
      inr (delivered_one w, next, ground arith, refl, e)

  Round-delivers :
      (w.packets (pack_entry (suc w.last_delivered))).exist ≡ 1
      → is_safe (w.packets (pack_entry (suc w.last_delivered))).head.type ≡ false
      → suc w.last_delivered ≤ w.my_aru
      → (deliver_packet (pack_entry (suc w.last_delivered)) w >>= λ u. rest (delivered_one u))
        ≡ some w'
      → Round w w' rest
  Round-delivers waits plain le e =
      let (w1, first, then_rest) = >>=-eq-some _ (λ u. rest (delivered_one u)) e in
      let x = deliver_packet-Delivered _ w w1 first in
      let next =
        Inv-deliver w.packets w.last_discarded w.last_delivered w.aru w.my_aru w.highest_seq
          (suc w.last_delivered) (suc w.last_delivered) w.trace v (ground (arith, v.discarded))
          (ground (arith, v.below)) waits (inr (refl, refl, le)) (inr (inl plain)) in
      inr (
        delivered_one w1,
        rw (x.same.last_discarded, x.last_delivered) (Delivered-Inv x next),
        Same-one w w1 x.same,
        ap suc x.last_delivered,
        then_rest,
      )

  agreed_round-Round :
      suc w.last_delivered ≤ w.my_aru
      → agreed_round (suc w.last_delivered) w rest ≡ some w'
      → Round w w' rest
  unfolding agreed_round
  agreed_round-Round le e =
      elim (Bool-cases ((w.packets (pack_entry (suc w.last_delivered))).exist == 1)) [
        | inl waits ↦
            elim (Bool-cases (is_safe (w.packets (pack_entry (suc w.last_delivered))).head.type)) [
              | inl safe ↦ inl (ground arith, ground arith, safe)
              | inr plain ↦ Round-delivers (ground arith) plain le (ground arith)
            ]
        | inr other ↦
            elim (Bool-cases ((w.packets (pack_entry (suc w.last_delivered))).exist == 2)) [
              | inl done ↦ Round-skips (ground arith) le (ground arith)
              | inr bad ↦ absurd (ground arith)
            ]
      ]

agreed_loop-IsValid :
    (k : ℕ) (w w' : Window)
    → IsValid w
    → w.last_delivered + k ≡ w.my_aru
    → agreed_loop k (suc w.last_delivered) w ≡ some w'
    → IsValid w' × Same w w' × Stops w'
unfolding agreed_loop Stops
agreed_loop-IsValid zero w w' v n e =
    subst (λ u. IsValid u × Same w u × Stops u) (eq_of_some e) (v, Same-refl w, inl (omega arith))
agreed_loop-IsValid (suc k) w w' v n e =
    elim (agreed_round-Round w w' (agreed_loop k (suc (suc w.last_delivered))) v (omega arith) e) [
      | inl (stop, waits, safe) ↦
          subst (λ u. IsValid u × Same w u × Stops u) (sym stop) (v, Same-refl w, inr (waits, safe))
      | inr (u, vu, s, one, rest) ↦
          let (v2, s2, t2) =
            agreed_loop-IsValid k u w' vu (omega (arith, s.my_aru)) (rw (← one) at rest) in
          (v2, Same-trans w u w' s s2, t2)
    ]

Stops-level : (w : Window) → w.last_delivered ≡ w.my_aru → Stops w
unfolding Stops
Stops-level w level = inl level

-- `Deliver_agreed_packets` keeps the window valid and its counters but `Last_delivered`; where
-- delivery is open it goes on to `My_aru` or up to a safe packet.
pub deliver_agreed_packets-IsValid :
    (w w' : Window)
    → IsValid w
    → deliver_agreed_packets w ≡ some w'
    → IsValid w'
      × Same w w'
      × ((is_evs w.memb_state ≡ true) ⊎ (ltb agreed_type w.delivery_threshold ≡ true) ⊎ Stops w')
unfolding deliver_agreed_packets
deliver_agreed_packets-IsValid w w' v e = elim (Bool-cases (leb w.my_aru w.last_delivered)) [
  | inl level ↦ stay (rw level at e) (inr (inr (stops (ground (arith, v.below)))))
  | inr behind ↦ elim (Bool-cases (is_evs w.memb_state)) [
    | inl state ↦ stay (ground arith) (inl state)
    | inr state ↦ elim (Bool-cases (ltb agreed_type w.delivery_threshold)) [
      | inl shut ↦ stay (ground arith) (inr (inl shut))
      | inr passes ↦
          let r =
            agreed_loop-IsValid (w.my_aru - w.last_delivered) w w' v (ground arith)
              (ground arith) in
          (r.0, r.1, inr (inr r.2))
    ]
  ]
]
  where
    stops : w.last_delivered ≡ w.my_aru → Stops w
    stops level = Stops-level w level

    stay :
        some w ≡ some w'
        → (is_evs w.memb_state ≡ true) ⊎ (ltb agreed_type w.delivery_threshold ≡ true) ⊎ Stops w
        → IsValid w'
          × Same w w'
          × ((is_evs w.memb_state ≡ true)
              ⊎ (ltb agreed_type w.delivery_threshold ≡ true)
              ⊎ Stops w')
    stay r c =
        subst
          (λ u.
            IsValid u
            × Same w u
            × ((is_evs w.memb_state ≡ true)
                ⊎ (ltb agreed_type w.delivery_threshold ≡ true)
                ⊎ Stops u))
          (eq_of_some r) (v, Same-refl w, c)
