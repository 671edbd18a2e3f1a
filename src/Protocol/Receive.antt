-- ===== src/Protocol/Receive.antt =====
-- `Prot_handle_bcast`: the arrival of a packet keeps the window's invariant.
use mathlib.Core.Path.{subst, sym}
use cd_praticas.Prelude.{
  ℕ, zero, suc, ◌+◌, ◌-◌, ◌≤◌, ◌<◌, ◌≡◌, refl, inl, inr, some, arith, Bool-cases, ◌==◌, ltb, leb,
  if◌then◌else◌, eq_of_some,
}
use cd_praticas.Prelude.Int.{ℤ, pos_part, ltb_ℤ, pos}
use cd_praticas.Protocol.Types.{Window, PacketHeader, PacketBody, pack_entry, update}
use cd_praticas.Protocol.Window.{
  deliver_reliable_packets, deliver_agreed_packets, advance, handle_regular,
}
use cd_praticas.Protocol.Token.{TokenHeader, catch_up}
use cd_praticas.Protocol.Moves.{Inv-advance, Inv-announce, Inv-store}
use cd_praticas.Protocol.Agreed.{deliver_agreed_packets-IsValid}
use cd_praticas.Protocol.Delivery.{deliver_reliable_packets-IsValid, IsValid}

-- The window after `My_aru` was raised over the packets that are there.
advance-IsValid :
    (k : ℕ) (w : Window)
    → IsValid w
    → w.my_aru + k ≤ w.highest_seq
    → IsValid (advance k (suc w.my_aru) w)
unfolding advance
advance-IsValid zero w v le = v
advance-IsValid (suc k) w v le =
    elim (Bool-cases ((w.packets (pack_entry (suc w.my_aru))).exist == 0)) [
      | inl hole ↦ rw hole v
      | inr there ↦ rw there (
          advance-IsValid k (record w { my_aru = suc w.my_aru })
            (Inv-advance w.packets w.last_discarded w.last_delivered w.aru w.my_aru w.highest_seq
              w.trace v (omega arith) (ground arith))
            (omega arith))
    ]

abbrev stored : PacketHeader → PacketBody → ℤ → Window → Window
stored h b proc_index w = record w {
  packets =
      update w.packets (pack_entry h.seq)
        (record { head = h; body = b; exist = 1; proc_index = pos_part proc_index });
  highest_seq = if ltb w.highest_seq h.seq then h.seq else w.highest_seq;
}

stored-IsValid :
    (h : PacketHeader) (b : PacketBody) (proc_index : ℤ) (w : Window)
    → IsValid w
    → w.last_discarded < h.seq
    → h.seq ≤ w.last_discarded + 8192
    → (w.packets (pack_entry h.seq)).exist ≡ 0
    → IsValid (stored h b proc_index w)
stored-IsValid h b proc_index w v lo hi free =
    Inv-store w.packets w.last_discarded w.last_delivered w.aru w.my_aru w.highest_seq w.trace v
      (record { head = h; body = b; exist = 1; proc_index = pos_part proc_index })
      (if ltb w.highest_seq h.seq then h.seq else w.highest_seq) lo (ground arith) (ground arith)
      (ground (arith, v.room)) free refl

-- A packet that arrives keeps the window valid, if its number is at most 8192 above the last
-- discarded one.
pub handle_regular-IsValid :
    (h : PacketHeader) (b : PacketBody) (proc_index : ℤ) (w w' : Window)
    → IsValid w
    → h.seq ≤ w.last_discarded + 8192
    → handle_regular h b proc_index w ≡ some w'
    → IsValid w'
unfolding handle_regular
handle_regular-IsValid h b proc_index w w' v hi e = elim (Bool-cases (leb h.seq w.last_discarded)) [
  | inl old ↦ ignored (ground arith)
  | inr new ↦ elim (Bool-cases ((w.packets (pack_entry h.seq)).exist == 0)) [
    | inr taken ↦ ignored (ground arith)
    | inl free ↦ elim (Bool-cases (ltb_ℤ proc_index (pos 0))) [
      | inl unknown ↦ ignored (ground arith)
      | inr known ↦
          let s = stored-IsValid h b proc_index w v (ground arith) hi (ground arith) in
          elim (Bool-cases (h.seq == suc w.my_aru)) [
            | inl next ↦
                let w1 = stored h b proc_index w in
                let seq : h.seq ≡ suc w.my_aru = ground arith in
                let k = suc w1.highest_seq - h.seq in
                let r : deliver_agreed_packets (advance k h.seq w1) ≡ some w' = ground arith in
                let raised = advance-IsValid k w1 s (ground arith) in
                (deliver_agreed_packets-IsValid (advance k h.seq w1) w'
                  (subst (λ i. IsValid (advance k i w1)) (sym seq) raised) r).0
            | inr gap ↦
                let w1 = stored h b proc_index w in
                let r : deliver_reliable_packets h.seq 1 w1 ≡ some w' = ground arith in
                (deliver_reliable_packets-IsValid h.seq 1 w1 w' s (ground arith) r).0
          ]
    ]
  ]
]
  where
    ignored : some w ≡ some w' → IsValid w'
    ignored r = subst IsValid (eq_of_some r) v

pub catch_up-IsValid :
    (token : TokenHeader) (w : Window)
    → IsValid w
    → token.seq ≤ w.last_discarded + 8192
    → IsValid (catch_up token w)
unfolding catch_up
catch_up-IsValid token w v le =
    let highest = if ltb w.highest_seq token.seq then token.seq else w.highest_seq in
    let announced =
      Inv-announce w.packets w.last_discarded w.last_delivered w.aru w.my_aru w.highest_seq w.trace
        v highest (ground arith) (ground (arith, v.room)) in
    advance-IsValid (highest - w.my_aru) (record w { highest_seq = highest }) announced
      (ground (arith, v.below))
