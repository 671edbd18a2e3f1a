-- ===== src/Protocol/Delivery.antt =====
-- The delivery functions keep the window's invariant.
use mathlib.Core.Path.{subst}
use cd_praticas.Prelude.{
  ℕ, zero, suc, ◌+◌, ◌-◌, ◌≤◌, ◌<◌, ◌≡◌, refl, ◌∙◌, inl, inr, ◌∷◌, true, ◌&&◌, some, arith,
  Bool-cases, ◌==◌, ltb, leb, if◌then◌else◌, >>=-eq-some, eq_of_some,
}
use cd_praticas.Protocol.Types.{Window, reliable_type, is_evs, pack_entry}
use cd_praticas.Protocol.Window.{is_single, deliver_packet, reliable_loop, deliver_reliable_packets}
use cd_praticas.Protocol.Invariant.{Inv}
use cd_praticas.Protocol.Moves.{delivered_at, Inv-deliver}

-- The invariant of a window, by its own counters.
abbrev pub IsValid : Window → Type 0
IsValid w = Inv w.packets w.last_discarded w.last_delivered w.aru w.my_aru w.highest_seq w.trace

-- The counters that delivery leaves alone.
pub record Same (w w' : Window) : Type 0 where
  pub aru : w'.aru ≡ w.aru
  pub my_aru : w'.my_aru ≡ w.my_aru
  pub highest_seq : w'.highest_seq ≡ w.highest_seq
  pub last_discarded : w'.last_discarded ≡ w.last_discarded
  pub memb_state : w'.memb_state ≡ w.memb_state
  pub threshold : w'.delivery_threshold ≡ w.delivery_threshold

-- What `Deliver_packet` does to the window.
pub record Delivered (e : ℕ) (w w' : Window) : Type 0 where
  pub packets : w'.packets ≡ delivered_at w.packets e
  pub trace : w'.trace ≡ (w.packets e).head ∷ w.trace
  pub same : Same w w'
  pub last_delivered : w'.last_delivered ≡ w.last_delivered

pub deliver_packet-Delivered :
    (e : ℕ) (w w' : Window) → deliver_packet e w ≡ some w' → Delivered e w w'
unfolding deliver_packet
deliver_packet-Delivered e w w' h = record {
  packets = ground arith;
  trace = ground arith;
  same = ground arith;
  last_delivered = ground arith;
}

-- The invariant carried over to the window after `Deliver_packet`, with a new bound `b`.
pub Delivered-Inv :
    {e : ℕ} {w w' : Window} {d b : ℕ}
    → Delivered e w w'
    → Inv (delivered_at w.packets e) d b w.aru w.my_aru w.highest_seq ((w.packets e).head ∷ w.trace)
    → Inv w'.packets d b w'.aru w'.my_aru w'.highest_seq w'.trace
Delivered-Inv x v = rw (x.packets, x.trace, x.same.aru, x.same.my_aru, x.same.highest_seq) v

pub Same-trans : (u v w : Window) → Same u v → Same v w → Same u w
Same-trans u v w x y = ground arith

pub Same-refl : (w : Window) → Same w w
Same-refl w = record {
  aru = refl;
  my_aru = refl;
  highest_seq = refl;
  last_discarded = refl;
  memb_state = refl;
  threshold = refl;
}

-- Delivery ahead of the order.
abbrev Ahead : Window → Window → Type 0
Ahead w w' = IsValid w' × Same w w' × (w'.last_delivered ≡ w.last_delivered)

reliable_step :
    (i : ℕ) (w w' : Window)
    → IsValid w
    → w.last_discarded < i
    → i ≤ w.highest_seq
    → (if (w.packets (pack_entry i)).exist == 1 && is_single (w.packets (pack_entry i)).head
        then deliver_packet (pack_entry i) w
        else some w)
      ≡ some w'
    → Ahead w w'
reliable_step i w w' v lo hi e =
    elim (Bool-cases
      ((w.packets (pack_entry i)).exist == 1 && is_single (w.packets (pack_entry i)).head)) [
        | inr stay ↦ subst (Ahead w) (eq_of_some (rw stay at e)) (v, Same-refl w, refl)
        | inl go ↦
            let x = deliver_packet-Delivered (pack_entry i) w w' (rw go at e) in
            let single : is_single (w.packets (pack_entry i)).head ≡ true = ground arith in
            let waits : (w.packets (pack_entry i)).exist ≡ 1 = ground arith in
            let next =
              Inv-deliver w.packets w.last_discarded w.last_delivered w.aru w.my_aru w.highest_seq i
                w.last_delivered w.trace v lo hi waits (inl (refl, single)) (inl single) in
            (
              rw (x.same.last_discarded, x.last_delivered) (Delivered-Inv x next),
              x.same,
              x.last_delivered,
            )
      ]

reliable_loop-Ahead :
    (k i : ℕ) (w w' : Window)
    → IsValid w
    → w.last_discarded < i
    → i + k ≤ suc w.highest_seq
    → reliable_loop k i w ≡ some w'
    → Ahead w w'
unfolding reliable_loop
reliable_loop-Ahead zero i w w' v lo hi e = subst (Ahead w) (eq_of_some e) (v, Same-refl w, refl)
reliable_loop-Ahead (suc k) i w w' v lo hi e =
    let (w1, first, rest) = >>=-eq-some _ (reliable_loop k (suc i)) e in
    let (v1, s1, d1) = reliable_step i w w1 v lo (omega arith) first in
    let (v2, s2, d2) =
      reliable_loop-Ahead k (suc i) w1 w' v1 (omega (arith, s1.last_discarded))
        (omega (arith, s1.highest_seq)) rest in
    (v2, Same-trans w w1 w' s1 s2, d2 ∙ d1)

-- `Deliver_reliable_packets` keeps the window valid and moves none of its counters, for packets
-- below the highest number.
pub deliver_reliable_packets-IsValid :
    (start num : ℕ) (w w' : Window)
    → IsValid w
    → start + num ≤ suc w.highest_seq
    → deliver_reliable_packets start num w ≡ some w'
    → IsValid w' × Same w w' × (w'.last_delivered ≡ w.last_delivered)
unfolding deliver_reliable_packets
deliver_reliable_packets-IsValid start num w w' v hi e = elim (Bool-cases (is_evs w.memb_state)) [
  | inl stop ↦ stay (rw stop at e)
  | inr state ↦ elim (Bool-cases (ltb reliable_type w.delivery_threshold)) [
    | inl stop ↦ stay (ground arith)
    | inr passes ↦
        reliable_loop-Ahead (start + num - from) from w w' v (ground (arith, v.discarded))
          (ground (arith, v.below)) (ground arith)
  ]
]
  where
    from : ℕ
    from = if leb start w.last_delivered then suc w.last_delivered else start

    stay : some w ≡ some w' → Ahead w w'
    stay r = subst (Ahead w) (eq_of_some r) (v, Same-refl w, refl)
