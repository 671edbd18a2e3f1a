-- ===== src/Protocol/Discard.antt =====
-- `Discard_packets` keeps the window's invariant outside of the state EVS.
use mathlib.Core.Path.{subst, sym}
use cd_praticas.Prelude.{
  ℕ, zero, suc, ◌+◌, ◌-◌, ◌≤◌, ◌≡◌, refl, ◌∙◌, inl, inr, none, some, arith, Bool-cases, ◌==◌, ltb,
  leb, if◌then◌else◌, >>=-eq-some, eq_of_some,
}
use cd_praticas.Protocol.Types.{Window, pack_entry}
use cd_praticas.Protocol.Window.{deliver_packet, dispose_at, discard_loop, discard_packets}
use cd_praticas.Protocol.Invariant.{Inv}
use cd_praticas.Protocol.Moves.{Inv-deliver, Inv-skip, Inv-dispose}
use cd_praticas.Protocol.Delivery.{
  IsValid, Same, deliver_packet-Delivered, Delivered-Inv, Same-trans, Same-refl,
}

-- The window inside the loop: discarded up to `d`, delivered in order up to `b`.
abbrev During : ℕ → ℕ → Window → Type 0
During d b w = Inv w.packets d b w.aru w.my_aru w.highest_seq w.trace

-- The counters that the loop leaves alone, for the window it started from.
abbrev Fixed : Window → Window → Type 0
Fixed w u = Same w u × (u.last_delivered ≡ w.last_delivered)

Same-undispose : (i : ℕ) (w u : Window) → Same (dispose_at i w) u → Same w u
Same-undispose i w u s = record {
  aru = s.aru;
  my_aru = s.my_aru;
  highest_seq = s.highest_seq;
  last_discarded = s.last_discarded;
  memb_state = s.memb_state;
  threshold = s.threshold;
}

abbrev raised : ℕ → ℕ → ℕ
raised b i = if ltb b i then i else b

-- One round ends with packet `suc d` delivered in order, and then disposes of it.
module _ (d b : ℕ) (w w' : Window) (v : During d b w) (le : suc d ≤ w.aru) where
  step_delivers :
      (w.packets (pack_entry (suc d))).exist ≡ 1
      → deliver_packet (pack_entry (suc d)) w ≡ some w'
      → During d (raised b (suc d)) w' × Fixed w w'
  step_delivers waits e =
      let x = deliver_packet-Delivered _ w w' e in
      let level : suc d ≡ suc b = ground (arith, v.discarded, v.done (suc d)) in
      let r =
        Inv-deliver w.packets d b w.aru w.my_aru w.highest_seq (suc d) (suc d) w.trace v
          (omega arith) (omega (arith, v.below)) waits (inr (refl, level, omega (arith, v.below)))
          (inr (inr le)) in
      let bound : raised b (suc d) ≡ suc d = ground arith in
      (rw bound (Delivered-Inv x r), (x.same, x.last_delivered))

  step_skips : (w.packets (pack_entry (suc d))).exist ≡ 2 → During d (raised b (suc d)) w
  step_skips done = elim (Bool-cases (ltb b (suc d))) [
    | inr past ↦ rw past v
    | inl short ↦
        let level : b ≡ d = ground (arith, v.discarded) in
        rw short (
          subst (λ k. Inv w.packets d (suc k) w.aru w.my_aru w.highest_seq w.trace) level
            (Inv-skip w.packets d b w.aru w.my_aru w.highest_seq w.trace v (rw level done)
              (omega (arith, v.below))))
  ]

  discard_step :
      (if (w.packets (pack_entry (suc d))).exist == 0
          then none
          else if (w.packets (pack_entry (suc d))).exist == 1
          then deliver_packet (pack_entry (suc d)) w
          else some w)
        ≡ some w'
      → During d (raised b (suc d)) w' × Fixed w w'
  discard_step e = elim (Bool-cases ((w.packets (pack_entry (suc d))).exist == 1)) [
    | inl waits ↦ step_delivers (ground arith) (ground arith)
    | inr other ↦
        let done : (w.packets (pack_entry (suc d))).exist ≡ 2 =
          ground (arith, v.no_hole (pack_entry (suc d))) in
        let same : w ≡ w' = ground arith in
        subst (λ u. During d (raised b (suc d)) u × Fixed w u) same
          (step_skips done, (Same-refl w, refl))
  ]

disposed-During :
    (d b : ℕ) (w : Window)
    → During d b w
    → suc d ≤ b
    → suc d ≤ w.aru
    → During (suc d) b (dispose_at (suc d) w)
disposed-During d b w v s r = Inv-dispose w.packets d b w.aru w.my_aru w.highest_seq w.trace v s r

discard_loop-valid :
    (k d b top : ℕ) (w w' : Window)
    → During d b w
    → d + k ≡ top
    → top ≤ w.aru
    → discard_loop k (suc d) w ≡ some w'
    → During top (raised b top) w' × Fixed w w'
unfolding discard_loop
discard_loop-valid zero d b top w w' v n le e =
    let here : d ≡ top = omega arith in
    let still : raised b d ≡ b = ground (arith, v.discarded) in
    subst (λ u. During top (raised b top) u × Fixed w u) (eq_of_some e)
      (subst (λ x. During x (raised b x) w) here (rw still v), (Same-refl w, refl))
discard_loop-valid (suc k) d b top w w' v n le e =
    let (w1, first, rest) =
      >>=-eq-some _ (λ u. discard_loop k (suc (suc d)) (dispose_at (suc d) u)) e in
    let (v1, s1) = discard_step d b w w1 v (omega arith) first in
    let aru1 : suc d ≤ w1.aru = omega (arith, s1.0.aru) in
    let v2 = disposed-During d (raised b (suc d)) w1 v1 (ground arith) aru1 in
    let (v3, s3) =
      discard_loop-valid k (suc d) (raised b (suc d)) top (dispose_at (suc d) w1) w' v2
        (omega arith) (omega (arith, s1.0.aru)) rest in
    let same : raised (raised b (suc d)) top ≡ raised b top = ground arith in
    (rw same at v3, (Same-trans w w1 w' s1.0 (Same-undispose (suc d) w1 w' s3.0), s3.1 ∙ s1.1))

-- The window after `Discard_packets`: discarded exactly up to `Aru`.
pub record Discarded (w w' : Window) : Type 0 where
  pub valid : IsValid w'
  pub last_discarded : w'.last_discarded ≡ w.aru
  pub last_delivered :
      w'.last_delivered ≡ (if ltb w.last_delivered w.aru then w.aru else w.last_delivered)
  pub aru : w'.aru ≡ w.aru
  pub my_aru : w'.my_aru ≡ w.my_aru
  pub highest_seq : w'.highest_seq ≡ w.highest_seq

Discarded-level : (w : Window) → IsValid w → w.last_discarded ≡ w.aru → Discarded w w
Discarded-level w v level = record {
  valid = v;
  last_discarded = level;
  last_delivered = ground (arith, v.discarded);
  aru = refl;
  my_aru = refl;
  highest_seq = refl;
}

settle : Window → Window
settle v = record v { last_discarded = v.aru; last_delivered = raised v.last_delivered v.aru }

Discarded-settle :
    (w u : Window)
    → During w.aru (raised w.last_delivered w.aru) u
    → Fixed w u
    → Discarded w (settle u)
unfolding settle
Discarded-settle w u v f = record {
  valid =
      subst (λ x. Inv u.packets x (raised u.last_delivered x) u.aru u.my_aru u.highest_seq u.trace)
        (sym f.0.aru) (rw f.1 v);
  last_discarded = f.0.aru;
  last_delivered = rw (f.1, f.0.aru);
  aru = f.0.aru;
  my_aru = f.0.my_aru;
  highest_seq = f.0.highest_seq;
}

-- `Discard_packets` keeps the window valid, discards exactly up to `Aru`, and raises
-- `Last_delivered` to it; the other counters stay.
pub discard_packets-Discarded :
    (w w' : Window) → IsValid w → discard_packets w ≡ some w' → Discarded w w'
unfolding discard_packets settle
discard_packets-Discarded w w' v e = elim (Bool-cases (leb w.aru w.last_discarded)) [
  | inl none_left ↦
      let level : w.last_discarded ≡ w.aru = ground (arith, v.discarded) in
      let stay : some w ≡ some w' = ground arith in
      subst (Discarded w) (eq_of_some stay) (Discarded-level w v level)
  | inr some_left ↦
      let (u, loop, last) =
        >>=-eq-some (discard_loop (w.aru - w.last_discarded) (suc w.last_discarded) w)
          (λ x. some (settle x)) (rw some_left at e) in
      let (v1, f) =
        discard_loop-valid _ w.last_discarded w.last_delivered w.aru w u v (ground arith)
          (omega arith) loop in
      subst (Discarded w) (eq_of_some last) (Discarded-settle w u v1 f)
]
