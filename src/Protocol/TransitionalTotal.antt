-- ===== src/Protocol/TransitionalTotal.antt =====
-- `Discard_packets` in the state EVS returns: none of its alarms fires where no message is spread
-- over packets.
use cd_praticas.Prelude.{
  ℕ, zero, suc, ◌-◌, ◌<◌, ◌≤◌, ◌≡◌, refl, inl, inr, Bool, true, false, not, ◌||◌, Option, some, leb,
  ◌==◌, ◌>>=◌, arith, Bool-cases,
}
use cd_praticas.Protocol.Types.{Window, pack_entry, is_safe, max_packets_in_struct}
use cd_praticas.Protocol.Window.{dispose_at}
use cd_praticas.Protocol.Evs.{
  deliver_waiting, evs_before, evs_after, all_free, next_membership, Transition, discard_evs,
}
use cd_praticas.Protocol.Total.{Ready, There, Goes, There-dispose, delivered-Goes, dispose_at-Ready}
use cd_praticas.Protocol.Remaining.{Left}
use cd_praticas.Protocol.BeforeSignal.{evs_before-Before}
use cd_praticas.Protocol.AfterSignal.{evs_after-Finished, Found-start}
use cd_praticas.Protocol.Transitional.{Left-none}

-- The function returns a window that is still of the kind `Ready`.
abbrev ReturnsReady : Option Window → Type 0
ReturnsReady m = (v : Window) × (m ≡ some v) × Ready v.packets v.up_queue

>>=-ReturnsReady :
    (m : Option Window) (f : Window → Option Window) (v : Window)
    → m ≡ some v
    → ReturnsReady (f v)
    → ReturnsReady (m >>= f)
>>=-ReturnsReady m f v e r = rw e r

waiting-Goes :
    (e : ℕ) (w : Window)
    → Ready w.packets w.up_queue
    → (v : Window) × (deliver_waiting e w ≡ some v) × Goes w v
waiting-Goes e w r = elim (Bool-cases ((w.packets e).exist == 1)) [
  | inl waits ↦ let (v, h, g) = delivered-Goes e w r (ground arith) in (v, rw waits h, g)
  | inr passed ↦ (w, rw passed refl, (r, λ j u. u))
]

evs_before-Returns :
    (k i : ℕ) (w : Window)
    → Ready w.packets w.up_queue
    → k ≤ 8192
    → There w i k
    → ReturnsReady (evs_before k i w)
unfolding evs_before
evs_before-Returns zero i w r few t = (w, refl, r)
evs_before-Returns (suc k) i w r few t =
    let info = w.packets (pack_entry i) in
    let used : info.exist == 0 ≡ false = ground (arith, t i) in
    elim (Bool-cases (info.exist == 3)) [
      | inl hole ↦ rw (used, hole) (w, refl, r)
      | inr packet ↦ elim (Bool-cases (is_safe info.head.type)) [
        | inl safe ↦ rw (used, packet, safe) (w, refl, r)
        | inr plain ↦
            let (v, one, (q, keeps)) = waiting-Goes (pack_entry i) w r in
            let d = dispose_at-Ready i v q in
            rw (used, packet, plain)
              (>>=-ReturnsReady _ _ v one (
                evs_before-Returns k (suc i) (record (dispose_at i v) { last_discarded = i })
                  (record { clear = d.clear; idle = d.idle }) (omega arith)
                  (There-dispose w v i k (omega arith) keeps t)))
      ]
    ]

evs_after-Returns :
    (committed : ℕ → Bool) (k i : ℕ) (found : Bool) (w : Window)
    → Ready w.packets w.up_queue
    → k ≤ 8192
    → There w i k
    → ReturnsReady (evs_after committed k i found w)
unfolding evs_after
evs_after-Returns committed zero i found w r few t = (w, refl, r)
evs_after-Returns committed (suc k) i found w r few t =
    let info = w.packets (pack_entry i) in
    let used : info.exist == 0 ≡ false = ground (arith, t i) in
    let go = λ (found' : Bool) (v : Window) (g : Goes w v).
      evs_after-Returns committed k (suc i) found' (dispose_at i v) (dispose_at-Ready i v g.0)
        (omega arith) (There-dispose w v i k (omega arith) g.1 t) in
    let stay : Goes w w = (r, λ j u. u) in
    elim (Bool-cases (info.exist == 3)) [
      | inl hole ↦ rw (used, hole) (go true w stay)
      | inr packet ↦ elim (Bool-cases (not found || committed info.head.proc_id)) [
        | inr dropped ↦ rw (used, packet, dropped) (go found w stay)
        | inl goes_up ↦
            let (v, one, g) = waiting-Goes (pack_entry i) w r in
            rw (used, packet, goes_up) (>>=-ReturnsReady _ _ v one (go found v g))
      ]
    ]

all_free-empty : (n : ℕ) (w : Window) → ((e : ℕ) → (w.packets e).exist ≡ 0) → all_free n w ≡ true
unfolding all_free
all_free-empty zero w free = refl
all_free-empty (suc n) w free = rw (free n, all_free-empty n w free) refl

-- Where all daemons of the old ring have its packets, the numbers after `Last_discarded` are packets
-- or holes, the first message of each packet that waits is whole, its other fragments state lengths that are
-- not negative, and no message waits for its next fragment, `Discard_packets` passes through to the next
-- membership.
pub discard_evs-Returns :
    (committed : ℕ → Bool) (last_seq : ℕ) (w : Window)
    → Left w.packets (suc w.last_discarded) w.highest_seq
    → w.last_discarded < w.aru
    → w.last_discarded ≤ w.highest_seq
    → w.aru ≡ last_seq
    → Ready w.packets w.up_queue
    → (tr : Transition) × (discard_evs committed last_seq w ≡ some (some tr))
unfolding discard_evs
discard_evs-Returns committed last_seq w l more le level r =
    let behind : leb w.aru w.last_discarded ≡ false = ground arith in
    let all : w.aru == last_seq ≡ true = ground arith in
    let (s, one, rs) =
      evs_before-Returns (w.highest_seq - w.last_discarded) (suc w.last_discarded) w r
        (omega (arith, l.span)) (λ j lo hi. l.full j lo (omega arith)) in
    let b =
      evs_before-Before w.packets (w.highest_seq - w.last_discarded) (suc w.last_discarded)
        w.highest_seq w s l (λ j x y. refl) (omega arith) refl refl one in
    let (v, two, rv) =
      evs_after-Returns committed (s.highest_seq - s.last_discarded) (suc s.last_discarded) false s
        rs (omega (arith, b.left.span, b.highest_seq))
        (λ j lo hi. b.left.full j lo (omega (arith, b.highest_seq))) in
    let f =
      evs_after-Finished committed w.packets s.last_discarded (s.highest_seq - s.last_discarded)
        (suc s.last_discarded) w.highest_seq false s v (omega arith)
        (omega (arith, b.highest_seq, b.within)) b.left (λ j x y. b.kept j (omega arith) y)
        (Found-start w.packets s.last_discarded) two in
    let free = all_free-empty max_packets_in_struct v (Left-none v.packets w.highest_seq f.left) in
    let tr : Transition = record { signal = s; final = next_membership v } in
    (tr, rw (behind, all, one, two, free) refl)
