-- ===== src/Protocol/PackingTotal.antt =====
-- Making a packet comes to an end without an alarm, and the packet gets its number.
use mathlib.Core.Path.{sym, ap}
use cd_praticas.Prelude.{
  ℕ, zero, suc, ◌+◌, ◌<◌, ◌≤◌, ◌≡◌, refl, ◌∙◌, inl, inr, List, ◌∷◌, Option, none, some, arith,
  Bool-cases, Option-cases, none-ne-some, >>=-eq-some, eq_of_some,
}
use cd_praticas.Prelude.Int.{ℤ}
use cd_praticas.Protocol.Types.{PacketHeader, PacketBody, MembershipId}
use cd_praticas.Protocol.Total.{Returns, >>=-Returns}
use cd_praticas.Protocol.Pack.{
  Fragment, DownLink, DownQueue, Filling, body_size, put_index, take_fragment, next_fragment, fits,
  append_fragment, fill, new_packet, fill_fuel, first_filling,
}
use cd_praticas.Protocol.Queue.{
  IsSound, take_fragment-pending, next_fragment-Returns, take_fragment-Returns,
}
use cd_praticas.Protocol.Packing.{data_len-put_index}

fill-Returns :
    (fuel : ℕ) (p : Filling) (q : DownQueue) (x : DownLink × Fragment)
    → IsSound q
    → next_fragment q ≡ some x
    → p.head.data_len ≤ body_size
    → body_size < fuel + p.head.data_len
    → Returns (fill fuel p q)
unfolding fill
fill-Returns zero p q x s n small fuel = absurd (omega arith)
fill-Returns (suc fuel) p q x s n small enough =
    let (taken, t) = take_fragment-Returns q.cur_element q.links x s n in
    let (_, sound) = take_fragment-pending q.links q.cur_element x.0 x.1 taken.0 taken.1 s n t in
    let packet = put_index p.frag taken.0 p.head p.body in
    let (same, _) = data_len-put_index p.frag taken.0 p.head p.body in
    elim (Option-cases (next_fragment taken.1)) [
      | inl none_left ↦ >>=-Returns _ t (rw none_left (_, refl))
      | inr ((m, e2), following) ↦ elim (Bool-cases (fits packet.0 m e2)) [
        | inr full ↦ >>=-Returns _ t (rw (following, full) (_, refl))
        | inl room ↦ >>=-Returns _ t (
            rw (following, room)
              (fill-Returns fuel (append_fragment packet.0 packet.1 e2) taken.1 (m, e2) sound
                following (ground arith) (omega (arith, same))))
      ]
    ]

pub new_packet-Returns :
    (my_id : ℕ) (memb_id : MembershipId) (seq cur : ℕ) (l : DownLink) (ls : List DownLink)
    → IsSound (record { links = l ∷ ls; cur_element = cur })
    → Returns (new_packet my_id memb_id seq (record { links = l ∷ ls; cur_element = cur }))
unfolding new_packet
new_packet-Returns my_id memb_id seq cur l ls s =
    let q : DownQueue = record { links = l ∷ ls; cur_element = cur } in
    let (x, n, small) = next_fragment-Returns l ls cur s in
    rw n
      (fill-Returns fill_fuel (first_filling my_id memb_id seq x.0 x.1) q x s n small (omega arith))

seq-put_index :
    (o : Option ℕ) (x : ℤ) (h : PacketHeader) (b : PacketBody) → (put_index o x h b).0.seq ≡ h.seq
seq-put_index none x h b = refl
seq-put_index (some o) x h b = refl

seq-fill :
    (fuel : ℕ) (p : Filling) (q : DownQueue) (out : PacketHeader × PacketBody × DownQueue)
    → fill fuel p q ≡ some out
    → out.0.seq ≡ p.head.seq
unfolding fill
seq-fill zero p q out f = absurd (none-ne-some f)
seq-fill (suc fuel) p q out f =
    let (taken, t, rest) = >>=-eq-some (take_fragment q.cur_element q.links) _ f in
    let packet = put_index p.frag taken.0 p.head p.body in
    let same = seq-put_index p.frag taken.0 p.head p.body in
    let stop = λ (e : some (packet.0, packet.1, taken.1) ≡ some out).
      sym (ap (λ (r : PacketHeader × PacketBody × DownQueue). r.0.seq) (eq_of_some e)) ∙ same in
    elim (Option-cases (next_fragment taken.1)) [
      | inl none_left ↦ stop (rw none_left at rest)
      | inr ((m, e2), following) ↦ elim (Bool-cases (fits packet.0 m e2)) [
        | inr full ↦ stop (rw (following, full) at rest)
        | inl room ↦
            seq-fill fuel (append_fragment packet.0 packet.1 e2) taken.1 out
              (rw (following, room) at rest)
            ∙ same
      ]
    ]

pub seq-new_packet :
    (my_id : ℕ) (memb_id : MembershipId) (seq : ℕ) (q : DownQueue)
    (out : PacketHeader × PacketBody × DownQueue)
    → new_packet my_id memb_id seq q ≡ some out
    → out.0.seq ≡ seq
unfolding new_packet
seq-new_packet my_id memb_id seq q out made =
    let (x, n, filled) = >>=-eq-some (next_fragment q) _ made in
    seq-fill fill_fuel (first_filling my_id memb_id seq x.0 x.1) q out filled
