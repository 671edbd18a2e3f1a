-- ===== src/Protocol/Sending.antt =====
-- `Send_new_packets` keeps the window's invariant and returns; the queue of an accelerated ring keeps
-- the order.
use mathlib.Core.Path.{subst, sym, ap}
use mathlib.Core.List.{map-append, append-nil, append_assoc}
use cd_praticas.Prelude.{
  ℕ, zero, suc, ◌+◌, ◌-◌, ◌≤◌, ◌<◌, ◌≡◌, ◌≢◌, ◌⊎◌, refl, ◌∙◌, inl, inr, List, [], ◌∷◌, ◌++◌, Bool,
  true, false, not, ◌||◌, some, ◌==◌, length, take, drop, map, arith, Bool-cases, >>=-eq-some,
  eq_of_some, none-ne-some, length-append, length-drop, append-take-drop, take-length, drop-length,
}
use cd_praticas.Prelude.Int.{ℤ, pos, pos_part, neg_part, ◌+ℤ◌, ◌-ℤ◌, eqb_ℤ, ◌≤ℤ◌}
use cd_praticas.Protocol.Types.{
  Window, PacketInfo, PacketHeader, PacketBody, MembershipId, pack_entry,
}
use cd_praticas.Protocol.Moves.{Inv-store}
use cd_praticas.Protocol.Delivery.{IsValid}
use cd_praticas.Protocol.Total.{Returns, >>=-Returns}
use cd_praticas.Protocol.Pack.{DownQueue, DownLink, new_packet}
use cd_praticas.Protocol.Queue.{IsSound}
use cd_praticas.Protocol.Packing.{unpack-new_packet}
use cd_praticas.Protocol.PackingTotal.{new_packet-Returns, seq-new_packet}
use cd_praticas.Protocol.Send.{
  Packet, stamp, num_pack_to_send, queue_bcast, Sender, Sending, insert_own, send_one,
  send_new_packets,
}

insert_own-IsValid :
    (s : Sender) (h : PacketHeader) (b : PacketBody) (w : Window)
    → IsValid w
    → h.seq ≡ suc w.highest_seq
    → suc w.highest_seq ≤ w.last_discarded + 8192
    → (w.packets (pack_entry h.seq)).exist ≡ 0
    → IsValid (insert_own s h b w)
insert_own-IsValid s h b w v number room free =
    Inv-store w.packets w.last_discarded w.last_delivered w.aru w.my_aru w.highest_seq w.trace v
      (record { head = h; body = b; exist = 1; proc_index = s.my_index }) (suc w.highest_seq)
      (omega (arith, number, v.below, v.discarded)) (omega (arith, number)) (omega arith) room free
      refl

-- The entry of the next number is free.
next_free :
    (w : Window) (n : ℕ)
    → IsValid w
    → n ≡ suc w.highest_seq
    → n ≤ w.last_discarded + 8192
    → (w.packets (pack_entry n)).exist ≡ 0
next_free w n v number room = ground (arith, v.owns (pack_entry n), v.below, v.discarded)

-- The queue of an accelerated ring loses no packet and keeps the order, whatever its window.
queue_bcast-keeps :
    (accelerated : Bool) (window : ℤ) (token_rounds : ℕ) (p : Packet) (q : List Packet)
    → let (sent, waiting) = queue_bcast accelerated window token_rounds p q in
      sent ++ map (stamp token_rounds) waiting ≡ map (stamp token_rounds) (q ++ (p ∷ []))
unfolding queue_bcast num_pack_to_send ◌+ℤ◌ ◌-ℤ◌
queue_bcast-keeps accelerated window token_rounds p q =
    let n = length q in
    let k = num_pack_to_send accelerated window n in
    elim (Bool-cases (not accelerated || eqb_ℤ window (pos 0))) [
      | inl direct ↦
          let all : k ≡ n = ground arith in
          rw (direct, all, take-length q, drop-length q) (simp (map-append, append-nil))
      | inr queued ↦ rw queued (
          sym (map-append (stamp token_rounds) (take k q) (drop k q ++ (p ∷ [])))
          ∙ ap (map (stamp token_rounds)) (
              sym (append_assoc (take k q) (drop k q) (p ∷ []))
              ∙ ap (λ z. z ++ (p ∷ [])) (append-take-drop k q)))
    ]

-- What was sent, and then what waits to be sent, with the round that it is sent in.
abbrev pub outgoing : Sender → Sending → List Packet
outgoing s x = x.network ++ map (stamp s.token_rounds) x.waiting

-- The entry of a packet of the daemon's own that waits for its delivery.
abbrev pub own_info : Sender → Packet → PacketInfo
own_info s (h, b) = record { head = h; body = b; exist = 1; proc_index = s.my_index }

-- One packet more.
record Sent (s : Sender) (x y : Sending) : Type 0 where
  packet : Packet
  number : packet.0.seq ≡ suc x.window.highest_seq
  stored : y.window.packets (pack_entry (suc x.window.highest_seq)) ≡ own_info s packet
  others :
      (e : ℕ) → e ≢ pack_entry (suc x.window.highest_seq) → y.window.packets e ≡ x.window.packets e
  out : outgoing s y ≡ outgoing s x ++ (stamp s.token_rounds packet ∷ [])
  valid : IsValid y.window
  highest_seq : y.window.highest_seq ≡ suc x.window.highest_seq
  last_discarded : y.window.last_discarded ≡ x.window.last_discarded
  num_sent : y.num_sent ≡ suc x.num_sent

send_one-Sent :
    (s : Sender) (x y : Sending)
    → IsValid x.window
    → suc x.window.highest_seq ≤ x.window.last_discarded + 8192
    → send_one s x ≡ some y
    → Sent s x y
unfolding send_one
send_one-Sent s x y v room e =
    let ((h, b, q), made, rest) =
      >>=-eq-some (new_packet s.my_id s.memb_id (suc x.window.highest_seq) x.down) _ e in
    let number =
      seq-new_packet s.my_id s.memb_id (suc x.window.highest_seq) x.down (h, b, q) made in
    let free = next_free x.window h.seq v number (omega (arith, number)) in
    let go : (x.window.packets (pack_entry h.seq)).exist == 0 ≡ true = ground (arith, free) in
    let queue = queue_bcast s.accelerated s.accelerated_window s.token_rounds (h, b) x.waiting in
    let keeps =
      queue_bcast-keeps s.accelerated s.accelerated_window s.token_rounds (h, b) x.waiting in
    subst (Sent s x) (eq_of_some (rw go at rest)) (record {
      packet = (h, b);
      number = number;
      stored =
          let hit : pack_entry h.seq == pack_entry (suc x.window.highest_seq) ≡ true =
            ground (arith, number) in
          rw hit refl;
      others =
          λ e ne. let miss : pack_entry h.seq == e ≡ false = ground (arith, number) in rw miss refl;
      out =
          append_assoc x.network queue.0 (map (stamp s.token_rounds) queue.1)
          ∙ ap (λ z. x.network ++ z)
              (keeps ∙ map-append (stamp s.token_rounds) x.waiting ((h, b) ∷ []))
          ∙ sym (
              append_assoc x.network (map (stamp s.token_rounds) x.waiting)
                (stamp s.token_rounds (h, b) ∷ []));
      valid = insert_own-IsValid s h b x.window v number room free;
      highest_seq = refl;
      last_discarded = refl;
      num_sent = refl;
    })

-- The packets have the numbers from `n` on, without a gap.
abbrev pub Numbered : ℕ → List Packet → Type 0
Numbered n [] = Unit {0}
Numbered n (p ∷ ps) = (p.0.seq ≡ n) × Numbered (suc n) ps

-- The packets stand in the entries from the one of `n` on.
abbrev pub Stored : Sender → Window → ℕ → List Packet → Type 0
Stored s w n [] = Unit {0}
Stored s w n (p ∷ ps) = (w.packets (pack_entry n) ≡ own_info s p) × Stored s w (suc n) ps

-- The new packets: at most `k`, and fewer only where the queue of messages is empty. They are numbered behind
-- the highest number, stored in the window, and sent or waiting to be sent behind all others.
pub record SentAll (k : ℕ) (s : Sender) (x y : Sending) : Type 0 where
  pub packets : List Packet
  pub numbered : Numbered (suc x.window.highest_seq) packets
  pub stored : Stored s y.window (suc x.window.highest_seq) packets
  -- The entries of earlier numbers in the window stay.
  pub others :
      (n : ℕ)
      → n ≤ x.window.highest_seq
      → x.window.highest_seq + k < n + 8192
      → y.window.packets (pack_entry n) ≡ x.window.packets (pack_entry n)
  pub out : outgoing s y ≡ outgoing s x ++ map (stamp s.token_rounds) packets
  pub highest_seq : y.window.highest_seq ≡ x.window.highest_seq + length packets
  pub num_sent : y.num_sent ≡ x.num_sent + length packets
  pub at_most : length packets ≤ k
  pub all : (length packets ≡ k) ⊎ (length y.down.links ≡ 0)
  pub valid : IsValid y.window
  pub last_discarded : y.window.last_discarded ≡ x.window.last_discarded

SentAll-none :
    (k : ℕ) (s : Sender) (x : Sending)
    → IsValid x.window
    → (0 ≡ k) ⊎ (length x.down.links ≡ 0)
    → SentAll k s x x
SentAll-none k s x v why = record {
  packets = [];
  numbered = tt;
  stored = tt;
  others = λ n lo hi. refl;
  out = sym (append-nil (outgoing s x));
  highest_seq = omega arith;
  num_sent = omega arith;
  at_most = omega arith;
  all = why;
  valid = v;
  last_discarded = refl;
}

SentAll-suc :
    (k : ℕ) (s : Sender) (x z y : Sending)
    → x.window.highest_seq + suc k ≤ x.window.last_discarded + 8192
    → x.window.last_discarded ≤ x.window.highest_seq
    → Sent s x z
    → SentAll k s z y
    → SentAll (suc k) s x y
SentAll-suc k s x z y room below first rest =
    let next = suc x.window.highest_seq in
    let at = first.highest_seq in
    record {
      packets = first.packet ∷ rest.packets;
      numbered = (first.number, subst (λ n. Numbered (suc n) rest.packets) at rest.numbered);
      stored = (rest_keeps, subst (λ n. Stored s y.window (suc n) rest.packets) at rest.stored);
      others = λ n lo hi.
          rest.others n (omega (arith, at)) (omega (arith, at))
          ∙ first.others (pack_entry n) (omega arith);
      out =
          rest.out
          ∙ ap (λ t. t ++ map (stamp s.token_rounds) rest.packets) first.out
          ∙ append_assoc (outgoing s x) (stamp s.token_rounds first.packet ∷ [])
              (map (stamp s.token_rounds) rest.packets);
      highest_seq = omega (arith, rest.highest_seq, at);
      num_sent = omega (arith, rest.num_sent, first.num_sent);
      at_most = omega (arith, rest.at_most);
      all = elim rest.all [ inl full ↦ inl (omega (arith, full)) | inr empty ↦ inr empty ];
      valid = rest.valid;
      last_discarded = rest.last_discarded ∙ first.last_discarded;
    }
  where
    rest_keeps : y.window.packets (pack_entry (suc x.window.highest_seq)) ≡ own_info s first.packet
    rest_keeps =
        rest.others (suc x.window.highest_seq) (omega (arith, first.highest_seq))
          (omega (arith, first.highest_seq))
        ∙ first.stored

pub send_new_packets-SentAll :
    (k : ℕ) (s : Sender) (x y : Sending)
    → IsValid x.window
    → x.window.highest_seq + k ≤ x.window.last_discarded + 8192
    → send_new_packets k s x ≡ some y
    → SentAll k s x y
unfolding send_new_packets
send_new_packets-SentAll zero s x y v room e =
    subst (SentAll 0 s x) (eq_of_some e) (SentAll-none 0 s x v (inl refl))
send_new_packets-SentAll (suc k) s x y v room e = elim (Bool-cases (length x.down.links == 0)) [
  | inl empty ↦
      subst (SentAll (suc k) s x) (eq_of_some (rw empty at e))
        (SentAll-none (suc k) s x v (inr (ground arith)))
  | inr waits ↦
      let (z, one, rest) = >>=-eq-some (send_one s x) (send_new_packets k s) (rw waits at e) in
      let first = send_one-Sent s x z v (omega arith) one in
      SentAll-suc k s x z y room (omega (arith, v.below, v.discarded)) first (
        send_new_packets-SentAll k s z y first.valid
          (omega (arith, first.highest_seq, first.last_discarded)) rest)
]

send_one-IsSound :
    (s : Sender) (x y : Sending) → IsSound x.down → send_one s x ≡ some y → IsSound y.down
unfolding send_one
send_one-IsSound s x y sound e =
    let seq = suc x.window.highest_seq in
    let ((h, b, q), made, rest) = >>=-eq-some (new_packet s.my_id s.memb_id seq x.down) _ e in
    let (_, _, _, sound') = unpack-new_packet s.my_id s.memb_id seq x.down q h b sound made in
    elim (Bool-cases ((x.window.packets (pack_entry h.seq)).exist == 0)) [
      | inl go ↦ subst (λ (z : Sending). IsSound z.down) (eq_of_some (rw go at rest)) sound'
      | inr taken ↦ absurd (none-ne-some (rw taken at rest))
    ]

waiting_packet :
    (my_id : ℕ) (memb_id : MembershipId) (seq : ℕ) (d : DownQueue)
    → IsSound d
    → length d.links == 0 ≡ false
    → Returns (new_packet my_id memb_id seq d)
waiting_packet my_id memb_id seq d sound waits = go d.links d.cur_element sound waits
  where
    go :
        (ls : List DownLink) (cur : ℕ)
        → IsSound (record { links = ls; cur_element = cur })
        → length ls == 0 ≡ false
        → Returns (new_packet my_id memb_id seq (record { links = ls; cur_element = cur }))
    go [] cur sound waits = cc waits
    go (l ∷ ls) cur sound waits = new_packet-Returns my_id memb_id seq cur l ls sound

send_one-Returns :
    (s : Sender) (x : Sending)
    → IsValid x.window
    → IsSound x.down
    → length x.down.links == 0 ≡ false
    → suc x.window.highest_seq ≤ x.window.last_discarded + 8192
    → Returns (send_one s x)
unfolding send_one
send_one-Returns s x v sound waits room =
    let seq = suc x.window.highest_seq in
    let ((h, b, q), made) = waiting_packet s.my_id s.memb_id seq x.down sound waits in
    let number = seq-new_packet s.my_id s.memb_id seq x.down (h, b, q) made in
    let free = next_free x.window h.seq v number (omega (arith, number)) in
    let go : (x.window.packets (pack_entry h.seq)).exist == 0 ≡ true = ground (arith, free) in
    >>=-Returns _ made (rw go (_, refl))

returns :
    (k : ℕ) (s : Sender) (x : Sending)
    → IsValid x.window
    → IsSound x.down
    → x.window.highest_seq + k ≤ x.window.last_discarded + 8192
    → Returns (send_new_packets k s x)
unfolding send_new_packets
returns zero s x v sound room = (x, refl)
returns (suc k) s x v sound room = elim (Bool-cases (length x.down.links == 0)) [
  | inl empty ↦ rw empty (x, refl)
  | inr waits ↦
      let (z, one) = send_one-Returns s x v sound waits (omega arith) in
      let first = send_one-Sent s x z v (omega arith) one in
      rw (waits, one)
        (returns k s z first.valid (send_one-IsSound s x z sound one)
          (omega (arith, first.highest_seq, first.last_discarded)))
]

-- For a valid window with room for `k` packets and a queue of sound messages, `Send_new_packets`
-- returns: it makes `k` packets, or fewer if no message is left, numbers them without a gap behind the highest
-- number, stores them in the window, which stays valid, and sends them or lets them wait to be sent, behind
-- all others and in their order.
pub send_new_packets-Returns :
    (k : ℕ) (s : Sender) (x : Sending)
    → IsValid x.window
    → IsSound x.down
    → x.window.highest_seq + k ≤ x.window.last_discarded + 8192
    → (y : Sending) × (send_new_packets k s x ≡ some y) × SentAll k s x y
send_new_packets-Returns k s x v sound room =
    let (y, e) = returns k s x v sound room in (y, e, send_new_packets-SentAll k s x y v room e)

-- The queue of an accelerated ring hands packets on in the order they came in, and holds no more than
-- the accelerated window.
pub queue_bcast-fifo :
    (accelerated : Bool) (window : ℤ) (token_rounds : ℕ) (p : Packet) (q : List Packet)
    → pos 0 ≤ℤ window
    → let (sent, waiting) = queue_bcast accelerated window token_rounds p q in
      (sent ++ map (stamp token_rounds) waiting ≡ map (stamp token_rounds) (q ++ (p ∷ [])))
      × (pos (length waiting) ≤ℤ window)
unfolding queue_bcast num_pack_to_send ◌+ℤ◌ ◌-ℤ◌
queue_bcast-fifo accelerated window token_rounds p q pos_window =
    (queue_bcast-keeps accelerated window token_rounds p q, few)
  where
    few : pos (length (queue_bcast accelerated window token_rounds p q).1) ≤ℤ window
    few =
        let n = length q in
        let k = num_pack_to_send accelerated window n in
        elim (Bool-cases (not accelerated || eqb_ℤ window (pos 0))) [
          | inl direct ↦
              let all : k ≡ n = ground arith in rw (direct, all, drop-length q) (omega arith)
          | inr queued ↦
              let few : n - k + 1 + neg_part window ≤ pos_part window = ground arith in
              rw queued (omega (arith, length-append (drop k q) (p ∷ []), length-drop k q))
        ]
