-- ===== src/Protocol/Send.antt =====
-- `Send_new_packets`, `Prot_queue_bcast` and `Prot_flush_bcast`: new packets get their numbers, are
-- stored in the window and sent, or wait in the queue of an accelerated ring.
use cd_praticas.Prelude.{
  ℕ, zero, suc, List, [], ◌∷◌, ◌++◌, Bool, not, ◌||◌, Option, none, some, ltb, ◌==◌, if◌then◌else◌,
  length, take, drop, map, ◌>>=◌,
}
use cd_praticas.Prelude.Int.{ℤ, pos, pos_part, ◌+ℤ◌, ◌-ℤ◌, eqb_ℤ}
use cd_praticas.Protocol.Types.{Window, PacketHeader, PacketBody, MembershipId, pack_entry, update}
use cd_praticas.Protocol.Pack.{DownQueue, new_packet}

-- A packet in the queue shares its header and body with the entry of the window.
abbrev pub Packet : Type 0
Packet = PacketHeader × PacketBody

abbrev pub stamp : ℕ → Packet → Packet
stamp token_rounds (h, b) = (record h { token_round = token_rounds }, b)

-- How many packets leave the queue for a new one.
unfoldable pub num_pack_to_send : Bool → ℤ → ℕ → ℕ
num_pack_to_send accelerated window num_packets =
    let wanted = pos_part (pos num_packets -ℤ window +ℤ pos 1) in
    if not accelerated then num_packets else if ltb num_packets wanted then num_packets else wanted

-- Returns what was sent, in order, and the queue. `accelerated` is `FC_accelerated_ring()` outside of
-- the state EVS.
unfoldable pub queue_bcast : Bool → ℤ → ℕ → Packet → List Packet → List Packet × List Packet
queue_bcast accelerated window token_rounds p q =
    let k = num_pack_to_send accelerated window (length q) in
    let old = map (stamp token_rounds) (take k q) in
    if not accelerated || eqb_ℤ window (pos 0)
    then (old ++ (stamp token_rounds p ∷ []), drop k q)
    else (old, drop k q ++ (p ∷ []))

unfoldable pub flush_bcast : ℕ → List Packet → List Packet × List Packet
flush_bcast token_rounds q = (map (stamp token_rounds) q, [])

-- The daemon's own values that stay the same in the loop.
pub record Sender : Type 0 where
  pub my_id : ℕ
  pub my_index : ℕ
  pub memb_id : MembershipId
  pub accelerated : Bool
  pub accelerated_window : ℤ
  pub token_rounds : ℕ

pub record Sending : Type 0 where
  pub window : Window
  pub down : DownQueue
  pub waiting : List Packet
  pub network : List Packet
  pub num_sent : ℕ

abbrev pub insert_own : Sender → PacketHeader → PacketBody → Window → Window
insert_own s h b w = record w {
  packets =
      update w.packets (pack_entry h.seq)
        (record { head = h; body = b; exist = 1; proc_index = s.my_index });
  highest_seq = suc w.highest_seq;
}

-- One packet is made, sent or queued, and stored.
unfoldable pub send_one : Sender → Sending → Option Sending
send_one s x = new_packet s.my_id s.memb_id (suc x.window.highest_seq) x.down >>= λ made.
    let (h, b, q) = made in
    let (sent, waiting) =
      queue_bcast s.accelerated s.accelerated_window s.token_rounds (h, b) x.waiting in
    if not ((x.window.packets (pack_entry h.seq)).exist == 0)
    then none
    else some (record {
      window = insert_own s h b x.window;
      down = q;
      waiting = waiting;
      network = x.network ++ sent;
      num_sent = suc x.num_sent;
    })

-- `num_allowed` rounds at most, as long as messages wait.
unfoldable pub send_new_packets : ℕ → Sender → Sending → Option Sending
send_new_packets zero s x = some x
send_new_packets (suc k) s x =
    let rest = send_new_packets k s in
    if length x.down.links == 0 then some x else (send_one s x >>= rest)
