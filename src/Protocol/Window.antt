-- ===== src/Protocol/Window.antt =====
-- protocol.c: `Deliver_packet`, the three functions that call it, and the part of `Prot_handle_bcast`
-- that stores a packet of the daemon's own ring. `none` is a fatal alarm, which ends the daemon.
use cd_praticas.Prelude.{
  ℕ, zero, suc, ◌+◌, ◌-◌, List, [], ◌∷◌, ◌++◌, Bool, not, ◌&&◌, Option, none, some, ltb, leb, ◌==◌,
  if◌then◌else◌, length, map, ◌>>=◌,
}
use cd_praticas.Prelude.Int.{ℤ, pos, negsuc, pos_part, neg_part, ltb_ℤ, eqb_ℤ}
use cd_praticas.Protocol.Types.{
  Window, PacketHeader, PacketBody, Message, is_reliable, is_safe, is_regular, is_evs, pack_entry,
  max_procs_ring, reliable_type, agreed_type, update,
}
use cd_praticas.Protocol.Body.{unpack, bytes}

-- A reliable message in one packet, which may be delivered ahead of the order.
abbrev pub is_single : PacketHeader → Bool
is_single h = is_reliable h.type && eqb_ℤ h.first_frag_header.fragment_index (negsuc 0)

abbrev pub chain_of : Option Message → Message
chain_of none = []
chain_of (some m) = m

-- Where the fragment is the last of its message, the message goes up, and the queue is empty again.
-- `extra` are the whole messages behind the first fragment.
abbrev push_up : Window → ℕ → PacketHeader → Message → List (List ℕ) → Window
push_up w proc_index h chain extra =
    if ltb_ℤ h.first_frag_header.fragment_index (pos 0)
    then record w {
      up_queue = update w.up_queue proc_index none;
      sess = w.sess ++ (chain ∷ []) ++ map (λ x. x ∷ []) extra;
    }
    else record w {
      up_queue = update w.up_queue proc_index (some chain);
      sess = w.sess ++ map (λ x. x ∷ []) extra;
    }

-- The flag `to_copy` decides only which buffer the session gets, and is left out.
unfoldable pub deliver_packet : ℕ → Window → Option Window
deliver_packet entry w =
    let info = w.packets entry in
    let h = info.head in
    let frag = h.first_frag_header in
    let proc_index = if is_single h then max_procs_ring else info.proc_index in
    let chain = chain_of (w.up_queue proc_index) ++ (bytes info.body 0 frag.fragment_len ∷ []) in
    let index = pos_part frag.fragment_index + neg_part frag.fragment_index in
    let w' = record w {
      packets = update w.packets entry (record info { exist = 2 });
      packet_delivered = w.packet_delivered + 1;
      trace = h ∷ w.trace;
    } in
    unpack (suc h.data_len) info.body h.data_len frag.fragment_len >>= λ extra.
    if length chain == index then some (push_up w' proc_index h chain extra) else none

-- `Deliver_packet` at the packets `i`, `i + 1`, … that are reliable single-packet messages and wait.
unfoldable pub reliable_loop : ℕ → ℕ → Window → Option Window
reliable_loop zero i w = some w
reliable_loop (suc k) i w =
    let info = w.packets (pack_entry i) in
    (if info.exist == 1 && is_single info.head then deliver_packet (pack_entry i) w else some w)
    >>= reliable_loop k (suc i)

-- `end_seq + 1` is `start_seq + num_packets`.
unfoldable pub deliver_reliable_packets : ℕ → ℕ → Window → Option Window
deliver_reliable_packets start_seq num_packets w =
    let start = if leb start_seq w.last_delivered then suc w.last_delivered else start_seq in
    if is_evs w.memb_state
    then some w
    else if ltb reliable_type w.delivery_threshold
    then some w
    else reliable_loop (start_seq + num_packets - start) start w

abbrev pub delivered_one : Window → Window
delivered_one w = record w { last_delivered = suc w.last_delivered }

-- One round of the loop of `Deliver_agreed_packets`, before the rounds `rest`.
unfoldable pub agreed_round : ℕ → Window → (Window → Option Window) → Option Window
agreed_round i w rest =
    let info = w.packets (pack_entry i) in
    if info.exist == 1
    then if is_safe info.head.type
      then some w
      else (deliver_packet (pack_entry i) w >>= λ v. rest (delivered_one v))
    else if info.exist == 2
    then if leb agreed_type (is_regular info.head.type) then none else rest (delivered_one w)
    else none

unfoldable pub agreed_loop : ℕ → ℕ → Window → Option Window
agreed_loop zero i w = some w
agreed_loop (suc k) i w = agreed_round i w (agreed_loop k (suc i))

unfoldable pub deliver_agreed_packets : Window → Option Window
deliver_agreed_packets w =
    if leb w.my_aru w.last_delivered
    then some w
    else if is_evs w.memb_state
    then some w
    else if ltb agreed_type w.delivery_threshold
    then some w
    else agreed_loop (w.my_aru - w.last_delivered) (suc w.last_delivered) w

abbrev pub dispose_at : ℕ → Window → Window
dispose_at i w = record w {
  packets = update w.packets (pack_entry i) (record (w.packets (pack_entry i)) { exist = 0 });
}

-- The loop of `Discard_packets` outside of the state EVS.
unfoldable pub discard_loop : ℕ → ℕ → Window → Option Window
discard_loop zero i w = some w
discard_loop (suc k) i w =
    let exist = (w.packets (pack_entry i)).exist in
    (if exist == 0 then none else if exist == 1 then deliver_packet (pack_entry i) w else some w)
    >>= λ v. discard_loop k (suc i) (dispose_at i v)

-- `Discard_packets` outside of the state EVS: all daemons have the packets up to `Aru`.
unfoldable pub discard_packets : Window → Option Window
discard_packets w =
    if leb w.aru w.last_discarded
    then some w
    else (discard_loop (w.aru - w.last_discarded) (suc w.last_discarded) w >>= λ v. some (record v {
      last_discarded = v.aru;
      last_delivered = if ltb v.last_delivered v.aru then v.aru else v.last_delivered;
    }))

-- The loop that raises `My_aru` over the packets that are there.
unfoldable pub advance : ℕ → ℕ → Window → Window
advance zero i w = w
advance (suc k) i w =
    if (w.packets (pack_entry i)).exist == 0
    then w
    else advance k (suc i) (record w { my_aru = suc w.my_aru })

-- `Prot_handle_bcast` from the test whether the packet is new, for a packet in the byte order of the
-- host. `proc_index` is the answer of `Conf_proc_by_id`.
unfoldable pub handle_regular : PacketHeader → PacketBody → ℤ → Window → Option Window
handle_regular h b proc_index w =
    let entry = pack_entry h.seq in
    let highest = if ltb w.highest_seq h.seq then h.seq else w.highest_seq in
    let stored = record w {
      packets =
          update w.packets entry
            (record { head = h; body = b; exist = 1; proc_index = pos_part proc_index });
      highest_seq = highest;
    } in
    if leb h.seq w.last_discarded
    then some w
    else if not ((w.packets entry).exist == 0)
    then some w
    else if ltb_ℤ proc_index (pos 0)
    then some w
    else if h.seq == suc w.my_aru
    then deliver_agreed_packets (advance (suc highest - h.seq) h.seq stored)
    else deliver_reliable_packets h.seq 1 stored
