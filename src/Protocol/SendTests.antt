-- ===== src/Protocol/SendTests.antt =====
-- Runs of protocol.c that make packets and that end a membership, and its theorems on such runs.
use cd_praticas.Prelude.{
  ℕ, if◌then◌else◌, inl, inr, sym, ◌||◌, Bool, true, ◌≤◌, ◌≡◌, ◌⊎◌, refl, List, [], ◌∷◌, ◌++◌,
  Option, some, none, arith, ◌==◌, map, length,
}
use mathlib.Core.Path.{subst}
use cd_praticas.Prelude.Int.{pos, negsuc, ◌≤ℤ◌, ◌+ℤ◌, ◌-ℤ◌}
use cd_praticas.Protocol.Types.{Window, PacketHeader, PacketBody, PacketInfo, evs, update}
use cd_praticas.Protocol.Body.{unpack, bytes, int16_at, padding_bytes}
use cd_praticas.Protocol.Pack.{DownQueue, new_packet, fill, take_fragment, next_fragment}
use cd_praticas.Protocol.Queue.{IsSound, pending}
use cd_praticas.Protocol.Packing.{unpack-new_packet}
use cd_praticas.Protocol.Send.{
  Packet, Sender, Sending, stamp, queue_bcast, num_pack_to_send, send_new_packets,
}
use cd_praticas.Protocol.Sending.{SentAll, send_new_packets-Returns, queue_bcast-fifo}
use cd_praticas.Protocol.Evs.{Transition, discard_evs}
use cd_praticas.Protocol.Total.{Clear, Ready}
use cd_praticas.Protocol.Remaining.{Left}
use cd_praticas.Protocol.TransitionalTotal.{discard_evs-Returns}
use cd_praticas.Protocol.Tests.{fresh, fresh-IsValid, header, letters}

-- A message of two buffers and one of a single buffer.
abbrev two_messages : DownQueue
two_messages = record {
  links =
      record {
        type = 8;
        mess = record { buf = letters; len = 3 } ∷ record { buf = letters; len = 2 } ∷ [];
      }
      ∷ record { type = 4; mess = record { buf = λ i. i; len = 1 } ∷ [] }
      ∷ [];
  cur_element = 0;
}

abbrev after_both : DownQueue
after_both = record { links = []; cur_element = 0 }

two_messages-IsSound : IsSound two_messages
two_messages-IsSound = omega arith

abbrev both_made : Option (PacketHeader × PacketBody × DownQueue)
both_made = new_packet 1 (record { proc_id = 1; time = 0 }) 7 two_messages

packed : PacketHeader × PacketBody × DownQueue
unfolding new_packet fill take_fragment next_fragment padding_bytes ◌-ℤ◌
packed = elim both_made [ none ↦ (header 0 0, letters, two_messages) | some x ↦ x ]

both_packed : both_made ≡ some (packed.0, packed.1, after_both)
unfolding packed
both_packed = refl

packed_header : (packed.0.data_len ≡ 17) × (packed.0.first_frag_header.fragment_index ≡ pos 1)
unfolding packed
packed_header = (refl, refl)

packed_bytes :
    bytes packed.1 0 17
    ≡ (65 ∷ 65 ∷ 65 ∷ 65 ∷ 254 ∷ 255 ∷ 2 ∷ 0 ∷ 65 ∷ 65 ∷ 65 ∷ 65 ∷ 255 ∷ 255 ∷ 1 ∷ 0 ∷ 0 ∷ [])
unfolding packed bytes
packed_bytes = refl

unpack-new_packet_example :
    (extra : List (List ℕ)) × (unpack 18 packed.1 packed.0.data_len
        packed.0.first_frag_header.fragment_len
      ≡ some extra)
    × (pending two_messages
        ≡ bytes packed.1 0 packed.0.first_frag_header.fragment_len ∷ (extra ++ []))
    × IsSound after_both
unfolding packed
unpack-new_packet_example =
    unpack-new_packet 1 (record { proc_id = 1; time = 0 }) 7 two_messages after_both packed.0
      packed.1 two_messages-IsSound both_packed

abbrev sender : Sender
sender = record {
  my_id = 1;
  my_index = 0;
  memb_id = record { proc_id = 1; time = 0 };
  accelerated = true;
  accelerated_window = pos 2;
  token_rounds = 5;
}

abbrev to_send : Sending
to_send = record { window = fresh; down = two_messages; waiting = []; network = []; num_sent = 0 }

send_new_packets-Returns_example :
    (y : Sending) × (send_new_packets 3 sender to_send ≡ some y) × SentAll 3 sender to_send y
send_new_packets-Returns_example =
    send_new_packets-Returns 3 sender to_send fresh-IsValid two_messages-IsSound (omega arith)

abbrev numbered : ℕ → Packet
numbered n = (header 8 n, letters)

-- Two packets may wait: the oldest one goes.
one_goes :
    queue_bcast true (pos 2) 5 (numbered 3) (numbered 1 ∷ numbered 2 ∷ [])
    ≡ (stamp 5 (numbered 1) ∷ [], numbered 2 ∷ numbered 3 ∷ [])
unfolding queue_bcast num_pack_to_send ◌+ℤ◌ ◌-ℤ◌
one_goes = refl

queue_bcast-fifo_example :
    let (sent, waiting) = queue_bcast true (pos 2) 5 (numbered 3) (numbered 1 ∷ numbered 2 ∷ []) in
    (sent ++ map (stamp 5) waiting
      ≡ map (stamp 5) ((numbered 1 ∷ numbered 2 ∷ []) ++ (numbered 3 ∷ [])))
    × (pos (length waiting) ≤ℤ pos 2)
queue_bcast-fifo_example =
    queue_bcast-fifo true (pos 2) 5 (numbered 3) (numbered 1 ∷ numbered 2 ∷ []) (omega arith)

-- A message of 2 bytes, and behind its padding one of 1 byte.
abbrev two_fragments : PacketBody
two_fragments i = if i == 4 || i == 5 then 255 else if i == 6 then 1 else if i == 7 then 0 else 65

-- The packets 1, 3 and 4 wait, packet 3 is the first one behind a hole.
abbrev waiting_at : ℕ → ℕ → PacketInfo
waiting_at n exist = record {
  head = record (header 8 n) {
    data_len = 9;
    first_frag_header = record { fragment_index = negsuc 0; fragment_len = 2 };
  };
  body = two_fragments;
  exist = exist;
  proc_index = 0;
}

abbrev last_window : Window
last_window = record fresh {
  packets =
      update
        (update (update (update fresh.packets 1 (waiting_at 1 1)) 2 (waiting_at 2 3)) 3
          (waiting_at 3 1))
        4 (waiting_at 4 1);
  aru = 4;
  my_aru = 4;
  highest_seq = 4;
  memb_state = evs;
}

numbers : (j : ℕ) → 1 ≤ j → j ≤ 4 → (j ≡ 1) ⊎ (j ≡ 2) ⊎ (j ≡ 3) ⊎ (j ≡ 4)
numbers j lo hi = omega arith

last_window-Left : Left last_window.packets 1 4
last_window-Left = record {
  within = λ e u. (e, ground arith, ground arith, ground arith);
  named = λ j lo hi n. ground (arith, numbers j lo hi);
  full = λ j lo hi. ground (arith, numbers j lo hi);
  span = omega arith;
}

waiting_at-Clear : (n : ℕ) → Clear (waiting_at n 1)
unfolding padding_bytes int16_at
waiting_at-Clear n = record { single = refl; lengths = inr (omega arith, inl (omega arith)) }

waiting_entries : (e : ℕ) → (last_window.packets e).exist ≡ 1 → (e ≡ 1) ⊎ (e ≡ 3) ⊎ (e ≡ 4)
waiting_entries e u = ground arith

last_window-Ready : Ready last_window.packets last_window.up_queue
last_window-Ready = record {
  clear = λ e u. elim (waiting_entries e u) [
    | inl at ↦ subst (λ n. Clear (last_window.packets n)) (sym at) (waiting_at-Clear 1)
    | inr (inl at) ↦ subst (λ n. Clear (last_window.packets n)) (sym at) (waiting_at-Clear 3)
    | inr (inr at) ↦ subst (λ n. Clear (last_window.packets n)) (sym at) (waiting_at-Clear 4)
  ];
  idle = λ i. refl;
}

abbrev committed : ℕ → Bool
committed id = id == 1

discard_evs-Returns_example :
    (tr : Transition) × (discard_evs committed 4 last_window ≡ some (some tr))
discard_evs-Returns_example =
    discard_evs-Returns committed 4 last_window last_window-Left (omega arith) (omega arith) refl
      last_window-Ready

ending : Transition
ending =
    (discard_evs-Returns committed 4 last_window last_window-Left (omega arith) (omega arith) refl
      last_window-Ready).0
