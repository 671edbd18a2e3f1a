-- ===== src/Protocol/Tests.antt =====
-- Runs of protocol.c on two packets, and its theorems on such runs.
use cd_praticas.Prelude.{
  ℕ, Bool-cases, ◌==◌, inl, inr, ◌+◌, ◌≤◌, ◌<◌, ◌≡◌, refl, ◌⊎◌, true, [], ◌∷◌, some, none, arith,
  ltb,
}
use cd_praticas.Prelude.Int.{pos, negsuc}
use cd_praticas.Protocol.Types.{
  Window, PacketHeader, PacketBody, PacketInfo, op, is_evs, is_regular, pack_entry, agreed_type,
}
use cd_praticas.Protocol.Body.{unpack}
use cd_praticas.Protocol.Window.{
  deliver_packet, reliable_loop, deliver_reliable_packets, agreed_round, agreed_loop,
  deliver_agreed_packets, discard_loop, discard_packets, advance, handle_regular,
}
use cd_praticas.Protocol.Invariant.{InOrder, AllPlaced}
use cd_praticas.Protocol.Delivery.{IsValid, Same}
use cd_praticas.Protocol.Agreed.{Stops, deliver_agreed_packets-IsValid}
use cd_praticas.Protocol.Discard.{Discarded, discard_packets-Discarded}
use cd_praticas.Protocol.Receive.{handle_regular-IsValid}
use cd_praticas.Protocol.Total.{Returns, Ready, discard_packets-Returns}
use cd_praticas.Protocol.Runs.{
  Reach, here, next, receive, raise, discard, IsFresh, IsFresh-IsValid, Reach-IsValid,
  delivered-InOrder, delivered-AllPlaced,
}

abbrev pub header : ℕ → ℕ → PacketHeader
header type seq = record {
  type = type;
  transmiter_id = 1;
  proc_id = 1;
  memb_id = record { proc_id = 1; time = 0 };
  seq = seq;
  token_round = 0;
  data_len = 2;
  first_frag_header = record { fragment_index = negsuc 0; fragment_len = 2 };
}

abbrev body : PacketBody
body i = 65 + i

abbrev no_packet : PacketInfo
no_packet = record { head = header 0 0; body = body; exist = 0; proc_index = 0 }

abbrev pub fresh : Window
fresh = record {
  packets = λ e. no_packet;
  up_queue = λ i. none;
  aru = 0;
  my_aru = 0;
  highest_seq = 0;
  last_discarded = 0;
  last_delivered = 0;
  memb_state = op;
  delivery_threshold = 1;
  packet_delivered = 0;
  sess = [];
  trace = [];
}

pub fresh-IsFresh : IsFresh fresh
fresh-IsFresh = record { counters = omega arith; highest = refl; empty = λ e. refl; trace = refl }

pub fresh-IsValid : IsValid fresh
fresh-IsValid = IsFresh-IsValid fresh fresh-IsFresh

-- A packet of agreed order goes up as soon as it arrives.
agreed_first : Window
unfolding handle_regular deliver_packet unpack agreed_loop agreed_round deliver_agreed_packets
    advance
agreed_first = elim (handle_regular (header 8 1) body (pos 0) fresh) [ none ↦ fresh | some w ↦ w ]

first_arrives : handle_regular (header 8 1) body (pos 0) fresh ≡ some agreed_first
unfolding agreed_first
first_arrives = refl

first_delivered : agreed_first.sess ≡ (((65 ∷ 66 ∷ []) ∷ []) ∷ [])
unfolding agreed_first
first_delivered = refl

first_run : Reach fresh agreed_first
first_run = next here (receive (header 8 1) body (pos 0) (omega arith) first_arrives)

first-IsValid : IsValid agreed_first
first-IsValid = Reach-IsValid first_run fresh-IsValid

-- The token tells that all daemons have the packet, and it is discarded.
acknowledged : Window
acknowledged = record agreed_first { aru = 1 }

discarded : Window
unfolding acknowledged agreed_first discard_packets discard_loop deliver_packet
discarded = elim (discard_packets acknowledged) [ none ↦ fresh | some w ↦ w ]

acknowledged_discards : discard_packets acknowledged ≡ some discarded
unfolding discarded
acknowledged_discards = refl

second_run : Reach fresh acknowledged
unfolding acknowledged agreed_first
second_run = next first_run (raise 1 (omega arith) (omega arith))

whole_run : Reach fresh discarded
unfolding acknowledged agreed_first
whole_run = next second_run (discard refl acknowledged_discards)

acknowledged-IsValid : IsValid acknowledged
acknowledged-IsValid = Reach-IsValid second_run fresh-IsValid

-- A safe packet that follows is not delivered before `Aru` reaches it.
safe_waits : Window
unfolding agreed_first handle_regular deliver_packet unpack agreed_loop agreed_round
    deliver_agreed_packets advance
safe_waits = elim (handle_regular (header 16 2) body (pos 0) agreed_first) [
  | none ↦ fresh
  | some w ↦ w
]

safe_counters : (safe_waits.my_aru ≡ 2) × (safe_waits.last_delivered ≡ 1)
unfolding safe_waits
safe_counters = (refl, refl)

delivered-InOrder_example : InOrder discarded.trace
delivered-InOrder_example = delivered-InOrder fresh discarded fresh-IsFresh whole_run

delivered-AllPlaced_example :
    AllPlaced discarded.packets discarded.last_discarded discarded.last_delivered discarded.aru
      discarded.trace
delivered-AllPlaced_example = delivered-AllPlaced fresh discarded fresh-IsFresh whole_run

handle_regular-IsValid_example : IsValid agreed_first
handle_regular-IsValid_example =
    handle_regular-IsValid (header 8 1) body (pos 0) fresh agreed_first fresh-IsValid (omega arith)
      first_arrives

discard_packets-Discarded_example : Discarded acknowledged discarded
discard_packets-Discarded_example =
    discard_packets-Discarded acknowledged discarded acknowledged-IsValid acknowledged_discards

level_agreed : deliver_agreed_packets agreed_first ≡ some agreed_first
unfolding deliver_agreed_packets agreed_first
level_agreed = refl

deliver_agreed_packets-IsValid_example :
    IsValid agreed_first
    × Same agreed_first agreed_first
    × ((is_evs agreed_first.memb_state ≡ true)
        ⊎ (ltb agreed_type agreed_first.delivery_threshold ≡ true)
        ⊎ Stops agreed_first)
deliver_agreed_packets-IsValid_example =
    deliver_agreed_packets-IsValid agreed_first agreed_first first-IsValid level_agreed

reliable_runs : deliver_reliable_packets 1 1 agreed_first ≡ some agreed_first
unfolding deliver_reliable_packets reliable_loop agreed_first
reliable_runs = refl

one_arrived : 1 + 1 ≤ agreed_first.highest_seq + 1
unfolding agreed_first
one_arrived = omega arith

-- A safe packet with one letter over and over, which waits until the token raises `Aru`.
abbrev pub letters : PacketBody
letters i = 65

unfoldable pub safe_first : Window
unfolding handle_regular deliver_packet unpack agreed_loop agreed_round deliver_agreed_packets
    advance
safe_first = elim (handle_regular (header 16 1) letters (pos 0) fresh) [ none ↦ fresh | some w ↦ w ]

pub safe_arrives : handle_regular (header 16 1) letters (pos 0) fresh ≡ some safe_first
unfolding safe_first
safe_arrives = refl

stable : Window
stable = record safe_first { aru = 1 }

stable-IsValid : IsValid stable
unfolding stable safe_first
stable-IsValid =
    Reach-IsValid {w = fresh}
      (next (next here (receive (header 16 1) letters (pos 0) (omega arith) safe_arrives))
        (raise 1 (omega arith) (omega arith)))
      fresh-IsValid

stable-Ready : Ready stable.packets stable.up_queue
unfolding stable safe_first
stable-Ready = record {
  clear = λ e k. elim (Bool-cases (1 == e)) [
    | inl same ↦ rw same (record { single = refl; lengths = inl (omega arith) })
    | inr other ↦ absurd (omega (arith, (rw other at k)))
  ];
  idle = λ i. refl;
}

stable-early :
    (i : ℕ)
    → stable.last_delivered < i
    → i ≤ stable.my_aru
    → (stable.packets (pack_entry i)).exist ≡ 2
    → is_regular (stable.packets (pack_entry i)).head.type < agreed_type
unfolding stable safe_first
stable-early i lo hi e = ground arith

discard_packets-Returns_example : Returns (discard_packets stable)
discard_packets-Returns_example = discard_packets-Returns stable stable-IsValid stable-Ready
