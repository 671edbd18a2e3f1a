-- ===== src/Protocol/Types.antt =====
-- daemon/net_types.h and prot_body.h: the bits of a packet's type, its header, and the state that
-- protocol.c keeps for the window of packets.
use cd_praticas.Prelude.{
  ℕ, ◌+◌, ◌*◌, ◌/◌, ◌%◌, ◌^◌, Bool, true, false, not, List, Option, ◌==◌, if◌then◌else◌,
}
use cd_praticas.Prelude.Int.{ℤ}

-- The type is a word of 32 bits; each macro reads one bit or one field of it.
abbrev pub has_bit : ℕ → ℕ → Bool
has_bit t k = not ((t / 2 ^ k) % 2 == 0)

abbrev pub is_reliable : ℕ → Bool
is_reliable t = has_bit t 1

abbrev pub is_fifo : ℕ → Bool
is_fifo t = has_bit t 2

abbrev pub is_agreed : ℕ → Bool
is_agreed t = has_bit t 3

abbrev pub is_safe : ℕ → Bool
is_safe t = has_bit t 4

-- `t & REGULAR_TYPE`
abbrev pub is_regular : ℕ → ℕ
is_regular t = t % 32

abbrev pub is_hurry : ℕ → Bool
is_hurry t = has_bit t 6

abbrev pub is_membership : ℕ → Bool
is_membership t = not ((t / 2 ^ 8) % 8 == 0)

abbrev pub is_form : ℕ → Bool
is_form t = not ((t / 2 ^ 12) % 4 == 0)

abbrev pub is_status : ℕ → Bool
is_status t = has_bit t 24

abbrev pub is_fc : ℕ → Bool
is_fc t = has_bit t 26

abbrev pub is_conf_reload : ℕ → Bool
is_conf_reload t = has_bit t 27

abbrev pub is_control : ℕ → Bool
is_control t = not ((t / 2 ^ 24) % 16 == 0)

unfoldable pub get_arq : ℕ → ℕ
get_arq t = (t / 2 ^ 16) % 16

unfoldable pub set_arq : ℕ → ℕ → ℕ
set_arq t v = (t / 2 ^ 20) * 2 ^ 20 + (v % 16) * 2 ^ 16 + t % 2 ^ 16

unfoldable pub get_retrans : ℕ → ℕ
get_retrans t = (t / 2 ^ 20) % 16

unfoldable pub set_retrans : ℕ → ℕ → ℕ
set_retrans t v = (t / 2 ^ 24) * 2 ^ 24 + (v % 16) * 2 ^ 20 + t % 2 ^ 20

abbrev pub reliable_type : ℕ
reliable_type = 2

abbrev pub agreed_type : ℕ
agreed_type = 8

abbrev pub safe_type : ℕ
safe_type = 16

abbrev pub block_regular_delivery : ℕ
block_regular_delivery = 32

abbrev pub max_packets_in_struct : ℕ
max_packets_in_struct = 8192

abbrev pub max_procs_ring : ℕ
max_procs_ring = 128

-- `seq & PACKET_MASK`
abbrev pub pack_entry : ℕ → ℕ
pack_entry seq = seq % 8192

pub record MembershipId : Type 0 where
  pub proc_id : ℕ
  pub time : ℕ

pub record FragmentHeader : Type 0 where
  pub fragment_index : ℤ
  pub fragment_len : ℕ

-- `conf_hash` and `padding` are set and read by network.c alone.
pub record PacketHeader : Type 0 where
  pub type : ℕ
  pub transmiter_id : ℕ
  pub proc_id : ℕ
  pub memb_id : MembershipId
  pub seq : ℕ
  pub token_round : ℕ
  pub data_len : ℕ
  pub first_frag_header : FragmentHeader

-- The bytes of a packet's body, by their index.
abbrev pub PacketBody : Type 0
PacketBody = ℕ → ℕ

-- `exist` is 0 for no packet, 1 for one to be delivered, 2 for one that was delivered, 3 for a hole.
pub record PacketInfo : Type 0 where
  pub head : PacketHeader
  pub body : PacketBody
  pub exist : ℕ
  pub proc_index : ℕ

-- The states of membership.h.
pub data MembState : Type 0 where
  op seg represented gather form evs : MembState

abbrev pub is_evs : MembState → Bool
is_evs evs = true
is_evs _ = false

-- A message is the list of its buffers.
abbrev pub Message : Type 0
Message = List (List ℕ)

-- What protocol.c keeps of the window. `up_queue` holds the fragments of a message that is not yet
-- whole, `none` where `exist` is 0; `sess` is what was handed to `Sess_deliver_message`, and `trace`
-- the headers of the packets that went through `Deliver_packet`, the latest first.
pub record Window : Type 0 where
  pub packets : ℕ → PacketInfo
  pub up_queue : ℕ → Option Message
  pub aru : ℕ
  pub my_aru : ℕ
  pub highest_seq : ℕ
  pub last_discarded : ℕ
  pub last_delivered : ℕ
  pub memb_state : MembState
  pub delivery_threshold : ℕ
  pub packet_delivered : ℕ
  pub sess : List Message
  pub trace : List PacketHeader

-- A write to one entry of an array.
abbrev pub update {ℓ} : {A : Type ℓ} → (ℕ → A) → ℕ → A → ℕ → A
update f i v j = if i == j then v else f j
