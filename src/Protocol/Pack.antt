-- ===== src/Protocol/Pack.antt =====
-- `Send_new_packets`: one packet is filled with fragments from the queue of messages to be sent.
use mathlib.Core.Option
use cd_praticas.Prelude.{
  ℕ, zero, suc, ◌+◌, ◌-◌, ◌/◌, ◌%◌, ◌^◌, List, [], ◌∷◌, Bool, not, ◌&&◌, ◌||◌, Option, none, some,
  ltb, ◌==◌, if◌then◌else◌, length, get_elem?, ◌>>=◌,
}
use cd_praticas.Prelude.Int.{ℤ, pos, pos_part, neg_part, ◌-ℤ◌}
use cd_praticas.Protocol.Types.{PacketHeader, PacketBody, MembershipId, is_fifo, is_agreed}
use cd_praticas.Protocol.Body.{padding_bytes}

-- One buffer of a message: a packet body with `len` bytes in use.
pub record Fragment : Type 0 where
  pub buf : PacketBody
  pub len : ℕ

-- A message that waits, and its type.
pub record DownLink : Type 0 where
  pub type : ℕ
  pub mess : List Fragment

-- `num_mess` is the length of the list.
pub record DownQueue : Type 0 where
  pub links : List DownLink
  pub cur_element : ℕ

-- `sizeof(packet_body)`
abbrev pub body_size : ℕ
body_size = 1432

-- `n` bytes of `src` copied to index `o`.
abbrev pub copy_to : PacketBody → ℕ → PacketBody → ℕ → PacketBody
copy_to b o src n i = if not (ltb i o) && ltb i (o + n) then src (i - o) else b i

-- The two bytes of an `int16`, the lower one first.
abbrev pub word_of : ℤ → ℕ
word_of x = (pos_part x + (2 ^ 16 - neg_part x % 2 ^ 16)) % 2 ^ 16

abbrev pub put_int16 : PacketBody → ℕ → ℤ → PacketBody
put_int16 b o x i =
    if i == o then word_of x % 2 ^ 8 else if i == o + 1 then word_of x / 2 ^ 8 else b i

-- The current fragment of the first message, with the message. There is one where the queue is not
-- empty, as `cur_element` stays below the number of fragments.
unfoldable pub next_fragment : DownQueue → Option (DownLink × Fragment)
next_fragment q = elim q.links [
  | [] ↦ none
  | l ∷ ls ↦ Option.map (λ e. (l, e)) (get_elem? l.mess q.cur_element)
]

-- The queue goes on by one fragment, whose index is returned. The last one of a message takes the
-- message off. `none` is the fatal alarm for an index behind the message.
unfoldable pub take_fragment : ℕ → List DownLink → Option (ℤ × DownQueue)
take_fragment cur [] = none
take_fragment cur (l ∷ ls) =
    if ltb (suc cur) (length l.mess)
    then some (pos (suc cur), record { links = l ∷ ls; cur_element = suc cur })
    else if suc cur == length l.mess
    then some (pos 0 -ℤ pos (length l.mess), record { links = ls; cur_element = 0 })
    else none

-- Where the index of the latest fragment is written: in the packet's header, or in its body.
abbrev pub put_index : Option ℕ → ℤ → PacketHeader → PacketBody → PacketHeader × PacketBody
put_index none x h b =
    (record h { first_frag_header = record h.first_frag_header { fragment_index = x } }, b)
put_index (some o) x h b = (h, put_int16 b o x)

-- Messages of different types share a packet if both are of fifo or agreed order.
abbrev pub share : ℕ → ℕ → Bool
share t u = t == u || ((is_fifo t || is_agreed t) && (is_fifo u || is_agreed u))

-- A packet as far as it is filled, and where the latest fragment's index goes.
pub record Filling : Type 0 where
  pub head : PacketHeader
  pub body : PacketBody
  pub frag : Option ℕ

-- Whether the next fragment fits behind the first `data_len` bytes.
abbrev pub fits : PacketHeader → DownLink → Fragment → Bool
fits h l e =
    not (ltb body_size (h.data_len + padding_bytes h.data_len + 4 + e.len)) && share h.type l.type

-- The next fragment is copied behind the last one, with its length.
abbrev pub append_fragment : PacketHeader → PacketBody → Fragment → Filling
append_fragment h b e =
    let start = h.data_len + padding_bytes h.data_len in
    record {
      head = record h { data_len = start + 4 + e.len };
      body = copy_to (put_int16 b (start + 2) (pos e.len)) (start + 4) e.buf e.len;
      frag = some start;
    }

-- The loop that fills a packet; `none` is the fatal alarm, or the end of the fuel.
unfoldable pub fill : ℕ → Filling → DownQueue → Option (PacketHeader × PacketBody × DownQueue)
unfolding take_fragment next_fragment padding_bytes
fill zero p q = none
fill (suc fuel) p q = take_fragment q.cur_element q.links >>= λ taken.
    let packet = put_index p.frag taken.0 p.head p.body in
    let done = some (packet.0, packet.1, taken.1) in
    elim (next_fragment taken.1) [
      | none ↦ done
      | some (l, e) ↦
          let more = fill fuel (append_fragment packet.0 packet.1 e) taken.1 in
          if fits packet.0 l e then more else done
    ]

-- Each round but the first adds 4 bytes at least to a packet of at most 1432.
abbrev pub fill_fuel : ℕ
fill_fuel = 1434

-- A new packet with number `seq`, which starts with the current fragment of the queue.
abbrev pub first_filling : ℕ → MembershipId → ℕ → DownLink → Fragment → Filling
first_filling my_id memb_id seq l e = record {
  head = record {
    type = l.type;
    transmiter_id = my_id;
    proc_id = my_id;
    memb_id = memb_id;
    seq = seq;
    token_round = 0;
    data_len = e.len;
    first_frag_header = record { fragment_index = pos 0; fragment_len = e.len };
  };
  body = e.buf;
  frag = none;
}

unfoldable pub new_packet :
    ℕ → MembershipId → ℕ → DownQueue → Option (PacketHeader × PacketBody × DownQueue)
unfolding fill next_fragment
new_packet my_id memb_id seq q =
    next_fragment q >>= λ x. fill fill_fuel (first_filling my_id memb_id seq x.0 x.1) q
