-- ===== src/Protocol/Token.antt =====
-- `Prot_handle_token`: whether a token is new, and its part from the calculation of the token's `aru`
-- to the delivery of packets; `Prot_token_hurry` and the tests whether to hold the token.
use cd_praticas.Prelude.{
  ℕ, suc, ◌^◌, ◌+◌, ◌-◌, ◌%◌, Bool, true, false, not, ◌&&◌, ◌||◌, Option, none, some, ◌==◌, ltb,
  leb, if◌then◌else◌, ◌>>=◌,
}
use cd_praticas.Prelude.Int.{ℤ}
use cd_praticas.Protocol.Types.{
  is_form, MembershipId, MembState, op, gather, Window, get_arq, set_arq, get_retrans, set_retrans,
  is_evs,
}
use cd_praticas.Protocol.Retrans.{is_equal}
use cd_praticas.Protocol.Window.{
  advance, deliver_reliable_packets, deliver_agreed_packets, discard_packets,
}

-- `conf_hash` is used by network.c alone.
pub record TokenHeader : Type 0 where
  pub type : ℕ
  pub transmiter_id : ℕ
  pub proc_id : ℕ
  pub memb_id : MembershipId
  pub seq : ℕ
  pub aru : ℕ
  pub aru_last_id : ℕ
  pub flow_control : ℤ
  pub rtr_len : ℕ

-- What becomes of a token that arrives: it is one of membership.c, it is swallowed, it makes the daemon send its last token
-- again, with the new type, or it is handled.
pub data Verdict : Type 0 where
  to_memb : Verdict
  swallow : Verdict
  resend : ℕ → Verdict
  handle : Verdict

-- The flag tells whether the daemon leads the ring; the types are of `Token` and `Last_token`.
-- The first token of a new membership resets the last one's `aru` too, which is left out.
unfoldable pub admit : Bool → ℕ → ℕ → Verdict
admit leader token last =
    if leader
    then if not (get_arq token == get_arq last) then swallow else handle
    else if get_arq token == get_arq last
    then if ltb (get_retrans last) (get_retrans token)
      then resend (set_retrans last (get_retrans token))
      else swallow
    else if not (get_arq token == (get_arq last + 1) % 16)
    then swallow
    else handle

-- What a daemon tests a token against: `Memb_token_alive()`, `Memb_active_id()`, `Conf_previous` of the active
-- configuration, whether it leads that one, the state, and the type of `Last_token`.
pub record TokenState : Type 0 where
  pub token_alive : Bool
  pub active_id : MembershipId
  pub previous : ℕ
  pub leader : Bool
  pub memb_state : MembState
  pub last_type : ℕ

abbrev pub max_wrap_sequence_value : ℕ
max_wrap_sequence_value = 2 ^ 30

abbrev pub sizeof_token_header : ℕ
sizeof_token_header = 40

-- `ret` is the number of bytes that `Net_recv_token` returned; 0 stands for its errors too. The token is in the
-- byte order of the host.
unfoldable pub accept : TokenState → ℕ → TokenHeader → Verdict
accept d ret token =
    if ret == 0
    then swallow
    else if is_form token.type
    then to_memb
    else if not d.token_alive
    then swallow
    else if not (is_equal token.memb_id d.active_id)
    then swallow
    else if not (token.transmiter_id == d.previous)
    then swallow
    else if not (ret == sizeof_token_header + token.rtr_len)
    then swallow
    else if not (is_evs d.memb_state) && ltb max_wrap_sequence_value token.seq
    then swallow
    else admit d.leader token.type d.last_type

-- The leader starts a new round of the token.
unfoldable pub next_type : Bool → ℕ → ℕ
next_type leader t = if leader then set_retrans (set_arq t ((get_arq t + 1) % 16)) 0 else t

-- `Highest_seq` follows the token, and `My_aru` goes over the packets that are there.
unfoldable pub catch_up : TokenHeader → Window → Window
catch_up token w =
    let highest = if ltb w.highest_seq token.seq then token.seq else w.highest_seq in
    advance (highest - w.my_aru) (suc w.my_aru) (record w { highest_seq = highest })

-- What the daemon `my_id` writes in the token before it passes it on.
unfoldable pub pass_on : ℕ → Bool → Window → TokenHeader → TokenHeader
pass_on my_id leader w token =
    let mine =
      ltb w.my_aru token.aru
      || token.aru_last_id == my_id
      || (token.aru == token.seq && not (is_evs w.memb_state)) in
    record token {
      aru = if mine then w.my_aru else token.aru;
      aru_last_id = if mine then my_id else token.aru_last_id;
      proc_id = my_id;
      seq = if is_evs w.memb_state then token.seq else w.highest_seq;
      type = next_type leader token.type;
    }

-- `Aru`, from this token and the last one; `none` where it would be lowered.
unfoldable pub raise_aru : TokenHeader → TokenHeader → Window → Option Window
raise_aru last token w =
    let aru = if ltb last.aru token.aru then last.aru else token.aru in
    if leb w.aru aru then some (record w { aru = aru }) else none

-- `Discard_packets`, `Deliver_agreed_packets` and `Deliver_reliable_packets`, at the end of the
-- handler; `num_sent` is the answer of `Send_new_packets`.
unfoldable pub deliver_all : ℕ → Window → Option Window
deliver_all num_sent w = discard_packets w >>= deliver_agreed_packets >>= λ v.
    deliver_reliable_packets (v.highest_seq - num_sent + 1) num_sent v

-- The handler from the calculation of `Token->aru` on, but for sending the token and the timers: the
-- token, which becomes `Last_token`, and the window.
unfoldable pub finish_token :
    ℕ → Bool → ℕ → TokenHeader → TokenHeader → Window → Option (TokenHeader × Window)
finish_token my_id leader num_sent last token w =
    let out = pass_on my_id leader w token in
    raise_aru last out w >>= deliver_all num_sent >>= λ v. some (out, v)

-- `Token_counter`
unfoldable pub count_idle : ℕ → Window → ℕ
count_idle token_counter w = if w.highest_seq == w.aru then token_counter + 1 else 0

-- A token that lets the daemons send goes round.
abbrev circles : Bool → MembState → Bool
circles alive op = true
circles alive gather = alive
circles alive _ = false

-- `Is_token_hold`, and `To_hold_token`, whose body is the same; `alive` is `Memb_token_alive`.
unfoldable pub is_token_hold : Bool → ℕ → ℕ → Window → Bool
is_token_hold alive last_type token_counter w =
    circles alive w.memb_state
    && leb (get_retrans last_type) 1
    && w.aru == w.highest_seq
    && ltb 1 token_counter

-- `Prot_token_hurry`: the last token with its new counter of retransmissions, and how often it is
-- sent. `seg_last` tells whether the daemon is the last of its segment.
unfoldable pub token_hurry : Bool → Bool → Bool → TokenHeader → TokenHeader × ℕ
token_hurry leader wide_network seg_last last =
    let type = if leader then set_retrans last.type (get_retrans last.type + 1) else last.type in
    let more = if wide_network && seg_last then 1 else 0 in
    let problems = if ltb 1 (get_retrans type) then 2 else 0 in
    (record last { type = type; rtr_len = 0 }, 1 + more + problems)
