-- ===== src/Protocol/TokenTests.antt =====
-- Visits of the token at a daemon that holds a safe packet, and the theorems on them.
use cd_praticas.Prelude.{
  ℕ, Bool, List, inl, ◌+◌, ◌*◌, ◌^◌, ◌%◌, ◌≤◌, ◌<◌, ◌≡◌, refl, ◌⊎◌, true, false, [], ◌∷◌, none,
  some, length, arith,
}
use cd_praticas.Prelude.Int.{pos, negsuc}
use cd_praticas.Protocol.Types.{op, get_arq, get_retrans, Window, MembershipId}
use cd_praticas.Protocol.Body.{unpack}
use cd_praticas.Protocol.Window.{
  deliver_packet, reliable_loop, deliver_reliable_packets, agreed_round, agreed_loop,
  deliver_agreed_packets, discard_loop, discard_packets,
}
use cd_praticas.Protocol.Token.{
  TokenHeader, next_type, pass_on, raise_aru, deliver_all, finish_token, is_token_hold, count_idle,
}
use cd_praticas.Protocol.Delivery.{IsValid}
use cd_praticas.Protocol.Runs.{Reach, here, next, receive, Reach-IsValid}
use cd_praticas.Protocol.Circle.{Station, IsRing, rounds, rounds-IsRing}
use cd_praticas.Protocol.Round.{finish_token-Reach}
use cd_praticas.Protocol.Dispatch.{
  to_window, route, Threshold, IsOpen, set_delivery_threshold, set_delivery_threshold-IsOpen,
}
use cd_praticas.Protocol.Retrans.{
  RingRtr, Answer, ucast, answer_seq, answer_seqs, answer_loop, answer_retrans, missing_seqs,
}
use cd_praticas.Protocol.Requests.{AllFresh, Counted, asked, none_yet, answer_retrans-Counted}
use cd_praticas.Protocol.Tests.{header, letters, fresh, fresh-IsValid, safe_first, safe_arrives}

abbrev token : ℕ → TokenHeader
token type = record {
  type = type;
  transmiter_id = 1;
  proc_id = 1;
  memb_id = record { proc_id = 1; time = 0 };
  seq = 1;
  aru = 1;
  aru_last_id = 1;
  flow_control = pos 0;
  rtr_len = 0;
}

abbrev arq : ℕ → ℕ
arq n = n * 2 ^ 16

-- All daemons had the packet at the last visit too: it is delivered and discarded.
finished : TokenHeader × Window
unfolding finish_token pass_on raise_aru deliver_all next_type safe_first deliver_packet unpack
    deliver_reliable_packets reliable_loop agreed_round agreed_loop deliver_agreed_packets
    discard_loop discard_packets
finished = elim (finish_token 7 false 0 (token (arq 3)) (token (arq 4)) safe_first) [
  | none ↦ (token 0, fresh)
  | some x ↦ x
]

finishes : finish_token 7 false 0 (token (arq 3)) (token (arq 4)) safe_first ≡ some finished
unfolding finished
finishes = refl

goes_up : (length finished.1.sess ≡ 1) × (finished.1.aru ≡ 1) × (finished.1.last_discarded ≡ 1)
unfolding finished
goes_up = (refl, refl, refl)

holds : is_token_hold true (arq 4) 2 finished.1 ≡ true
unfolding is_token_hold finished get_retrans
holds = refl

counts : count_idle 1 finished.1 ≡ 2
unfolding count_idle finished
counts = refl

safe_first-IsValid : IsValid safe_first
safe_first-IsValid =
    Reach-IsValid {w = fresh}
      (next here (receive (header 16 1) letters (pos 0) (omega arith) safe_arrives)) fresh-IsValid

finish_token-Reach_example :
    Reach safe_first finished.1
    × (safe_first.aru ≤ finished.1.aru)
    × (finished.1.aru ≤ finished.0.aru)
    × (finished.1.aru ≤ 1)
    × (finished.1.last_discarded ≡ finished.1.aru)
unfolding safe_first
finish_token-Reach_example =
    finish_token-Reach 7 false 0 (token (arq 3)) (token (arq 4)) finished.0 safe_first finished.1
      safe_first-IsValid refl (omega arith) finishes

same_arq : (get_arq (arq 15) ≡ 15) × (get_arq (arq 3 + 2 ^ 20) ≡ get_arq (arq 3))
unfolding get_arq
same_arq = (refl, refl)

abbrev ring : MembershipId
ring = record { proc_id = 1; time = 0 }

abbrev station : ℕ → ℕ → Bool → Station
station id previous leads = record {
  id = id;
  state = record {
    token_alive = true;
    active_id = ring;
    previous = previous;
    leader = leads;
    memb_state = op;
    last_type = arq 15;
  };
}

abbrev round_token : TokenHeader
round_token = record {
  type = arq 15;
  transmiter_id = 2;
  proc_id = 2;
  memb_id = ring;
  seq = 7;
  aru = 7;
  aru_last_id = 1;
  flow_control = pos 0;
  rtr_len = 0;
}

-- Every daemon writes the number 8.
abbrev writes : Station → TokenHeader → TokenHeader
writes d t = record t { seq = 8 }

two_stations :
    IsRing ring (get_arq round_token.type) round_token (station 1 2 true) (station 2 1 false ∷ [])
two_stations = (
  record { plain = refl; member = refl; sender = refl; room = omega arith; counter = refl },
  record { alive = refl; active = refl; linked = refl; role = refl; counter = refl },
  (record { alive = refl; active = refl; linked = refl; role = refl; counter = refl }, tt),
)

rounds-IsRing_example :
    (t' : TokenHeader) × (l' : Station) × (ds' : List Station) × (rounds writes 20 round_token
        (station 1 2 true ∷ station 2 1 false ∷ [])
      ≡ some (t', l' ∷ ds'))
    × (get_arq t'.type ≡ (get_arq (arq 15) + 20) % 16)
    × IsRing ring (get_arq t'.type) t' l' ds'
rounds-IsRing_example =
    rounds-IsRing writes ring (λ d t. omega arith) 20 round_token (station 1 2 true)
      (station 2 1 false ∷ []) two_stations

few : get_retrans (arq 3) < 15
unfolding get_retrans
few = omega arith

missed : (get_arq (arq 2) + 1) % 16 ≡ get_arq (arq 3)
unfolding get_arq
missed = refl

-- The daemon holds packet 1 and misses 2 and 3, which another ring's request does not ask of it.
abbrev behind : Window
behind = record safe_first { highest_seq = 3 }

abbrev asks : ℕ → RingRtr
asks time = record {
  memb_id = record { proc_id = 1; time = time };
  proc_id = pos 4;
  seg_index = pos 0;
  seqs = 1 ∷ 2 ∷ [];
}

asks_for : missing_seqs 2 2 9 behind ≡ 2 ∷ 3 ∷ []
unfolding missing_seqs safe_first
asks_for = refl

misses : (behind.packets 3).exist ≡ 0
unfolding safe_first
misses = refl

answers :
    answer_retrans behind ring (pos 7) (pos 0) (asks 0 ∷ asks 5 ∷ [])
    ≡ some (
      record {
        sent = ucast (pos 4) 1 ∷ [];
        num_retrans = 1;
        proc_id = negsuc 0;
        seg_index = pos 0;
      },
      asks 5 ∷ [],
    )
unfolding answer_retrans answer_loop answer_seqs answer_seq safe_first
answers = refl

all_fresh : AllFresh behind.aru (asks 0 ∷ asks 5 ∷ [])
unfolding safe_first
all_fresh = ((omega arith, (omega arith, tt)), ((omega arith, (omega arith, tt)), tt))

answer_retrans-Counted_example :
    (b : Answer) × (answer_retrans behind ring (pos 7) (pos 0) (asks 0 ∷ asks 5 ∷ [])
      ≡ some (b, asks 5 ∷ []))
    × Counted behind (pos 0) (asked ring (asks 0 ∷ asks 5 ∷ [])) (none_yet (pos 7) (pos 0)) b
answer_retrans-Counted_example =
    answer_retrans-Counted behind ring (pos 7) (pos 0) (asks 0 ∷ asks 5 ∷ []) all_fresh

abbrev shut : Threshold
shut = record { level = 32; reliable_event = false; agreed_event = false }

set_delivery_threshold-IsOpen_example :
    (u : Threshold) × (set_delivery_threshold 8 shut ≡ some u)
    × (u.level ≡ 8)
    × IsOpen u
    × ((shut.level ≤ 8) ⊎ (8 < 8) ⊎ (u.agreed_event ≡ true))
set_delivery_threshold-IsOpen_example =
    set_delivery_threshold-IsOpen 8 shut refl (record { reliable = inl refl; agreed = inl refl })

routed : route ring (header 16 1) ≡ to_window
unfolding route
routed = refl
