-- ===== src/Protocol/Admission.antt =====
-- Which tokens a daemon takes: the counters in a token's type.
use cd_praticas.Prelude.{
  ℕ, ◌+◌, ◌%◌, ◌≤◌, ◌<◌, ◌≡◌, ◌≢◌, ◌⊎◌, inl, inr, Bool, true, false, arith, Bool-cases, ltb,
}
use cd_praticas.Protocol.Types.{get_arq, set_arq, get_retrans, set_retrans}
use cd_praticas.Protocol.Token.{TokenHeader, token_hurry, swallow, resend, handle, admit, next_type}

get_arq-set_arq : (t v : ℕ) → get_arq (set_arq t v) ≡ v % 16
unfolding get_arq set_arq
get_arq-set_arq t v = omega arith

get_retrans-set_retrans : (t v : ℕ) → get_retrans (set_retrans t v) ≡ v % 16
unfolding get_retrans set_retrans
get_retrans-set_retrans t v = omega arith

get_arq-set_retrans : (t v : ℕ) → get_arq (set_retrans t v) ≡ get_arq t
unfolding get_arq set_retrans
get_arq-set_retrans t v = omega arith

get_retrans-set_arq : (t v : ℕ) → get_retrans (set_arq t v) ≡ get_retrans t
unfolding get_retrans set_arq
get_retrans-set_arq t v = omega arith

pub get_arq-lt : (t : ℕ) → get_arq t < 16
unfolding get_arq
get_arq-lt t = omega arith

pub next_arq :
    (t : ℕ) → get_arq (set_retrans (set_arq t ((get_arq t + 1) % 16)) 0) ≡ (get_arq t + 1) % 16
next_arq t = omega (
  arith,
  get_arq-set_retrans (set_arq t ((get_arq t + 1) % 16)) 0,
  get_arq-set_arq t ((get_arq t + 1) % 16),
)

-- A daemon that has handled a token handles no other copy of it: the leader swallows each one, and
-- the others send their token again for a copy with a higher counter of retransmissions only.
pub admit-copy :
    (token copy : ℕ)
    → get_arq copy ≡ get_arq token
    → (admit true copy (next_type true token) ≡ swallow)
      × ((admit false copy (next_type false token) ≡ swallow)
            × (get_retrans copy ≤ get_retrans token)
          ⊎ (admit false copy (next_type false token)
              ≡ resend (set_retrans token (get_retrans copy)))
            × (get_retrans token < get_retrans copy))
unfolding admit next_type
admit-copy token copy e =
    let new : get_arq copy ≢ get_arq (set_retrans (set_arq token ((get_arq token + 1) % 16)) 0) =
      omega (arith, next_arq token, get_arq-lt token, e) in
    (
      ground (arith, new),
      elim (Bool-cases (ltb (get_retrans token) (get_retrans copy))) [
        | inl again ↦ inr (ground arith, ground arith)
        | inr old ↦ inl (ground arith, ground arith)
      ],
    )

-- The leader's last token, when it is sent once more, makes a follower that has had it send it on, as
-- long as the counter of 4 bits does not wrap.
pub admit-token_hurry :
    (wide_network seg_last : Bool) (last : TokenHeader) (follower : ℕ)
    → get_arq follower ≡ get_arq last.type
    → get_retrans last.type < 15
    → get_retrans follower ≤ get_retrans last.type
    → admit false (token_hurry true wide_network seg_last last).0.type follower
      ≡ resend (set_retrans follower (get_retrans last.type + 1))
unfolding admit token_hurry
admit-token_hurry wide_network seg_last last follower same room below =
    let arq = get_arq-set_retrans last.type (get_retrans last.type + 1) in
    let retrans : get_retrans (set_retrans last.type (get_retrans last.type + 1))
        ≡ get_retrans last.type + 1 =
      omega (arith, get_retrans-set_retrans last.type (get_retrans last.type + 1)) in
    ground (arith, arq, retrans)

-- A follower that has missed the leader's last token handles it when it is sent once more.
pub admit-missed :
    (wide_network seg_last : Bool) (last : TokenHeader) (follower : ℕ)
    → (get_arq follower + 1) % 16 ≡ get_arq last.type
    → admit false (token_hurry true wide_network seg_last last).0.type follower ≡ handle
unfolding admit token_hurry
admit-missed wide_network seg_last last follower missed =
    let arq = get_arq-set_retrans last.type (get_retrans last.type + 1) in
    ground (arith, arq, get_arq-lt follower)
