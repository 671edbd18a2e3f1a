-- ===== src/Protocol/Circle.antt =====
-- The token on its way round a ring of daemons, by the tests at the head of `Prot_handle_token`.
use cd_praticas.Prelude.{
  ℕ, zero, suc, ◌+◌, ◌%◌, ◌≤◌, ◌≡◌, refl, sym, ◌∙◌, List, [], ◌∷◌, Bool, true, false, Option, none,
  some, arith, ◌>>=◌,
}
use mathlib.Core.Path.{subst}
use cd_praticas.Protocol.Types.{MembershipId, is_form, get_arq, set_arq, set_retrans}
use cd_praticas.Protocol.Token.{
  TokenHeader, TokenState, to_memb, swallow, resend, handle, admit, accept, next_type,
  sizeof_token_header, max_wrap_sequence_value,
}
use cd_praticas.Protocol.Retrans.{is_equal}
use cd_praticas.Protocol.Admission.{get_arq-lt, next_arq}

-- A daemon of the ring.
pub record Station : Type 0 where
  pub id : ℕ
  pub state : TokenState

-- The token as the daemon passes it on, with what its handler wrote in the other fields.
abbrev pub send_on : (Station → TokenHeader → TokenHeader) → Station → TokenHeader → TokenHeader
send_on work d t = record (work d t) {
  type = next_type d.state.leader t.type;
  memb_id = t.memb_id;
  proc_id = d.id;
  transmiter_id = d.id;
}

abbrev after_token : Station → TokenHeader → Station
after_token d t = record d {
  state = record d.state { last_type = next_type d.state.leader t.type };
}

-- The token goes through the daemons in turn; `none` where one of them does not handle it.
abbrev pub pass :
    (Station → TokenHeader → TokenHeader)
    → TokenHeader
    → List Station
    → Option (TokenHeader × List Station)
pass work t [] = some (t, [])
pass work t (d ∷ ds) =
    let rest = pass work (send_on work d t) ds in
    elim (accept d.state (sizeof_token_header + t.rtr_len) t) [
      | to_memb ↦ none
      | swallow ↦ none
      | resend n ↦ none
      | handle ↦ rest >>= λ r. some (r.0, after_token d t ∷ r.1)
    ]

abbrev pub rounds :
    (Station → TokenHeader → TokenHeader)
    → ℕ
    → TokenHeader
    → List Station
    → Option (TokenHeader × List Station)
rounds work zero t ds = some (t, ds)
rounds work (suc n) t ds = pass work t ds >>= λ r. rounds work n r.0 r.1

-- The daemon is in the membership, takes tokens from `prev`, and has seen the counter `arq` last.
pub record Aligned (m : MembershipId) (leads : Bool) (prev arq : ℕ) (d : TokenState) : Type 0 where
  pub alive : d.token_alive ≡ true
  pub active : d.active_id ≡ m
  pub linked : d.previous ≡ prev
  pub role : d.leader ≡ leads
  pub counter : get_arq d.last_type ≡ arq

abbrev pub AllAligned : MembershipId → ℕ → ℕ → List Station → Type 0
AllAligned m prev arq [] = Unit {0}
AllAligned m prev arq (d ∷ ds) = Aligned m false prev arq d.state × AllAligned m d.id arq ds

-- The daemon that ends the list, `prev` if there is none.
abbrev pub end_of : ℕ → List Station → ℕ
end_of prev [] = prev
end_of prev (d ∷ ds) = end_of d.id ds

-- A token of the membership with the counter `arq`, on its way from `prev`.
pub record OnTheWay (m : MembershipId) (prev arq : ℕ) (t : TokenHeader) : Type 0 where
  pub plain : is_form t.type ≡ false
  pub member : t.memb_id ≡ m
  pub sender : t.transmiter_id ≡ prev
  pub room : t.seq ≤ max_wrap_sequence_value
  pub counter : get_arq t.type ≡ arq

is_equal_refl : (m : MembershipId) → is_equal m m ≡ true
is_equal_refl m = ground arith

accept-admit :
    (m : MembershipId) (leads : Bool) (prev arq arq' : ℕ) (d : TokenState) (t : TokenHeader)
    → Aligned m leads prev arq d
    → OnTheWay m prev arq' t
    → accept d (sizeof_token_header + t.rtr_len) t ≡ admit leads t.type d.last_type
unfolding accept
accept-admit m leads prev arq arq' d t a o =
    ground (arith, a.alive, a.active, a.linked, a.role, o.plain, o.member, o.sender, o.room)

next_type-plain : (t : ℕ) → is_form t ≡ false → is_form (next_type true t) ≡ false
unfolding next_type set_arq set_retrans
next_type-plain t e = let v = (get_arq t + 1) % 16 in ground (arith, e)

follower_type : (t : ℕ) → next_type false t ≡ t
unfolding next_type
follower_type t = refl

follower_takes :
    (t last arq : ℕ)
    → arq ≡ arq % 16
    → get_arq t ≡ (arq + 1) % 16
    → get_arq last ≡ arq
    → admit false t last ≡ handle
unfolding admit
follower_takes t last arq small e f = ground (arith, small, e, f)

leader_takes : (t last : ℕ) → get_arq t ≡ get_arq last → admit true t last ≡ handle
unfolding admit
leader_takes t last e = ground (arith, e)

leader_counter : (t : ℕ) → get_arq (next_type true t) ≡ (get_arq t + 1) % 16
unfolding next_type
leader_counter t = next_arq t

-- What comes out of a way through daemons that starts at `prev`.
pub record Passed (m : MembershipId) (prev arq : ℕ) (ds : List Station)
    (r : Option (TokenHeader × List Station)) : Type 0 where
  pub token : TokenHeader
  pub stations : List Station
  pub returns : r ≡ some (token, stations)
  pub way : OnTheWay m (end_of prev ds) arq token
  pub aligned : AllAligned m prev arq stations
  pub ends : end_of prev stations ≡ end_of prev ds

-- The ring, its leader first: the token is on its way to the leader.
abbrev pub IsRing : MembershipId → ℕ → TokenHeader → Station → List Station → Type 0
IsRing m arq t l ds =
    OnTheWay m (end_of l.id ds) arq t
    × Aligned m true (end_of l.id ds) arq l.state
    × AllAligned m l.id arq ds

module _ (work : Station → TokenHeader → TokenHeader) (m : MembershipId)
    (few : (d : Station) (t : TokenHeader) → (work d t).seq ≤ max_wrap_sequence_value) where
  pass-Passed :
      (prev arq : ℕ) (t : TokenHeader) (ds : List Station)
      → OnTheWay m prev ((arq + 1) % 16) t
      → arq ≡ arq % 16
      → AllAligned m prev arq ds
      → Passed m prev ((arq + 1) % 16) ds (pass work t ds)
  pass-Passed prev arq t [] o small a = record {
    token = t;
    stations = [];
    returns = refl;
    way = o;
    aligned = tt;
    ends = refl;
  }
  pass-Passed prev arq t (d ∷ ds) o small (a, later) =
      let p =
        pass-Passed d.id arq (send_on work d t) ds
          (record {
            plain = rw (a.role, follower_type t.type) o.plain;
            member = o.member;
            sender = refl;
            room = few d t;
            counter = rw (a.role, follower_type t.type) o.counter;
          })
          small later in
      let takes =
        accept-admit m false prev arq ((arq + 1) % 16) d.state t a o
        ∙ follower_takes t.type d.state.last_type arq small o.counter a.counter in
      record {
        token = p.token;
        stations = after_token d t ∷ p.stations;
        returns = rw (pass, takes, p.returns) refl;
        way = p.way;
        aligned = (
          record {
            alive = a.alive;
            active = a.active;
            linked = a.linked;
            role = a.role;
            counter = rw (a.role, follower_type t.type) o.counter;
          },
          p.aligned,
        );
        ends = p.ends;
      }

  pass-IsRing :
      (t : TokenHeader) (l : Station) (ds : List Station)
      → IsRing m (get_arq t.type) t l ds
      → (t' : TokenHeader) × (l' : Station) × (ds' : List Station) × (pass work t (l ∷ ds)
          ≡ some (t', l' ∷ ds'))
        × (get_arq t'.type ≡ (get_arq t.type + 1) % 16)
        × IsRing m (get_arq t'.type) t' l' ds'
  pass-IsRing t l ds (o, a, later) =
      let arq = get_arq t.type in
      let small : arq ≡ arq % 16 = omega (arith, get_arq-lt t.type) in
      let takes =
        accept-admit m true (end_of l.id ds) arq arq l.state t a o
        ∙ leader_takes t.type l.state.last_type (sym a.counter) in
      let p =
        pass-Passed l.id arq (send_on work l t) ds
          (record {
            plain = rw a.role (next_type-plain t.type o.plain);
            member = o.member;
            sender = refl;
            room = few l t;
            counter = rw a.role (leader_counter t.type);
          })
          small later in
      let same = sym p.way.counter in
      (
        p.token,
        after_token l t,
        p.stations,
        rw (pass, takes, p.returns) refl,
        p.way.counter,
        (
          record {
            plain = p.way.plain;
            member = p.way.member;
            sender = p.way.sender ∙ sym p.ends;
            room = p.way.room;
            counter = refl;
          },
          record {
            alive = a.alive;
            active = a.active;
            linked = a.linked ∙ sym p.ends;
            role = a.role;
            counter = rw a.role (leader_counter t.type) ∙ same;
          },
          subst (λ c. AllAligned m l.id c p.stations) same p.aligned,
        ),
      )

  -- In a ring of daemons with live tokens that are all in the membership of a token, which is not one of
  -- membership.c, where each takes tokens from the one before it, all have seen the counter of the token last,
  -- every token arrives and is whole, and no number passes 2^30, the token goes round as often as one likes:
  -- every daemon handles it each time. With each round its counter grows by 1 modulo 16.
  pub rounds-IsRing :
      (n : ℕ) (t : TokenHeader) (l : Station) (ds : List Station)
      → IsRing m (get_arq t.type) t l ds
      → (t' : TokenHeader) × (l' : Station) × (ds' : List Station) × (rounds work n t (l ∷ ds)
          ≡ some (t', l' ∷ ds'))
        × (get_arq t'.type ≡ (get_arq t.type + n) % 16)
        × IsRing m (get_arq t'.type) t' l' ds'
  rounds-IsRing zero t l ds r = (t, l, ds, refl, omega (arith, get_arq-lt t.type), r)
  rounds-IsRing (suc n) t l ds r =
      let (t', l', ds', one, c, r') = pass-IsRing t l ds r in
      let (t'', l'', ds'', more, c', r'') = rounds-IsRing n t' l' ds' r' in
      (t'', l'', ds'', rw one more, omega (arith, c, c'), r'')
