-- ===== src/Protocol/Dispatch.antt =====
-- The first tests of `Prot_handle_bcast`, `Handle_hurry`, `Prot_new_message`,
-- `Prot_handle_conf_reload` and `Prot_set_delivery_threshold`.
use cd_praticas.Prelude.{
  ℕ, ◌+◌, ◌≤◌, ◌<◌, ◌≡◌, refl, ◌⊎◌, inl, inr, Bool, true, false, not, ◌&&◌, ◌||◌, Option, none,
  some, ◌==◌, ltb, leb, if◌then◌else◌, arith, Bool-cases,
}
use cd_praticas.Prelude.Int.{ℤ, negsuc, eqb_ℤ}
use cd_praticas.Protocol.Types.{
  MembState, op, PacketHeader, MembershipId, is_control, is_status, is_fc, is_conf_reload,
  is_membership, is_hurry, is_regular, reliable_type, agreed_type,
}
use cd_praticas.Protocol.Retrans.{is_equal}

-- Where a packet goes.
pub data Route : Type 0 where
  ignored to_status to_flow_control to_conf_reload to_membership to_hurry to_window : Route

-- `memb_id` is `Memb_id()`.
unfoldable pub route : MembershipId → PacketHeader → Route
route memb_id h =
    if is_control h.type
    then if is_status h.type
      then to_status
      else if is_fc h.type
      then to_flow_control
      else if is_conf_reload h.type
      then to_conf_reload
      else ignored
    else if is_membership h.type
    then to_membership
    else if is_hurry h.type
    then to_hurry
    else if is_regular h.type == 0
    then ignored
    else if not (is_equal memb_id h.memb_id)
    then to_membership
    else to_window

-- `Handle_hurry`: the leader that holds the token sends it at once for a daemon of the ring, and
-- forgets how long it was idle. The index is the answer of `Conf_id_in_conf`.
unfoldable pub handle_hurry : Bool → Bool → ℤ → ℕ → ℕ × Bool
handle_hurry leader token_hold index token_counter =
    if leader && token_hold
    then if not (eqb_ℤ index (negsuc 0)) then (0, true) else (token_counter, false)
    else (token_counter, false)

-- What `Prot_new_message` does with the queue's counter: whether clients are blocked, and whether the
-- leader is told to hurry.
pub record NewMessage : Type 0 where
  pub num_mess : ℕ
  pub block_users : Bool
  pub hurry_leader : Bool

abbrev pub water_mark : ℕ
water_mark = 500

unfoldable pub new_message : ℕ → Bool → NewMessage
new_message num_mess token_hold = record {
  num_mess = num_mess + 1;
  block_users = leb water_mark (num_mess + 1);
  hurry_leader = (num_mess + 1 == 1) && token_hold;
}

-- `Prot_handle_conf_reload`: a reload starts at once, or is remembered in `Prot_Need_Conf_Reload`.
unfoldable pub handle_conf_reload : MembState → Bool → Bool × Bool
handle_conf_reload op need = (true, need)
handle_conf_reload _ need = (false, true)

-- The delivery threshold, and which of the two delivery events are queued.
pub record Threshold : Type 0 where
  pub level : ℕ
  pub reliable_event : Bool
  pub agreed_event : Bool

abbrev pub is_service : ℕ → Bool
is_service t = t == 1 || t == 2 || t == 4 || t == 8 || t == 16 || t == 32

-- The `switch` of a lower threshold queues the events that it lets through, the one of a higher
-- threshold takes out those that it shuts; their cases fall through.
abbrev pub lower : ℕ → Threshold → Threshold
lower new t = record {
  level = new;
  reliable_event = if leb new reliable_type then true else t.reliable_event;
  agreed_event = if leb new agreed_type then true else t.agreed_event;
}

abbrev pub raise : ℕ → Threshold → Threshold
raise new t = record {
  level = new;
  reliable_event = if ltb reliable_type new then false else t.reliable_event;
  agreed_event = if ltb agreed_type new then false else t.agreed_event;
}

unfoldable pub set_delivery_threshold : ℕ → Threshold → Option Threshold
set_delivery_threshold new t =
    if not (is_service new)
    then none
    else if ltb new t.level
    then some (lower new t)
    else if ltb t.level new
    then some (raise new t)
    else some (record t { level = new })

-- Only deliveries that the threshold lets through are queued.
pub record IsOpen (t : Threshold) : Type 0 where
  pub reliable : (t.reliable_event ≡ false) ⊎ (t.level ≤ reliable_type)
  pub agreed : (t.agreed_event ≡ false) ⊎ (t.level ≤ agreed_type)

-- Where only deliveries that the threshold lets through are queued, it stays so with a new threshold;
-- for each service it is set, and lowering it so far that the agreed
-- packets pass queues their delivery.
pub set_delivery_threshold-IsOpen :
    (new : ℕ) (t : Threshold)
    → is_service new ≡ true
    → IsOpen t
    → (u : Threshold) × (set_delivery_threshold new t ≡ some u)
      × (u.level ≡ new)
      × IsOpen u
      × ((t.level ≤ new) ⊎ (agreed_type < new) ⊎ (u.agreed_event ≡ true))
unfolding set_delivery_threshold
set_delivery_threshold-IsOpen new t service o = elim (Bool-cases (ltb new t.level)) [
  | inl down ↦
      (lower new t, rw (service, down) refl, refl, lower-IsOpen (ground arith), ground arith)
  | inr not_down ↦ elim (Bool-cases (ltb t.level new)) [
    | inl up ↦ (
      raise new t,
      rw (service, not_down, up) refl,
      refl,
      raise-IsOpen (ground arith),
      inl (ground arith),
    )
    | inr same ↦ (
      record t { level = new },
      rw (service, not_down, same) refl,
      refl,
      same-IsOpen (ground arith),
      inl (ground arith),
    )
  ]
]
  where
    lower-IsOpen : new < t.level → IsOpen (lower new t)
    lower-IsOpen down = record {
      reliable = ground (arith, o.reliable);
      agreed = ground (arith, o.agreed);
    }

    raise-IsOpen : t.level < new → IsOpen (raise new t)
    raise-IsOpen up = record {
      reliable = ground (arith, o.reliable);
      agreed = ground (arith, o.agreed);
    }

    same-IsOpen : t.level ≡ new → IsOpen (record t { level = new })
    same-IsOpen same = record {
      reliable = ground (arith, o.reliable);
      agreed = ground (arith, o.agreed);
    }
