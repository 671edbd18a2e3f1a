-- ===== src/Membership/State.antt =====
-- The state of membership.c, what it asks of the event queue and the network, and its shifts from one
-- state to another.
use cd_praticas.Prelude.{
  ℕ, zero, suc, List, [], ◌∷◌, ◌++◌, Bool, true, false, not, Option, none, some, ◌==◌,
  if◌then◌else◌, ◌>>=◌, length, get_elem?, drop,
}
use cd_praticas.Configuration.{
  Proc, Segment, Configuration, append_id_to_seg, first_id, procs_at, seg_leader,
}
use cd_praticas.Protocol.Types.{MembState, op, seg, represented, gather, form, evs}
use cd_praticas.Membership.Sets.{
  RepInfo, potential_rep, seg_rep, ring_rep, insert_rep, smallest_member,
}

-- The functions that are handed to `E_queue` and `E_dequeue`.
pub data Event : Type 0 where
  scast_alive_event gather_or_represented_event shift_to_seg_event send_join_event : Event
  form_or_fail_event token_loss_event token_hurry_event lookup_new_members_event : Event
  initiate_conf_reload : Event

pub data Timeout : Type 0 where
  zero_timeout alive_timeout join_timeout rep_timeout seg_timeout gather_timeout : Timeout
  lookup_timeout : Timeout

pub data Message : Type 0 where
  alive : (members : List ℕ) → Message
  join : (members : List ℕ) (reps : List RepInfo) → Message
  refer : (proc_id type : ℕ) → Message
  -- A packet of another ring, handed on.
  foreign : (proc_id : ℕ) → Message

-- What a function does outside of its own variables, in order. `block_delivery` stands for the call of
-- `Prot_set_delivery_threshold`, `drop_token` for the three fields of `Last_token` that are set to 0.
pub data Effect : Type 0 where
  queue : Event → Timeout → Effect
  dequeue : Event → Effect
  ucast : (proc_id : ℕ) → Message → Effect
  scast : (seg_index : ℕ) → Message → Effect
  backoff_membership block_delivery drop_token create_form1 fill_form1 read_form2 : Effect

-- `my_seg_rep` is `none` for -1; `num_pending` of `F_members` is 0.
pub record Memb : Type 0 where
  pub state : MembState
  pub token_alive : Bool
  pub my_seg_rep : Option ℕ
  pub foreign_found : Bool
  pub membership : Configuration
  pub future_membership : Configuration
  pub reg_membership : Configuration
  pub f_members : List ℕ
  pub f_reps : List RepInfo
  pub potential_reps : List RepInfo
  pub effects : List Effect

abbrev pub does : Memb → List Effect → Memb
does s es = record s { effects = s.effects ++ es }

-- `Cn` and `My`, and the answer of `Prot_need_conf_reload`.
pub record Host : Type 0 where
  pub cn : Configuration
  pub my : Proc
  pub need_conf_reload : Bool

abbrev pub own_rep : Host → ℕ → RepInfo
own_rep d type = record { proc_id = d.my.id; type = type; seg_index = d.my.seg_index }

unfoldable pub shift_to_op : Host → Memb → Memb
shift_to_op d s =
    let s' = record s { state = op } in
    if d.need_conf_reload then does s' (queue initiate_conf_reload zero_timeout ∷ []) else s'

unfoldable pub shift_to_seg : Host → Memb → Memb
shift_to_seg d s =
    does (record s { state = seg; f_members = d.my.id ∷ [] })
      (queue scast_alive_event zero_timeout ∷ queue gather_or_represented_event seg_timeout ∷ [])

unfoldable pub shift_to_gather : Host → Memb → Memb
shift_to_gather d s =
    does
      (record s {
        state = gather;
        f_reps = own_rep d (if s.token_alive then ring_rep else seg_rep) ∷ [];
      })
      (dequeue scast_alive_event
        ∷ dequeue lookup_new_members_event
        ∷ queue send_join_event zero_timeout
        ∷ queue form_or_fail_event gather_timeout
        ∷ [])

unfoldable pub shift_to_represented : Memb → Memb
shift_to_represented s =
    does (record s { state = represented })
      (dequeue scast_alive_event
        ∷ dequeue gather_or_represented_event
        ∷ queue shift_to_seg_event rep_timeout
        ∷ [])

unfoldable pub gather_or_represented : Host → Memb → Option Memb
gather_or_represented d s =
    let s' = record s { my_seg_rep = none } in
    smallest_member d.cn s.f_members >>= λ i. get_elem? s.f_members i >>= λ id.
    some (if id == d.my.id then shift_to_gather d s' else shift_to_represented s')

-- `Insert_rep` for each element of a list.
unfoldable pub insert_reps : Configuration → List RepInfo → List RepInfo → Option (List RepInfo)
insert_reps cn r [] = some r
insert_reps cn r (x ∷ xs) = insert_rep cn r x >>= λ r'. insert_reps cn r'.0 xs

-- The loop over the segments from `i` on but the own one: the first daemon of the segment in `m`, or the
-- first of the configuration, goes in as a representative of type `type`.
unfoldable pub segment_reps :
    Host → Configuration → ℕ → ℕ → ℕ → List RepInfo → Option (List RepInfo)
segment_reps d m type zero i r = some r
segment_reps d m type (suc k) i r =
    let rest = segment_reps d m type k (suc i) in
    let first : Option ℕ = elim (first_id (procs_at m.segments i)) [
      | some id ↦ some id
      | none ↦ seg_leader d.cn i
    ] in
    if i == d.my.seg_index
    then rest r
    else (first >>= λ id.
        insert_rep d.cn r (record { proc_id = id; type = type; seg_index = i }) >>= λ r'. rest r'.0)

-- `num_procs` of every segment becomes 0, then the own daemon is appended to its segment.
abbrev pub alone_from : Host → ℕ → List Segment → List Segment
alone_from d i [] = []
alone_from d i (s ∷ ss) =
    let empty : Segment = record { procs = [] } in
    (if i == d.my.seg_index then (append_id_to_seg d.cn empty d.my.id).1 else empty)
    ∷ alone_from d (suc i) ss

-- The type that `temp_rep` has after a list of representatives was inserted through it.
abbrev pub type_after : ℕ → List RepInfo → ℕ
type_after type [] = type
type_after type (r ∷ rs) = type_after r.type rs

-- The representatives to be asked after the loss of the token, by the state.
unfoldable pub reps_in : MembState → Host → Memb → Option (List RepInfo)
reps_in op d s = segment_reps d s.membership potential_rep (length d.cn.segments) 0 []
reps_in seg d s = none
reps_in represented d s = none
reps_in gather d s =
    let more = drop 1 s.f_reps in
    if not s.token_alive
    then none
    else (insert_reps d.cn [] more
        >>= segment_reps d s.membership (type_after potential_rep more) (length d.cn.segments) 0)
reps_in form d s = some s.potential_reps
reps_in evs d s = segment_reps d s.future_membership potential_rep (length d.cn.segments) 0 []

abbrev pub is_in_evs : MembState → Bool
is_in_evs evs = true
is_in_evs _ = false

-- `Memb_token_loss`; `none` is a fatal alarm.
unfoldable pub token_loss : Host → Memb → Option Memb
token_loss d s = reps_in s.state d s >>= λ reps.
    let backoff = if is_in_evs s.state then backoff_membership ∷ [] else [] in
    some (
      shift_to_seg d (
        does
          (record s {
            potential_reps = reps;
            token_alive = false;
            membership = record s.membership { segments = alone_from d 0 s.membership.segments };
          })
          (backoff
            ++ (block_delivery
                ∷ dequeue token_loss_event
                ∷ dequeue send_join_event
                ∷ dequeue form_or_fail_event
                ∷ dequeue token_hurry_event
                ∷ dequeue lookup_new_members_event
                ∷ drop_token
                ∷ []))))
