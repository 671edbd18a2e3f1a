-- ===== src/Protocol/Retrans.antt =====
-- `Answer_retrans`, and the retransmission requests that `Prot_handle_token` adds to the token.
use cd_praticas.Prelude.{
  ℕ, zero, suc, ◌+◌, ◌-◌, ◌/◌, List, [], ◌∷◌, ◌++◌, Bool, not, ◌&&◌, Option, none, some, ◌==◌, ltb,
  if◌then◌else◌, ◌>>=◌,
}
use cd_praticas.Prelude.Int.{ℤ, negsuc, eqb_ℤ}
use cd_praticas.Protocol.Types.{MembershipId, Window, is_evs, pack_entry}

-- The requests in the token's body, each with its `num_seq` numbers behind it.
pub record RingRtr : Type 0 where
  pub memb_id : MembershipId
  pub proc_id : ℤ
  pub seg_index : ℤ
  pub seqs : List ℕ

-- A packet that was sent again: to one daemon, to a segment, or to all.
pub data Retransmission : Type 0 where
  ucast : ℤ → ℕ → Retransmission
  scast : ℤ → ℕ → Retransmission
  bcast : ℕ → Retransmission

-- `proc_id` and `seg_index` are whom the daemon's own requests are to be answered to.
pub record Answer : Type 0 where
  pub sent : List Retransmission
  pub num_retrans : ℕ
  pub proc_id : ℤ
  pub seg_index : ℤ

abbrev pub is_equal : MembershipId → MembershipId → Bool
is_equal a b = a.proc_id == b.proc_id && a.time == b.time

abbrev pub retransmit : RingRtr → ℕ → Retransmission
retransmit r seq =
    if not (eqb_ℤ r.proc_id (negsuc 0))
    then ucast r.proc_id seq
    else if not (eqb_ℤ r.seg_index (negsuc 0))
    then scast r.seg_index seq
    else bcast seq

-- One number of a request of the daemon's own ring; `none` is the fatal alarm for a packet below
-- `Aru`.
unfoldable pub answer_seq : Window → ℤ → RingRtr → ℕ → Answer → Option Answer
answer_seq w my_seg r seq a =
    if ltb seq w.aru
    then none
    else if not ((w.packets (pack_entry seq)).exist == 0)
    then some
        (record a { sent = a.sent ++ (retransmit r seq ∷ []); num_retrans = a.num_retrans + 1 })
    else some (record a {
      proc_id = negsuc 0;
      seg_index = if not (eqb_ℤ r.seg_index my_seg) then negsuc 0 else a.seg_index;
    })

unfoldable pub answer_seqs : Window → ℤ → RingRtr → List ℕ → Answer → Option Answer
answer_seqs w my_seg r [] a = some a
answer_seqs w my_seg r (seq ∷ seqs) a = answer_seq w my_seg r seq a >>= answer_seqs w my_seg r seqs

-- The loop over the requests; those of other rings stay in the token, in their order.
unfoldable pub answer_loop :
    Window → MembershipId → ℤ → List RingRtr → Answer → Option (Answer × List RingRtr)
answer_loop w memb_id my_seg [] a = some (a, [])
answer_loop w memb_id my_seg (r ∷ rs) a =
    if is_equal r.memb_id memb_id
    then (answer_seqs w my_seg r r.seqs a >>= answer_loop w memb_id my_seg rs)
    else (answer_loop w memb_id my_seg rs a >>= λ x. some (x.0, r ∷ x.1))

unfoldable pub answer_retrans :
    Window → MembershipId → ℤ → ℤ → List RingRtr → Option (Answer × List RingRtr)
answer_retrans w memb_id my_id my_seg rs =
    answer_loop w memb_id my_seg rs
      (record { sent = []; num_retrans = 0; proc_id = my_id; seg_index = my_seg })

-- The loop that collects the numbers of missing packets from `i` on, `k` numbers, of which at most
-- `allowed` fit.
unfoldable pub missing_seqs : ℕ → ℕ → ℕ → Window → List ℕ
missing_seqs zero i allowed w = []
missing_seqs (suc k) i zero w = []
missing_seqs (suc k) i (suc allowed) w =
    if (w.packets (pack_entry i)).exist == 0
    then i ∷ missing_seqs k (suc i) allowed w
    else missing_seqs k (suc i) (suc allowed) w

-- How many numbers fit into the token's body of 65467 bytes behind `new_ptr` bytes and a header of 16
-- bytes. Where they do not fit, the unsigned 64-bit difference becomes a negative `int` in the source.
unfoldable pub retrans_allowed : ℕ → ℕ
retrans_allowed new_ptr = (65467 - new_ptr - 16) / 4

-- The daemon's own request, where it misses packets and two numbers at least fit; `last_seq` is the
-- number in the last token.
unfoldable pub own_request : Window → MembershipId → Bool → ℕ → ℕ → ℤ → ℤ → List RingRtr
own_request w memb_id accelerated_ring last_seq new_ptr proc_id seg_index =
    let max = if accelerated_ring && not (is_evs w.memb_state) then last_seq else w.highest_seq in
    let allowed = retrans_allowed new_ptr in
    if ltb w.my_aru max && ltb 1 allowed
    then record {
      memb_id = memb_id;
      proc_id = proc_id;
      seg_index = seg_index;
      seqs = missing_seqs (max - w.my_aru) (suc w.my_aru) allowed w;
    }
      ∷ []
    else []
