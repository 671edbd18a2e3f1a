-- ===== src/Membership/Handlers.antt =====
-- The handlers of membership.c: what the messages and the timers do in each state.
use cd_praticas.Prelude.{
  ℕ, ◌%◌, ◌^◌, List, [], ◌∷◌, ◌++◌, Bool, true, false, not, ◌&&◌, Option, none, some, ltb, ◌==◌,
  if◌then◌else◌, ◌>>=◌, length, get_elem?, drop, map,
}
use cd_praticas.Prelude.Int.{pos, ltb_ℤ}
use cd_praticas.Configuration.{Proc, Segment, Configuration, id_in_conf, leader, seg_leader}
use cd_praticas.Protocol.Types.{MembState, op, seg, represented, gather, form, evs}
use cd_praticas.Membership.Sets.{
  RepInfo, seg_rep, ring_rep, insert_member, insert_rep, proc_by_id, smallest_rep,
}
use cd_praticas.Membership.State.{
  Memb, Host, queue, dequeue, ucast, scast, alive, join, refer, foreign, does, own_rep, shift_to_op,
  shift_to_gather, shift_to_represented, insert_reps, token_loss, scast_alive_event,
  send_join_event, form_or_fail_event, shift_to_seg_event, lookup_new_members_event, alive_timeout,
  join_timeout, rep_timeout, gather_timeout, lookup_timeout, create_form1, fill_form1, read_form2,
}

-- `Conf_id_in_conf( c, id ) != -1`
abbrev pub is_in_conf : Configuration → ℕ → Bool
is_in_conf c id = not (ltb_ℤ (id_in_conf c id) (pos 0))

-- `Insert_member( &F_members, … )`
abbrev pub remember : ℕ → Memb → Memb
remember id s = record s { f_members = (insert_member s.f_members id).0 }

-- The token of the own ring is lost, and the sender is remembered.
abbrev pub lose_token : Host → ℕ → Memb → Option Memb
lose_token d id s = token_loss d s >>= λ s'. some (remember id s')

-- `code` is 0 for the timer, which is set again.
unfoldable pub scast_alive : Host → Bool → Memb → Memb
scast_alive d timer s = does s (
    scast d.my.seg_index (alive s.f_members)
    ∷ (if timer then queue scast_alive_event alive_timeout ∷ [] else []))

unfoldable pub send_join : Host → Memb → Memb
send_join d s =
    let m = join s.f_members s.f_reps in
    does s (
      (if s.token_alive then [] else scast d.my.seg_index m ∷ [])
      ++ map (λ (r : RepInfo). ucast r.proc_id m) s.potential_reps
      ++ (queue send_join_event join_timeout ∷ []))

unfoldable pub alive_in : MembState → Host → ℕ → Memb → Option Memb
alive_in op d id s = if is_in_conf s.membership id then lose_token d id s else some s
alive_in seg d id s = some (remember id s)
alive_in represented d id s = some (does s (queue shift_to_seg_event rep_timeout ∷ []))
alive_in gather d id s =
    if not s.token_alive
    then some (remember id s)
    else if is_in_conf s.membership id
    then lose_token d id s
    else some s
alive_in form d id s = some s
alive_in evs d id s = if is_in_conf s.future_membership id then lose_token d id s else some s

unfoldable pub handle_alive : Host → ℕ → Memb → Option Memb
unfolding alive_in
handle_alive d id s = alive_in s.state d id s

-- A join of another ring in the state OP.
unfoldable pub join_from_outside : Host → ℕ → RepInfo → Memb → Option Memb
join_from_outside d id rep s = leader s.membership >>= λ l.
    if l == d.my.id
    then some (shift_to_gather d (record s { potential_reps = rep ∷ []; f_members = [] }))
    else (let answer = does s (ucast id (refer l ring_rep) ∷ []) in
        if not (rep.seg_index == d.my.seg_index)
        then some answer
        else (seg_leader s.membership d.my.seg_index >>= λ sl.
            some (if sl == d.my.id then answer else s)))

-- Whether a join comes from the representative of the own segment.
abbrev pub is_own_rep : Host → Proc → RepInfo → Bool
is_own_rep d p rep = d.my.seg_index == p.seg_index && rep.type == seg_rep

-- The sender is told the representative of the own segment, if that is known.
unfoldable pub refer_to : Option ℕ → ℕ → Memb → Memb
refer_to none id s = s
refer_to (some r) id s = does s (ucast id (refer r seg_rep) ∷ [])

-- A join from daemon `id`, whose representatives are `rep`, itself, and `others`. `none`: a fatal alarm, or a
-- sender that is not in the configuration, whose segment would be read from an unset variable.
unfoldable pub join_in : MembState → Host → ℕ → RepInfo → List RepInfo → Memb → Option Memb
join_in op d id rep others s =
    if not (is_in_conf s.membership id)
    then join_from_outside d id rep s
    else if ltb 1 (length d.cn.segments)
    then token_loss d s
    else some s
join_in seg d id rep others s = proc_by_id d.cn id >>= λ p. some (
    if is_own_rep d p rep
    then scast_alive d false (shift_to_represented (record s { my_seg_rep = some id }))
    else s)
join_in represented d id rep others s = proc_by_id d.cn id >>= λ p. some (
    if is_own_rep d p rep
    then scast_alive d false
        (does (record s { my_seg_rep = some id }) (queue shift_to_seg_event rep_timeout ∷ []))
    else refer_to s.my_seg_rep id s)
join_in gather d id rep others s = insert_rep d.cn s.f_reps rep >>= λ f.
    insert_reps d.cn s.potential_reps (rep ∷ others) >>= λ potential. smallest_rep d.cn f.0 >>= λ i.
    get_elem? f.0 i >>= λ smallest.
    let s' = record s { f_reps = f.0; potential_reps = potential } in
    some (
      if smallest.proc_id == rep.proc_id
      then does s' (queue form_or_fail_event gather_timeout ∷ [])
      else s')
join_in form d id rep others s = some s
join_in evs d id rep others s =
    if is_in_conf s.future_membership id then lose_token d id s else some s

unfoldable pub handle_join : Host → ℕ → RepInfo → List RepInfo → Memb → Option Memb
unfolding join_in
handle_join d id rep others s = join_in s.state d id rep others s

-- A daemon refers to its representative: `id` and `type` are the fields of `memb_id`, whose second one is cut
-- to 16 bits.
unfoldable pub refer_in : MembState → Host → ℕ → ℕ → Memb → Option Memb
refer_in gather d id type s = elim (proc_by_id d.cn id) [
  | none ↦ some s
  | some p ↦
      insert_rep d.cn s.potential_reps
        (record { proc_id = p.id; type = type % 2 ^ 16; seg_index = p.seg_index })
      >>= λ r. some (record s { potential_reps = r.0 })
]
refer_in _ d id type s = some s

unfoldable pub handle_refer : Host → ℕ → ℕ → Memb → Option Memb
unfolding refer_in
handle_refer d id type s = refer_in s.state d id type s

-- The daemons of the configuration that are not in the regular membership.
abbrev pub missing_in : Configuration → List Proc → List ℕ
missing_in m [] = []
missing_in m (p ∷ ps) = if is_in_conf m p.id then missing_in m ps else p.id ∷ missing_in m ps

abbrev pub missing : Configuration → List Segment → List ℕ
missing m [] = []
missing m (s ∷ ss) = missing_in m s.procs ++ missing m ss

abbrev pub is_op : MembState → Bool
is_op op = true
is_op _ = false

unfoldable pub lookup_new_members : Host → Memb → Memb
lookup_new_members d s =
    let s' = record s { potential_reps = []; f_reps = own_rep d ring_rep ∷ []; f_members = [] } in
    let m = join [] s'.f_reps in
    let absent = missing s.reg_membership d.cn.segments in
    if not (is_op s.state)
    then s
    else if length d.cn.segments == 1
    then shift_to_gather d (does s' (scast d.my.seg_index m ∷ []))
    else if length absent == 0
    then s'
    else shift_to_gather d (does s' (map (λ id. ucast id m) absent))

-- A packet of another ring from daemon `id`.
unfoldable pub foreign_in : MembState → Host → ℕ → Memb → Option Memb
foreign_in op d id s = elim (proc_by_id d.cn id) [
  | none ↦ some s
  | some p ↦ leader s.membership >>= λ l.
      if l == d.my.id
      then some (lookup_new_members d s)
      else (seg_leader s.membership d.my.seg_index >>= λ sl. some (
          if sl == d.my.id && not s.foreign_found
          then does (record s { foreign_found = true })
              (ucast l (foreign id) ∷ ucast l (foreign id) ∷ [])
          else s))
]
foreign_in _ d id s = some s

unfoldable pub handle_foreign : Host → ℕ → Memb → Option Memb
unfolding foreign_in
handle_foreign d id s = foreign_in s.state d id s

-- Back to the state OP, with the old ring.
unfoldable pub back_to_op : Host → Memb → Memb
back_to_op d s =
    shift_to_op d
      (does s (dequeue send_join_event ∷ queue lookup_new_members_event lookup_timeout ∷ []))

-- Where another representative comes first: with a token back to OP, else the daemon gathers again.
unfoldable pub not_first : Bool → Host → Memb → Option Memb
not_first true d s = some (back_to_op d s)
not_first false d s = insert_reps d.cn [] (drop 1 s.f_reps) >>= λ potential.
    some (shift_to_gather d (record s { f_members = d.my.id ∷ []; potential_reps = potential }))

-- `create_form1` among the effects: `Create_form1` takes over.
unfoldable pub form_or_fail : Host → Memb → Option Memb
form_or_fail d s = smallest_rep d.cn s.f_reps >>= λ i. get_elem? s.f_reps i >>= λ smallest.
    if smallest.proc_id == d.my.id
    then some (
        if s.token_alive && length s.f_reps == 1
        then back_to_op d s
        else does s (create_form1 ∷ []))
    else not_first s.token_alive d s

-- The tokens that form a membership: `fill_form1` and `read_form2` among the effects are the calls.
unfoldable pub form1_in : MembState → Host → Memb → Option Memb
form1_in op d s =
    leader s.membership >>= λ l. some (if l == d.my.id then s else does s (fill_form1 ∷ []))
form1_in represented d s = some (does s (fill_form1 ∷ []))
form1_in gather d s = some (does s (fill_form1 ∷ []))
form1_in _ d s = some s

unfoldable pub handle_form1 : Host → Memb → Option Memb
unfolding form1_in
handle_form1 d s = form1_in s.state d s

unfoldable pub handle_form2 : Memb → Memb
handle_form2 s = elim s.state [ form ↦ does s (read_form2 ∷ []) | other ↦ s ]
