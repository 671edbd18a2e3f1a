-- ===== src/Membership/Tests.antt =====
-- Runs of membership.c in a configuration of two segments, and its theorems on such runs.
use mathlib.Core.Path.{subst}
use cd_praticas.Prelude.{
  eq_of_some, ℕ, zero, suc, ◌≡◌, refl, inl, inr, [], ◌∷◌, true, false, none, some, arith,
}
use cd_praticas.Configuration.{Proc, Configuration, find_id}
use cd_praticas.Protocol.Types.{op, seg, evs, Window, PacketInfo, update}
use cd_praticas.Protocol.Window.{advance}
use cd_praticas.Prelude.Int.{negsuc}
use cd_praticas.Membership.Backoff.{clear_holes, back_off, BackedOff, back_off-BackedOff}
use cd_praticas.Membership.Select.{smallest_from, swap_remove, sort_rounds}
use cd_praticas.Membership.Sets.{
  RepInfo, proc_by_id, better_member, smallest_member, sort_members, sort_reps, replace_rep,
  insert_rep, insert_member, is_member,
}
use cd_praticas.Membership.Sorting.{Sorts}
use cd_praticas.Membership.Sorted.{
  RingOrder, RepOrder, IsKnown, sort_members-Sorts, sort_reps-Sorts,
}
use cd_praticas.Membership.Beside.{IsRepSet}
use cd_praticas.Membership.Reps.{Inserted, insert_rep-IsRepSet}
use cd_praticas.Membership.State.{Memb, Host, shift_to_gather, gather_or_represented, token_loss}
use cd_praticas.Membership.Handlers.{alive_in, handle_alive}
use cd_praticas.Membership.Sound.{IsSound}
use cd_praticas.Membership.Steps.{here, next, on_alive, on_seg, Reach-IsSound}
use cd_praticas.Membership.Loss.{IsConfigured, IsPlaced, IsFilled, token_loss-Returns}

abbrev daemon : ℕ → ℕ → ℕ → Proc
daemon id s i = record { name = []; id = id; seg_index = s; index_in_seg = i }

abbrev two_segments : Configuration
two_segments = record {
  hash_code = 0;
  allprocs = daemon 10 0 0 ∷ daemon 11 0 1 ∷ daemon 20 1 0 ∷ [];
  segments =
      record { procs = daemon 10 0 0 ∷ daemon 11 0 1 ∷ [] }
      ∷ record { procs = daemon 20 1 0 ∷ [] }
      ∷ [];
}

known_10 : IsKnown two_segments 10
unfolding proc_by_id find_id
known_10 = (daemon 10 0 0, refl)

known_11 : IsKnown two_segments 11
unfolding proc_by_id find_id
known_11 = (daemon 11 0 1, refl)

known_20 : IsKnown two_segments 20
unfolding proc_by_id find_id
known_20 = (daemon 20 1 0, refl)

sorted : sort_members two_segments (20 ∷ 11 ∷ 10 ∷ []) ≡ some (10 ∷ 11 ∷ 20 ∷ [])
unfolding sort_members sort_rounds smallest_member smallest_from better_member swap_remove
    proc_by_id find_id
sorted = refl

sort_members-Sorts_example :
    Sorts
      (RingOrder two_segments)
      (20 ∷ 11 ∷ 10 ∷ [])
      (sort_members two_segments (20 ∷ 11 ∷ 10 ∷ []))
sort_members-Sorts_example =
    sort_members-Sorts two_segments (20 ∷ 11 ∷ 10 ∷ []) (known_20, (known_11, (known_10, tt)))

abbrev rep_of : ℕ → ℕ → ℕ → RepInfo
rep_of id type s = record { proc_id = id; type = type; seg_index = s }

sort_reps-Sorts_example :
    Sorts
      (RepOrder two_segments)
      (rep_of 10 2 0 ∷ rep_of 20 1 1 ∷ [])
      (sort_reps two_segments (rep_of 10 2 0 ∷ rep_of 20 1 1 ∷ []))
sort_reps-Sorts_example =
    sort_reps-Sorts two_segments (rep_of 10 2 0 ∷ rep_of 20 1 1 ∷ [])
      ((inr refl, known_10), ((inl refl, known_20), tt))

-- A potential representative gives way to one of the segment.
gives_way :
    insert_rep two_segments (rep_of 10 0 0 ∷ []) (rep_of 11 1 0) ≡ some (rep_of 11 1 0 ∷ [], true)
unfolding insert_rep replace_rep proc_by_id find_id
gives_way = refl

potential_set : IsRepSet (rep_of 10 0 0 ∷ [])
potential_set = record { beside = (omega arith, tt, tt); fits = omega arith }

insert_rep-IsRepSet_example :
    Inserted (rep_of 10 0 0 ∷ []) (rep_of 11 1 0) (rep_of 11 1 0 ∷ [], true)
unfolding known_11
insert_rep-IsRepSet_example =
    insert_rep-IsRepSet two_segments (rep_of 10 0 0 ∷ []) (rep_of 11 1 0 ∷ []) (rep_of 11 1 0)
      known_11.0 true potential_set known_11.1 refl gives_way

abbrev host : Host
host = record { cn = two_segments; my = daemon 10 0 0; need_conf_reload = false }

abbrev operating : Memb
operating = record {
  state = op;
  token_alive = true;
  my_seg_rep = none;
  foreign_found = false;
  membership = two_segments;
  future_membership = two_segments;
  reg_membership = two_segments;
  f_members = [];
  f_reps = [];
  potential_reps = [];
  effects = [];
}

operating-IsSound : IsSound operating
operating-IsSound = record {
  op_token = λ t. refl;
  no_token = λ t. cc t;
  members = record { distinct = tt; fits = omega arith };
}

two_segments-IsPlaced : IsPlaced two_segments two_segments
unfolding proc_by_id find_id
two_segments-IsPlaced zero id e = (
  daemon 10 0 0,
  subst (λ n. proc_by_id two_segments n ≡ some (daemon 10 0 0)) (eq_of_some e) refl,
  refl,
)
two_segments-IsPlaced (suc zero) id e = (
  daemon 20 1 0,
  subst (λ n. proc_by_id two_segments n ≡ some (daemon 20 1 0)) (eq_of_some e) refl,
  refl,
)
two_segments-IsPlaced (suc (suc i)) id e = cc e

two_segments-IsFilled : IsFilled two_segments
two_segments-IsFilled zero lt = (10, refl)
two_segments-IsFilled (suc zero) lt = (20, refl)
two_segments-IsFilled (suc (suc i)) lt = absurd (omega arith)

operating-IsConfigured : IsConfigured host operating
operating-IsConfigured = record {
  filled = two_segments-IsFilled;
  placed = two_segments-IsPlaced;
  membership = two_segments-IsPlaced;
  future_membership = two_segments-IsPlaced;
  f_reps = tt;
  potential_reps = record { beside = tt; fits = omega arith };
}

token_loss-Returns_example :
    (s' : Memb) × (token_loss host operating ≡ some s')
    × (s'.state ≡ seg)
    × (s'.token_alive ≡ false)
    × (s'.f_members ≡ 10 ∷ [])
    × IsRepSet s'.potential_reps
token_loss-Returns_example =
    token_loss-Returns host operating operating-IsSound refl operating-IsConfigured

-- A daemon that lost its token hears of another one, and gathers as it is the smaller one.
abbrev alone : Memb
alone = record operating { state = seg; token_alive = false; f_members = 10 ∷ [] }

alone-IsSound : IsSound alone
alone-IsSound = record {
  op_token = λ t. cc t;
  no_token = λ t. refl;
  members = record { distinct = (tt, tt); fits = omega arith };
}

abbrev with_other : Memb
with_other = record alone { f_members = 10 ∷ 11 ∷ [] }

gathers : gather_or_represented host with_other ≡ some (shift_to_gather host with_other)
unfolding gather_or_represented smallest_member smallest_from better_member proc_by_id find_id
gathers = refl

hears : handle_alive host 11 alone ≡ some with_other
unfolding handle_alive alive_in insert_member is_member
hears = refl

Reach-IsSound_example : IsSound (shift_to_gather host with_other)
Reach-IsSound_example =
    Reach-IsSound host alone (shift_to_gather host with_other)
      (next (next here (on_alive 11 hears)) (on_seg refl gathers)) alone-IsSound

-- A hole at number 2, between two packets.
abbrev at_number : ℕ → ℕ → PacketInfo
at_number n exist = record {
  head = record {
    type = 8;
    transmiter_id = 10;
    proc_id = 10;
    memb_id = record { proc_id = 10; time = 0 };
    seq = n;
    token_round = 0;
    data_len = 2;
    first_frag_header = record { fragment_index = negsuc 0; fragment_len = 2 };
  };
  body = λ i. i;
  exist = exist;
  proc_index = 0;
}

abbrev with_hole : Window
with_hole = record {
  packets =
      update (update (update (λ e. at_number 0 0) 1 (at_number 1 1)) 2 (at_number 2 3)) 3
        (at_number 3 1);
  up_queue = λ i. none;
  aru = 3;
  my_aru = 3;
  highest_seq = 3;
  last_discarded = 0;
  last_delivered = 0;
  memb_state = evs;
  delivery_threshold = 1;
  packet_delivered = 0;
  sess = [];
  trace = [];
}

backs_off : ((back_off with_hole).my_aru ≡ 1) × ((back_off with_hole).aru ≡ 0)
unfolding back_off clear_holes advance
backs_off = (refl, refl)

back_off-BackedOff_example : BackedOff with_hole (back_off with_hole)
back_off-BackedOff_example = back_off-BackedOff with_hole (omega arith) (omega arith)
