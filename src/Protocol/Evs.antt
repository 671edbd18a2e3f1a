-- ===== src/Protocol/Evs.antt =====
-- `Discard_packets` in the state EVS: the last packets of a membership are delivered, around the
-- signal of the transitional membership, and the window starts anew.
use cd_praticas.Prelude.{
  ℕ, zero, suc, ◌-◌, Bool, true, false, not, ◌&&◌, ◌||◌, Option, none, some, ltb, leb, ◌==◌,
  if◌then◌else◌, ◌>>=◌,
}
use cd_praticas.Protocol.Types.{Window, pack_entry, is_safe, max_packets_in_struct, max_procs_ring}
use cd_praticas.Protocol.Window.{deliver_packet, dispose_at}

-- The packet of an entry is delivered if it waits.
abbrev pub deliver_waiting : ℕ → Window → Option Window
deliver_waiting e w = if (w.packets e).exist == 1 then deliver_packet e w else some w

-- The packets before the transitional signal: up to a hole or a safe packet.
unfoldable pub evs_before : ℕ → ℕ → Window → Option Window
evs_before zero i w = some w
evs_before (suc k) i w =
    let info = w.packets (pack_entry i) in
    let rest =
      λ (v : Window). evs_before k (suc i) (record (dispose_at i v) { last_discarded = i }) in
    if info.exist == 0
    then none
    else if info.exist == 3
    then some w
    else if is_safe info.head.type
    then some w
    else (deliver_waiting (pack_entry i) w >>= rest)

-- The packets after it. `committed` tells whether `Commit_membership` has a process; behind a hole only
-- the packets of such processes are delivered.
unfoldable pub evs_after : (ℕ → Bool) → ℕ → ℕ → Bool → Window → Option Window
evs_after committed zero i found_hole w = some w
evs_after committed (suc k) i found_hole w =
    let info = w.packets (pack_entry i) in
    let rest =
      λ (found : Bool) (v : Window). evs_after committed k (suc i) found (dispose_at i v) in
    if info.exist == 0
    then none
    else if info.exist == 3
    then rest true w
    else if not found_hole || committed info.head.proc_id
    then (deliver_waiting (pack_entry i) w >>= rest found_hole)
    else rest found_hole w

-- No packet is left in the first `n` entries.
unfoldable pub all_free : ℕ → Window → Bool
all_free zero w = true
all_free (suc n) w = (w.packets n).exist == 0 && all_free n w

-- Messages that are not whole are dropped, and the counters start from 0.
abbrev pub next_membership : Window → Window
next_membership w = record w {
  up_queue = λ i. if ltb i max_procs_ring then none else w.up_queue i;
  highest_seq = 0;
  my_aru = 0;
  aru = 0;
  last_discarded = 0;
  last_delivered = 0;
}

-- The window at the transitional signal, and at the end.
pub record Transition : Type 0 where
  pub signal : Window
  pub final : Window

-- `Discard_packets` in the state EVS; `last_seq` is `Last_seq`. `some none` is an early return. The
-- memberships that are handed to the sessions, the reload of the configuration and the reset of the
-- queue of messages to be sent are left out.
unfoldable pub discard_evs : (ℕ → Bool) → ℕ → Window → Option (Option Transition)
discard_evs committed last_seq w =
    if leb w.aru w.last_discarded
    then some none
    else if not (w.aru == last_seq)
    then some none
    else (evs_before (w.highest_seq - w.last_discarded) (suc w.last_discarded) w >>= λ s.
        evs_after committed (s.highest_seq - s.last_discarded) (suc s.last_discarded) false s
        >>= λ v.
            if all_free max_packets_in_struct v
            then some (some (record { signal = s; final = next_membership v }))
            else none)
