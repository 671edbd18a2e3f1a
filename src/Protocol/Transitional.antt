-- ===== src/Protocol/Transitional.antt =====
-- The end of a membership: which packets `Discard_packets` delivers in the state EVS, and that the
-- window starts anew.
use cd_praticas.Prelude.{ℕ, suc, ◌<◌, ◌≡◌, Bool, none, arith}
use cd_praticas.Protocol.Types.{Window, PacketInfo}
use cd_praticas.Protocol.BeforeSignal.{Before}
use cd_praticas.Protocol.AfterSignal.{Finished}
use cd_praticas.Protocol.Remaining.{Left}
use cd_praticas.Protocol.Evs.{Transition}

-- A window with no packets, as a membership finds it.
pub record IsEmpty (w : Window) : Type 0 where
  pub packets : (e : ℕ) → (w.packets e).exist ≡ 0
  pub counters :
      (w.aru ≡ 0)
      × (w.my_aru ≡ 0)
      × (w.highest_seq ≡ 0)
      × (w.last_discarded ≡ 0)
      × (w.last_delivered ≡ 0)
  pub up_queue : (i : ℕ) → i < 128 → w.up_queue i ≡ none

pub record Changed (committed : ℕ → Bool) (w : Window) (tr : Transition) : Type 0 where
  pub before : Before w.packets (suc w.last_discarded) w.highest_seq w tr.signal
  pub after :
      Finished committed w.packets tr.signal.last_discarded
        (suc tr.signal.last_discarded)
        w.highest_seq
        tr.signal
        tr.final
  pub empty : IsEmpty tr.final

-- No entry is used where no number is left.
pub Left-none : (p : ℕ → PacketInfo) (h : ℕ) → Left p (suc h) h → (e : ℕ) → (p e).exist ≡ 0
Left-none p h l e = ground (arith, l.within e)
