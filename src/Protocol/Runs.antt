-- ===== src/Protocol/Runs.antt =====
-- Every sequence of the steps that the window takes.
use mathlib.Core.Path.{subst}
use cd_praticas.Prelude.{ℕ, suc, ◌+◌, ◌≤◌, ◌≡◌, [], false, some}
use cd_praticas.Prelude.Int.{ℤ}
use cd_praticas.Protocol.Types.{Window, PacketHeader, PacketBody, MembState, is_evs}
use cd_praticas.Protocol.Window.{
  deliver_reliable_packets, deliver_agreed_packets, discard_packets, handle_regular,
}
use cd_praticas.Protocol.Token.{TokenHeader, catch_up}
use cd_praticas.Protocol.Send.{Sender, Sending, send_new_packets}
use cd_praticas.Protocol.Sending.{send_new_packets-SentAll}
use cd_praticas.Protocol.Invariant.{InOrder, AllPlaced}
use cd_praticas.Protocol.Moves.{Inv-raise, Inv-empty}
use cd_praticas.Protocol.Agreed.{deliver_agreed_packets-IsValid}
use cd_praticas.Protocol.Discard.{discard_packets-Discarded}
use cd_praticas.Protocol.Delivery.{deliver_reliable_packets-IsValid, IsValid}
use cd_praticas.Protocol.Receive.{handle_regular-IsValid, catch_up-IsValid}

-- What can happen to the window of one membership, in any order: a packet arrives, the daemon sends
-- packets, the token announces packets or raises `Aru`, the delivery threshold or the membership's
-- state changes, and the three delivery functions run. In the state EVS packets are discarded at the
-- end of the membership, which is not a step.
pub data Step (w : Window) : Window → Type 0 where
  receive :
      (h : PacketHeader) (b : PacketBody) (proc_index : ℤ) {w' : Window}
      → h.seq ≤ w.last_discarded + 8192
      → handle_regular h b proc_index w ≡ some w'
      → Step w w'
  -- A token tells of packets up to `token.seq`.
  caught : (token : TokenHeader) → token.seq ≤ w.last_discarded + 8192 → Step w (catch_up token w)
  -- The daemon sends `k` packets of its own at most.
  send :
      (k : ℕ) (s : Sender) (x y : Sending) {w' : Window}
      → x.window ≡ w
      → w.highest_seq + k ≤ w.last_discarded + 8192
      → send_new_packets k s x ≡ some y
      → y.window ≡ w'
      → Step w w'
  raise : (a : ℕ) → w.aru ≤ a → a ≤ w.my_aru → Step w (record w { aru = a })
  open_to : (t : ℕ) → Step w (record w { delivery_threshold = t })
  reliable :
      (start num : ℕ) {w' : Window}
      → start + num ≤ suc w.highest_seq
      → deliver_reliable_packets start num w ≡ some w'
      → Step w w'
  agreed : {w' : Window} → deliver_agreed_packets w ≡ some w' → Step w w'
  enter : (s : MembState) → Step w (record w { memb_state = s })
  discard : {w' : Window} → is_evs w.memb_state ≡ false → discard_packets w ≡ some w' → Step w w'

pub data Reach (w : Window) : Window → Type 0 where
  here : Reach w w
  next : {u v : Window} → Reach w u → Step u v → Reach w v

Step-IsValid : {w w' : Window} → Step w w' → IsValid w → IsValid w'
Step-IsValid {w} {w'} (receive h b i le e) v = handle_regular-IsValid h b i w w' v le e
Step-IsValid {w} (caught token le) v = catch_up-IsValid token w v le
Step-IsValid {w} (send k s x y start room e end) v =
    subst IsValid end (send_new_packets-SentAll k s x y (rw start v) (rw start room) e).valid
Step-IsValid {w} (raise a lo hi) v =
    Inv-raise w.packets w.last_discarded w.last_delivered w.aru w.my_aru w.highest_seq w.trace v a
      lo hi
Step-IsValid (open_to t) v = v
Step-IsValid (enter s) v = v
Step-IsValid {w} {w'} (reliable start num le e) v =
    (deliver_reliable_packets-IsValid start num w w' v le e).0
Step-IsValid {w} {w'} (agreed e) v = (deliver_agreed_packets-IsValid w w' v e).0
Step-IsValid {w} {w'} (discard normal e) v = (discard_packets-Discarded w w' v e).valid

pub Reach-IsValid : {w w' : Window} → Reach w w' → IsValid w → IsValid w'
Reach-IsValid here v = v
Reach-IsValid (next r s) v = Step-IsValid s (Reach-IsValid r v)

-- The window of a new membership: `Prot_init`, and the end of `Discard_packets` in the state EVS.
pub record IsFresh (w : Window) : Type 0 where
  pub counters : (w.last_discarded ≡ 0) × (w.last_delivered ≡ 0) × (w.aru ≡ 0) × (w.my_aru ≡ 0)
  pub highest : w.highest_seq ≡ 0
  pub empty : (e : ℕ) → (w.packets e).exist ≡ 0
  pub trace : w.trace ≡ []

pub IsFresh-IsValid : (w : Window) → IsFresh w → IsValid w
IsFresh-IsValid w f =
    rw (f.counters.0, f.counters.1, f.counters.2, f.counters.3, f.highest, f.trace)
      (Inv-empty w.packets f.empty)

-- After any sequence of steps from an empty window, no packet number was delivered twice, and packets
-- that are not single reliable messages were delivered in the order of their numbers.
pub delivered-InOrder : (w w' : Window) → IsFresh w → Reach w w' → InOrder w'.trace
delivered-InOrder w w' f r = (Reach-IsValid r (IsFresh-IsValid w f)).in_order

-- After any such sequence, packets that are not single reliable messages were delivered up to
-- `Last_delivered` only, and the safe ones among them up to `Aru` only; each delivered packet is
-- discarded, or marked as delivered in its entry.
pub delivered-AllPlaced :
    (w w' : Window)
    → IsFresh w
    → Reach w w'
    → AllPlaced w'.packets w'.last_discarded w'.last_delivered w'.aru w'.trace
delivered-AllPlaced w w' f r = (Reach-IsValid r (IsFresh-IsValid w f)).placed
