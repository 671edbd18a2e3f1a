-- ===== src/Membership/Steps.antt =====
-- Every sequence of messages and timers keeps the state of membership.c sound.
use cd_praticas.Prelude.{ℕ, ◌≡◌, refl, ap, List, true, some}
use cd_praticas.Protocol.Types.{seg, represented, gather}
use cd_praticas.Membership.Sets.{RepInfo}
use cd_praticas.Membership.State.{Memb, Host, shift_to_seg, gather_or_represented, token_loss}
use cd_praticas.Membership.Handlers.{
  scast_alive, handle_alive, handle_join, handle_refer, lookup_new_members, handle_foreign,
  form_or_fail, send_join,
}
use cd_praticas.Membership.Sound.{
  IsSound, without_token, same_fields, token_loss-IsSound, handle_alive-IsSound,
}
use cd_praticas.Membership.Handled.{
  shift_to_seg-IsSound, gather_or_represented-IsSound, join_in-IsSound, refer_in-IsSound,
  foreign_in-IsSound, form_or_fail-IsSound, scast_alive-IsSound, lookup_new_members-IsSound,
}

-- What happens to a daemon until a membership is formed, in any order: messages from other daemons,
-- and timers. A timer runs only in the state that has set it, the one of the token only while
-- the daemon has a token.
pub data Step (d : Host) (s : Memb) : Memb → Type 0 where
  on_alive : (id : ℕ) {s' : Memb} → handle_alive d id s ≡ some s' → Step d s s'
  on_join :
      (id : ℕ) (rep : RepInfo) (others : List RepInfo) {s' : Memb}
      → handle_join d id rep others s ≡ some s'
      → Step d s s'
  on_refer : (id type : ℕ) {s' : Memb} → handle_refer d id type s ≡ some s' → Step d s s'
  on_foreign : (id : ℕ) {s' : Memb} → handle_foreign d id s ≡ some s' → Step d s s'
  on_loss : {s' : Memb} → s.token_alive ≡ true → token_loss d s ≡ some s' → Step d s s'
  on_seg : {s' : Memb} → s.state ≡ seg → gather_or_represented d s ≡ some s' → Step d s s'
  on_rep : s.state ≡ represented → Step d s (shift_to_seg d s)
  on_gather : {s' : Memb} → s.state ≡ gather → form_or_fail d s ≡ some s' → Step d s s'
  on_alive_timer : Step d s (scast_alive d true s)
  on_join_timer : Step d s (send_join d s)
  on_lookup_timer : Step d s (lookup_new_members d s)

pub data Reach (d : Host) (s : Memb) : Memb → Type 0 where
  here : Reach d s s
  next : {s' s'' : Memb} → Reach d s s' → Step d s' s'' → Reach d s s''

Step-IsSound : (d : Host) (s s' : Memb) → Step d s s' → IsSound s → IsSound s'
unfolding handle_join handle_refer handle_foreign send_join
Step-IsSound d s s' (on_alive id e) v = handle_alive-IsSound d id s s' v e
Step-IsSound d s s' (on_join id rep others e) v =
    join_in-IsSound s.state d id rep others s s' v refl e
Step-IsSound d s s' (on_refer id type e) v = refer_in-IsSound s.state d id type s s' v e
Step-IsSound d s s' (on_foreign id e) v = foreign_in-IsSound s.state d id s s' v e
Step-IsSound d s s' (on_loss held e) v = token_loss-IsSound d s s' e
Step-IsSound d s s' (on_seg at e) v =
    gather_or_represented-IsSound d s s' v (v.no_token (ap without_token at)) e
Step-IsSound d s s' (on_rep at) v = shift_to_seg-IsSound d s (v.no_token (ap without_token at))
Step-IsSound d s s' (on_gather at e) v = form_or_fail-IsSound d s s' v e
Step-IsSound d s s' on_alive_timer v = scast_alive-IsSound d true s v
Step-IsSound d s s' on_join_timer v = same_fields s _ v refl refl refl
Step-IsSound d s s' on_lookup_timer v = lookup_new_members-IsSound d s v

-- Whatever messages and timers a daemon meets until a membership is formed: in the state OP it has a
-- token, in the states SEG and REPRESENTED it has none, and the members it knows are different daemons that
-- fit in their array.
pub Reach-IsSound : (d : Host) (s s' : Memb) → Reach d s s' → IsSound s → IsSound s'
Reach-IsSound d s s' here v = v
Reach-IsSound d s s' (next {s' = s1} r step) v =
    Step-IsSound d s1 s' step (Reach-IsSound d s s1 r v)
