-- ===== src/Protocol/Round.antt =====
-- What a visit of the token does to the window: `Aru` and the deliveries at the end of
-- `Prot_handle_token`.
use mathlib.Core.Path.{sym, ap}
use cd_praticas.Prelude.{
  ℕ, suc, ◌+◌, ◌-◌, ◌≤◌, ◌≡◌, ◌∙◌, none, inl, inr, Bool, false, some, arith, Bool-cases, ltb, leb,
  if◌then◌else◌, ◌>>=◌, >>=-eq-some, eq_of_some,
}
use cd_praticas.Protocol.Types.{Window, is_evs}
use cd_praticas.Protocol.Window.{deliver_agreed_packets, discard_packets}
use cd_praticas.Protocol.Token.{TokenHeader, pass_on, raise_aru, deliver_all, finish_token}
use cd_praticas.Protocol.Delivery.{IsValid, deliver_reliable_packets-IsValid}
use cd_praticas.Protocol.Agreed.{deliver_agreed_packets-IsValid}
use cd_praticas.Protocol.Discard.{discard_packets-Discarded}
use cd_praticas.Protocol.Runs.{Reach, here, next, raise, reliable, agreed, discard, Reach-IsValid}

-- The token's `aru` never leaves a daemon above what the daemon has.
pub aru-pass_on :
    (my_id : ℕ) (leader : Bool) (w : Window) (token : TokenHeader)
    → (pass_on my_id leader w token).aru ≤ w.my_aru
unfolding pass_on
aru-pass_on my_id leader w token = ground arith

raised :
    (last out : TokenHeader) (w u : Window)
    → raise_aru last out w ≡ some u
    → (a : ℕ) × (u ≡ record w { aru = a }) × (w.aru ≤ a) × (a ≤ out.aru) × (a ≤ last.aru)
unfolding raise_aru
raised last out w u e =
    let a = if ltb last.aru out.aru then last.aru else out.aru in
    elim (Bool-cases (leb w.aru a)) [
      | inl up ↦ (a, sym (eq_of_some (rw up at e)), ground arith, ground arith, ground arith)
      | inr down ↦ absurd (none_some (rw down at e))
    ]
  where
    none_some : ¬ (none ≡ some u)
    none_some h = cc h

-- The end of the handler is a sequence of steps of the window.
deliver_all-Reach :
    (num_sent : ℕ) (start w w' : Window)
    → Reach start w
    → IsValid w
    → is_evs w.memb_state ≡ false
    → num_sent ≤ w.highest_seq
    → deliver_all num_sent w ≡ some w'
    → Reach start w' × (w'.last_discarded ≡ w.aru) × (w'.aru ≡ w.aru)
unfolding deliver_all
deliver_all-Reach num_sent start w w' run v normal sent e =
    let (y, first, last) = >>=-eq-some (discard_packets w >>= deliver_agreed_packets) _ e in
    let (x, one, two) = >>=-eq-some (discard_packets w) deliver_agreed_packets first in
    let f = discard_packets-Discarded w x v one in
    let (vy, s, _) = deliver_agreed_packets-IsValid x y f.valid two in
    let fits : y.highest_seq - num_sent + 1 + num_sent ≤ suc y.highest_seq =
      omega (arith, f.highest_seq, s.highest_seq) in
    let (_, t, _) = deliver_reliable_packets-IsValid _ num_sent y w' vy fits last in
    (
      next (next (next run (discard normal one)) (agreed two)) (reliable _ num_sent fits last),
      t.last_discarded ∙ s.last_discarded ∙ f.last_discarded,
      t.aru ∙ s.aru ∙ f.aru,
    )

-- A visit of the token outside of the state EVS, from the calculation of its `aru` on, is a sequence
-- of steps of the window. It does not lower `Aru`, leaves it at most at the `aru` of the token and at
-- that of the last one, and discards exactly up to it.
pub finish_token-Reach :
    (my_id : ℕ) (leader : Bool) (num_sent : ℕ) (last token out : TokenHeader) (w w' : Window)
    → IsValid w
    → is_evs w.memb_state ≡ false
    → num_sent ≤ w.highest_seq
    → finish_token my_id leader num_sent last token w ≡ some (out, w')
    → Reach w w'
      × (w.aru ≤ w'.aru)
      × (w'.aru ≤ out.aru)
      × (w'.aru ≤ last.aru)
      × (w'.last_discarded ≡ w'.aru)
unfolding finish_token
finish_token-Reach my_id leader num_sent last token out w w' v normal sent e =
    let new = pass_on my_id leader w token in
    let (u', both, pair) = >>=-eq-some (raise_aru last new w >>= deliver_all num_sent) _ e in
    let (u, up, rest) = >>=-eq-some (raise_aru last new w) (deliver_all num_sent) both in
    let (a, is, lo, le_out, le_last) = raised last new w u up in
    let to_out : new ≡ out = cc (eq_of_some pair) in
    let to_w : u' ≡ w' = cc (eq_of_some pair) in
    let raising : Reach w (record w { aru = a }) =
      next here (raise a lo (omega (arith, aru-pass_on my_id leader w token))) in
    let (run, at_aru, same) =
      deliver_all-Reach num_sent w (record w { aru = a }) w' raising (Reach-IsValid raising v)
        normal sent (rw (← is, ← to_w) rest) in
    (
      run,
      omega (arith, same),
      omega (arith, same, ap (λ (t : TokenHeader). t.aru) to_out),
      omega (arith, same),
      at_aru ∙ sym same,
    )
