-- ===== src/Membership/Sound.antt =====
-- What holds between the steps of membership.c: which states have a token, and what the members are.
use mathlib.Core.Path.{subst}
use cd_praticas.Prelude.{
  ℕ, ◌≤◌, ◌≡◌, ◌≢◌, refl, ◌∙◌, sym, ap, inl, inr, List, [], ◌∷◌, ◌++◌, Bool, true, false, not, some,
  if◌then◌else◌, length, length-append, arith, Bool-cases, eq_of_some, >>=-eq-some, ◌==◌,
}
use cd_praticas.Protocol.Types.{MembState, op, seg, represented, gather, form, evs}
use cd_praticas.Membership.Sets.{is_member, insert_member, max_members}
use cd_praticas.Membership.Sorting.{All}
use cd_praticas.Membership.State.{Memb, Host, shift_to_seg, reps_in, token_loss}
use cd_praticas.Membership.Handlers.{
  is_in_conf, remember, lose_token, is_op, alive_in, handle_alive,
}

-- The states in which a daemon has lost its token.
abbrev pub without_token : MembState → Bool
without_token seg = true
without_token represented = true
without_token _ = false

abbrev pub AllDistinct : List ℕ → Type 0
AllDistinct [] = Unit {0}
AllDistinct (x ∷ xs) = All (λ y. y ≢ x) xs × AllDistinct xs

-- The set of members, within its array.
pub record IsMemberSet (m : List ℕ) : Type 0 where
  pub distinct : AllDistinct m
  pub fits : length m ≤ max_members

pub record IsSound (s : Memb) : Type 0 where
  pub op_token : is_op s.state ≡ true → s.token_alive ≡ true
  pub no_token : without_token s.state ≡ true → s.token_alive ≡ false
  pub members : IsMemberSet s.f_members

AllDistinct-append :
    (m : List ℕ) (id : ℕ) → AllDistinct m → is_member m id ≡ false → AllDistinct (m ++ (id ∷ []))
unfolding is_member
AllDistinct-append [] id a e = (tt, tt)
AllDistinct-append (x ∷ xs) id a e = (All-last xs a.0, AllDistinct-append xs id a.1 (ground arith))
  where
    All-last : (ys : List ℕ) → All (λ y. y ≢ x) ys → All (λ y. y ≢ x) (ys ++ (id ∷ []))
    All-last [] b = (ground arith, tt)
    All-last (y ∷ ys) b = (b.0, All-last ys b.1)

pub insert_member-IsMemberSet :
    (m : List ℕ) (id : ℕ) → IsMemberSet m → IsMemberSet (insert_member m id).0
unfolding insert_member
insert_member-IsMemberSet m id v = elim (Bool-cases (is_member m id)) [
  | inl there ↦ rw there v
  | inr free ↦ elim (Bool-cases (length m == max_members)) [
    | inl full ↦ rw (free, full) v
    | inr room ↦
        rw (free, room)
          (record {
            distinct = AllDistinct-append m id v.distinct free;
            fits = ground (arith, v.fits, length-append m (id ∷ []));
          })
  ]
]

pub none_member : IsMemberSet []
none_member = record { distinct = tt; fits = omega arith }

pub one_member : (id : ℕ) → IsMemberSet (id ∷ [])
one_member id = record { distinct = (tt, tt); fits = omega arith }

-- After `Memb_token_loss` the daemon is alone, in the state SEG.
pub token_loss-seg :
    (d : Host) (s s' : Memb)
    → token_loss d s ≡ some s'
    → (s'.state ≡ seg) × (s'.token_alive ≡ false) × (s'.f_members ≡ d.my.id ∷ [])
unfolding token_loss shift_to_seg
token_loss-seg d s s' e =
    let (reps, one, last) = >>=-eq-some (reps_in s.state d s) _ e in
    let same = eq_of_some last in
    (
      sym (ap (λ (x : Memb). x.state) same),
      sym (ap (λ (x : Memb). x.token_alive) same),
      sym (ap (λ (x : Memb). x.f_members) same),
    )

pub token_loss-IsSound : (d : Host) (s s' : Memb) → token_loss d s ≡ some s' → IsSound s'
token_loss-IsSound d s s' e =
    let (state, alive, members) = token_loss-seg d s s' e in
    record {
      op_token = λ t. cc (t, ap is_op state);
      no_token = λ t. alive;
      members = rw members (one_member d.my.id);
    }

remember-IsSound : (id : ℕ) (s : Memb) → IsSound s → IsSound (remember id s)
remember-IsSound id s v = record {
  op_token = v.op_token;
  no_token = v.no_token;
  members = insert_member-IsMemberSet s.f_members id v.members;
}

lose_token-IsSound : (d : Host) (id : ℕ) (s s' : Memb) → lose_token d id s ≡ some s' → IsSound s'
lose_token-IsSound d id s s' e =
    let (x, one, last) = >>=-eq-some (token_loss d s) _ e in
    subst IsSound (eq_of_some last) (remember-IsSound id x (token_loss-IsSound d s x one))

-- A test before the loss of the token.
pub if_lost :
    (d : Host) (id : ℕ) (b : Bool) (s s' : Memb)
    → IsSound s
    → (if b then lose_token d id s else some s) ≡ some s'
    → IsSound s'
if_lost d id true s s' v e = lose_token-IsSound d id s s' e
if_lost d id false s s' v e = subst IsSound (eq_of_some e) v

-- Other fields do not matter.
pub same_fields :
    (s s' : Memb)
    → IsSound s
    → s'.state ≡ s.state
    → s'.token_alive ≡ s.token_alive
    → s'.f_members ≡ s.f_members
    → IsSound s'
same_fields s s' v a b c = record {
  op_token = λ t. b ∙ v.op_token (sym (ap is_op a) ∙ t);
  no_token = λ t. b ∙ v.no_token (sym (ap without_token a) ∙ t);
  members = rw c v.members;
}

alive_in-IsSound :
    (st : MembState) (d : Host) (id : ℕ) (s s' : Memb)
    → IsSound s
    → alive_in st d id s ≡ some s'
    → IsSound s'
unfolding alive_in
alive_in-IsSound op d id s s' v e = if_lost d id (is_in_conf s.membership id) s s' v e
alive_in-IsSound seg d id s s' v e = subst IsSound (eq_of_some e) (remember-IsSound id s v)
alive_in-IsSound represented d id s s' v e =
    subst IsSound (eq_of_some e) (same_fields s _ v refl refl refl)
alive_in-IsSound gather d id s s' v e = elim (Bool-cases (not s.token_alive)) [
  | inl lost ↦ subst IsSound (eq_of_some (rw lost at e)) (remember-IsSound id s v)
  | inr held ↦ if_lost d id (is_in_conf s.membership id) s s' v (rw held at e)
]
alive_in-IsSound form d id s s' v e = subst IsSound (eq_of_some e) v
alive_in-IsSound evs d id s s' v e = if_lost d id (is_in_conf s.future_membership id) s s' v e

pub handle_alive-IsSound :
    (d : Host) (id : ℕ) (s s' : Memb) → IsSound s → handle_alive d id s ≡ some s' → IsSound s'
unfolding handle_alive
handle_alive-IsSound d id s s' v e = alive_in-IsSound s.state d id s s' v e
