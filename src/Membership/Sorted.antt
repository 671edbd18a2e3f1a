-- ===== src/Membership/Sorted.antt =====
-- `Sort_members` and `Sort_reps` sort: the result holds the same elements, in the order of the ring.
use mathlib.Core.Path.{subst}
use native.Mathlib.Decide.{dec_lt}
use cd_praticas.Prelude.{
  eq_of_some, none-ne-some, ℕ, zero, suc, ◌≤◌, ◌<◌, ◌≡◌, refl, ◌∙◌, sym, ap, ◌⊎◌, inl, inr, List,
  [], ◌∷◌, Bool, true, false, ◌&&◌, ◌||◌, Option, some, if◌then◌else◌, get_elem?, length, drop,
  arith, Bool-cases, ltb, ◌==◌,
}
use cd_praticas.Configuration.{Proc, Configuration}
use cd_praticas.Membership.Select.{smallest_from}
use cd_praticas.Membership.Sets.{
  RepInfo, proc_by_id, is_before, better_member, smallest_member, sort_members, better_rep,
  smallest_rep, sort_reps, seg_rep, ring_rep,
}
use cd_praticas.Membership.Sorting.{All, Finds, Sorts, Sorts-map, sort_rounds-Sorts}

-- `x` does not have to stand before `c`.
abbrev pub NotBefore : {A : Type 0} → (A → A → Option Bool) → A → A → Type 0
NotBefore better c x = better x c ≡ some false

module _ {A : Type 0} where
  drop-next :
      (i : ℕ) (xs : List A) (y : A) (ys : List A)
      → drop i xs ≡ y ∷ ys
      → (get_elem? xs i ≡ some y) × (drop (suc i) xs ≡ ys)
  drop-next zero [] y ys e = cc e
  drop-next zero (x ∷ xs) y ys e = (cc, cc)
  drop-next (suc i) [] y ys e = cc e
  drop-next (suc i) (x ∷ xs) y ys e = drop-next i xs y ys e

  drop-end : (i : ℕ) (xs : List A) → drop i xs ≡ [] → length xs ≤ i
  drop-end zero [] e = omega arith
  drop-end zero (x ∷ xs) e = cc e
  drop-end (suc i) [] e = omega arith
  drop-end (suc i) (x ∷ xs) e = omega (arith, drop-end i xs e)

  All-of_get :
      (P : A → Type 0) (xs : List A)
      → ((j : ℕ) (x : A) → j < length xs → get_elem? xs j ≡ some x → P x)
      → All P xs
  All-of_get P [] f = tt
  All-of_get P (x ∷ xs) f =
      (f 0 x (omega arith) refl, All-of_get P xs (λ j y lt e. f (suc j) y (omega arith) e))

  get_of-All :
      (P : A → Type 0) (xs : List A) → All P xs → (j : ℕ) (x : A) → get_elem? xs j ≡ some x → P x
  get_of-All P [] a j x e = absurd (none-ne-some e)
  get_of-All P (y ∷ ys) a zero x e = subst P (eq_of_some e) a.0
  get_of-All P (y ∷ ys) a (suc j) x e = get_of-All P ys a.1 j x e

-- The search by a relation that is total on good elements, where an element that replaces another one
-- stands before all that the other one stood before.
module _ {A : Type 0} (better : A → A → Option Bool) (Good : A → Type 0)
    (total : (x c : A) → Good x → Good c → (b : Bool) × (better x c ≡ some b))
    (same : (x : A) → Good x → better x x ≡ some false)
    (keeps : (x y c : A)
      → Good x
      → Good y
      → Good c
      → better y c ≡ some true
      → better x c ≡ some false
      → better x y ≡ some false)
    (whole : List A) (good : All Good whole) where
  smallest_from-Finds :
      (back : List A) (c : A) (current i : ℕ)
      → drop i whole ≡ back
      → get_elem? whole current ≡ some c
      → ((j : ℕ) (x : A) → j < i → get_elem? whole j ≡ some x → NotBefore better c x)
      → Finds (NotBefore better) whole (smallest_from better c current i back)
  unfolding smallest_from
  smallest_from-Finds [] c current i rest here best = record {
    index = current;
    element = c;
    returns = refl;
    stands = here;
    smallest =
        All-of_get (NotBefore better c) whole
          (λ j x lt e. best j x (omega (arith, drop-end i whole rest)) e);
  }
  smallest_from-Finds (y ∷ ys) c current i rest here best =
      let (at, later) = drop-next i whole y ys rest in
      let good_y = get_of-All Good whole good i y at in
      let good_c = get_of-All Good whole good current c here in
      let (b, e) = total y c good_y good_c in
      elim (Bool-cases b) [
        | inl replaces ↦
            let t : better y c ≡ some true = rw replaces at e in
            rw t (
              smallest_from-Finds ys y i (suc i) later at (λ j x lt g. elim (dec_lt j i) [
                | yes before ↦
                    keeps x y c (get_of-All Good whole good j x g) good_y good_c t
                      (best j x before g)
                | no last ↦
                    let eq : i ≡ j = omega arith in
                    let is : y ≡ x = eq_of_some (sym at ∙ ap (get_elem? whole) eq ∙ g) in
                    subst (NotBefore better y) is (same y good_y)
              ]))
        | inr stays ↦
            let t : better y c ≡ some false = rw stays at e in
            rw t (
              smallest_from-Finds ys c current (suc i) later here (λ j x lt g. elim (dec_lt j i) [
                | yes before ↦ best j x before g
                | no last ↦
                    let eq : i ≡ j = omega arith in
                    let is : y ≡ x = eq_of_some (sym at ∙ ap (get_elem? whole) eq ∙ g) in
                    subst (NotBefore better c) is t
              ]))
      ]

-- A daemon of the configuration.
abbrev pub IsKnown : Configuration → ℕ → Type 0
IsKnown cn id = (p : Proc) × (proc_by_id cn id ≡ some p)

member_total :
    (cn : Configuration) (x c : ℕ)
    → IsKnown cn x
    → IsKnown cn c
    → (b : Bool) × (better_member cn x c ≡ some b)
unfolding better_member
member_total cn x c (p, e) (q, f) = (is_before p q, rw (e, f) refl)

member_same : (cn : Configuration) (x : ℕ) → IsKnown cn x → better_member cn x x ≡ some false
unfolding better_member
member_same cn x (p, e) = let irr : is_before p p ≡ false = ground arith in rw (e, irr) refl

member_keeps :
    (cn : Configuration) (x y c : ℕ)
    → IsKnown cn x
    → IsKnown cn y
    → IsKnown cn c
    → better_member cn y c ≡ some true
    → better_member cn x c ≡ some false
    → better_member cn x y ≡ some false
unfolding better_member
member_keeps cn x y c (p, e) (q, f) (r, g) t u =
    let t' : is_before q r ≡ true = eq_of_some (rw (f, g) at t) in
    let u' : is_before p r ≡ false = eq_of_some (rw (e, g) at u) in
    let v : is_before p q ≡ false = ground arith in rw (e, f, v) refl

smallest_member-Finds :
    (cn : Configuration) (x : ℕ) (xs : List ℕ)
    → All (IsKnown cn) (x ∷ xs)
    → Finds (NotBefore (better_member cn)) (x ∷ xs) (smallest_member cn (x ∷ xs))
unfolding smallest_member
smallest_member-Finds cn x xs good =
    let (p, e) = good.0 in
    rw e (
      smallest_from-Finds (better_member cn) (IsKnown cn) (member_total cn) (member_same cn)
        (member_keeps cn) (x ∷ xs) good xs x 0 1 refl refl
        (λ j y lt g.
          let first : 0 ≡ j = omega arith in
          let is : x ≡ y = eq_of_some (ap (get_elem? (x ∷ xs)) first ∙ g) in
          subst (NotBefore (better_member cn) x) is (member_same cn x good.0)))

-- Of two processes the first one stands before the other on the ring: in a lower segment, or in the same
-- one and not behind it.
abbrev pub OnRing : Proc → Proc → Type 0
OnRing p q =
    (p.seg_index < q.seg_index) ⊎ (p.seg_index ≡ q.seg_index) × (p.index_in_seg ≤ q.index_in_seg)

-- Two daemons in the order of the ring.
abbrev pub RingOrder : Configuration → ℕ → ℕ → Type 0
RingOrder cn x y =
    (p : Proc) × (q : Proc) × (proc_by_id cn x ≡ some p) × (proc_by_id cn y ≡ some q) × OnRing p q

member-RingOrder :
    (cn : Configuration) (x y : ℕ)
    → IsKnown cn x
    → IsKnown cn y
    → better_member cn y x ≡ some false
    → RingOrder cn x y
unfolding better_member
member-RingOrder cn x y (p, e) (q, f) n =
    let later : is_before q p ≡ false = eq_of_some (rw (e, f) at n) in (p, q, e, f, ground arith)

-- Sorting members that are all daemons of the configuration returns the same members in the order of
-- the ring: by their segments, and in a segment by their places in it.
pub sort_members-Sorts :
    (cn : Configuration) (m : List ℕ)
    → All (IsKnown cn) m
    → Sorts (RingOrder cn) m (sort_members cn m)
unfolding sort_members
sort_members-Sorts cn m known =
    Sorts-map (NotBefore (better_member cn)) (RingOrder cn) (IsKnown cn) (member-RingOrder cn) m
      (sort_members cn m) known
      (sort_rounds-Sorts (NotBefore (better_member cn)) (IsKnown cn) (smallest_member cn)
        (smallest_member-Finds cn) (length m) m refl known)

-- A representative that is a daemon of the configuration, and not a potential one.
abbrev pub IsRep : Configuration → RepInfo → Type 0
IsRep cn r = ((r.type ≡ seg_rep) ⊎ (r.type ≡ ring_rep)) × IsKnown cn r.proc_id

-- What `better_rep` decides for such representatives, whose processes are `p` and `q`.
abbrev is_rep_before : RepInfo → Proc → RepInfo → Proc → Bool
is_rep_before x p c q =
    if c.type == seg_rep
    then x.type == seg_rep && ltb x.seg_index c.seg_index
    else x.type == seg_rep
      || (ltb x.seg_index c.seg_index
          || (x.seg_index == c.seg_index && ltb p.index_in_seg q.index_in_seg))

better_rep-eq :
    (cn : Configuration) (x c : RepInfo) (p q : Proc)
    → (x.type ≡ seg_rep) ⊎ (x.type ≡ ring_rep)
    → (c.type ≡ seg_rep) ⊎ (c.type ≡ ring_rep)
    → proc_by_id cn x.proc_id ≡ some p
    → proc_by_id cn c.proc_id ≡ some q
    → better_rep cn x c ≡ some (is_rep_before x p c q)
unfolding better_rep
better_rep-eq cn x c p q t (inl seg) e f = rw seg refl
better_rep-eq cn x c p q (inl seg) (inr ring) e f = rw (ring, seg) refl
better_rep-eq cn x c p q (inr ring2) (inr ring) e f = rw (ring, ring2, e, f) (ground arith)

rep_total :
    (cn : Configuration) (x c : RepInfo)
    → IsRep cn x
    → IsRep cn c
    → (b : Bool) × (better_rep cn x c ≡ some b)
rep_total cn x c (t, (p, e)) (u, (q, f)) = (is_rep_before x p c q, better_rep-eq cn x c p q t u e f)

rep_same : (cn : Configuration) (x : RepInfo) → IsRep cn x → better_rep cn x x ≡ some false
rep_same cn x (t, (p, e)) =
    let irr : is_rep_before x p x p ≡ false = ground arith in
    better_rep-eq cn x x p p t t e e ∙ ap some irr

rep_keeps :
    (cn : Configuration) (x y c : RepInfo)
    → IsRep cn x
    → IsRep cn y
    → IsRep cn c
    → better_rep cn y c ≡ some true
    → better_rep cn x c ≡ some false
    → better_rep cn x y ≡ some false
rep_keeps cn x y c (t, (p, e)) (u, (q, f)) (v, (r, g)) a b =
    let a' : is_rep_before y q c r ≡ true =
      eq_of_some (sym (better_rep-eq cn y c q r u v f g) ∙ a) in
    let b' : is_rep_before x p c r ≡ false =
      eq_of_some (sym (better_rep-eq cn x c p r t v e g) ∙ b) in
    let w : is_rep_before x p y q ≡ false = ground arith in
    better_rep-eq cn x y p q t u e f ∙ ap some w

smallest_rep-Finds :
    (cn : Configuration) (x : RepInfo) (xs : List RepInfo)
    → All (IsRep cn) (x ∷ xs)
    → Finds (NotBefore (better_rep cn)) (x ∷ xs) (smallest_rep cn (x ∷ xs))
unfolding smallest_rep
smallest_rep-Finds cn x xs good =
    smallest_from-Finds (better_rep cn) (IsRep cn) (rep_total cn) (rep_same cn) (rep_keeps cn)
      (x ∷ xs) good xs x 0 1 refl refl
      (λ j y lt g.
        let first : 0 ≡ j = omega arith in
        let is : x ≡ y = eq_of_some (ap (get_elem? (x ∷ xs)) first ∙ g) in
        subst (NotBefore (better_rep cn) x) is (rep_same cn x good.0))

-- Two representatives in order: one of a segment before one of a ring, those of segments by their segments,
-- and those of rings by their places on the ring, with the segments that they state.
abbrev pub RepOrder : Configuration → RepInfo → RepInfo → Type 0
RepOrder cn x y =
    (x.type ≡ seg_rep) × ((y.type ≡ ring_rep) ⊎ (y.type ≡ seg_rep) × (x.seg_index ≤ y.seg_index))
    ⊎ (x.type ≡ ring_rep)
      × (y.type ≡ ring_rep)
      × ((x.seg_index < y.seg_index)
          ⊎ (x.seg_index ≡ y.seg_index)
            × (p : Proc) × (q : Proc) × (proc_by_id cn x.proc_id ≡ some p)
            × (proc_by_id cn y.proc_id ≡ some q)
            × (p.index_in_seg ≤ q.index_in_seg))

rep-RepOrder :
    (cn : Configuration) (x y : RepInfo)
    → IsRep cn x
    → IsRep cn y
    → better_rep cn y x ≡ some false
    → RepOrder cn x y
rep-RepOrder cn x y (t, (p, e)) (u, (q, f)) n =
    let later : is_rep_before y q x p ≡ false =
      eq_of_some (sym (better_rep-eq cn y x q p u t f e) ∙ n) in
    elim t [
      | inl seg ↦ inl (seg, ground (arith, u, later))
      | inr ring ↦
          let also : y.type ≡ ring_rep = ground (arith, u, later) in
          inr (
            ring,
            also,
            elim (dec_lt x.seg_index y.seg_index) [
              | yes lower ↦ inl lower
              | no not_lower ↦ inr (ground (arith, later), p, q, e, f, ground (arith, later))
            ],
          )
    ]

-- Sorting representatives, none of them a potential one, that are daemons of the configuration
-- returns the same representatives in order: those of segments come first, by their segments, then those of
-- rings, by segment and place in it.
pub sort_reps-Sorts :
    (cn : Configuration) (r : List RepInfo)
    → All (IsRep cn) r
    → Sorts (RepOrder cn) r (sort_reps cn r)
unfolding sort_reps
sort_reps-Sorts cn r known =
    Sorts-map (NotBefore (better_rep cn)) (RepOrder cn) (IsRep cn) (rep-RepOrder cn) r
      (sort_reps cn r) known
      (sort_rounds-Sorts (NotBefore (better_rep cn)) (IsRep cn) (smallest_rep cn)
        (smallest_rep-Finds cn) (length r) r refl known)
