-- ===== src/Groups/Compare.antt =====
-- The comparisons of groups.c: of daemons by their place in the configuration, and of membership ids.
use cd_praticas.Prelude.{
  ℕ, zero, suc, true, false, List, [], ◌∷◌, ◌>>=◌, ◌+◌, ◌-◌, ◌≤◌, ◌<◌, ◌≡◌, refl, ap, sym, ◌∙◌, not,
  ◌&&◌, ◌||◌, arith, if◌then◌else◌, inl, inr, ◌⊎◌, Option, none, some, ◌==◌, ltb, eq_of_some,
  get_elem?, none-ne-some,
}
use mathlib.Core.Path.{subst}
use cd_praticas.Prelude.Int.{ℤ, pos, negsuc, ltb_ℤ, ◌-ℤ◌, ◌<ℤ◌}
use cd_praticas.Configuration.{Proc, Configuration, proc_by_id_in_conf}
use cd_praticas.Configuration.Lookup.{Absent, FirstAt, proc_by_id_lem}
use cd_praticas.Protocol.Types.{MembershipId}
use cd_praticas.Groups.State.{is_unknown}

-- `ia` and `ib` are the indices in the configuration, -1 for a daemon that is not in it.
unfoldable pub compare_places : ℤ → ℤ → ℕ → ℕ → ℤ
compare_places ia ib a b =
    if ltb_ℤ (negsuc 0) ia && ltb_ℤ (negsuc 0) ib
    then ia -ℤ ib
    else if ltb_ℤ ia (pos 0) && ltb_ℤ ib (pos 0)
    then (if a == b then pos 0 else if ltb a b then negsuc 0 else pos 1)
    else if ltb_ℤ ia (pos 0)
    then pos 1
    else if ltb_ℤ ib (pos 0)
    then negsuc 0
    else ia -ℤ ib

-- `G_compare_proc_ids_by_conf_internal`; `unset` is `dummy_proc`.
unfoldable pub compare_proc_ids_by_conf : Configuration → Proc → ℕ → ℕ → ℤ
compare_proc_ids_by_conf c unset a b =
    compare_places (proc_by_id_in_conf c a unset).0 (proc_by_id_in_conf c b unset).0 a b

-- A 32-bit word as a C int.
abbrev pub signed : ℕ → ℤ
signed x = if ltb x 2147483648 then pos x else negsuc (4294967295 - x)

-- A difference of C ints; `none` where it overflows.
unfoldable pub int_difference : ℕ → ℕ → Option ℤ
int_difference a b =
    let d = signed a -ℤ signed b in
    if ltb_ℤ d (negsuc 2147483647) || ltb_ℤ (pos 2147483647) d then none else some d

unfoldable pub compare_memb_ids : MembershipId → MembershipId → Option ℤ
compare_memb_ids m n =
    if is_unknown m && is_unknown n
    then some (pos 0)
    else if is_unknown m
    then some (pos 1)
    else if is_unknown n
    then some (negsuc 0)
    else if not (m.proc_id == n.proc_id)
    then int_difference m.proc_id n.proc_id
    else if not (m.time == n.time)
    then int_difference m.time n.time
    else some (pos 0)

-- The place of a daemon: none if it is not in the configuration.
abbrev index_of_place : Option ℕ → ℤ
index_of_place none = negsuc 0
index_of_place (some k) = pos k

-- Where the first process with the id stands.
abbrev position : ℕ → List Proc → Option ℕ
position id [] = none
position id (p ∷ ps) = if p.id == id then some 0 else (position id ps >>= λ k. some (suc k))

position-Absent : (id : ℕ) (ps : List Proc) → Absent id ps → position id ps ≡ none
position-Absent id [] absent = refl
position-Absent id (p ∷ ps) (other, absent) =
    let miss : p.id == id ≡ false = ground arith in rw (miss, position-Absent id ps absent) refl

position-FirstAt :
    (id : ℕ) (ps : List Proc) (k : ℕ) (p : Proc) → FirstAt ps id k p → position id ps ≡ some k
position-FirstAt id [] k p f = absurd (none-ne-some f.stands)
position-FirstAt id (q ∷ ps) zero p f =
    let same : q.id ≡ id = ap (λ (z : Proc). z.id) (eq_of_some f.stands) ∙ f.has_id in
    let hit : q.id == id ≡ true = ground (arith, same) in rw hit refl
position-FirstAt id (q ∷ ps) (suc k) p f =
    let miss : q.id == id ≡ false = ground (arith, f.first.0) in
    rw
      (
        miss,
        position-FirstAt id ps k p
            (record { stands = f.stands; has_id = f.has_id; first = f.first.1 }),
      )
      refl

record Placed (c : Configuration) (unset : Proc) (a : ℕ) : Type 0 where
  place : Option ℕ
  place_is : place ≡ position a c.allprocs
  index : (proc_by_id_in_conf c a unset).0 ≡ index_of_place place
  unique : (k : ℕ) → place ≡ some k → (p : Proc) × (get_elem? c.allprocs k ≡ some p) × (p.id ≡ a)

placed : (c : Configuration) (unset : Proc) (a : ℕ) → Placed c unset a
placed c unset a = elim (proc_by_id_lem c a unset) [
  | inl (e, absent) ↦ record {
    place = none;
    place_is = sym (position-Absent a c.allprocs absent);
    index = rw e refl;
    unique = λ k h. absurd (none-ne-some h);
  }
  | inr (k, p, e, first) ↦ record {
    place = some k;
    place_is = sym (position-FirstAt a c.allprocs k p first);
    index = rw e refl;
    unique = λ j h. (
      p,
      subst (λ (z : ℕ). get_elem? c.allprocs z ≡ some p) (eq_of_some h) first.stands,
      first.has_id,
    );
  }
]

-- Two daemons of the configuration at one index are the same.
same_place :
    (c : Configuration) (unset : Proc) (a b k : ℕ) (pa : Placed c unset a) (pb : Placed c unset b)
    → pa.place ≡ some k
    → pb.place ≡ some k
    → a ≡ b
same_place c unset a b k pa pb ea eb =
    let (p, at_p, id_p) = pa.unique k ea in
    let (q, at_q, id_q) = pb.unique k eb in
    sym id_p ∙ ap (λ (z : Proc). z.id) (eq_of_some (sym at_p ∙ at_q)) ∙ id_q

compare_self :
    (x : Option ℕ) (a : ℕ) → compare_places (index_of_place x) (index_of_place x) a a ≡ pos 0
unfolding compare_places ◌-ℤ◌
compare_self none a = ground arith
compare_self (some k) a = ground arith

zero_at :
    (x y : Option ℕ) (a b : ℕ)
    → compare_places (index_of_place x) (index_of_place y) a b ≡ pos 0
    → (a ≡ b) ⊎ (k : ℕ) × (x ≡ some k) × (y ≡ some k)
unfolding compare_places ◌-ℤ◌
zero_at none none a b h = inl (ground arith)
zero_at none (some j) a b h = absurd (ground arith)
zero_at (some k) none a b h = absurd (ground arith)
zero_at (some k) (some j) a b h = inr (k, refl, ground arith)

turns :
    (x y : Option ℕ) (a b : ℕ)
    → (compare_places (index_of_place x) (index_of_place y) a b <ℤ pos 0
        → pos 0 <ℤ compare_places (index_of_place y) (index_of_place x) b a)
      × (pos 0 <ℤ compare_places (index_of_place x) (index_of_place y) a b
          → compare_places (index_of_place y) (index_of_place x) b a <ℤ pos 0)
unfolding compare_places ◌-ℤ◌
turns none none a b = ground arith
turns none (some j) a b = ground arith
turns (some k) none a b = ground arith
turns (some k) (some j) a b = ground arith

chains :
    (x y z : Option ℕ) (a b d : ℕ)
    → compare_places (index_of_place x) (index_of_place y) a b <ℤ pos 0
    → compare_places (index_of_place y) (index_of_place z) b d <ℤ pos 0
    → compare_places (index_of_place x) (index_of_place z) a d <ℤ pos 0
unfolding compare_places ◌-ℤ◌
chains none none none a b d p q = ground arith
chains none none (some l) a b d p q = ground arith
chains none (some j) z a b d p q = absurd (ground arith)
chains (some k) none none a b d p q = ground arith
chains (some k) none (some l) a b d p q = absurd (ground arith)
chains (some k) (some j) none a b d p q = ground arith
chains (some k) (some j) (some l) a b d p q = ground arith

zero_lem :
    (c : Configuration) (unset : Proc) (a b : ℕ) (pa : Placed c unset a) (pb : Placed c unset b)
    → compare_places (index_of_place pa.place) (index_of_place pb.place) a b ≡ pos 0
    → a ≡ b
zero_lem c unset a b pa pb h = elim (zero_at pa.place pb.place a b h) [
  | inl e ↦ e
  | inr (k, ea, eb) ↦ same_place c unset a b k pa pb ea eb
]

-- Two daemons of the configuration by their indices, those that are not in it last, by their ids.
abbrev ByPlace : Option ℕ → Option ℕ → ℕ → ℕ → Type 0
ByPlace none none a b = a < b
ByPlace none (some j) a b = ⊥
ByPlace (some k) none a b = Unit {0}
ByPlace (some k) (some j) a b = k < j

below_zero :
    (x y : Option ℕ) (a b : ℕ)
    → ByPlace x y a b
    → compare_places (index_of_place x) (index_of_place y) a b <ℤ pos 0
unfolding compare_places ◌-ℤ◌
below_zero none none a b h = ground arith
below_zero none (some j) a b h = absurd h
below_zero (some k) none a b h = ground arith
below_zero (some k) (some j) a b h = ground arith

-- Whatever the configuration, the comparison of daemons by it is an order: it is 0 for equal ids and for no
-- others, it turns its sign with its arguments and is transitive. It puts the daemons of the configuration
-- in the order of their indices, before all others, and the others in the order of their ids.
pub compare_proc_ids-order :
    (c : Configuration) (unset : Proc) (a b d : ℕ)
    → (compare_proc_ids_by_conf c unset a a ≡ pos 0)
      × (compare_proc_ids_by_conf c unset a b ≡ pos 0 → a ≡ b)
      × (compare_proc_ids_by_conf c unset a b <ℤ pos 0
          → pos 0 <ℤ compare_proc_ids_by_conf c unset b a)
      × (pos 0 <ℤ compare_proc_ids_by_conf c unset a b
          → compare_proc_ids_by_conf c unset b a <ℤ pos 0)
      × (compare_proc_ids_by_conf c unset a b <ℤ pos 0
          → compare_proc_ids_by_conf c unset b d <ℤ pos 0
          → compare_proc_ids_by_conf c unset a d <ℤ pos 0)
      × (ByPlace (position a c.allprocs) (position b c.allprocs) a b
          → compare_proc_ids_by_conf c unset a b <ℤ pos 0)
unfolding compare_proc_ids_by_conf
compare_proc_ids-order c unset a b d =
    let pa = placed c unset a in
    let pb = placed c unset b in
    let pd = placed c unset d in
    let t = turns pa.place pb.place a b in
    rw (pa.index, pb.index, pd.index)
      (
        compare_self pa.place a,
        (λ h. zero_lem c unset a b pa pb h),
        t.0,
        t.1,
        chains pa.place pb.place pd.place a b d,
        (λ h. below_zero pa.place pb.place a b (rw (sym pa.place_is, sym pb.place_is) at h)),
      )

-- Of two known membership ids, where the first comes from an address below 128.0.0.0 and the second from one of
-- 128.0.0.0 or above, the comparison overflows a C int just if the second address is no more than 2^31 above
-- the first. There the order of the ids is not defined.
pub compare_memb_ids-overflows :
    (m n : MembershipId)
    → m.proc_id < 2147483648
    → 2147483648 ≤ n.proc_id
    → n.proc_id < 4294967295
    → (compare_memb_ids m n ≡ none → n.proc_id ≤ m.proc_id + 2147483648)
      × (n.proc_id ≤ m.proc_id + 2147483648 → compare_memb_ids m n ≡ none)
unfolding compare_memb_ids int_difference ◌-ℤ◌
compare_memb_ids-overflows m n a b c = (λ h. ground (arith, h), λ d. ground arith)
