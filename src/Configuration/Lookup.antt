-- ===== src/Configuration/Lookup.antt =====
-- The lookups by id: `Conf_proc_by_id_in_conf`, `Conf_id_in_seg` and `Conf_id_in_conf`.
use cd_praticas.Prelude.{
  ℕ, zero, suc, ◌+◌, ◌≡◌, ◌≢◌, refl, ◌⊎◌, inl, inr, true, false, List, [], ◌∷◌, ◌++◌, none, some,
  arith, ◌==◌, Bool-cases, take, get_elem?,
}
use cd_praticas.Prelude.Int.{pos, negsuc, ltb_ℤ}
use cd_praticas.Configuration.{
  Proc, Segment, Configuration, find_id, id_in_seg, id_in_conf_from, id_in_conf, procs_at,
  proc_by_id_in_conf, proc_ref_by_id_in_conf,
}
use cd_praticas.Configuration.Walk.{ring}

-- No process of the list has the id.
abbrev pub Absent : ℕ → List Proc → Type 0
Absent id [] = Unit
Absent id (p ∷ ps) = (p.id ≢ id) × Absent id ps

pub Absent-append :
    (id : ℕ) (xs ys : List Proc) → Absent id xs → Absent id ys → Absent id (xs ++ ys)
Absent-append id [] ys a b = b
Absent-append id (x ∷ xs) ys a b = (a.0, Absent-append id xs ys a.1 b)

-- The first process with the id stands at index `k` of the list.
pub record FirstAt (ps : List Proc) (id k : ℕ) (p : Proc) : Type 0 where
  pub stands : get_elem? ps k ≡ some p
  pub has_id : p.id ≡ id
  pub first : Absent id (take k ps)

find_id-cases :
    (ps : List Proc) (i id : ℕ)
    → (find_id ps i id ≡ none) × Absent id ps
      ⊎ (k : ℕ) × (p : Proc) × (find_id ps i id ≡ some (i + k, p)) × FirstAt ps id k p
unfolding find_id
find_id-cases [] i id = inl (refl, tt)
find_id-cases (q ∷ ps) i id = elim (Bool-cases (q.id == id)) [
  | inl hit ↦ inr (0, q, ground arith, record { stands = refl; has_id = ground arith; first = tt })
  | inr miss ↦ elim (find_id-cases ps (suc i) id) [
    | inl (e, a) ↦ inl (ground arith, (ground arith, a))
    | inr (k, p, e, f) ↦ inr (
      suc k,
      p,
      ground arith,
      record { stands = f.stands; has_id = f.has_id; first = (ground arith, f.first) },
    )
  ]
]

-- `Conf_proc_by_id_in_conf` returns the index of the first process with the id and stores a copy of
-- it, or returns -1 and stores nothing where no process has the id.
pub proc_by_id_lem :
    (c : Configuration) (id : ℕ) (old : Proc)
    → (proc_by_id_in_conf c id old ≡ (negsuc 0, old)) × Absent id c.allprocs
      ⊎ (k : ℕ) × (p : Proc) × (proc_by_id_in_conf c id old ≡ (pos k, p))
        × FirstAt c.allprocs id k p
unfolding proc_by_id_in_conf proc_ref_by_id_in_conf
proc_by_id_lem c id old = elim (find_id-cases c.allprocs 0 id) [
  | inl (e, a) ↦ inl (rw e, a)
  | inr (k, p, e, f) ↦ inr (k, p, ground arith, f)
]

not-Absent : {ps : List Proc} {id k : ℕ} {p : Proc} → FirstAt ps id k p → ¬ Absent id ps
not-Absent {ps} {id} {k} {p} f = go ps k f.stands
  where
    go : (qs : List Proc) (j : ℕ) → get_elem? qs j ≡ some p → ¬ Absent id qs
    go [] j e a = cc e
    go (q ∷ qs) zero e a = a.0 (ground (arith, f.has_id))
    go (q ∷ qs) (suc j) e a = go qs j e a.1

segment-cases :
    (s : Segment) (id : ℕ)
    → (ltb_ℤ (id_in_seg s id) (pos 0) ≡ true) × Absent id s.procs
      ⊎ (ltb_ℤ (id_in_seg s id) (pos 0) ≡ false) × ¬ Absent id s.procs
unfolding id_in_seg
segment-cases s id = elim (find_id-cases s.procs 0 id) [
  | inl (e, a) ↦ inl (rw e, a)
  | inr (k, p, e, f) ↦ inr (ground arith, not-Absent f)
]

id_in_conf_from-cases :
    (ss : List Segment) (i id : ℕ)
    → (id_in_conf_from ss i id ≡ negsuc 0) × Absent id (ring ss)
      ⊎ (k : ℕ) × (id_in_conf_from ss i id ≡ pos (i + k))
        × Absent id (ring (take k ss))
        × ¬ Absent id (procs_at ss k)
unfolding id_in_conf_from
id_in_conf_from-cases [] i id = inl (refl, tt)
id_in_conf_from-cases (s ∷ ss) i id = elim (segment-cases s id) [
  | inr (e, present) ↦ inr (0, ground arith, tt, present)
  | inl (e, absent) ↦ elim (id_in_conf_from-cases ss (suc i) id) [
    | inl (r, rest) ↦ inl (rw e r, Absent-append id s.procs (ring ss) absent rest)
    | inr (k, r, rest, here) ↦
        inr (suc k, ground arith, Absent-append id s.procs (ring (take k ss)) absent rest, here)
  ]
]

-- `Conf_id_in_conf` returns -1 exactly where no process of the ring has the id, and otherwise the
-- index of the first segment with such a process in it.
pub id_in_conf_lem :
    (c : Configuration) (id : ℕ)
    → (id_in_conf c id ≡ negsuc 0) × Absent id (ring c.segments)
      ⊎ (i : ℕ) × (id_in_conf c id ≡ pos i)
        × Absent id (ring (take i c.segments))
        × ¬ Absent id (procs_at c.segments i)
unfolding id_in_conf
id_in_conf_lem c id = elim (id_in_conf_from-cases c.segments 0 id) [
  | inl r ↦ inl r
  | inr (k, r, rest, here) ↦ inr (k, ground arith, rest, here)
]
