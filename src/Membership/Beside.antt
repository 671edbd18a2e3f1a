-- ===== src/Membership/Beside.antt =====
-- The set of representatives, and what the loops of `Insert_rep` do to it.
use mathlib.Core.Path.{subst}
use cd_praticas.Prelude.{
  ℕ, suc, ◌≤◌, ◌≡◌, ◌≢◌, refl, ◌∙◌, sym, ap, ◌⊎◌, inl, inr, List, [], ◌∷◌, ◌++◌, Bool, true, false,
  not, ◌&&◌, ◌||◌, Option, none, some, ◌>>=◌, length, arith, Bool-cases, Option-cases, eq_of_some,
  none-ne-some, >>=-eq-some, ◌==◌,
}
use cd_praticas.Configuration.{Proc, Configuration, find_id}
use cd_praticas.Membership.Sets.{
  RepInfo, proc_by_id, has_segment, replace_rep, potential_rep, seg_rep, ring_rep, max_reps,
}
use cd_praticas.Membership.Sorting.{All, All-map}

-- Two representatives of one segment: none of them is potential, and they are different processes.
abbrev pub Beside : RepInfo → RepInfo → Type 0
Beside r x =
    x.seg_index ≡ r.seg_index
    → (r.type ≢ potential_rep) × (x.type ≢ potential_rep) × (x.proc_id ≢ r.proc_id)

abbrev pub AllBeside : List RepInfo → Type 0
AllBeside [] = Unit {0}
AllBeside (r ∷ rs) = (r.type ≤ 2) × All (Beside r) rs × AllBeside rs

-- The set of representatives, within its array.
pub record IsRepSet (rs : List RepInfo) : Type 0 where
  pub beside : AllBeside rs
  pub fits : length rs ≤ max_reps

find_id-id : (ps : List Proc) (i id k : ℕ) (p : Proc) → find_id ps i id ≡ some (k, p) → p.id ≡ id
unfolding find_id
find_id-id [] i id k p e = absurd (none-ne-some e)
find_id-id (q ∷ ps) i id k p e = elim (Bool-cases (q.id == id)) [
  | inl hit ↦ let same : q ≡ p = cc (eq_of_some (rw hit at e)) in ground (arith, same)
  | inr miss ↦ find_id-id ps (suc i) id k p (rw miss at e)
]

pub id-proc_by_id : (cn : Configuration) (id : ℕ) (p : Proc) → proc_by_id cn id ≡ some p → p.id ≡ id
unfolding proc_by_id
id-proc_by_id cn id p e = elim (Option-cases (find_id cn.allprocs 0 id)) [
  | inl missing ↦ absurd (none-ne-some (rw (missing, proc_by_id) at e))
  | inr ((k, q), found) ↦
      let same : q ≡ p = eq_of_some (rw (found, proc_by_id) at e) in
      find_id-id cn.allprocs 0 id k p (found ∙ ap (λ x. some (k, x)) same)
]

All-append : {A : Type 0} (P : A → Type 0) (xs ys : List A) → All P xs → All P ys → All P (xs ++ ys)
All-append P [] ys a b = b
All-append P (x ∷ xs) ys a b = (a.0, All-append P xs ys a.1 b)

-- A new representative at the end.
pub AllBeside-append :
    (rs : List RepInfo) (rep : RepInfo)
    → AllBeside rs
    → rep.type ≤ 2
    → All (λ x. Beside x rep) rs
    → AllBeside (rs ++ (rep ∷ []))
AllBeside-append [] rep a small b = (small, tt, tt)
AllBeside-append (r ∷ rs) rep a small b =
    (a.0, All-append (Beside r) rs (rep ∷ []) a.1 (b.0, tt), AllBeside-append rs rep a.2 small b.1)

pub no_segment :
    (rs : List RepInfo) (s : ℕ)
    → has_segment rs s ≡ false
    → All (λ (x : RepInfo). x.seg_index ≢ s) rs
unfolding has_segment
no_segment [] s e = tt
no_segment (r ∷ rs) s e = (ground arith, no_segment rs s (ground arith))

module _ (t : ℕ) (p : Proc) (of_type : (t ≡ seg_rep) ⊎ (t ≡ ring_rep)) where
  -- The loop passes through: a representative of the segment is another process.
  pub replace_rep-none :
      (rs : List RepInfo)
      → AllBeside rs
      → replace_rep t p rs ≡ none
      → All
          (λ (x : RepInfo).
            x.seg_index ≡ p.seg_index → (x.type ≢ potential_rep) × (x.proc_id ≢ p.id))
          rs
  unfolding replace_rep
  replace_rep-none [] a e = tt
  replace_rep-none (r ∷ rs) a e = elim (Option-cases (replace_rep t p rs)) [
    | inl more ↦ ((λ s. ground arith), replace_rep-none rs a.2 more)
    | inr (x, stops) ↦ absurd (ground arith)
  ]

  -- One round of the loop: it changes the representative and returns, or it goes on.
  abbrev changed : RepInfo → RepInfo
  changed r = record r { type = t; proc_id = p.id }

  record Hit (r : RepInfo) (rs rs' : List RepInfo) (b : Bool) : Type 0 where
    segment : r.seg_index ≡ p.seg_index
    why : (r.type ≡ potential_rep) ⊎ (r.type ≢ potential_rep) × (r.proc_id ≡ p.id)
    result : rs' ≡ changed r ∷ rs
    kept : b ≡ false → (r.type ≡ t) × (r.proc_id ≡ p.id)

  round :
      (r : RepInfo) (rs rs' : List RepInfo) (b : Bool)
      → replace_rep t p (r ∷ rs) ≡ some (rs', b)
      → Hit r rs rs' b
        ⊎ (rs2 : List RepInfo) × (replace_rep t p rs ≡ some (rs2, b)) × (rs' ≡ r ∷ rs2)
  unfolding replace_rep
  round r rs rs' b e = elim (Bool-cases (r.seg_index == p.seg_index)) [
    | inr other ↦ goes_on (rw other at e)
    | inl mine ↦ elim (Bool-cases (r.type == potential_rep)) [
      | inl potential ↦
          let same = eq_of_some (rw (mine, potential) at e) in
          inl (record {
            segment = ground arith;
            why = inl (ground arith);
            result = sym (ap (λ (x : List RepInfo × Bool). x.0) same);
            kept = λ f. cc (f, same);
          })
      | inr known ↦
          elim (Bool-cases ((r.type == seg_rep || r.type == ring_rep) && r.proc_id == p.id)) [
            | inr other ↦ goes_on (rw (mine, known, other) at e)
            | inl self ↦
                let same = eq_of_some (rw (mine, known, self) at e) in
                inl (record {
                  segment = ground arith;
                  why = inr (ground arith, ground arith);
                  result = sym (ap (λ (x : List RepInfo × Bool). x.0) same);
                  kept = λ f.
                      let g : not (r.type == t) ≡ b = ap (λ (x : List RepInfo × Bool). x.1) same in
                      ground arith;
                })
          ]
    ]
  ]
    where
      goes_on :
          ◌>>=◌ {B = List RepInfo × Bool} (replace_rep t p rs) (λ x. some (r ∷ x.0, x.1))
            ≡ some (rs', b)
          → Hit r rs rs' b
            ⊎ (rs2 : List RepInfo) × (replace_rep t p rs ≡ some (rs2, b)) × (rs' ≡ r ∷ rs2)
      goes_on g =
          let go_on : List RepInfo × Bool → Option (List RepInfo × Bool) =
            λ x. some (r ∷ x.0, x.1) in
          let (x, one, last) = >>=-eq-some (replace_rep t p rs) go_on g in
          let same = eq_of_some last in
          inr (
            x.0,
            one ∙ ap (λ c. some (x.0, c)) (ap (λ (y : List RepInfo × Bool). y.1) same),
            sym (ap (λ (y : List RepInfo × Bool). y.0) same),
          )

  Beside-changed :
      (h r : RepInfo) (rs rs' : List RepInfo) (b : Bool)
      → Beside h r
      → Hit r rs rs' b
      → Beside h (changed r)
  Beside-changed h r rs rs' b a hit s = ground (arith, of_type, a s, hit.why)

  changed-Beside :
      (r x : RepInfo) (rs rs' : List RepInfo) (b : Bool)
      → Hit r rs rs' b
      → Beside r x
      → Beside (changed r) x
  changed-Beside r x rs rs' b hit a s = ground (arith, of_type, a s, hit.why)

  Beside-replace_rep :
      (h : RepInfo) (rs rs' : List RepInfo) (b : Bool)
      → All (Beside h) rs
      → replace_rep t p rs ≡ some (rs', b)
      → All (Beside h) rs'
  unfolding replace_rep
  Beside-replace_rep h [] rs' b a e = absurd (none-ne-some e)
  Beside-replace_rep h (r ∷ rs) rs' b a e = elim (round r rs rs' b e) [
    | inl hit ↦ subst (All (Beside h)) (sym hit.result) (Beside-changed h r rs rs' b a.0 hit, a.1)
    | inr (rs2, more, result) ↦
        subst (All (Beside h)) (sym result) (a.0, Beside-replace_rep h rs rs2 b a.1 more)
  ]

  -- The loop returns.
  pub replace_rep-some :
      (rs rs' : List RepInfo) (b : Bool)
      → AllBeside rs
      → replace_rep t p rs ≡ some (rs', b)
      → AllBeside rs'
        × (length rs' ≡ length rs)
        × (has_segment rs' p.seg_index ≡ true)
        × ((b ≡ false) → rs' ≡ rs)
  unfolding replace_rep has_segment
  replace_rep-some [] rs' b a e = absurd (none-ne-some e)
  replace_rep-some (r ∷ rs) rs' b a e = elim (round r rs rs' b e) [
    | inl hit ↦ rw hit.result (
      (
        ground (arith, of_type),
        All-map (Beside r) (Beside (changed r)) rs (λ x. changed-Beside r x rs rs' b hit) a.1,
        a.2,
      ),
      refl,
      ground (arith, hit.segment),
      λ f. let (same_type, same_id) = hit.kept f in rw (same_type, same_id) refl,
    )
    | inr (rs2, more, result) ↦
        let (a2, len, there, kept) = replace_rep-some rs rs2 b a.2 more in
        rw result (
          (a.0, Beside-replace_rep r rs rs2 b a.1 more, a2),
          ap suc len,
          ground arith,
          λ f. rw (kept f),
        )
  ]
