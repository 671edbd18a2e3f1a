-- ===== src/Membership/Reps.antt =====
-- `Insert_rep` keeps the set of representatives in order: per segment either one potential
-- representative, or different processes.
use mathlib.Core.Path.{subst}
use cd_praticas.Prelude.{
  ◌≤◌, ◌<◌, ◌≡◌, ◌≢◌, refl, ◌∙◌, sym, inl, inr, List, [], ◌∷◌, ◌++◌, Bool, true, false, ◌||◌, some,
  length, length-append, arith, Bool-cases, Option-cases, eq_of_some, none-ne-some, ◌==◌,
}
use cd_praticas.Configuration.{Proc, Configuration}
use cd_praticas.Membership.Sets.{
  RepInfo, proc_by_id, has_segment, replace_rep, append_rep, insert_rep, potential_rep, seg_rep,
  ring_rep, max_reps,
}
use cd_praticas.Membership.Sorting.{All, All-map}
use cd_praticas.Membership.Beside.{
  Beside, IsRepSet, id-proc_by_id, AllBeside-append, no_segment, replace_rep-none, replace_rep-some,
}

-- What an insertion did to a set.
abbrev pub Inserted : List RepInfo → RepInfo → List RepInfo × Bool → Type 0
Inserted r rep (r', b) =
    IsRepSet r' × (b ≡ false → r' ≡ r) × (length r < max_reps → has_segment r' rep.seg_index ≡ true)

last_has_segment :
    (rs : List RepInfo) (rep : RepInfo) → has_segment (rs ++ (rep ∷ [])) rep.seg_index ≡ true
unfolding has_segment
last_has_segment [] rep = ground arith
last_has_segment (r ∷ rs) rep = ground (arith, last_has_segment rs rep)

append_rep-Inserted :
    (r : List RepInfo) (rep : RepInfo)
    → IsRepSet r
    → rep.type ≤ 2
    → All (λ x. Beside x rep) r
    → Inserted r rep (append_rep r rep)
append_rep-Inserted r rep v small beside = elim (Bool-cases (length r == max_reps)) [
  | inl full ↦ rw full (v, (λ e. refl), λ lt. absurd (ground arith))
  | inr room ↦ rw room (
    record {
      beside = AllBeside-append r rep v.beside small beside;
      fits = ground (arith, length-append r (rep ∷ []), v.fits);
    },
    (λ e. cc e),
    λ lt. last_has_segment r rep,
  )
]

-- A set of representatives stays one when a daemon is inserted under its own segment: no segment has a
-- potential representative beside another one, no process stands in it twice, and the array does
-- not overflow. Where nothing is inserted the set is as it was, and where there is room the segment has a
-- representative.
pub insert_rep-IsRepSet :
    (cn : Configuration) (r r' : List RepInfo) (rep : RepInfo) (p : Proc) (b : Bool)
    → IsRepSet r
    → proc_by_id cn rep.proc_id ≡ some p
    → rep.seg_index ≡ p.seg_index
    → insert_rep cn r rep ≡ some (r', b)
    → Inserted r rep (r', b)
unfolding insert_rep
insert_rep-IsRepSet cn r r' rep p b v known seg e =
    let id = id-proc_by_id cn rep.proc_id p known in
    elim (Bool-cases (rep.type == potential_rep)) [
      | inl potential ↦ elim (Bool-cases (has_segment r p.seg_index)) [
        | inl there ↦
            subst (Inserted r rep) (eq_of_some (rw (known, potential, there) at e))
              (v, (λ f. refl), λ lt. rw seg there)
        | inr free ↦ subst (Inserted r rep) (eq_of_some (rw (known, potential, free) at e)) (
            append_rep-Inserted r rep v (ground arith) (
              All-map (λ (x : RepInfo). x.seg_index ≢ p.seg_index) (λ x. Beside x rep) r
                (λ x ne s. absurd (ne (sym s ∙ seg))) (no_segment r p.seg_index free)))
      ]
      | inr other ↦ elim (Bool-cases (rep.type == seg_rep || rep.type == ring_rep)) [
        | inr unknown ↦ absurd (none-ne-some (rw (known, other, unknown) at e))
        | inl typed ↦ elim (Option-cases (replace_rep rep.type p r)) [
          | inl through ↦
              subst (Inserted r rep) (eq_of_some (rw (known, other, typed, through) at e)) (
                append_rep-Inserted r rep v (ground arith) (
                  All-map _ (λ x. Beside x rep) r (λ x f s. ground (arith, f (sym s ∙ seg), id))
                    (replace_rep-none rep.type p (ground arith) r v.beside through)))
          | inr ((r2, c), stops) ↦
              let (beside, len, there, kept) =
                replace_rep-some rep.type p (ground arith) r r2 c v.beside stops in
              subst (Inserted r rep) (eq_of_some (rw (known, other, typed, stops) at e)) (
                record { beside = beside; fits = omega (arith, len, v.fits) },
                kept,
                λ lt. rw seg there,
              )
        ]
      ]
    ]
