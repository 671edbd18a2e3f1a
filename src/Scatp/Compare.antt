-- ===== src/Scatp/Compare.antt =====
-- `scatp_equals` and `scatp_comp` against byte offsets.
use cd_praticas.Prelude.{
  ℕ, zero, suc, ◌+◌, ◌-◌, ◌<◌, ◌≡◌, ◌≢◌, refl, ap, ◌⊎◌, inl, inr, true, false, ◌&&◌, [], ◌∷◌, arith,
  drop, Bool-cases,
}
use cd_praticas.Prelude.Int.{
  pos, pos_part, ◌-ℤ◌, ◌+ℤ◌, ◌<ℤ◌, eqb_ℤ, int_laws, parts_of_eq, eq_of_parts,
}
use cd_praticas.Scatp.Layout.{
  Scatter, len_at, prefix, prefix-zero, prefix-suc, prefix-drop, prefix-below,
}
use cd_praticas.Scatp.{Scatp, is_legal, is_not_legal, sum_lens, equals, comp, of_bool}
use cd_praticas.Scatp.Offset.{At, offset, At_lem, legal_of_At, eq_of_offset}

sum_lens-prefix : (n : ℕ) (s : Scatter) → sum_lens n s ≡ prefix s n
unfolding sum_lens
sum_lens-prefix zero s = omega (arith, prefix-zero s)
sum_lens-prefix (suc n) [] = refl
sum_lens-prefix (suc n) (x ∷ xs) = omega (arith, sum_lens-prefix n xs)

-- The bytes between two buffers, as the loop of `scatp_comp` adds them up.
sum_lens-between :
    (s : Scatter) (i j : ℕ)
    → i < j
    → prefix s i + len_at s i + sum_lens (j - suc i) (drop (suc i) s) ≡ prefix s j
sum_lens-between s i j h = omega (
  arith,
  sum_lens-prefix (j - suc i) (drop (suc i) s),
  prefix-drop s (suc i) (j - suc i),
  prefix-suc s i,
  ap (prefix s) (let e : suc i + (j - suc i) ≡ j = omega arith in e),
)

lt_trichotomy : (m n : ℕ) → (m < n) ⊎ (m ≡ n) ⊎ (n < m)
lt_trichotomy m n = omega arith

module _ (scatters : ℕ → Scatter) where
  module _ (p q : Scatp) (e b e' b' : ℕ) (a : At scatters p e b) (a' : At scatters q e' b')
      (one : p.scat ≡ q.scat) where
    checked : (is_not_legal scatters p ≡ false) × (is_not_legal scatters q ≡ false)
    checked = (legal_of_At scatters p e b a, legal_of_At scatters q e' b' a')

    comp-same : e ≡ e' → comp scatters p q ≡ pos b -ℤ pos b'
    unfolding comp
    comp-same h = ground (arith, checked)

    comp-before :
        e < e'
        → comp scatters p q
          ≡ pos b
            -ℤ pos (len_at (scatters p.scat) e)
            -ℤ pos (sum_lens (e' - suc e) (drop (suc e) (scatters p.scat)))
    unfolding comp
    comp-before h = ground (arith, checked)

    comp-after :
        e' < e
        → comp scatters p q
          ≡ pos (len_at (scatters q.scat) e')
            -ℤ pos b'
            +ℤ pos (sum_lens (e - suc e') (drop (suc e') (scatters q.scat)))
    unfolding comp
    comp-after h = ground (arith, checked)

    -- Both offsets, counted in the scatter that the positions share.
    at_offsets :
        (offset scatters p ≡ prefix (scatters p.scat) e + b)
        × (offset scatters q ≡ prefix (scatters p.scat) e' + b')
        × (offset scatters q ≡ prefix (scatters q.scat) e' + b')
        × (offset scatters p ≡ prefix (scatters q.scat) e + b)
    at_offsets = ground arith

    value_before :
        e < e' → comp scatters p q +ℤ pos (offset scatters q) ≡ pos (offset scatters p) +ℤ pos b'
    value_before h =
        rw (comp-before h) (omega (int_laws, at_offsets, sum_lens-between (scatters p.scat) e e' h))

    value_after :
        e' < e → comp scatters p q +ℤ pos (offset scatters q) +ℤ pos b ≡ pos (offset scatters p)
    value_after h =
        rw (comp-after h) (omega (int_laws, at_offsets, sum_lens-between (scatters q.scat) e' e h))

    value_same : e ≡ e' → comp scatters p q +ℤ pos (offset scatters q) ≡ pos (offset scatters p)
    value_same h = rw (comp-same h) (omega (int_laws, at_offsets, ap (prefix (scatters p.scat)) h))

    -- What `scatp_comp` returns, as far as it tells the order of the two offsets.
    order_value :
        (offset scatters p < offset scatters q) × (comp scatters p q <ℤ pos 0)
        ⊎ (p ≡ q) × (comp scatters p q ≡ pos 0)
        ⊎ (offset scatters q < offset scatters p) × (pos 0 <ℤ comp scatters p q)
    order_value = elim (lt_trichotomy e e') [
      | inl before ↦
          let v = parts_of_eq (value_before before) in
          let o = at_offsets in
          let below = prefix-below (scatters p.scat) e e' before in
          let inner : b < len_at (scatters p.scat) e = ground (arith, a.inside, a'.inside) in
          inl (omega (arith, at_offsets), omega int_laws)
      | inr (inl same) ↦
          let v = parts_of_eq (value_same same) in
          let o = at_offsets in
          let whole = ap (prefix (scatters p.scat)) same in
          elim (lt_trichotomy b b') [
            | inl less ↦ inl (omega (arith, at_offsets), omega int_laws)
            | inr (inl b_eq) ↦
                let level : offset scatters p ≡ offset scatters q = omega (arith, at_offsets) in
                inr
                  (inl (eq_of_offset scatters p q a a' one level, eq_of_parts _ _ (omega int_laws)))
            | inr (inr more) ↦ inr (inr (omega (arith, at_offsets), omega int_laws))
          ]
      | inr (inr after) ↦
          let v = parts_of_eq (value_after after) in
          let below = prefix-below (scatters q.scat) e' e after in
          let inner : b' < len_at (scatters q.scat) e' = ground (arith, a.inside, a'.inside) in
          let o = at_offsets in inr (inr (omega (arith, at_offsets), omega int_laws))
    ]

  module _ (p q : Scatp) (legal : is_legal scatters p ≡ true) (legal' : is_legal scatters q ≡ true)
      (one : p.scat ≡ q.scat) where
    at_p : At scatters p (pos_part p.elem_ind) (pos_part p.buff_ind)
    at_p = At_lem scatters p legal

    at_q : At scatters q (pos_part q.elem_ind) (pos_part q.buff_ind)
    at_q = At_lem scatters q legal'

    -- For two legal positions in one scatter the sign of `scatp_comp` tells the order of their byte
    -- offsets, and it is 0 only for one and the same position.
    pub comp_order :
        (offset scatters p < offset scatters q) × (comp scatters p q <ℤ pos 0)
        ⊎ (p ≡ q) × (comp scatters p q ≡ pos 0)
        ⊎ (offset scatters q < offset scatters p) × (pos 0 <ℤ comp scatters p q)
    comp_order = order_value p q _ _ _ _ at_p at_q one

    -- For two legal positions in one scatter the size of `scatp_comp` is the number of bytes between
    -- them where they stand in one buffer; where they do not, the index in the buffer of the later
    -- position is left out of it.
    pub comp_distance :
        (p.elem_ind ≡ q.elem_ind)
          × (comp scatters p q +ℤ pos (offset scatters q) ≡ pos (offset scatters p))
        ⊎ (p.elem_ind <ℤ q.elem_ind)
          × (comp scatters p q +ℤ pos (offset scatters q) ≡ pos (offset scatters p) +ℤ q.buff_ind)
        ⊎ (q.elem_ind <ℤ p.elem_ind)
          × (comp scatters p q +ℤ pos (offset scatters q) +ℤ p.buff_ind ≡ pos (offset scatters p))
    comp_distance = elim (lt_trichotomy (pos_part p.elem_ind) (pos_part q.elem_ind)) [
      | inl h ↦ inr (
          inl
            (ground (arith, at_p, at_q), cc (value_before p q _ _ _ _ at_p at_q one h, at_q.buff)))
      | inr (inl h) ↦ inl (ground (arith, at_p, at_q), value_same p q _ _ _ _ at_p at_q one h)
      | inr (inr h) ↦ inr (
          inr (ground (arith, at_p, at_q), cc (value_after p q _ _ _ _ at_p at_q one h, at_p.buff)))
    ]

    equals_test :
        equals scatters p q ≡ of_bool (eqb_ℤ p.elem_ind q.elem_ind && eqb_ℤ p.buff_ind q.buff_ind)
    unfolding equals
    equals_test = ground (arith, checked p q _ _ _ _ at_p at_q one)

    -- For two legal positions in one scatter `scatp_equals` answers 1 for one and the same position and 0
    -- for two different offsets.
    pub equals_lem :
        (equals scatters p q ≡ pos 1) × (p ≡ q)
        ⊎ (equals scatters p q ≡ pos 0) × (offset scatters p ≢ offset scatters q)
    equals_lem = elim (Bool-cases (eqb_ℤ p.elem_ind q.elem_ind && eqb_ℤ p.buff_ind q.buff_ind)) [
      | inl same ↦ inl (
        ground (arith, equals_test),
        ground (arith, eq_of_parts p.elem_ind q.elem_ind, eq_of_parts p.buff_ind q.buff_ind),
      )
      | inr other ↦ inr (
        ground (arith, equals_test),
        λ o. differ other (eq_of_offset scatters p q at_p at_q one o),
      )
    ]
      where
        differ : (eqb_ℤ p.elem_ind q.elem_ind && eqb_ℤ p.buff_ind q.buff_ind) ≡ false → p ≡ q → ⊥
        differ other e =
            ground (arith, ap (λ (r : Scatp). r.elem_ind) e, ap (λ (r : Scatp). r.buff_ind) e)
