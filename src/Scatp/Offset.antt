-- ===== src/Scatp/Offset.antt =====
-- Legal positions, and the byte offset that each stands for.
use cd_praticas.Prelude.{ℕ, suc, ◌+◌, ◌≤◌, ◌<◌, ◌≡◌, ◌⊎◌, true, false, not, length, arith, ◌==◌}
use cd_praticas.Prelude.Int.{pos, pos_part}
use cd_praticas.Scatp.Layout.{
  Scatter, len_at, prefix, total, prefix-below, prefix-suc, prefix-le-total,
}
use cd_praticas.Scatp.{Scatp, is_legal, is_not_legal, is_end, is_true}

module _ (scatters : ℕ → Scatter) where
  -- `scatp_is_not_legal` is the negation of `scatp_is_legal`, at every position.
  pub is_not_legal-not : (p : Scatp) → is_not_legal scatters p ≡ not (is_legal scatters p)
  unfolding is_not_legal is_legal
  is_not_legal-not p = ground arith

  -- Position `p` stands at index `b` of buffer `e`, or at the end of its scatter.
  pub record At (p : Scatp) (e b : ℕ) : Type 0 where
    pub elem : p.elem_ind ≡ pos e
    pub buff : p.buff_ind ≡ pos b
    pub few : length (scatters p.scat) ≤ 100
    pub inside :
        (e ≡ length (scatters p.scat)) × (b ≡ 0)
        ⊎ (e < length (scatters p.scat)) × (b < len_at (scatters p.scat) e)

  pub At_of_legal :
      (p : Scatp)
      → is_not_legal scatters p ≡ false
      → At p (pos_part p.elem_ind) (pos_part p.buff_ind)
  unfolding is_not_legal
  At_of_legal p h = ground arith

  pub legal_of_At : (p : Scatp) (e b : ℕ) → At p e b → is_not_legal scatters p ≡ false
  unfolding is_not_legal
  legal_of_At p e b a = ground arith

  -- The number of bytes before a position.
  abbrev pub offset : Scatp → ℕ
  offset p = prefix (scatters p.scat) (pos_part p.elem_ind) + pos_part p.buff_ind

  pub offset-le-total : (p : Scatp) {e b : ℕ} → At p e b → offset p ≤ total (scatters p.scat)
  offset-le-total p {e} {b} a = ground (
    arith,
    prefix-suc (scatters p.scat) e,
    prefix-le-total (scatters p.scat) (suc e),
    prefix-le-total (scatters p.scat) e,
  )

  -- Two legal positions of one scatter at one offset are the same position.
  At_unique :
      (s : Scatter) (e b e' b' : ℕ)
      → (e ≡ length s) × (b ≡ 0) ⊎ (e < length s) × (b < len_at s e)
      → (e' ≡ length s) × (b' ≡ 0) ⊎ (e' < length s) × (b' < len_at s e')
      → prefix s e + b ≡ prefix s e' + b'
      → (e ≡ e') × (b ≡ b')
  At_unique s e b e' b' h h' q = ground (arith, prefix-below s e e', prefix-below s e' e)

  pub eq_of_offset :
      (p q : Scatp) {e b e' b' : ℕ}
      → At p e b
      → At q e' b'
      → p.scat ≡ q.scat
      → offset p ≡ offset q
      → p ≡ q
  eq_of_offset p q {e} {b} {e'} {b'} a a' s o =
      ground (arith, At_unique (scatters p.scat) e b e' b' a.inside)

  pub At_lem :
      (p : Scatp) → is_legal scatters p ≡ true → At p (pos_part p.elem_ind) (pos_part p.buff_ind)
  At_lem p h = At_of_legal p (rw (is_not_legal-not p, h))

  pub legal_lem :
      (p : Scatp) → At p (pos_part p.elem_ind) (pos_part p.buff_ind) → is_legal scatters p ≡ true
  legal_lem p a =
      ground
        (arith, legal_of_At p (pos_part p.elem_ind) (pos_part p.buff_ind) a, is_not_legal-not p)

  -- The test for the end of the scatter, at a legal position.
  pub is_end_lem :
      (p : Scatp) (e b : ℕ)
      → At p e b
      → is_true (is_end scatters p) ≡ (e == length (scatters p.scat))
  unfolding is_end
  is_end_lem p e b a = ground arith
