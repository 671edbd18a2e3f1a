-- ===== src/Scatp/Backward.antt =====
-- `scatp_jbackward`: how far it goes and where it stops.
use cd_praticas.Prelude.{
  ℕ, zero, suc, ◌+◌, ◌-◌, ◌≤◌, ◌<◌, ◌≡◌, ◌⊎◌, inl, inr, true, ◌&&◌, ltb, leb, arith, Bool-cases,
}
use cd_praticas.Prelude.Int.{ℤ, pos, pos_part, ◌-ℤ◌}
use cd_praticas.Scatp.Layout.{Scatter, len_at, prefix, prefix-zero, prefix-suc}
use cd_praticas.Scatp.{Scatp, Back, landed, short, is_legal, skip_backward, backward_to, jbackward}
use cd_praticas.Scatp.Offset.{At, offset, legal_of_At, At_lem, legal_lem}

-- The loop ends `k` bytes before entry `e`, or runs off the front with the excess left.
abbrev Lands : Scatter → ℕ → ℕ → Back → Type 0
Lands s e k (landed i b) = (i < e) × (b < len_at s i) × (prefix s i + b + k ≡ prefix s e)
Lands s e k (short k') = (prefix s e + k' ≡ k) × (0 < k')

Lands-suc :
    (s : Scatter) (e k d : ℕ) (r : Back) → d + len_at s e ≡ k → Lands s e d r → Lands s (suc e) k r
Lands-suc s e k d (landed i b) h l = ground (arith, prefix-suc s e)
Lands-suc s e k d (short k') h l = ground (arith, prefix-suc s e)

skip_backward-Lands : (s : Scatter) (e k : ℕ) → 0 < k → Lands s e k (skip_backward s e k)
unfolding skip_backward
skip_backward-Lands s zero k h = (omega (arith, prefix-zero s), h)
skip_backward-Lands s (suc e) k h = elim (Bool-cases (ltb 0 (len_at s e) && leb k (len_at s e))) [
  | inl hit ↦ rw hit (ground arith, ground arith, ground (arith, prefix-suc s e))
  | inr miss ↦
      let rest = skip_backward-Lands s e (k - len_at s e) (ground arith) in
      rw miss (Lands-suc s e k (k - len_at s e) _ (ground arith) rest)
]

module _ (scatters : ℕ → Scatter) where
  -- What `scatp_jbackward` returns and stores for a jump of `n` bytes from position `p`.
  pub record Backward (p : Scatp) (n : ℕ) (out : ℤ × Scatp) : Type 0 where
    pub result :
        (n ≤ offset scatters p)
          × (out.0 ≡ pos n)
          × (out.1.scat ≡ p.scat)
          × (offset scatters out.1 + n ≡ offset scatters p)
        ⊎ (offset scatters p < n) × (out.0 ≡ pos (offset scatters p)) × (out.1 ≡ p)
    pub at : At scatters out.1 (pos_part out.1.elem_ind) (pos_part out.1.buff_ind)

  landed-Backward :
      (p : Scatp) (e b n : ℕ) (r : Back)
      → At scatters p e b
      → b < n
      → Lands (scatters p.scat) e (n - b) r
      → Backward p n (backward_to scatters p n r)
  unfolding backward_to ◌-ℤ◌
  landed-Backward p e b n (landed i c) a h l = record { result = ground arith; at = ground arith }
  landed-Backward p e b n (short k) a h l = record { result = ground arith; at = ground arith }

  jbackward-At :
      (p : Scatp) (e b n : ℕ) → At scatters p e b → Backward p n (jbackward scatters p (pos n))
  unfolding jbackward ◌-ℤ◌
  jbackward-At p e b n a =
      let legal = legal_of_At scatters p e b a in
      elim (Bool-cases (ltb b n)) [
        | inl more ↦
            let out = skip_backward (scatters p.scat) e (n - b) in
            let loops : jbackward scatters p (pos n) ≡ backward_to scatters p n out =
              ground arith in
            rw loops (
              landed-Backward p e b n out a (ground arith)
                (skip_backward-Lands (scatters p.scat) e (n - b) (ground arith)))
        | inr within ↦
            let stays : jbackward scatters p (pos n)
                ≡ (pos n, record p { buff_ind = pos (b - n) }) =
              ground arith in
            rw stays (record { result = ground arith; at = ground arith })
      ]

  -- From a legal position `scatp_jbackward` goes exactly `n` bytes back and returns `n` if that many
  -- stand before it, and otherwise returns what stands before it and moves nothing; the position
  -- stays legal.
  pub jbackward-Backward :
      (p : Scatp) (n : ℕ)
      → is_legal scatters p ≡ true
      → Backward p n (jbackward scatters p (pos n))
        × (is_legal scatters (jbackward scatters p (pos n)).1 ≡ true)
  jbackward-Backward p n h =
      let f = jbackward-At p _ _ n (At_lem scatters p h) in (f, legal_lem scatters _ f.at)
