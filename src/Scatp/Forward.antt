-- ===== src/Scatp/Forward.antt =====
-- `scatp_jforward`: how far it goes and where it stops.
use cd_praticas.Prelude.{
  ℕ, suc, ◌+◌, ◌-◌, ◌≤◌, ◌<◌, ◌≡◌, refl, ◌⊎◌, inl, inr, true, [], ◌∷◌, length, arith, drop,
  length-drop, Bool-cases, ltb,
}
use cd_praticas.Prelude.Int.{ℤ, pos, pos_part, ◌-ℤ◌}
use cd_praticas.Scatp.Layout.{
  Scatter, len_at, prefix, total, prefix-suc, prefix-drop, len_at-drop, prefix-total,
  prefix-le-total,
}
use cd_praticas.Scatp.{Scatp, is_legal, skip_forward, forward_from, jforward}
use cd_praticas.Scatp.Offset.{
  At, offset, legal_of_At, offset-le-total, At_lem, legal_lem, is_end_lem,
}

-- The loop stops inside a buffer or behind the last one, having skipped all bytes in between.
record Skipped (xs : Scatter) (i k : ℕ) (out : ℕ × ℕ) : Type 0 where
  steps : ℕ
  index : out.0 ≡ i + steps
  bytes : prefix xs steps + out.1 ≡ k
  stop : (steps ≡ length xs) ⊎ (steps < length xs) × (out.1 < len_at xs steps)

skip_forward-Skipped : (xs : Scatter) (i k : ℕ) → Skipped xs i k (skip_forward xs i k)
unfolding skip_forward
skip_forward-Skipped [] i k = record {
  steps = 0;
  index = omega arith;
  bytes = omega arith;
  stop = inl refl;
}
skip_forward-Skipped (x ∷ xs) i k = elim (Bool-cases (ltb k x.len)) [
  | inl inside ↦
      rw inside
        (record { steps = 0; index = omega arith; bytes = omega arith; stop = inr (ground arith) })
  | inr past ↦
      let r = skip_forward-Skipped xs (suc i) (k - x.len) in
      rw past (record {
        steps = suc r.steps;
        index = omega (arith, r.index);
        bytes = ground (arith, r.bytes);
        stop = ground (arith, r.stop);
      })
]

module _ (scatters : ℕ → Scatter) where
  -- What `scatp_jforward` returns and stores for a jump of `n` bytes from position `p`.
  pub record Forward (p : Scatp) (n : ℕ) (out : ℤ × Scatp) : Type 0 where
    pub result :
        (offset scatters p + n ≤ total (scatters p.scat))
          × (out.0 ≡ pos n)
          × (out.1.scat ≡ p.scat)
          × (offset scatters out.1 ≡ offset scatters p + n)
        ⊎ (total (scatters p.scat) < offset scatters p + n)
          × (out.0 ≡ pos (total (scatters p.scat) - offset scatters p))
          × (out.1 ≡ p)
    pub at : At scatters out.1 (pos_part out.1.elem_ind) (pos_part out.1.buff_ind)

  forward_from-Forward :
      (p : Scatp) (e b n : ℕ)
      → At scatters p e b
      → e < length (scatters p.scat)
      → b < len_at (scatters p.scat) e
      → Forward p n (forward_from scatters p e b n)
  unfolding forward_from ◌-ℤ◌
  forward_from-Forward p e b n a he hb =
      let s = scatters p.scat in
      let k = n - (len_at s e - b) in
      let r = skip_forward-Skipped (drop (suc e) s) (suc e) k in
      let whole = offset-le-total scatters p a in
      let behind = prefix-suc s e in
      let below = prefix-le-total s (suc e) in
      let split = prefix-drop s (suc e) r.steps in
      let rest = length-drop (suc e) s in
      let lens = len_at-drop s (suc e) r.steps in
      let last = prefix-total s (suc e + r.steps) in
      let inner = prefix-suc s (suc e + r.steps) in
      let within = prefix-le-total s (suc (suc e + r.steps)) in
      record {
        result = ground (arith, r.index, r.bytes, r.stop);
        at = ground (arith, r.index, r.bytes, r.stop);
      }

  at_end-Forward :
      (p : Scatp) (e b n : ℕ)
      → At scatters p e b
      → e ≡ length (scatters p.scat)
      → b ≡ 0
      → Forward p n (pos 0, p)
  at_end-Forward p e b n a he hb =
      let all = prefix-total (scatters p.scat) e in
      record { result = ground arith; at = ground arith }

  jforward-At :
      (p : Scatp) (e b n : ℕ) → At scatters p e b → Forward p n (jforward scatters p (pos n))
  unfolding jforward
  jforward-At p e b n a =
      let legal = legal_of_At scatters p e b a in
      let ended = is_end_lem scatters p e b a in
      elim a.inside [
        | inl (he, hb) ↦
            let stays : jforward scatters p (pos n) ≡ (pos 0, p) = ground arith in
            rw stays (at_end-Forward p e b n a he hb)
        | inr (he, hb) ↦
            let goes : jforward scatters p (pos n) ≡ forward_from scatters p e b n = ground arith in
            rw goes (forward_from-Forward p e b n a he hb)
      ]

  -- From a legal position `scatp_jforward` goes exactly `n` bytes on and returns `n` if the scatter
  -- has that many left, and otherwise returns what it has left and moves nothing; the position
  -- stays legal.
  pub jforward-Forward :
      (p : Scatp) (n : ℕ)
      → is_legal scatters p ≡ true
      → Forward p n (jforward scatters p (pos n))
        × (is_legal scatters (jforward scatters p (pos n)).1 ≡ true)
  jforward-Forward p n h =
      let f = jforward-At p _ _ n (At_lem scatters p h) in (f, legal_lem scatters _ f.at)
