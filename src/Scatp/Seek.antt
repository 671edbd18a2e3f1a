-- ===== src/Scatp/Seek.antt =====
-- `scatp_begin`, `scatp_end` and `scatp_seek`, and a jump there and back.
use cd_praticas.Prelude.{
  ℕ, suc, ◌+◌, ◌≤◌, ◌<◌, ◌≡◌, ◌≢◌, refl, ◌⊎◌, inl, inr, true, [], ◌∷◌, length, arith, Bool-cases,
  ltb,
}
use cd_praticas.Prelude.Int.{ℤ, pos, negsuc, ◌-ℤ◌, ◌+ℤ◌, ◌<ℤ◌}
use cd_praticas.Scatp.Layout.{Scatter, len_at, prefix, total, prefix-total}
use cd_praticas.Scatp.{
  Scatp, Whence, seek_cur, seek_set, seek_end, seek_other, is_legal, first_nonempty, begin, end,
  jforward, jbackward, jump, seek,
}
use cd_praticas.Scatp.Offset.{offset, At_lem, eq_of_offset}
use cd_praticas.Scatp.Forward.{jforward-Forward}
use cd_praticas.Scatp.Backward.{jbackward-Backward}

-- The first buffer with a byte in it, or the end.
record FirstByte (xs : Scatter) (i out : ℕ) : Type 0 where
  steps : ℕ
  index : out ≡ i + steps
  before : prefix xs steps ≡ 0
  stop : (steps ≡ length xs) ⊎ (steps < length xs) × (0 < len_at xs steps)

first_nonempty-FirstByte : (xs : Scatter) (i : ℕ) → FirstByte xs i (first_nonempty xs i)
unfolding first_nonempty
first_nonempty-FirstByte [] i = record {
  steps = 0;
  index = omega arith;
  before = refl;
  stop = inl refl;
}
first_nonempty-FirstByte (x ∷ xs) i = elim (Bool-cases (ltb 0 x.len)) [
  | inl full ↦ record { steps = 0; index = ground arith; before = refl; stop = inr (ground arith) }
  | inr empty ↦
      let r = first_nonempty-FirstByte xs (suc i) in
      record {
        steps = suc r.steps;
        index = ground (arith, r.index);
        before = ground (arith, r.before);
        stop = ground (arith, r.stop);
      }
]

module _ (scatters : ℕ → Scatter) where
  -- For a scatter of at most 100 buffers `scatp_begin` makes a legal position at offset 0.
  pub begin_lem :
      (p : Scatp) (a : ℕ)
      → length (scatters a) ≤ 100
      → let (r, q) = begin scatters p a in
        (r ≡ pos 0) × (q.scat ≡ a) × (is_legal scatters q ≡ true) × (offset scatters q ≡ 0)
  unfolding begin is_legal
  begin_lem p a h =
      let f = first_nonempty-FirstByte (scatters a) 0 in ground (arith, f.index, f.before, f.stop)

  -- For a scatter of at most 100 buffers `scatp_end` makes a legal position behind its last byte.
  pub end_lem :
      (p : Scatp) (a : ℕ)
      → length (scatters a) ≤ 100
      → let (r, q) = end scatters p a in
        (r ≡ pos 0)
        × (q.scat ≡ a)
        × (is_legal scatters q ≡ true)
        × (offset scatters q ≡ total (scatters a))
  unfolding end is_legal
  end_lem p a h = ground (arith, prefix-total (scatters a) (length (scatters a)))

  -- The offset that a seek counts from.
  abbrev pub base : Scatp → Whence → ℕ
  base p seek_cur = offset scatters p
  base p seek_set = 0
  base p seek_end = total (scatters p.scat)
  base p seek_other = 0

  abbrev pub Sought : Scatp → ℕ → ℤ → ℤ × Scatp → Type 0
  Sought p from d (r, q) =
      (r ≡ pos 0)
        × (q.scat ≡ p.scat)
        × (is_legal scatters q ≡ true)
        × (pos (offset scatters q) ≡ pos from +ℤ d)
      ⊎ ((pos from +ℤ d <ℤ pos 0) ⊎ (pos (total (scatters p.scat)) <ℤ pos from +ℤ d))
        × (r ≡ negsuc 0)
        × (q ≡ p)

  jump-Sought :
      (p q : Scatp) (d : ℤ)
      → q.scat ≡ p.scat
      → is_legal scatters q ≡ true
      → Sought p (offset scatters q) d (jump scatters p q d)
  unfolding jump ◌+ℤ◌ ◌-ℤ◌
  jump-Sought p q (pos n) e h =
      let (f, l) = jforward-Forward scatters q n h in ground (arith, f.result, l)
  jump-Sought p q (negsuc m) e h =
      let (f, l) = jbackward-Backward scatters q (suc m) h in ground (arith, f.result, l)

  -- From a legal position `scatp_seek` lands at the offset that the whence and the distance name if
  -- the scatter has it, keeping the position legal, and otherwise returns -1 and changes nothing.
  pub seek_lem :
      (p : Scatp) (d : ℤ) (w : Whence)
      → is_legal scatters p ≡ true
      → w ≢ seek_other
      → Sought p (base p w) d (seek scatters p d w)
  unfolding seek
  seek_lem p d seek_cur h o = jump-Sought p p d refl h
  seek_lem p d seek_set h o =
      let (r, s, l, z) = begin_lem p p.scat (At_lem scatters p h).few in
      let j = jump-Sought p (begin scatters p p.scat).1 d s l in rw r (rw z at j)
  seek_lem p d seek_end h o =
      let (r, s, l, z) = end_lem p p.scat (At_lem scatters p h).few in
      let j = jump-Sought p (end scatters p p.scat).1 d s l in rw r (rw z at j)
  seek_lem p d seek_other h o = absurd (o refl)

  -- A jump forward that fits is undone by the same jump backward, to the very same position.
  pub jbackward-jforward :
      (p : Scatp) (n : ℕ)
      → is_legal scatters p ≡ true
      → offset scatters p + n ≤ total (scatters p.scat)
      → jbackward scatters (jforward scatters p (pos n)).1 (pos n) ≡ (pos n, p)
  jbackward-jforward p n h fits =
      let q = (jforward scatters p (pos n)).1 in
      let (f, l) = jforward-Forward scatters p n h in
      let (g, m) = jbackward-Backward scatters q n l in
      let back = (jbackward scatters q (pos n)).1 in
      let same : back ≡ p =
        eq_of_offset scatters back p (At_lem scatters back m) (At_lem scatters p h)
          (ground (arith, f.result, g.result)) (ground (arith, f.result, g.result)) in
      ground (arith, f.result, g.result, same)
