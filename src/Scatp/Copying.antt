-- ===== src/Scatp/Copying.antt =====
-- What the copying functions do, byte for byte.
use cd_praticas.Prelude.{
  ℕ, zero, suc, ◌+◌, ◌-◌, ◌≤◌, ◌<◌, ◌≡◌, refl, ◌∙◌, sym, ap, ◌⊎◌, inl, inr, List, [], ◌∷◌, ◌++◌,
  Bool, false, ◌==◌, drop, arith, Bool-cases,
}
use cd_praticas.Scatp.Layout.{Scatter}
use cd_praticas.Prelude.Int.{pos, pos_part, ltb_ℤ}
use cd_praticas.Scatp.{Scatp, is_not_legal, is_end, is_true}
use cd_praticas.Scatp.Copy.{
  cursor_at, copy_bytes, adv_cpy0, Copy, Cursor, within, past, advance_cursor, Copied, copy_size,
  copy_loop,
}
use cd_praticas.Scatp.Addresses.{
  range, flat, addresses, pairs, moved, IsOpen, pairs-split, pairs-range, addresses-advance_cursor,
  advance_cursor-IsOpen, drop-drop,
}

-- What the loop does from two cursors, for `n` bytes.
pub record Moves (d s : Cursor) (n : ℕ) (r : Copied) : Type 0 where
  pub at_most : r.bytes_left ≤ n
  pub bytes : moved r.calls ≡ pairs (n - r.bytes_left) (addresses d) (addresses s)
  pub dst : addresses r.dst ≡ drop (n - r.bytes_left) (addresses d)
  pub src : addresses r.src ≡ drop (n - r.bytes_left) (addresses s)
  pub stops : (r.bytes_left ≡ 0) ⊎ (addresses r.dst ≡ []) ⊎ (addresses r.src ≡ [])

Moves-none :
    (d s : Cursor) (n : ℕ)
    → (n ≡ 0) ⊎ (addresses d ≡ []) ⊎ (addresses s ≡ [])
    → Moves d s n (record { calls = []; dst = d; src = s; bytes_left = n })
Moves-none d s n why =
    let nothing : n - n ≡ 0 = omega arith in
    record {
      at_most = omega arith;
      bytes = rw nothing refl;
      dst = rw nothing refl;
      src = rw nothing refl;
      stops = why;
    }

-- One round, and what the others do.
Moves-round :
    (e a l : ℕ) (r : Scatter) (f b m : ℕ) (t : Scatter) (n c : ℕ) (out : Copied)
    → c ≤ l
    → c ≤ m
    → c ≤ n
    → addresses (advance_cursor c e a l r) ≡ drop c (range a l ++ flat r)
    → addresses (advance_cursor c f b m t) ≡ drop c (range b m ++ flat t)
    → Moves (advance_cursor c e a l r) (advance_cursor c f b m t) (n - c) out
    → Moves
        (within e a l r)
        (within f b m t)
        n
        (record out { calls = record { dst = a; src = b; size = c } ∷ out.calls })
Moves-round e a l r f b m t n c out le_l le_m le_n at_d at_s ih =
    let k = n - out.bytes_left in
    let xs = range a l ++ flat r in
    let ys = range b m ++ flat t in
    let rest : n - c - out.bytes_left ≡ k - c = omega arith in
    let all : c + (k - c) ≡ k = omega (arith, ih.at_most) in
    let more : moved out.calls ≡ pairs (k - c) (drop c xs) (drop c ys) =
      rw (rest, at_d, at_s) at ih.bytes in
    record {
      at_most = omega (arith, ih.at_most);
      bytes =
          ap (λ z. pairs c (range a c) (range b c) ++ z) more
          ∙ ap (λ z. z ++ pairs (k - c) (drop c xs) (drop c ys))
              (sym (pairs-range c a b l m (flat r) (flat t) le_l le_m))
          ∙ sym (pairs-split c k xs ys (omega (arith, ih.at_most)));
      dst =
          rw rest at ih.dst
          ∙ ap (drop (k - c)) at_d
          ∙ drop-drop (k - c) c xs
          ∙ ap (λ i. drop i xs) all;
      src =
          rw rest at ih.src
          ∙ ap (drop (k - c)) at_s
          ∙ drop-drop (k - c) c ys
          ∙ ap (λ i. drop i ys) all;
      stops = ih.stops;
    }

copy_loop-Moves :
    (k : ℕ) (d s : Cursor) (n : ℕ) → IsOpen d → IsOpen s → n ≤ k → Moves d s n (copy_loop k d s n)
unfolding copy_loop
copy_loop-Moves zero d s n od os le = Moves-none d s n (inl (omega arith))
copy_loop-Moves (suc k) (past e) s n od os le = Moves-none (past e) s n (inr (inl refl))
copy_loop-Moves (suc k) (within e a l r) (past f) n od os le =
    Moves-none (within e a l r) (past f) n (inr (inr refl))
copy_loop-Moves (suc k) (within e a l r) (within f b m t) n od os le = elim (Bool-cases (n == 0)) [
  | inl done ↦ rw done (Moves-none (within e a l r) (within f b m t) n (inl (ground arith)))
  | inr more ↦
      let c = copy_size l m n in
      let le_l : c ≤ l = ground arith in
      let le_m : c ≤ m = ground arith in
      let le_n : c ≤ n = ground arith in
      let some_bytes : 0 < c = ground arith in
      let ih =
        copy_loop-Moves k (advance_cursor c e a l r) (advance_cursor c f b m t) (n - c)
          (advance_cursor-IsOpen c e a l r le_l) (advance_cursor-IsOpen c f b m t le_m)
          (omega (arith, some_bytes, le_n)) in
      let at_d = addresses-advance_cursor c e a l r le_l in
      let at_s = addresses-advance_cursor c f b m t le_m in
      rw more (Moves-round e a l r f b m t n c _ le_l le_m le_n at_d at_s ih)
]

module _ (scatters : ℕ → Scatter) where
  -- The addresses from a position to the end of its scatter.
  abbrev pub bytes_from : Scatp → List ℕ
  bytes_from p = addresses (cursor_at (scatters p.scat) (pos_part p.elem_ind) (pos_part p.buff_ind))

  -- A legal position that is not at the end stands before a byte.
  cursor_at-IsOpen :
      (p : Scatp)
      → is_not_legal scatters p ≡ false
      → is_true (is_end scatters p) ≡ false
      → IsOpen (cursor_at (scatters p.scat) (pos_part p.elem_ind) (pos_part p.buff_ind))
  unfolding is_not_legal is_end
  cursor_at-IsOpen p legal inside = ground arith

  -- What is asked for is copied, or what the loop could.
  result :
      (dst src : Scatp) (n : ℕ) (adv_dst adv_src : Bool)
      → let r =
          copy_loop n
            (cursor_at (scatters dst.scat) (pos_part dst.elem_ind) (pos_part dst.buff_ind))
            (cursor_at (scatters src.scat) (pos_part src.elem_ind) (pos_part src.buff_ind))
            n in
        ((copy_bytes scatters dst src n adv_dst adv_src).ret ≡ pos (n - r.bytes_left))
        × ((copy_bytes scatters dst src n adv_dst adv_src).calls ≡ r.calls)
  unfolding copy_bytes
  result dst src n adv_dst adv_src =
      let r =
        copy_loop n (cursor_at (scatters dst.scat) (pos_part dst.elem_ind) (pos_part dst.buff_ind))
          (cursor_at (scatters src.scat) (pos_part src.elem_ind) (pos_part src.buff_ind)) n in
      elim (Bool-cases (r.bytes_left == 0)) [
        | inl whole ↦ let all : n ≡ n - r.bytes_left = ground arith in rw whole (ap pos all, refl)
        | inr part ↦ rw part (refl, refl)
      ]

  passes :
      (dst src : Scatp) (n : ℕ) (adv_dst adv_src : Bool)
      → is_not_legal scatters dst ≡ false
      → is_not_legal scatters src ≡ false
      → is_true (is_end scatters dst) ≡ false
      → is_true (is_end scatters src) ≡ false
      → adv_cpy0 scatters dst src (pos n) adv_dst adv_src
        ≡ copy_bytes scatters dst src n adv_dst adv_src
  unfolding adv_cpy0
  passes dst src n adv_dst adv_src dl sl di si =
      let size : ltb_ℤ (pos n) (pos 0) ≡ false = ground arith in rw (dl, sl, size, di, si) refl

  -- From legal positions that are not at the end, `scatp_adv_cpy0` copies the bytes of the one scatter to
  -- those of the other in their order, whatever their buffers are: it returns the number of bytes
  -- copied, which is the number asked for unless one of the scatters ends before.
  pub adv_cpy0-moved :
      (dst src : Scatp) (n : ℕ) (adv_dst adv_src : Bool)
      → is_not_legal scatters dst ≡ false
      → is_not_legal scatters src ≡ false
      → is_true (is_end scatters dst) ≡ false
      → is_true (is_end scatters src) ≡ false
      → (k : ℕ) × ((adv_cpy0 scatters dst src (pos n) adv_dst adv_src).ret ≡ pos k)
        × (k ≤ n)
        × (moved (adv_cpy0 scatters dst src (pos n) adv_dst adv_src).calls
            ≡ pairs k (bytes_from dst) (bytes_from src))
        × ((k ≡ n) ⊎ (drop k (bytes_from dst) ≡ []) ⊎ (drop k (bytes_from src) ≡ []))
  adv_cpy0-moved dst src n adv_dst adv_src dl sl di si =
      let d = cursor_at (scatters dst.scat) (pos_part dst.elem_ind) (pos_part dst.buff_ind) in
      let s = cursor_at (scatters src.scat) (pos_part src.elem_ind) (pos_part src.buff_ind) in
      let r = copy_loop n d s n in
      let m =
        copy_loop-Moves n d s n (cursor_at-IsOpen dst dl di) (cursor_at-IsOpen src sl si)
          (omega arith) in
      let same = passes dst src n adv_dst adv_src dl sl di si in
      let (ret, calls) = result dst src n adv_dst adv_src in
      (
        n - r.bytes_left,
        ap (λ (c : Copy). c.ret) same ∙ ret,
        omega arith,
        ap (λ (c : Copy). moved c.calls) same ∙ ap moved calls ∙ m.bytes,
        elim m.stops [
          | inl all ↦ inl (omega (arith, all))
          | inr (inl d_ends) ↦ inr (inl (sym m.dst ∙ d_ends))
          | inr (inr s_ends) ↦ inr (inr (sym m.src ∙ s_ends))
        ],
      )
