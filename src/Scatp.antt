-- ===== src/Scatp.antt =====
-- ProjetoFinal/spread/spread-src-5.0.1/libspread/scatp.c: positions in a scatter, the
-- gather list of buffers that a client hands to the library.
pub mod Layout
pub mod Offset
pub mod Forward
pub mod Backward
pub mod Seek
pub mod Compare
pub mod Copy
pub mod Addresses
pub mod Copying
mod Tests
use cd_praticas.Prelude.{
  ℕ, zero, suc, ◌+◌, ◌-◌, List, [], ◌∷◌, Bool, true, false, not, ◌&&◌, ◌||◌, ltb, leb, ◌==◌,
  if◌then◌else◌, drop, length,
}
use cd_praticas.Prelude.Int.{ℤ, pos, negsuc, pos_part, neg_part, sub_ℕ, ◌+ℤ◌, ◌-ℤ◌, ltb_ℤ, eqb_ℤ}
use Layout.{Scatter, len_at, total}

-- The codes of sp.h and errno.h, and the size of the array `elements`.
abbrev pub illegal_message : ℤ
illegal_message = negsuc 12

abbrev pub illegal_service : ℤ
illegal_service = negsuc 11

abbrev pub einval : ℤ
einval = pos 22

abbrev pub max_client_scatter_elements : ℕ
max_client_scatter_elements = 100

-- `scat` is the address of a scatter.
pub record Scatp : Type 0 where
  pub scat : ℕ
  pub elem_ind : ℤ
  pub buff_ind : ℤ

pub data Whence : Type 0 where
  seek_set seek_cur seek_end seek_other : Whence

-- C's truth value of a comparison, and the test of an `int` by `if`.
abbrev pub of_bool : Bool → ℤ
of_bool b = if b then pos 1 else pos 0

abbrev pub is_true : ℤ → Bool
is_true x = not (eqb_ℤ x (pos 0))

abbrev pub too_many : Scatter → Bool
too_many s = ltb max_client_scatter_elements (length s)

pub scat_capacity : Scatter → ℤ
scat_capacity s = if too_many s then illegal_message else pos (total s)

-- The loop of `scatp_begin`: it stops at the first buffer that is not empty.
pub first_nonempty : Scatter → ℕ → ℕ
first_nonempty [] i = i
first_nonempty (x ∷ xs) i = if x.len == 0 then first_nonempty xs (suc i) else i

-- The loop of `scatp_comp`: the bytes of the next `n` buffers.
pub sum_lens : ℕ → Scatter → ℕ
sum_lens zero s = 0
sum_lens (suc n) [] = 0
sum_lens (suc n) (x ∷ xs) = x.len + sum_lens n xs

-- The loop of `scatp_jforward`, from buffer `i` with `k` bytes left to skip.
pub skip_forward : Scatter → ℕ → ℕ → ℕ × ℕ
skip_forward [] i k = (i, k)
skip_forward (x ∷ xs) i k = if ltb k x.len then (i, k) else skip_forward xs (suc i) (k - x.len)

-- How the loop of `scatp_jbackward` ends: by `break` at a buffer and an index in it, or below
-- the first buffer with bytes still to skip.
pub data Back : Type 0 where
  landed : ℕ → ℕ → Back
  short : ℕ → Back

-- The first number is `e_ind + 1`. Where `len` is 0 the body is skipped, and `k` stays.
pub skip_backward : Scatter → ℕ → ℕ → Back
skip_backward s zero k = short k
skip_backward s (suc e) k =
    if ltb 0 (len_at s e) && leb k (len_at s e)
    then landed e (len_at s e - k)
    else skip_backward s e (k - len_at s e)

-- The section's parameter is the store that `pos->scat` points into: none of these functions
-- writes to a scatter.
module _ (scatters : ℕ → Scatter) where
  pub begin : Scatp → ℕ → ℤ × Scatp
  unfolding first_nonempty
  begin p a = if too_many (scatters a) then (illegal_message, p) else (
    pos 0,
    record { scat = a; elem_ind = pos (first_nonempty (scatters a) 0); buff_ind = pos 0 },
  )

  pub end : Scatp → ℕ → ℤ × Scatp
  end p a =
      if too_many (scatters a)
      then (illegal_message, p)
      else (pos 0, record { scat = a; elem_ind = pos (length (scatters a)); buff_ind = pos 0 })

  pub is_end : Scatp → ℤ
  is_end p =
      if too_many (scatters p.scat)
      then illegal_message
      else of_bool (eqb_ℤ p.elem_ind (pos (length (scatters p.scat))) && eqb_ℤ p.buff_ind (pos 0))

  pub is_legal : Scatp → Bool
  unfolding is_end
  is_legal p =
      leb (length (scatters p.scat)) max_client_scatter_elements
      && (is_true (is_end p)
          || (not (ltb_ℤ p.elem_ind (pos 0))
              && ltb_ℤ p.elem_ind (pos (length (scatters p.scat)))
              && not (ltb_ℤ p.buff_ind (pos 0))
              && ltb_ℤ p.buff_ind (pos (len_at (scatters p.scat) (pos_part p.elem_ind)))))

  pub is_not_legal : Scatp → Bool
  unfolding is_end
  is_not_legal p =
      too_many (scatters p.scat)
      || (not (is_true (is_end p))
          && (ltb_ℤ p.elem_ind (pos 0)
              || not (ltb_ℤ p.elem_ind (pos (length (scatters p.scat))))
              || ltb_ℤ p.buff_ind (pos 0)
              || not (ltb_ℤ p.buff_ind (pos (len_at (scatters p.scat) (pos_part p.elem_ind))))))

  pub equals : Scatp → Scatp → ℤ
  unfolding is_not_legal
  equals p q =
      if is_not_legal p || is_not_legal q
      then illegal_message
      else if not (p.scat == q.scat)
      then illegal_service
      else of_bool (eqb_ℤ p.elem_ind q.elem_ind && eqb_ℤ p.buff_ind q.buff_ind)

  -- `len` of the buffer that a legal position stands in.
  abbrev here_len : Scatp → ℤ
  here_len p = pos (len_at (scatters p.scat) (pos_part p.elem_ind))

  -- The bytes of the buffers strictly between two positions of one scatter.
  abbrev bytes_between : Scatp → Scatp → ℤ
  bytes_between p q = pos (
      sum_lens (pos_part q.elem_ind - suc (pos_part p.elem_ind))
        (drop (suc (pos_part p.elem_ind)) (scatters p.scat)))

  pub comp : Scatp → Scatp → ℤ
  comp p q =
      if is_not_legal p || is_not_legal q
      then illegal_message
      else if not (p.scat == q.scat)
      then illegal_service
      else if eqb_ℤ p.elem_ind q.elem_ind
      then p.buff_ind -ℤ q.buff_ind
      else if ltb_ℤ p.elem_ind q.elem_ind
      then p.buff_ind -ℤ here_len p -ℤ bytes_between p q
      else here_len q -ℤ q.buff_ind +ℤ bytes_between q p

  -- The part of `scatp_jforward` behind its checks, from buffer `e` and index `b` in it.
  forward_from : Scatp → ℕ → ℕ → ℕ → ℤ × Scatp
  unfolding skip_forward
  forward_from p e b n =
      let s = scatters p.scat in
      let left = len_at s e - b in
      let (i, k) = skip_forward (drop (suc e) s) (suc e) (n - left) in
      if ltb n left
      then (pos n, record p { buff_ind = pos (b + n) })
      else if (i == length s) && not (k == 0)
      then (pos n -ℤ pos k, p)
      else (pos n, record p { elem_ind = pos i; buff_ind = pos k })

  pub jforward : Scatp → ℤ → ℤ × Scatp
  jforward p n =
      if is_not_legal p
      then (illegal_message, p)
      else if ltb_ℤ n (pos 0)
      then (illegal_service, p)
      else if is_true (is_end p)
      then (pos 0, p)
      else forward_from p (pos_part p.elem_ind) (pos_part p.buff_ind) (pos_part n)

  backward_to : Scatp → ℕ → Back → ℤ × Scatp
  backward_to p n (landed e b) = (pos n, record p { elem_ind = pos e; buff_ind = pos b })
  backward_to p n (short k) = (pos n -ℤ pos k, p)

  pub jbackward : Scatp → ℤ → ℤ × Scatp
  jbackward p n =
      if is_not_legal p
      then (illegal_message, p)
      else if ltb_ℤ n (pos 0)
      then (illegal_service, p)
      else if not (ltb_ℤ p.buff_ind n)
      then (n, record p { buff_ind = p.buff_ind -ℤ n })
      else backward_to p (pos_part n)
          (skip_backward (scatters p.scat) (pos_part p.elem_ind) (pos_part n - pos_part p.buff_ind))

  -- The jump of `scatp_seek` from `from`, and what is stored in `*pos` after it.
  abbrev commit : Scatp → ℤ → ℤ × Scatp → ℤ × Scatp
  commit p offset (r, q) =
      if eqb_ℤ r offset then (pos 0, q) else if ltb_ℤ r (pos 0) then (r, p) else (negsuc 0, p)

  jump : Scatp → Scatp → ℤ → ℤ × Scatp
  jump p from offset =
      if ltb_ℤ offset (pos 0)
      then commit p (pos 0 -ℤ offset) (jbackward from (pos 0 -ℤ offset))
      else commit p offset (jforward from offset)

  -- An error of `scatp_begin` or `scatp_end` is returned at once.
  abbrev if_set : Scatp → ℤ × Scatp → (Scatp → ℤ × Scatp) → ℤ × Scatp
  if_set p (err, from) k = if is_true err then (err, p) else k from

  pub seek : Scatp → ℤ → Whence → ℤ × Scatp
  seek p offset seek_cur = jump p p offset
  seek p offset seek_set = if_set p (begin p p.scat) (λ from. jump p from offset)
  seek p offset seek_end = if_set p (end p p.scat) (λ from. jump p from offset)
  seek p offset seek_other = (einval, p)

  pub set : Scatp → ℕ → ℤ → Whence → ℤ × Scatp
  set p a offset seek_cur = if_set p (begin p a) (λ from. seek from offset seek_cur)
  set p a offset seek_set = seek (record p { scat = a }) offset seek_set
  set p a offset seek_end = seek (record p { scat = a }) offset seek_end
  set p a offset seek_other = seek (record p { scat = a }) offset seek_other
