-- ===== src/Scatp/Copy.antt =====
-- The copying functions of libspread/scatp.c. The memory is left aside: a copy is the list of its
-- calls of `memcpy`.
use cd_praticas.Prelude.{
  ℕ, zero, suc, ◌+◌, ◌-◌, List, [], ◌∷◌, Bool, true, false, ◌&&◌, ◌||◌, ltb, ◌==◌, if◌then◌else◌,
  drop, Option, none, some, ◌>>=◌,
}
use cd_praticas.Prelude.Int.{ℤ, pos, pos_part, ltb_ℤ, eqb_ℤ}
use cd_praticas.Scatp.Layout.{Scatter, len_at}
use cd_praticas.Scatp.{
  Scatp, begin, is_not_legal, is_end, is_true, illegal_message, illegal_service,
}

-- `dst_elem`, `dst_curr` and `dst_end - dst_curr`, with the buffers behind that one; or `dst_elem` past the
-- last buffer. The same for `src`.
pub data Cursor : Type 0 where
  within : (elem curr left : ℕ) (rest : Scatter) → Cursor
  past : (elem : ℕ) → Cursor

-- The loop over the empty buffers: `elem` is the index of the first of the list.
unfoldable pub next_cursor : Scatter → ℕ → Cursor
next_cursor [] elem = past elem
next_cursor (x ∷ xs) elem =
    if x.len == 0 then next_cursor xs (suc elem) else within elem x.buf x.len xs

unfoldable pub advance_cursor : ℕ → ℕ → ℕ → ℕ → Scatter → Cursor
advance_cursor copy_size elem curr left rest =
    if copy_size == left
    then next_cursor rest (suc elem)
    else within elem (curr + copy_size) (left - copy_size) rest

-- A call of `memcpy`: where to, where from, how many bytes.
pub record Memcpy : Type 0 where
  pub dst : ℕ
  pub src : ℕ
  pub size : ℕ

pub record Copied : Type 0 where
  pub calls : List Memcpy
  pub dst : Cursor
  pub src : Cursor
  pub bytes_left : ℕ

abbrev pub copy_size : ℕ → ℕ → ℕ → ℕ
copy_size dst_left src_left bytes_left =
    let fits = if ltb dst_left src_left then dst_left else src_left in
    if ltb fits bytes_left then fits else bytes_left

-- The loop of `scatp_adv_cpy0`. Each round copies a byte at least, so a fuel of `bytes_left` is enough.
unfoldable pub copy_loop : ℕ → Cursor → Cursor → ℕ → Copied
copy_loop zero d s n = record { calls = []; dst = d; src = s; bytes_left = n }
copy_loop (suc k) (past e) s n = record { calls = []; dst = past e; src = s; bytes_left = n }
copy_loop (suc k) (within e a l r) (past f) n = record {
  calls = [];
  dst = within e a l r;
  src = past f;
  bytes_left = n;
}
copy_loop (suc k) (within e a l r) (within f b m t) n =
    let c = copy_size l m n in
    let rest = copy_loop k (advance_cursor c e a l r) (advance_cursor c f b m t) (n - c) in
    if n == 0
    then record { calls = []; dst = within e a l r; src = within f b m t; bytes_left = n }
    else record rest { calls = record { dst = a; src = b; size = c } ∷ rest.calls }

abbrev pub buf_at : Scatter → ℕ → ℕ
buf_at [] i = 0
buf_at (x ∷ xs) zero = x.buf
buf_at (x ∷ xs) (suc i) = buf_at xs i

abbrev pub cursor_at : Scatter → ℕ → ℕ → Cursor
cursor_at s e b = within e (buf_at s e + b) (len_at s e - b) (drop (suc e) s)

-- Where a position stands after the copy, if that is asked for.
abbrev pub position : Scatter → Bool → Cursor → Scatp → Scatp
position s false c p = p
position s true (within e a l r) p = record p { elem_ind = pos e; buff_ind = pos (a - buf_at s e) }
position s true (past e) p = record p { elem_ind = pos e; buff_ind = pos 0 }

-- What a copy returns, the positions after it, and its calls of `memcpy`.
pub record Copy : Type 0 where
  pub ret : ℤ
  pub dst : Scatp
  pub src : Scatp
  pub calls : List Memcpy

module _ (scatters : ℕ → Scatter) where
  -- `n` bytes from legal positions that are not at the end.
  unfoldable pub copy_bytes : Scatp → Scatp → ℕ → Bool → Bool → Copy
  copy_bytes dst src n adv_dst adv_src =
      let d = scatters dst.scat in
      let s = scatters src.scat in
      let r =
        copy_loop n (cursor_at d (pos_part dst.elem_ind) (pos_part dst.buff_ind))
          (cursor_at s (pos_part src.elem_ind) (pos_part src.buff_ind)) n in
      if r.bytes_left == 0
      then record {
        ret = pos n;
        dst = position d adv_dst r.dst dst;
        src = position s adv_src r.src src;
        calls = r.calls;
      }
      else record { ret = pos (n - r.bytes_left); dst = dst; src = src; calls = r.calls }

  unfoldable pub adv_cpy0 : Scatp → Scatp → ℤ → Bool → Bool → Copy
  adv_cpy0 dst src num_bytes adv_dst adv_src =
      let stop : ℤ → Copy = λ e. record { ret = e; dst = dst; src = src; calls = [] } in
      if is_not_legal scatters dst || is_not_legal scatters src
      then stop illegal_message
      else if ltb_ℤ num_bytes (pos 0)
      then stop illegal_service
      else if is_true (is_end scatters dst) || is_true (is_end scatters src)
      then stop (pos 0)
      else copy_bytes dst src (pos_part num_bytes) adv_dst adv_src

  pub cpy0 : Scatp → Scatp → ℤ → Copy
  cpy0 dst src num_bytes = adv_cpy0 dst src num_bytes false false

-- A scatter of one buffer on the stack, at the address `local`, which is no scatter's yet. A negative
-- length, which is refused later in any case, counts as 0.
abbrev pub with_local : (ℕ → Scatter) → ℕ → ℕ → ℤ → ℕ → Scatter
with_local scatters local buf num_bytes a =
    if a == local then record { buf = buf; len = pos_part num_bytes } ∷ [] else scatters a

-- The position that `scatp_begin` sets in it; its answer is asserted to be 0.
unfoldable pub local_begin : (ℕ → Scatter) → ℕ → ℕ → ℤ → Option Scatp
local_begin scatters local buf num_bytes =
    let (err, p) =
      begin (with_local scatters local buf num_bytes)
        (record { scat = local; elem_ind = pos 0; buff_ind = pos 0 }) local in
    if eqb_ℤ err (pos 0) then some p else none

-- To and from a single buffer. The number is the buffer's address after the copy.
pub adv_cpy1 : (ℕ → Scatter) → ℕ → ℕ → Scatp → ℤ → Bool → Bool → Option (Copy × ℕ)
adv_cpy1 scatters local dst src num_bytes adv_dst adv_src =
    local_begin scatters local dst num_bytes >>= λ p.
    let c = adv_cpy0 (with_local scatters local dst num_bytes) p src num_bytes false adv_src in
    some (c, if eqb_ℤ c.ret num_bytes && adv_dst then dst + pos_part num_bytes else dst)

pub adv_cpy2 : (ℕ → Scatter) → ℕ → Scatp → ℕ → ℤ → Bool → Bool → Option (Copy × ℕ)
adv_cpy2 scatters local dst src num_bytes adv_dst adv_src =
    local_begin scatters local src num_bytes >>= λ p.
    let c = adv_cpy0 (with_local scatters local src num_bytes) dst p num_bytes adv_dst false in
    some (c, if eqb_ℤ c.ret num_bytes && adv_src then src + pos_part num_bytes else src)

pub cpy1 : (ℕ → Scatter) → ℕ → ℕ → Scatp → ℤ → Option Copy
cpy1 scatters local dst src num_bytes = local_begin scatters local dst num_bytes >>= λ p.
    some (adv_cpy0 (with_local scatters local dst num_bytes) p src num_bytes false false)

pub cpy2 : (ℕ → Scatter) → ℕ → Scatp → ℕ → ℤ → Option Copy
cpy2 scatters local dst src num_bytes = local_begin scatters local src num_bytes >>= λ p.
    some (adv_cpy0 (with_local scatters local src num_bytes) dst p num_bytes false false)
