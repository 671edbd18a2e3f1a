-- ===== src/Protocol/Body.antt =====
-- The fragments in a packet's body: each starts with a header at the next multiple of 4.
use cd_praticas.Prelude.{
  ℕ, zero, suc, ◌+◌, ◌-◌, ◌*◌, ◌%◌, List, [], ◌∷◌, not, ◌^◌, Option, none, some, ltb, ◌==◌,
  if◌then◌else◌,
}
use cd_praticas.Prelude.Int.{ℤ, pos, negsuc, ltb_ℤ, pos_part, ◌+ℤ◌}
use cd_praticas.Protocol.Types.{PacketBody}

-- The `switch` on `bytes % 4`, whose cases fall through.
unfoldable pub padding_bytes : ℕ → ℕ
padding_bytes n = if n % 4 == 1 then 3 else if n % 4 == 2 then 2 else if n % 4 == 3 then 1 else 0

abbrev pub sizeof_fragment_header : ℕ
sizeof_fragment_header = 4

-- An `int16` in the byte order of the host, here the lower byte first.
unfoldable pub int16_at : PacketBody → ℕ → ℤ
int16_at b o =
    let w = (b o) % 256 + 256 * ((b (o + 1)) % 256) in
    if ltb w (2 ^ 15) then pos w else negsuc (2 ^ 16 - w - 1)

-- `n` bytes from index `o` on.
unfoldable pub bytes : PacketBody → ℕ → ℕ → List ℕ
bytes b o zero = []
bytes b o (suc n) = b o ∷ bytes b (o + 1) n

abbrev pub cons_some : List ℕ → Option (List (List ℕ)) → Option (List (List ℕ))
cons_some x none = none
cons_some x (some xs) = some (x ∷ xs)

-- The first loop of `Deliver_packet`: the fragments behind the first, `processed` bytes of the
-- `data_len` being done. It stops at a fragment that exceeds the packet; `none` is a copy of a
-- negative length, or the end of the fuel.
unfoldable pub unpack : ℕ → PacketBody → ℕ → ℕ → Option (List (List ℕ))
unfolding padding_bytes int16_at bytes
unpack zero b data_len processed = none
unpack (suc fuel) b data_len processed =
    let start = processed + padding_bytes processed in
    let len = int16_at b (start + 2) in
    let body = start + sizeof_fragment_header in
    let rest = unpack fuel b data_len (body + pos_part len) in
    if not (ltb processed data_len)
    then some []
    else if ltb_ℤ (pos data_len) (pos body +ℤ len)
    then some []
    else if ltb_ℤ len (pos 0)
    then none
    else cons_some (bytes b body (pos_part len)) rest
