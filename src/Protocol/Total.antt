-- ===== src/Protocol/Total.antt =====
-- `Deliver_packet`, `Discard_packets` and `Deliver_agreed_packets` come to an end without a fatal
-- alarm.
use cd_praticas.Prelude.{
  ℕ, zero, suc, ◌+◌, ◌-◌, ◌≤◌, ◌<◌, ◌≡◌, refl, ◌⊎◌, inl, inr, List, [], ◌∷◌, Bool, true, false,
  Option, none, some, arith, Bool-cases, ◌==◌, ltb, leb, if◌then◌else◌, ◌>>=◌,
}
use cd_praticas.Prelude.Int.{pos, negsuc, pos_part, ltb_ℤ, ◌≤ℤ◌, ◌+ℤ◌}
use cd_praticas.Protocol.Types.{
  Window, PacketInfo, PacketBody, Message, agreed_type, is_safe, is_regular, is_evs, pack_entry,
}
use cd_praticas.Protocol.Body.{int16_at, unpack, padding_bytes, bytes, cons_some}
use cd_praticas.Protocol.Window.{
  is_single, deliver_packet, agreed_round, agreed_loop, deliver_agreed_packets, discard_loop,
  discard_packets, delivered_one, dispose_at,
}
use cd_praticas.Protocol.Delivery.{IsValid, Delivered, deliver_packet-Delivered}

-- The fragments from `processed` on, up to `data_len`, of which there are `k` at most, state lengths that
-- are not negative. Each starts with its header of 4 bytes at a multiple of 4.
abbrev pub HasLengths : ℕ → PacketBody → ℕ → ℕ → Type 0
HasLengths zero b data_len processed = Unit {0}
HasLengths (suc k) b data_len processed =
    let start = processed + padding_bytes processed in
    let len = int16_at b (start + 2) in
    (data_len ≤ processed) ⊎ (pos 0 ≤ℤ len) × HasLengths k b data_len (start + 4 + pos_part len)

abbrev pub Returns {ℓ} : {A : Type ℓ} → Option A → Type ℓ
Returns {A = A} x = (y : A) × (x ≡ some y)

cons_some-Returns : (x : List ℕ) (r : Option (List (List ℕ))) → Returns r → Returns (cons_some x r)
cons_some-Returns x r (y, e) = (x ∷ y, rw e)

if-Returns {ℓ} : {A : Type ℓ} {b : Bool} (x : A) → b ≡ true → Returns (if b then some x else none)
if-Returns x e = (x, rw e)

pub >>=-Returns {ℓ κ} :
    {A : Type ℓ} {B : Type κ} {m : Option A} {a : A} (f : A → Option B)
    → m ≡ some a
    → Returns (f a)
    → Returns (m >>= f)
>>=-Returns f e (y, h) = (y, rw e h)

-- The loop over the fragments ends within the fuel, and copies no negative length, where the fuel
-- exceeds the bytes that are left.
pub unpack-Returns :
    (fuel : ℕ) (b : PacketBody) (data_len processed : ℕ)
    → HasLengths fuel b data_len processed
    → 0 < fuel
    → data_len < fuel + processed
    → Returns (unpack fuel b data_len processed)
unfolding unpack
unpack-Returns zero b data_len processed h some_fuel lt = absurd (omega arith)
unpack-Returns (suc fuel) b data_len processed (inl past) some_fuel lt =
    let over : ltb processed data_len ≡ false = ground arith in ([], rw over)
unpack-Returns (suc fuel) b data_len processed (inr (length_ok, later)) some_fuel lt =
    let start = processed + padding_bytes processed in
    let len = int16_at b (start + 2) in
    let body = start + 4 in
    let whole : ltb_ℤ len (pos 0) ≡ false = ground (arith, length_ok) in
    elim (Bool-cases (ltb processed data_len)) [
      | inr over ↦ ([], rw over)
      | inl more ↦ elim (Bool-cases (ltb_ℤ (pos data_len) (pos body +ℤ len))) [
        | inl exceeds ↦ ([], rw (more, exceeds))
        | inr fits ↦
            let rest =
              unpack-Returns fuel b data_len (body + pos_part len) later (ground arith)
                (ground arith) in
            rw (more, fits, whole) (cons_some-Returns (bytes b body (pos_part len)) _ rest)
      ]
    ]

-- A packet whose first message is whole, and whose other fragments state lengths that are not negative.
pub record Clear (info : PacketInfo) : Type 0 where
  pub single : info.head.first_frag_header.fragment_index ≡ negsuc 0
  pub lengths :
      HasLengths
        (suc info.head.data_len)
        info.body
        info.head.data_len
        info.head.first_frag_header.fragment_len

-- The packets that wait are such packets, and no message waits for its next fragment.
pub record Ready (p : ℕ → PacketInfo) (q : ℕ → Option Message) : Type 0 where
  pub clear : (e : ℕ) → (p e).exist ≡ 1 → Clear (p e)
  pub idle : (i : ℕ) → q i ≡ none

module _ (e : ℕ) (w : Window) (r : Ready w.packets w.up_queue) (u : (w.packets e).exist ≡ 1) where
  deliver_packet-Returns : Returns (deliver_packet e w)
  unfolding deliver_packet
  deliver_packet-Returns =
      let c = r.clear e u in
      let info = w.packets e in
      let (extra, done) =
        unpack-Returns (suc info.head.data_len) info.body info.head.data_len
          info.head.first_frag_header.fragment_len c.lengths (omega arith) (omega arith) in
      >>=-Returns _ done (
        if-Returns _
          (rw (r.idle (if is_single info.head then 128 else info.proc_index), c.single) refl))

  idle_after : (w' : Window) → deliver_packet e w ≡ some w' → (i : ℕ) → w'.up_queue i ≡ none
  unfolding deliver_packet
  idle_after w' h i = ground (arith, (r.clear e u).single, r.idle i)

  Clear-after :
      (w' : Window) → Delivered e w w' → (j : ℕ) → (w'.packets j).exist ≡ 1 → Clear (w'.packets j)
  Clear-after w' x j k = ground (arith, x.packets, r.clear j, r.clear e u)

  -- The packet can be delivered, and the window stays of this kind.
  deliver_packet-Ready :
      (w' : Window) × (deliver_packet e w ≡ some w') × Ready w'.packets w'.up_queue
  deliver_packet-Ready =
      let (w', h) = deliver_packet-Returns in
      let x = deliver_packet-Delivered e w w' h in
      (w', h, record { clear = λ j k. Clear-after w' x j k; idle = idle_after w' h })

-- The packets of the numbers from `i` on are there, `k` of them.
abbrev pub There : Window → ℕ → ℕ → Type 0
There w i k = (j : ℕ) → i ≤ j → j < i + k → 0 < (w.packets (pack_entry j)).exist

pub There-dispose :
    (w w' : Window) (i k : ℕ)
    → k < 8192
    → ((j : ℕ) → 0 < (w.packets j).exist → 0 < (w'.packets j).exist)
    → There w i (suc k)
    → There (dispose_at i w') (suc i) k
There-dispose w w' i k few keeps t j lo hi = ground (arith, keeps (pack_entry j), t j)

-- What the packets and messages of `w` allow stays allowed in `w'`.
abbrev pub Goes : Window → Window → Type 0
Goes w w' =
    Ready w'.packets w'.up_queue × ((j : ℕ) → 0 < (w.packets j).exist → 0 < (w'.packets j).exist)

pub delivered-Goes :
    (e : ℕ) (w : Window)
    → Ready w.packets w.up_queue
    → (w.packets e).exist ≡ 1
    → (w' : Window) × (deliver_packet e w ≡ some w') × Goes w w'
delivered-Goes e w r u =
    let (w', h, q) = deliver_packet-Ready e w r u in
    let x = deliver_packet-Delivered e w w' h in (w', h, (q, λ j k. ground (arith, x.packets)))

first_step :
    (i : ℕ) (w : Window)
    → Ready w.packets w.up_queue
    → 0 < (w.packets (pack_entry i)).exist
    → (v : Window) × ((if (w.packets (pack_entry i)).exist == 0
          then none
          else if (w.packets (pack_entry i)).exist == 1
          then deliver_packet (pack_entry i) w
          else some w)
        ≡ some v)
      × Goes w v
first_step i w r u =
    let there : (w.packets (pack_entry i)).exist == 0 ≡ false = ground arith in
    elim (Bool-cases ((w.packets (pack_entry i)).exist == 1)) [
      | inl waits ↦
          let (v, h, g) = delivered-Goes (pack_entry i) w r (ground arith) in
          (v, rw (there, waits) h, g)
      | inr done ↦ (w, rw (there, done), (r, λ j k. k))
    ]

pub dispose_at-Ready :
    (i : ℕ) (w : Window)
    → Ready w.packets w.up_queue
    → Ready (dispose_at i w).packets (dispose_at i w).up_queue
dispose_at-Ready i w r = record { clear = λ j k. ground (arith, r.clear j); idle = r.idle }

discard_loop-Returns :
    (k i : ℕ) (w : Window)
    → Ready w.packets w.up_queue
    → k ≤ 8192
    → There w i k
    → Returns (discard_loop k i w)
unfolding discard_loop
discard_loop-Returns zero i w r few t = (w, refl)
discard_loop-Returns (suc k) i w r few t =
    let (v, h, (q, keeps)) = first_step i w r (t i (omega arith) (omega arith)) in
    >>=-Returns _ h (
      discard_loop-Returns k (suc i) (dispose_at i v) (dispose_at-Ready i v q) (omega arith)
        (There-dispose w v i k (omega arith) keeps t))

-- On a valid window `Discard_packets` returns, if the first message of each packet that waits is whole, its other
-- fragments state lengths that are not negative, and no message waits for its next fragment.
pub discard_packets-Returns :
    (w : Window) → IsValid w → Ready w.packets w.up_queue → Returns (discard_packets w)
unfolding discard_packets
discard_packets-Returns w v r = elim (Bool-cases (leb w.aru w.last_discarded)) [
  | inl none_left ↦ (w, rw none_left)
  | inr some_left ↦ rw some_left (
      >>=-Returns _
        (discard_loop-Returns (w.aru - w.last_discarded) (suc w.last_discarded) w r
          (omega (arith, v.room, v.below))
          (λ j lo hi. v.full j (omega arith) (omega (arith, v.below)))).1
        (_, refl))
]

-- A packet that waits, or one that was delivered ahead of the order and is of a type that allows it.
abbrev pub Early : PacketInfo → Type 0
Early info = (info.exist ≡ 1) ⊎ (info.exist ≡ 2) × (is_regular info.head.type < agreed_type)

abbrev AllEarly : Window → ℕ → ℕ → Type 0
AllEarly w i k = (j : ℕ) → i ≤ j → j < i + k → Early (w.packets (pack_entry j))

AllEarly-deliver :
    (w w' : Window) (i k : ℕ)
    → k < 8192
    → Delivered (pack_entry i) w w'
    → AllEarly w i (suc k)
    → AllEarly w' (suc i) k
AllEarly-deliver w w' i k few x t j lo hi = ground (arith, x.packets, t j)

agreed_round-Returns :
    (k i : ℕ) (w : Window) (rest : Window → Option Window)
    → Ready w.packets w.up_queue
    → k < 8192
    → AllEarly w i (suc k)
    → ((u : Window) → Ready u.packets u.up_queue → AllEarly u (suc i) k → Returns (rest u))
    → Returns (agreed_round i w rest)
unfolding agreed_round
agreed_round-Returns k i w rest r few t go = elim (t i (omega arith) (omega arith)) [
  | inr (done, early) ↦
      let below : leb agreed_type (is_regular (w.packets (pack_entry i)).head.type) ≡ false =
        ground arith in
      rw (done, below) (go (delivered_one w) r (λ j lo hi. t j (omega arith) (omega arith)))
  | inl waits ↦ elim (Bool-cases (is_safe (w.packets (pack_entry i)).head.type)) [
    | inl safe ↦ rw (waits, safe) (w, refl)
    | inr plain ↦
        let (v, h, q) = deliver_packet-Ready (pack_entry i) w r waits in
        let x = deliver_packet-Delivered (pack_entry i) w v h in
        rw (waits, plain, h) (go (delivered_one v) q (AllEarly-deliver w v i k few x t))
  ]
]

agreed_loop-Returns :
    (k i : ℕ) (w : Window)
    → Ready w.packets w.up_queue
    → k ≤ 8192
    → AllEarly w i k
    → Returns (agreed_loop k i w)
unfolding agreed_loop
agreed_loop-Returns zero i w r few t = (w, refl)
agreed_loop-Returns (suc k) i w r few t =
    agreed_round-Returns k i w (agreed_loop k (suc i)) r (omega arith) t
      (λ u q s. agreed_loop-Returns k (suc i) u q (omega arith) s)

-- On a valid window of such packets `Deliver_agreed_packets` returns, if the
-- packets that were delivered ahead of the
-- order are of a type below agreed order.
pub deliver_agreed_packets-Returns :
    (w : Window)
    → IsValid w
    → Ready w.packets w.up_queue
    → ((i : ℕ)
        → w.last_delivered < i
        → i ≤ w.my_aru
        → (w.packets (pack_entry i)).exist ≡ 2
        → is_regular (w.packets (pack_entry i)).head.type < agreed_type)
    → Returns (deliver_agreed_packets w)
unfolding deliver_agreed_packets
deliver_agreed_packets-Returns w v r early = elim (Bool-cases (leb w.my_aru w.last_delivered)) [
  | inl level ↦ (w, rw level)
  | inr behind ↦ elim (Bool-cases (is_evs w.memb_state)) [
    | inl state ↦ (w, rw (behind, state))
    | inr state ↦ elim (Bool-cases (ltb agreed_type w.delivery_threshold)) [
      | inl shut ↦ (w, rw (behind, state, shut))
      | inr passes ↦
          rw (behind, state, passes)
            (agreed_loop-Returns (w.my_aru - w.last_delivered) (suc w.last_delivered) w r
              (omega (arith, v.room, v.below, v.discarded))
              (λ j lo hi. there j (omega arith) (omega arith)))
    ]
  ]
]
  where
    there : (j : ℕ) → w.last_delivered < j → j ≤ w.my_aru → Early (w.packets (pack_entry j))
    there j lo hi =
        ground
          (arith, v.full j (omega (arith, v.discarded)) hi, v.no_hole (pack_entry j), early j lo hi)
