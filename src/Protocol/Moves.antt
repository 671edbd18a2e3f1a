-- ===== src/Protocol/Moves.antt =====
-- Each change of the window keeps the invariant: delivery, disposal, a new packet, the counters.
use cd_praticas.Prelude.{ℕ, suc, ◌+◌, ◌≤◌, ◌<◌, ◌≡◌, ◌⊎◌, List, [], ◌∷◌, true, false, arith}
use cd_praticas.Protocol.Types.{PacketInfo, PacketHeader, is_safe, pack_entry, update}
use cd_praticas.Protocol.Window.{is_single}
use cd_praticas.Protocol.Invariant.{
  Inv, Placed, After, Placed-mono, AllPlaced-map, AfterAll-of, head_seq,
}

-- The entries after `Deliver_packet`, and after a packet was disposed of.
abbrev pub delivered_at : (ℕ → PacketInfo) → ℕ → ℕ → PacketInfo
delivered_at p e = update p e (record (p e) { exist = 2 })

abbrev pub disposed_at : (ℕ → PacketInfo) → ℕ → ℕ → PacketInfo
disposed_at p e = update p e (record (p e) { exist = 0 })

-- `Deliver_packet` at number `i`: ahead of the order a single packet, or the next one in order.
module _ (p : ℕ → PacketInfo) (d b a m h i b' : ℕ) (t : List PacketHeader) (v : Inv p d b a m h t)
    (lo : d < i) (hi : i ≤ h) (waits : (p (pack_entry i)).exist ≡ 1)
    (how : (b' ≡ b) × (is_single (p (pack_entry i)).head ≡ true) ⊎ (b' ≡ i) × (i ≡ suc b) × (i ≤ m))
    (safe : (is_single (p (pack_entry i)).head ≡ true)
      ⊎ (is_safe (p (pack_entry i)).head.type ≡ false)
      ⊎ (i ≤ a)) where
  seq_lem : (p (pack_entry i)).head.seq ≡ i
  seq_lem = head_seq v i lo hi (omega arith)

  stays-Placed :
      (g : PacketHeader) → Placed p d b a g → Placed (delivered_at p (pack_entry i)) d b' a g
  stays-Placed g s = record { gone = ground arith; low = ground arith; stable = ground arith }

  new-Placed : Placed (delivered_at p (pack_entry i)) d b' a (p (pack_entry i)).head
  new-Placed = record {
    gone = ground (arith, seq_lem);
    low = ground (arith, seq_lem);
    stable = ground (arith, seq_lem);
  }

  comes-After : (g : PacketHeader) → Placed p d b a g → After (p (pack_entry i)).head g
  comes-After g s = record { distinct = ground (arith, seq_lem); ordered = ground (arith, seq_lem) }

  pub Inv-deliver : Inv (delivered_at p (pack_entry i)) d b' a m h ((p (pack_entry i)).head ∷ t)
  Inv-deliver = record {
    discarded = ground (arith, v.discarded);
    below = ground (arith, v.below);
    room = v.room;
    owns = λ e u. ground (arith, v.owns e);
    no_hole = λ e. ground (arith, v.no_hole e);
    full = λ j x y. ground (arith, v.full j);
    done = λ j x y. ground (arith, v.done j);
    placed = (
      new-Placed,
      AllPlaced-map p (delivered_at p (pack_entry i)) d b a d b' a stays-Placed t v.placed,
    );
    in_order = (AfterAll-of p d b a _ comes-After t v.placed, v.in_order);
  }

module _ (p : ℕ → PacketInfo) (d b a m h : ℕ) (t : List PacketHeader) (v : Inv p d b a m h t) where
  -- The next packet had been delivered ahead of the order.
  pub Inv-skip : (p (pack_entry (suc b))).exist ≡ 2 → suc b ≤ m → Inv p d (suc b) a m h t
  Inv-skip e s = record {
    discarded = ground (arith, v.discarded);
    below = ground (arith, v.below);
    room = v.room;
    owns = v.owns;
    no_hole = v.no_hole;
    full = v.full;
    done = λ j x y. ground (arith, v.done j);
    placed =
        AllPlaced-map p p d b a d (suc b) a
          (λ g q. Placed-mono p d b a (suc b) a g q (omega arith) (omega arith)) t v.placed;
    in_order = v.in_order;
  }

  first_seq : suc d ≤ b → (p (pack_entry (suc d))).head.seq ≡ suc d
  first_seq s =
      head_seq v (suc d) (omega arith) (omega (arith, v.below))
        (omega (arith, v.done (suc d) (omega arith) s))

  -- The first packet of the window is discarded.
  pub Inv-dispose :
      suc d ≤ b → suc d ≤ a → Inv (disposed_at p (pack_entry (suc d))) (suc d) b a m h t
  Inv-dispose s r = record {
    discarded = ground (arith, v.discarded);
    below = ground (arith, v.below);
    room = ground (arith, v.room);
    owns = λ e u. ground (arith, v.owns e);
    no_hole = λ e. ground (arith, v.no_hole e);
    full = λ j x y. ground (arith, v.full j, v.room, v.below);
    done = λ j x y. ground (arith, v.done j, v.room, v.below);
    placed =
        AllPlaced-map p (disposed_at p (pack_entry (suc d))) d b a (suc d) b a
          (λ g q. record {
            gone = ground (arith, q.gone, first_seq s);
            low = q.low;
            stable = q.stable;
          })
          t v.placed;
    in_order = v.in_order;
  }

  -- `My_aru` goes one packet on.
  pub Inv-advance : suc m ≤ h → 0 < (p (pack_entry (suc m))).exist → Inv p d b a (suc m) h t
  Inv-advance s u = record {
    discarded = v.discarded;
    below = ground (arith, v.below);
    room = v.room;
    owns = v.owns;
    no_hole = v.no_hole;
    full = λ j x y. ground (arith, v.full j);
    done = v.done;
    placed = v.placed;
    in_order = v.in_order;
  }

  -- `Aru` is raised, by the token.
  pub Inv-raise : (a' : ℕ) → a ≤ a' → a' ≤ m → Inv p d b a' m h t
  Inv-raise a' s r = record {
    discarded = ground (arith, v.discarded);
    below = ground (arith, v.below);
    room = v.room;
    owns = v.owns;
    no_hole = v.no_hole;
    full = v.full;
    done = v.done;
    placed =
        AllPlaced-map p p d b a d b a' (λ g q. Placed-mono p d b a b a' g q (omega arith) s) t
          v.placed;
    in_order = v.in_order;
  }

  -- The token tells of packets with higher numbers.
  pub Inv-announce : (h' : ℕ) → h ≤ h' → h' ≤ d + 8192 → Inv p d b a m h' t
  Inv-announce h' up room = record {
    discarded = v.discarded;
    below = ground (arith, v.below);
    room = room;
    owns = λ e u. ground (arith, v.owns e);
    no_hole = v.no_hole;
    full = v.full;
    done = v.done;
    placed = v.placed;
    in_order = v.in_order;
  }

  -- A new packet is stored.
  pub Inv-store :
      (info : PacketInfo) (h' : ℕ)
      → d < info.head.seq
      → info.head.seq ≤ h'
      → h ≤ h'
      → h' ≤ d + 8192
      → (p (pack_entry info.head.seq)).exist ≡ 0
      → info.exist ≡ 1
      → Inv (update p (pack_entry info.head.seq) info) d b a m h' t
  Inv-store info h' lo hi up room free new = record {
    discarded = v.discarded;
    below = ground (arith, v.below);
    room = room;
    owns = λ e u. ground (arith, v.owns e);
    no_hole = λ e. ground (arith, v.no_hole e);
    full = λ j x y. ground (arith, v.full j);
    done = λ j x y. ground (arith, v.done j);
    placed =
        AllPlaced-map p _ d b a d b a
          (λ g q. record { gone = ground (arith, q.gone); low = q.low; stable = q.stable }) t
          v.placed;
    in_order = v.in_order;
  }

-- The window before any packet of a membership.
pub Inv-empty : (p : ℕ → PacketInfo) → ((e : ℕ) → (p e).exist ≡ 0) → Inv p 0 0 0 0 0 []
Inv-empty p none_there = record {
  discarded = omega arith;
  below = omega arith;
  room = omega arith;
  owns = λ e u. absurd (omega (arith, none_there e));
  no_hole = λ e. omega (arith, none_there e);
  full = λ j x y. absurd (omega arith);
  done = λ j x y. absurd (omega arith);
  placed = tt;
  in_order = tt;
}
