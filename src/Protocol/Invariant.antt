-- ===== src/Protocol/Invariant.antt =====
-- The invariant of the window: which packets it holds, and what the trace of delivered packets tells.
use cd_praticas.Prelude.{
  ℕ, ◌+◌, ◌≤◌, ◌<◌, ◌≡◌, ◌≢◌, ◌⊎◌, inl, inr, List, [], ◌∷◌, true, false, arith,
}
use cd_praticas.Protocol.Types.{PacketInfo, PacketHeader, is_safe, pack_entry}
use cd_praticas.Protocol.Window.{is_single}

-- A delivered packet: discarded, or still in its entry; packets that keep the order reach up to `b`,
-- and safe ones up to `a`, the sequence number that all daemons have reached.
pub record Placed (p : ℕ → PacketInfo) (d b a : ℕ) (g : PacketHeader) : Type 0 where
  pub gone :
      (g.seq ≤ d) ⊎ ((p (pack_entry g.seq)).exist ≡ 2) × ((p (pack_entry g.seq)).head.seq ≡ g.seq)
  pub low : (is_single g ≡ true) ⊎ (g.seq ≤ b)
  pub stable : (is_single g ≡ true) ⊎ (is_safe g.type ≡ false) ⊎ (g.seq ≤ a)

-- `h` was delivered after `g`.
pub record After (h g : PacketHeader) : Type 0 where
  pub distinct : g.seq ≢ h.seq
  pub ordered : (is_single h ≡ true) ⊎ (is_single g ≡ true) ⊎ (g.seq < h.seq)

abbrev pub AfterAll : PacketHeader → List PacketHeader → Type 0
AfterAll h [] = Unit {0}
AfterAll h (g ∷ t) = After h g × AfterAll h t

abbrev pub AllPlaced : (ℕ → PacketInfo) → ℕ → ℕ → ℕ → List PacketHeader → Type 0
AllPlaced p d b a [] = Unit {0}
AllPlaced p d b a (g ∷ t) = Placed p d b a g × AllPlaced p d b a t

-- Every packet of the trace came after all the older ones.
abbrev pub InOrder : List PacketHeader → Type 0
InOrder [] = Unit {0}
InOrder (h ∷ t) = AfterAll h t × InOrder t

pub record Inv (p : ℕ → PacketInfo) (d b a m h : ℕ) (t : List PacketHeader) : Type 0 where
  pub discarded : (d ≤ b) × (d ≤ a)
  pub below : (b ≤ m) × (a ≤ m) × (m ≤ h)
  pub room : h ≤ d + 8192
  pub owns :
      (e : ℕ)
      → 0 < (p e).exist
      → (pack_entry (p e).head.seq ≡ e) × (d < (p e).head.seq) × ((p e).head.seq ≤ h)
  -- Holes (3) are made only by a change of membership.
  pub no_hole : (e : ℕ) → (p e).exist ≤ 2
  pub full : (i : ℕ) → d < i → i ≤ m → 0 < (p (pack_entry i)).exist
  pub done : (i : ℕ) → d < i → i ≤ b → (p (pack_entry i)).exist ≡ 2
  pub placed : AllPlaced p d b a t
  pub in_order : InOrder t

module _ {p : ℕ → PacketInfo} {d b a m h : ℕ} {t : List PacketHeader} (v : Inv p d b a m h t) where
  -- An entry in use at the place of a number of the window holds the packet with that number.
  pub head_seq :
      (i : ℕ) → d < i → i ≤ h → 0 < (p (pack_entry i)).exist → (p (pack_entry i)).head.seq ≡ i
  head_seq i lo hi used = omega (arith, v.owns (pack_entry i) used, v.room)

-- Higher bounds keep a packet placed.
pub Placed-mono :
    (p : ℕ → PacketInfo) (d b a b' a' : ℕ) (g : PacketHeader)
    → Placed p d b a g
    → b ≤ b'
    → a ≤ a'
    → Placed p d b' a' g
Placed-mono p d b a b' a' g q hb ha = record {
  gone = q.gone;
  low = elim q.low [ inl e ↦ inl e | inr e ↦ inr (omega arith) ];
  stable = elim q.stable [
    | inl e ↦ inl e
    | inr (inl e) ↦ inr (inl e)
    | inr (inr e) ↦ inr (inr (omega arith))
  ];
}

pub AllPlaced-map :
    (p q : ℕ → PacketInfo) (d b a d' b' a' : ℕ)
    → ((g : PacketHeader) → Placed p d b a g → Placed q d' b' a' g)
    → (t : List PacketHeader) → AllPlaced p d b a t
    → AllPlaced q d' b' a' t
AllPlaced-map p q d b a d' b' a' f [] s = tt
AllPlaced-map p q d b a d' b' a' f (g ∷ t) s = (f g s.0, AllPlaced-map p q d b a d' b' a' f t s.1)

pub AfterAll-of :
    (p : ℕ → PacketInfo) (d b a : ℕ) (h : PacketHeader)
    → ((g : PacketHeader) → Placed p d b a g → After h g)
    → (t : List PacketHeader) → AllPlaced p d b a t
    → AfterAll h t
AfterAll-of p d b a h f [] s = tt
AfterAll-of p d b a h f (g ∷ t) s = (f g s.0, AfterAll-of p d b a h f t s.1)
