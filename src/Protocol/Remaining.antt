-- ===== src/Protocol/Remaining.antt =====
-- The packets and holes that a window has left at the end of a membership (`Discard_packets` in the
-- state EVS), and what one delivery adds to the trace.
use mathlib.Core.Path.{subst, sym, ap}
use mathlib.Core.List.{append_assoc}
use cd_praticas.Prelude.{
  ℕ, suc, ◌+◌, ◌<◌, ◌≤◌, ◌≡◌, ◌≢◌, refl, ◌∙◌, ◌⊎◌, inl, inr, List, [], ◌∷◌, ◌++◌, false, some, ◌==◌,
  arith, Bool-cases, eq_of_some,
}
use cd_praticas.Protocol.Types.{Window, PacketInfo, PacketHeader, pack_entry}
use cd_praticas.Protocol.Moves.{delivered_at, disposed_at}
use cd_praticas.Protocol.Delivery.{deliver_packet-Delivered}
use cd_praticas.Protocol.Evs.{deliver_waiting}

-- The entries hold exactly the packets and holes from `i` to `h`.
pub record Left (p : ℕ → PacketInfo) (i h : ℕ) : Type 0 where
  pub within : (e : ℕ) → 0 < (p e).exist → (j : ℕ) × (i ≤ j) × (j ≤ h) × (pack_entry j ≡ e)
  -- A hole has no header.
  pub named :
      (j : ℕ) → i ≤ j → j ≤ h → (p (pack_entry j)).exist ≢ 3 → (p (pack_entry j)).head.seq ≡ j
  pub full : (j : ℕ) → i ≤ j → j ≤ h → 0 < (p (pack_entry j)).exist
  pub span : h < i + 8192

module _ (p : ℕ → PacketInfo) (i h : ℕ) (v : Left p i h) where
  pub Left-dispose : i ≤ h → Left (disposed_at p (pack_entry i)) (suc i) h
  Left-dispose le = record {
    within = λ e u. let (j, lo, hi, at) = v.within e (ground arith) in (j, ground arith, hi, at);
    named = λ j x y n. ground (arith, v.named j, v.span);
    full = λ j x y. ground (arith, v.full j, v.span);
    span = omega (arith, v.span);
  }

  pub Left-deliver : (e : ℕ) → (p e).exist ≡ 1 → Left (delivered_at p e) i h
  Left-deliver e waits = record {
    within = λ f u. v.within f (ground arith);
    named = λ j x y n. ground (arith, v.named j);
    full = λ j x y. ground (arith, v.full j);
    span = v.span;
  }

abbrev pub AllOf : (PacketHeader → Type 0) → List PacketHeader → Type 0
AllOf P [] = Unit {0}
AllOf P (g ∷ gs) = P g × AllOf P gs

-- The numbers lie from `lo` on and below `hi`, and each is lower than the one before it.
abbrev pub Falling : ℕ → ℕ → List PacketHeader → Type 0
Falling lo hi [] = Unit {0}
Falling lo hi (g ∷ gs) = (lo ≤ g.seq) × (g.seq < hi) × Falling lo g.seq gs

-- What deliveries add to the trace, whose last packet stands first: packets with the numbers from `lo`
-- on and below `hi`, each once and in order.
abbrev pub Added : ℕ → ℕ → (PacketHeader → Type 0) → List PacketHeader → List PacketHeader → Type 0
Added lo hi P t t' = (new : List PacketHeader) × (t' ≡ new ++ t) × AllOf P new × Falling lo hi new

-- The packet waited in `p`, and has `Q`.
abbrev pub Waited : (ℕ → PacketInfo) → (PacketHeader → Type 0) → PacketHeader → Type 0
Waited p Q g = ((p (pack_entry g.seq)).exist ≡ 1) × ((p (pack_entry g.seq)).head ≡ g) × Q g

Falling-raise :
    (lo mid hi : ℕ) (gs : List PacketHeader) → mid ≤ hi → Falling lo mid gs → Falling lo hi gs
Falling-raise lo mid hi [] le f = tt
Falling-raise lo mid hi (g ∷ gs) le f = (f.0, omega (arith, f.1), f.2)

Falling-append :
    (lo mid hi : ℕ) (ys xs : List PacketHeader)
    → lo ≤ mid
    → mid ≤ hi
    → Falling mid hi ys
    → Falling lo mid xs
    → Falling lo hi (ys ++ xs)
Falling-append lo mid hi [] xs le le' f g = Falling-raise lo mid hi xs le' g
Falling-append lo mid hi (y ∷ ys) xs le le' f g =
    (omega (arith, f.0), f.1, Falling-append lo mid y.seq ys xs le f.0 f.2 g)

pub AllOf-append :
    (P : PacketHeader → Type 0) (xs ys : List PacketHeader)
    → AllOf P xs
    → AllOf P ys
    → AllOf P (xs ++ ys)
AllOf-append P [] ys a b = b
AllOf-append P (x ∷ xs) ys a b = (a.0, AllOf-append P xs ys a.1 b)

pub Added-trans :
    (P : PacketHeader → Type 0) (lo mid hi : ℕ) (t u v : List PacketHeader)
    → lo ≤ mid
    → mid ≤ hi
    → Added lo mid P t u
    → Added mid hi P u v
    → Added lo hi P t v
Added-trans P lo mid hi t u v le le' (xs, e, a, c) (ys, f, b, d) = (
  ys ++ xs,
  f ∙ ap (λ z. ys ++ z) e ∙ sym (append_assoc ys xs t),
  AllOf-append P ys xs b a,
  Falling-append lo mid hi ys xs le le' d c,
)

abbrev pub In : PacketHeader → List PacketHeader → Type 0
In g [] = ⊥
In g (x ∷ t) = (g ≡ x) ⊎ In g t

In-append : (g : PacketHeader) (xs t : List PacketHeader) → In g t → In g (xs ++ t)
In-append g [] t m = m
In-append g (x ∷ xs) t m = inr (In-append g xs t m)

-- A trace that grew still has what it had.
pub In-grow :
    (P : PacketHeader → Type 0) (lo hi : ℕ) (g : PacketHeader) (t t' : List PacketHeader)
    → Added lo hi P t t'
    → In g t
    → In g t'
In-grow P lo hi g t t' (new, e, a, f) m = subst (In g) (sym e) (In-append g new t m)

-- One packet is delivered if it waits: the entries but for its mark, and the trace.
pub record Passed (P : PacketHeader → Type 0) (i h : ℕ) (w v : Window) : Type 0 where
  pub left : Left v.packets i h
  pub others : (e : ℕ) → e ≢ pack_entry i → v.packets e ≡ w.packets e
  pub added : Added i (suc i) P w.trace v.trace
  pub counters : (v.last_discarded ≡ w.last_discarded) × (v.highest_seq ≡ w.highest_seq)
  pub goes_up : (w.packets (pack_entry i)).exist ≡ 1 → In (w.packets (pack_entry i)).head v.trace

pub deliver_waiting-Passed :
    (P : PacketHeader → Type 0) (i h : ℕ) (w v : Window)
    → Left w.packets i h
    → i ≤ h
    → ((w.packets (pack_entry i)).exist ≡ 1 → P (w.packets (pack_entry i)).head)
    → deliver_waiting (pack_entry i) w ≡ some v
    → Passed P i h w v
deliver_waiting-Passed P i h w v l le g e =
    elim (Bool-cases ((w.packets (pack_entry i)).exist == 1)) [
      | inl waits ↦
          let x = deliver_packet-Delivered (pack_entry i) w v (rw waits at e) in
          let waits' : (w.packets (pack_entry i)).exist ≡ 1 = ground arith in
          let at : (w.packets (pack_entry i)).head.seq ≡ i =
            l.named i (omega arith) le (omega (arith, waits')) in
          record {
            left = rw x.packets (Left-deliver w.packets i h l (pack_entry i) (ground arith));
            others = λ f ne.
                let other : pack_entry i == f ≡ false = ground arith in
                ap (λ p. p f) x.packets ∙ rw other refl;
            added = (
              (w.packets (pack_entry i)).head ∷ [],
              x.trace,
              (g waits', tt),
              (omega (arith, at), omega (arith, at), tt),
            );
            counters = (x.same.last_discarded, x.same.highest_seq);
            goes_up = λ u.
                let m : In (w.packets (pack_entry i)).head
                    ((w.packets (pack_entry i)).head ∷ w.trace) =
                  inl refl in
                subst (In (w.packets (pack_entry i)).head) (sym x.trace) m;
          }
      | inr passed ↦ subst (Passed P i h w) (eq_of_some (rw passed at e)) (record {
        left = l;
        others = λ f ne. refl;
        added = ([], refl, tt, tt);
        counters = (refl, refl);
        goes_up = λ u. absurd (ground arith);
      })
    ]

-- A packet that waits in `w` waited in `p`, where the two agree from `i` to `h`.
pub waits_here :
    (Q : PacketHeader → Type 0) (p : ℕ → PacketInfo) (i h : ℕ) (w : Window)
    → Left w.packets i h
    → ((j : ℕ) → i ≤ j → j ≤ h → w.packets (pack_entry j) ≡ p (pack_entry j))
    → i ≤ h
    → Q (w.packets (pack_entry i)).head
    → (w.packets (pack_entry i)).exist ≡ 1
    → Waited p Q (w.packets (pack_entry i)).head
waits_here Q p i h w l kept le q waits =
    let at = l.named i (omega arith) le (omega (arith, waits)) in
    let here = kept i (omega arith) le in
    (
      subst (λ n. (p (pack_entry n)).exist ≡ 1) (sym at)
          (subst (λ (x : PacketInfo). x.exist ≡ 1) here waits),
      subst (λ n. (p (pack_entry n)).head ≡ (w.packets (pack_entry i)).head) (sym at)
          (ap (λ (x : PacketInfo). x.head) (sym here)),
      q,
    )

-- A packet of another number stands in another entry.
pub other_entry : (i j h : ℕ) → h < i + 8192 → suc i ≤ j → j ≤ h → pack_entry j ≢ pack_entry i
other_entry i j h span lo hi e = omega arith
