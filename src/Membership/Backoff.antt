-- ===== src/Membership/Backoff.antt =====
-- `Backoff_membership`: a membership that was about to be installed is given up, and the window of
-- packets is that of the old ring again.
use mathlib.Core.Path.{subst}
use native.Mathlib.Decide.{dec_lt}
use cd_praticas.Prelude.{
  ℕ, zero, suc, ◌+◌, ◌-◌, ◌≤◌, ◌<◌, ◌≡◌, ◌≢◌, refl, ◌∙◌, ap, ◌⊎◌, inl, inr, arith, Bool-cases, ◌==◌,
  false, if◌then◌else◌,
}
use cd_praticas.Protocol.Types.{Window, PacketInfo, pack_entry}
use cd_praticas.Protocol.Window.{dispose_at, advance}

-- The entry of a hole becomes free.
abbrev pub cleared : ℕ → Window → Window
cleared i w = if (w.packets (pack_entry i)).exist == 3 then dispose_at i w else w

unfoldable pub clear_holes : ℕ → ℕ → Window → Window
clear_holes zero i w = w
clear_holes (suc k) i w = clear_holes k (suc i) (cleared i w)

unfoldable pub back_off : Window → Window
back_off w =
    let v = clear_holes (w.highest_seq - w.last_discarded) (suc w.last_discarded) w in
    advance (v.highest_seq - v.last_discarded) (suc v.last_discarded)
      (record v { aru = v.last_discarded; my_aru = v.last_discarded })

-- The counters, and an entry outside of the range, stay as they are.
cleared-other :
    (i : ℕ) (w : Window) (e : ℕ) → pack_entry i ≢ e → (cleared i w).packets e ≡ w.packets e
cleared-other i w e ne = elim (Bool-cases ((w.packets (pack_entry i)).exist == 3)) [
  | inl hole ↦ let other : pack_entry i == e ≡ false = ground (arith, ne) in rw (hole, other) refl
  | inr packet ↦ rw packet refl
]

abbrev pub without_hole : ℕ → ℕ
without_hole exist = if exist == 3 then 0 else exist

cleared-here :
    (i : ℕ) (w : Window)
    → ((cleared i w).packets (pack_entry i)).exist ≡ without_hole (w.packets (pack_entry i)).exist
cleared-here i w = elim (Bool-cases ((w.packets (pack_entry i)).exist == 3)) [
  | inl hole ↦ rw hole (ground arith)
  | inr packet ↦ rw packet refl
]

cleared-counters :
    (i : ℕ) (w : Window)
    → ((cleared i w).highest_seq ≡ w.highest_seq)
      × ((cleared i w).last_discarded ≡ w.last_discarded)
cleared-counters i w = elim (Bool-cases ((w.packets (pack_entry i)).exist == 3)) [
  | inl hole ↦ rw hole (refl, refl)
  | inr packet ↦ rw packet (refl, refl)
]

clear_holes-counters :
    (k i : ℕ) (w : Window)
    → ((clear_holes k i w).highest_seq ≡ w.highest_seq)
      × ((clear_holes k i w).last_discarded ≡ w.last_discarded)
unfolding clear_holes
clear_holes-counters zero i w = (refl, refl)
clear_holes-counters (suc k) i w =
    let (a, b) = clear_holes-counters k (suc i) (cleared i w) in
    let (c, d) = cleared-counters i w in (a ∙ c, b ∙ d)

clear_holes-outside :
    (k i : ℕ) (w : Window) (e : ℕ)
    → ((j : ℕ) → i ≤ j → j < i + k → pack_entry j ≢ e)
    → (clear_holes k i w).packets e ≡ w.packets e
unfolding clear_holes
clear_holes-outside zero i w e out = refl
clear_holes-outside (suc k) i w e out =
    clear_holes-outside k (suc i) (cleared i w) e (λ j lo hi. out j (omega arith) (omega arith))
    ∙ cleared-other i w e (out i (omega arith) (omega arith))

clear_holes-inside :
    (k i : ℕ) (w : Window) (j : ℕ)
    → k ≤ 8192
    → i ≤ j
    → j < i + k
    → ((clear_holes k i w).packets (pack_entry j)).exist
      ≡ without_hole (w.packets (pack_entry j)).exist
unfolding clear_holes
clear_holes-inside zero i w j few lo hi = absurd (omega arith)
clear_holes-inside (suc k) i w j few lo hi = elim (dec_lt i j) [
  | yes later ↦
      let ne : pack_entry i ≢ pack_entry j = λ e. omega arith in
      clear_holes-inside k (suc i) (cleared i w) j (omega arith) (omega arith) (omega arith)
      ∙ ap (λ (p : PacketInfo). without_hole p.exist) (cleared-other i w (pack_entry j) ne)
  | no not_later ↦
      let at : i ≡ j = omega arith in
      subst
        (λ n.
          ((clear_holes k (suc i) (cleared i w)).packets (pack_entry n)).exist
          ≡ without_hole (w.packets (pack_entry n)).exist)
        at
        (ap (λ (p : PacketInfo). p.exist)
            (clear_holes-outside k (suc i) (cleared i w) (pack_entry i)
              (λ m lo2 hi2 e. omega arith))
          ∙ cleared-here i w)
]

-- `My_aru` goes up over the packets that are there, `k` at most.
record Advanced (k : ℕ) (w r : Window) : Type 0 where
  packets : r.packets ≡ w.packets
  counters :
      (r.aru ≡ w.aru) × (r.highest_seq ≡ w.highest_seq) × (r.last_discarded ≡ w.last_discarded)
  bounds : (w.my_aru ≤ r.my_aru) × (r.my_aru ≤ w.my_aru + k)
  full : (j : ℕ) → w.my_aru < j → j ≤ r.my_aru → 0 < (w.packets (pack_entry j)).exist
  stops : (r.my_aru ≡ w.my_aru + k) ⊎ ((w.packets (pack_entry (suc r.my_aru))).exist ≡ 0)

advance-Advanced : (k i : ℕ) (w : Window) → i ≡ suc w.my_aru → Advanced k w (advance k i w)
unfolding advance
advance-Advanced zero i w at = record {
  packets = refl;
  counters = (refl, refl, refl);
  bounds = (omega arith, omega arith);
  full = λ j lo hi. absurd (omega arith);
  stops = inl (omega arith);
}
advance-Advanced (suc k) i w at = elim (Bool-cases ((w.packets (pack_entry i)).exist == 0)) [
  | inl free ↦ rw free (record {
    packets = refl;
    counters = (refl, refl, refl);
    bounds = (omega arith, omega arith);
    full = λ j lo hi. absurd (omega arith);
    stops = inr (subst (λ n. (w.packets (pack_entry n)).exist ≡ 0) at (ground arith));
  })
  | inr used ↦
      let r = advance-Advanced k (suc i) (record w { my_aru = suc w.my_aru }) (ap suc at) in
      rw used (record {
        packets = r.packets;
        counters = r.counters;
        bounds = (omega (arith, r.bounds), omega (arith, r.bounds));
        full = λ j lo hi. elim (dec_lt i j) [
          | yes later ↦ r.full j (omega arith) hi
          | no first ↦
              let is : i ≡ j = omega arith in
              subst (λ n. 0 < (w.packets (pack_entry n)).exist) is (ground arith)
        ];
        stops = elim r.stops [ inl all ↦ inl (omega (arith, all)) | inr free ↦ inr free ];
      })
]

-- The window of the old ring.
pub record BackedOff (w r : Window) : Type 0 where
  pub counters :
      (r.aru ≡ w.last_discarded)
      × (r.highest_seq ≡ w.highest_seq)
      × (r.last_discarded ≡ w.last_discarded)
  pub entries :
      (j : ℕ)
      → w.last_discarded < j
      → j ≤ w.highest_seq
      → (r.packets (pack_entry j)).exist ≡ without_hole (w.packets (pack_entry j)).exist
  pub bounds : (w.last_discarded ≤ r.my_aru) × (r.my_aru ≤ w.highest_seq)
  pub full : (j : ℕ) → w.last_discarded < j → j ≤ r.my_aru → 0 < (r.packets (pack_entry j)).exist
  pub stops : (r.my_aru ≡ w.highest_seq) ⊎ ((r.packets (pack_entry (suc r.my_aru))).exist ≡ 0)

-- Where the numbers of the window fit in its entries, `Backoff_membership` frees the entries of holes
-- and no others, sets `Aru` to `Last_discarded`, and `My_aru` to the highest number up to which no packet
-- is missing.
pub back_off-BackedOff :
    (w : Window)
    → w.last_discarded ≤ w.highest_seq
    → w.highest_seq ≤ w.last_discarded + 8192
    → BackedOff w (back_off w)
unfolding back_off
back_off-BackedOff w le room =
    let n = w.highest_seq - w.last_discarded in
    let v = clear_holes n (suc w.last_discarded) w in
    let (top, low) = clear_holes-counters n (suc w.last_discarded) w in
    let u = record v { aru = v.last_discarded; my_aru = v.last_discarded } in
    let a = advance-Advanced (v.highest_seq - v.last_discarded) (suc v.last_discarded) u refl in
    record {
      counters = (a.counters.0 ∙ low, a.counters.1 ∙ top, a.counters.2 ∙ low);
      entries = λ j lo hi.
          ap (λ (p : ℕ → PacketInfo). (p (pack_entry j)).exist) a.packets
          ∙ clear_holes-inside n (suc w.last_discarded) w j (omega arith) (omega arith)
              (omega arith);
      bounds = omega (arith, a.bounds, top, low);
      full = λ j lo hi. rw a.packets (a.full j (omega (arith, low)) hi);
      stops = elim a.stops [
        | inl all ↦ inl (omega (arith, all, top, low))
        | inr free ↦ inr (
            ap (λ (p : ℕ → PacketInfo). (p (pack_entry (suc (back_off w).my_aru))).exist) a.packets
            ∙ free)
      ];
    }
