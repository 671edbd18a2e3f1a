-- ===== src/Protocol/AfterSignal.antt =====
-- `Discard_packets` in the state EVS after the transitional signal: behind a hole only the packets
-- of committed processes are delivered.
use mathlib.Core.Path.{subst}
use native.Mathlib.Decide.{dec_lt}
use cd_praticas.Prelude.{
  ℕ, zero, suc, ◌+◌, ◌<◌, ◌≤◌, ◌≡◌, ◌≢◌, refl, ◌⊎◌, inl, inr, [], Bool, true, false, not, ◌||◌,
  some, ◌==◌, arith, Bool-cases, >>=-eq-some, eq_of_some, none-ne-some,
}
use cd_praticas.Protocol.Types.{Window, PacketInfo, PacketHeader, pack_entry}
use cd_praticas.Protocol.Window.{dispose_at}
use cd_praticas.Protocol.Moves.{disposed_at}
use cd_praticas.Protocol.BeforeSignal.{kept_on}
use cd_praticas.Protocol.Remaining.{
  Left, Left-dispose, Added, Added-trans, In, In-grow, Waited, waits_here, deliver_waiting-Passed,
}
use cd_praticas.Protocol.Evs.{deliver_waiting, evs_after}

-- The process of a packet has committed to the membership, or no hole stands before the packet.
abbrev pub Behind : (ℕ → Bool) → (ℕ → PacketInfo) → ℕ → PacketHeader → Type 0
Behind committed p a g =
    (committed g.proc_id ≡ true) ⊎ ((j : ℕ) → a < j → j < g.seq → (p (pack_entry j)).exist ≢ 3)

clear_on :
    (p : ℕ → PacketInfo) (a i : ℕ)
    → ((j : ℕ) → a < j → j < i → (p (pack_entry j)).exist ≢ 3)
    → (p (pack_entry i)).exist ≢ 3
    → (j : ℕ) → a < j
    → j < suc i
    → (p (pack_entry j)).exist ≢ 3
clear_on p a i clear here j lo hi = elim (dec_lt j i) [
  | yes before ↦ clear j lo before
  | no not_before ↦
      let same : i ≡ j = omega arith in subst (λ n. (p (pack_entry n)).exist ≢ 3) same here
]

-- A hole was found, and it stands between `a` and `i`; or there is none.
pub record Found (p : ℕ → PacketInfo) (a i : ℕ) (found : Bool) : Type 0 where
  pub clear : found ≡ false → (j : ℕ) → a < j → j < i → (p (pack_entry j)).exist ≢ 3
  pub hole : found ≡ true → (j : ℕ) × (a < j) × (j < i) × ((p (pack_entry j)).exist ≡ 3)

pub Found-start : (p : ℕ → PacketInfo) (a : ℕ) → Found p a (suc a) false
Found-start p a = record { clear = λ t j lo hi. absurd (omega arith); hole = λ t. cc t }

Found-hole :
    (p : ℕ → PacketInfo) (a i : ℕ) → a < i → (p (pack_entry i)).exist ≡ 3 → Found p a (suc i) true
Found-hole p a i lo is_hole = record {
  clear = λ t. cc t;
  hole = λ t. (i, lo, omega arith, is_hole);
}

Found-packet :
    (p : ℕ → PacketInfo) (a i : ℕ) (found : Bool)
    → Found p a i found
    → (p (pack_entry i)).exist ≢ 3
    → Found p a (suc i) found
Found-packet p a i found f packet = record {
  clear = λ t. clear_on p a i (f.clear t) packet;
  hole = λ t. let (j, lo, hi, is_hole) = f.hole t in (j, lo, omega arith, is_hole);
}

-- The test of the loop is the condition `Behind`.
Behind-test :
    (committed : ℕ → Bool) (p : ℕ → PacketInfo) (a i : ℕ) (found : Bool) (g : PacketHeader)
    → Found p a i found
    → g.seq ≡ i
    → not found || committed g.proc_id ≡ true
    → Behind committed p a g
Behind-test committed p a i true g f at t = inl t
Behind-test committed p a i false g f at t = inr (λ j lo hi. f.clear refl j lo (omega arith))

test-Behind :
    (committed : ℕ → Bool) (p : ℕ → PacketInfo) (a i : ℕ) (found : Bool) (g : PacketHeader)
    → Found p a i found
    → g.seq ≡ i
    → not found || committed g.proc_id ≡ false
    → Behind committed p a g
    → ⊥
test-Behind committed p a i false g f at t b = cc t
test-Behind committed p a i true g f at t (inl is_in) = cc (t, is_in)
test-Behind committed p a i true g f at t (inr none_before) =
    let (j, lo, hi, is_hole) = f.hole refl in none_before j lo (omega arith) is_hole

-- Packets `i` to `h` of `w`: exactly those that waited and are `Behind` went up, once each and in order.
pub record Finished (committed : ℕ → Bool) (p : ℕ → PacketInfo) (a i h : ℕ) (w v : Window)
    : Type 0 where
  pub left : Left v.packets (suc h) h
  pub added : Added i (suc h) (Waited p (Behind committed p a)) w.trace v.trace
  pub all :
      (j : ℕ)
      → i ≤ j
      → j ≤ h
      → (w.packets (pack_entry j)).exist ≡ 1
      → Behind committed p a (w.packets (pack_entry j)).head
      → In (w.packets (pack_entry j)).head v.trace

-- One entry is passed, and the rest follows.
Finished-step :
    (committed : ℕ → Bool) (p : ℕ → PacketInfo) (a i h : ℕ) (w u v : Window)
    → h < i + 8192
    → i ≤ h
    → ((e : ℕ) → e ≢ pack_entry i → u.packets e ≡ w.packets e)
    → Added i (suc i) (Waited p (Behind committed p a)) w.trace u.trace
    → ((w.packets (pack_entry i)).exist ≡ 1
        → Behind committed p a (w.packets (pack_entry i)).head
        → In (w.packets (pack_entry i)).head u.trace)
    → Finished committed p a (suc i) h (dispose_at i u) v
    → Finished committed p a i h w v
Finished-step committed p a i h w u v span le others added first r =
    let same : (j : ℕ)
        → suc i ≤ j
        → j ≤ h
        → disposed_at u.packets (pack_entry i) (pack_entry j) ≡ w.packets (pack_entry j) =
      kept_on w.packets i h w u span others (λ j lo hi. refl) in
    record {
      left = r.left;
      added =
          Added-trans (Waited p (Behind committed p a)) i (suc i) (suc h) w.trace u.trace v.trace
            (omega arith) (omega arith) added r.added;
      all = λ j lo hi t b. elim (dec_lt i j) [
        | yes later ↦
            subst
              (λ (q : PacketInfo). q.exist ≡ 1 → Behind committed p a q.head → In q.head v.trace)
              (same j later hi) (r.all j later hi) t b
        | no not_later ↦
            let at : i ≡ j = omega arith in
            subst
              (λ n.
                (w.packets (pack_entry n)).exist ≡ 1
                → Behind committed p a (w.packets (pack_entry n)).head
                → In (w.packets (pack_entry n)).head v.trace)
              at
              (λ x y.
                In-grow (Waited p (Behind committed p a)) (suc i) (suc h)
                  (w.packets (pack_entry i)).head u.trace v.trace r.added (first x y))
              t b
      ];
    }

pub evs_after-Finished :
    (committed : ℕ → Bool) (p : ℕ → PacketInfo) (a k i h : ℕ) (found : Bool) (w v : Window)
    → a < i
    → i + k ≡ suc h
    → Left w.packets i h
    → ((j : ℕ) → i ≤ j → j ≤ h → w.packets (pack_entry j) ≡ p (pack_entry j))
    → Found p a i found
    → evs_after committed k i found w ≡ some v
    → Finished committed p a i h w v
unfolding evs_after
evs_after-Finished committed p a zero i h found w v lo ends l kept f e =
    let last : i ≡ suc h = omega arith in
    subst (Finished committed p a i h w) (eq_of_some e) (record {
      left = subst (λ n. Left w.packets n h) last l;
      added = ([], refl, tt, tt);
      all = λ j x y t b. absurd (omega arith);
    })
evs_after-Finished committed p a (suc k) i h found w v lo ends l kept f e =
    let info = w.packets (pack_entry i) in
    let dropped = Left-dispose w.packets i h l (omega arith) in
    let here = kept i (omega arith) (omega arith) in
    let skip =
      Finished-step committed p a i h w w v l.span (omega arith) (λ g ne. refl)
        ([], refl, tt, tt) in
    let keep = kept_on p i h w w l.span (λ g ne. refl) kept in
    elim (Bool-cases (info.exist == 0)) [
      | inl free ↦ absurd (none-ne-some (rw free at e))
      | inr used ↦ elim (Bool-cases (info.exist == 3)) [
        | inl hole ↦
            let is_hole : (p (pack_entry i)).exist ≡ 3 =
              subst (λ (x : PacketInfo). x.exist ≡ 3) here (ground arith) in
            skip (λ t b. absurd (ground arith))
              (evs_after-Finished committed p a k (suc i) h true (dispose_at i w) v (omega arith)
                (omega arith) dropped keep (Found-hole p a i lo is_hole) (rw (used, hole) at e))
        | inr packet ↦
            let no_hole : (p (pack_entry i)).exist ≢ 3 =
              subst (λ (x : PacketInfo). x.exist ≢ 3) here (ground arith) in
            let f' = Found-packet p a i found f no_hole in
            let at = l.named i (omega arith) (omega arith) (ground arith) in
            elim (Bool-cases (not found || committed info.head.proc_id)) [
              | inr dropped_too ↦
                  skip
                    (λ t b. absurd (test-Behind committed p a i found info.head f at dropped_too b))
                    (evs_after-Finished committed p a k (suc i) h found (dispose_at i w) v
                      (omega arith) (omega arith) dropped keep f'
                      (rw (used, packet, dropped_too) at e))
              | inl goes_up ↦
                  let (u, one, rest) =
                    >>=-eq-some (deliver_waiting (pack_entry i) w) _
                      (rw (used, packet, goes_up) at e) in
                  let x =
                    deliver_waiting-Passed (Waited p (Behind committed p a)) i h w u l (omega arith)
                      (waits_here (Behind committed p a) p i h w l kept (omega arith)
                        (Behind-test committed p a i found info.head f at goes_up))
                      one in
                  Finished-step committed p a i h w u v l.span (omega arith) x.others x.added
                    (λ t b. x.goes_up t)
                    (evs_after-Finished committed p a k (suc i) h found (dispose_at i u) v
                      (omega arith) (omega arith) (Left-dispose u.packets i h x.left (omega arith))
                      (kept_on p i h w u l.span x.others kept) f' rest)
            ]
      ]
    ]
