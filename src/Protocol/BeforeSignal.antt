-- ===== src/Protocol/BeforeSignal.antt =====
-- `Discard_packets` in the state EVS before the transitional signal: which packets are delivered.
use mathlib.Core.Path.{subst, sym}
use native.Mathlib.Decide.{dec_lt}
use cd_praticas.Prelude.{
  ℕ, zero, suc, ◌+◌, ◌<◌, ◌≤◌, ◌≡◌, ◌≢◌, refl, ◌∙◌, ◌⊎◌, inl, inr, [], true, false, some, ◌==◌,
  arith, Bool-cases, >>=-eq-some, eq_of_some, none-ne-some,
}
use cd_praticas.Protocol.Types.{Window, PacketInfo, PacketHeader, pack_entry, is_safe}
use cd_praticas.Protocol.Window.{dispose_at}
use cd_praticas.Protocol.Moves.{disposed_at}
use cd_praticas.Protocol.Remaining.{
  Left, Left-dispose, Added, Added-trans, In, In-grow, Passed, Waited, waits_here,
  deliver_waiting-Passed, other_entry,
}
use cd_praticas.Protocol.Evs.{deliver_waiting, evs_before}

-- The later entries are as they were.
pub kept_on :
    (p : ℕ → PacketInfo) (i h : ℕ) (w v : Window)
    → h < i + 8192
    → ((e : ℕ) → e ≢ pack_entry i → v.packets e ≡ w.packets e)
    → ((j : ℕ) → i ≤ j → j ≤ h → w.packets (pack_entry j) ≡ p (pack_entry j))
    → (j : ℕ) → suc i ≤ j
    → j ≤ h
    → disposed_at v.packets (pack_entry i) (pack_entry j) ≡ p (pack_entry j)
kept_on p i h w v span others kept j lo hi =
    let ne = other_entry i j h span lo hi in
    let other : pack_entry i == pack_entry j ≡ false = ground (arith, ne) in
    rw other (others (pack_entry j) ne ∙ kept j (omega arith) hi)

abbrev pub NotSafe : PacketHeader → Type 0
NotSafe g = is_safe g.type ≡ false

-- Packets `i` to `h` of `w`: exactly those that waited in `p` up to the end went up, once each and in the
-- order of their numbers, and none of them is safe.
pub record Before (p : ℕ → PacketInfo) (i h : ℕ) (w s : Window) : Type 0 where
  pub left : Left s.packets (suc s.last_discarded) h
  pub within : (i ≤ suc s.last_discarded) × (s.last_discarded ≤ h)
  pub highest_seq : s.highest_seq ≡ h
  pub added : Added i (suc s.last_discarded) (Waited p NotSafe) w.trace s.trace
  pub all :
      (j : ℕ)
      → i ≤ j
      → j ≤ s.last_discarded
      → (w.packets (pack_entry j)).exist ≡ 1
      → In (w.packets (pack_entry j)).head s.trace
  pub kept :
      (j : ℕ) → s.last_discarded < j → j ≤ h → s.packets (pack_entry j) ≡ w.packets (pack_entry j)
  pub stops :
      (s.last_discarded ≡ h)
      ⊎ ((w.packets (pack_entry (suc s.last_discarded))).exist ≡ 3)
      ⊎ (is_safe (w.packets (pack_entry (suc s.last_discarded))).head.type ≡ true)

Before-stop :
    (p : ℕ → PacketInfo) (i h : ℕ) (w : Window)
    → Left w.packets i h
    → suc w.last_discarded ≡ i
    → i ≤ suc h
    → w.highest_seq ≡ h
    → (w.last_discarded ≡ h)
      ⊎ ((w.packets (pack_entry i)).exist ≡ 3)
      ⊎ (is_safe (w.packets (pack_entry i)).head.type ≡ true)
    → Before p i h w w
Before-stop p i h w l at le top why = record {
  left = subst (λ n. Left w.packets n h) (sym at) l;
  within = (omega (arith, at), omega (arith, at));
  highest_seq = top;
  added = ([], refl, tt, tt);
  all = λ j lo hi u. absurd (omega (arith, at));
  kept = λ j lo hi. refl;
  stops =
      subst
        (λ n.
          (w.last_discarded ≡ h)
          ⊎ ((w.packets (pack_entry n)).exist ≡ 3)
          ⊎ (is_safe (w.packets (pack_entry n)).head.type ≡ true))
        (sym at) why;
}

-- One packet goes up, or had gone up, and the rest follows.
Before-step :
    (p : ℕ → PacketInfo) (i h : ℕ) (w v s : Window)
    → h < i + 8192
    → Passed (Waited p NotSafe) i h w v
    → Before p (suc i) h (record (dispose_at i v) { last_discarded = i }) s
    → Before p i h w s
Before-step p i h w v s span x r =
    let same : (j : ℕ)
        → suc i ≤ j
        → j ≤ h
        → disposed_at v.packets (pack_entry i) (pack_entry j) ≡ w.packets (pack_entry j) =
      kept_on w.packets i h w v span x.others (λ j lo hi. refl) in
    record {
      left = r.left;
      within = (omega (arith, r.within), r.within.1);
      highest_seq = r.highest_seq;
      added =
          Added-trans (Waited p NotSafe) i (suc i) (suc s.last_discarded) w.trace v.trace s.trace
            (omega arith) (r.within.0) x.added r.added;
      all = λ j lo hi u. elim (dec_lt i j) [
        | yes later ↦
            subst (λ (q : PacketInfo). In q.head s.trace) (same j later (omega (arith, r.within)))
              (r.all j later hi (
                subst (λ (q : PacketInfo). q.exist ≡ 1)
                  (sym (same j later (omega (arith, r.within)))) u))
        | no not_later ↦
            let at : i ≡ j = omega arith in
            subst
              (λ n.
                (w.packets (pack_entry n)).exist ≡ 1 → In (w.packets (pack_entry n)).head s.trace)
              at
              (λ t.
                In-grow (Waited p NotSafe) (suc i) (suc s.last_discarded)
                  (w.packets (pack_entry i)).head v.trace s.trace r.added (x.goes_up t))
              u
      ];
      kept = λ j lo hi. r.kept j lo hi ∙ same j (omega (arith, r.within)) hi;
      stops = elim r.stops [
        | inl end ↦ inl end
        | inr stop ↦ elim (dec_lt s.last_discarded h) [
          | no at_end ↦ inl (omega (arith, r.within))
          | yes inside ↦ inr (
              subst (λ (q : PacketInfo). (q.exist ≡ 3) ⊎ (is_safe q.head.type ≡ true))
                (same (suc s.last_discarded) (omega (arith, r.within)) inside) stop)
        ]
      ];
    }

pub evs_before-Before :
    (p : ℕ → PacketInfo) (k i h : ℕ) (w s : Window)
    → Left w.packets i h
    → ((j : ℕ) → i ≤ j → j ≤ h → w.packets (pack_entry j) ≡ p (pack_entry j))
    → i + k ≡ suc h
    → suc w.last_discarded ≡ i
    → w.highest_seq ≡ h
    → evs_before k i w ≡ some s
    → Before p i h w s
unfolding evs_before
evs_before-Before p zero i h w s l kept ends at top e =
    subst (Before p i h w) (eq_of_some e)
      (Before-stop p i h w l at (omega arith) top (inl (omega arith)))
evs_before-Before p (suc k) i h w s l kept ends at top e =
    elim (Bool-cases ((w.packets (pack_entry i)).exist == 0)) [
      | inl free ↦ absurd (none-ne-some (rw free at e))
      | inr used ↦ elim (Bool-cases ((w.packets (pack_entry i)).exist == 3)) [
        | inl hole ↦
            subst (Before p i h w) (eq_of_some (rw (used, hole) at e))
              (Before-stop p i h w l at (omega arith) top (inr (inl (ground arith))))
        | inr packet ↦ elim (Bool-cases (is_safe (w.packets (pack_entry i)).head.type)) [
          | inl safe ↦
              subst (Before p i h w) (eq_of_some (rw (used, packet, safe) at e))
                (Before-stop p i h w l at (omega arith) top (inr (inr safe)))
          | inr plain ↦
              let (v, one, rest) =
                >>=-eq-some (deliver_waiting (pack_entry i) w) _ (rw (used, packet, plain) at e) in
              let x =
                deliver_waiting-Passed (Waited p NotSafe) i h w v l (omega arith)
                  (waits_here NotSafe p i h w l kept (omega arith) plain) one in
              Before-step p i h w v s l.span x (
                evs_before-Before p k (suc i) h (record (dispose_at i v) { last_discarded = i }) s
                  (Left-dispose v.packets i h x.left (omega arith))
                  (kept_on p i h w v l.span x.others kept) (omega arith) refl (x.counters.1 ∙ top)
                  rest)
        ]
      ]
    ]
