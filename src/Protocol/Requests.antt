-- ===== src/Protocol/Requests.antt =====
-- Retransmission: which packets a daemon asks for, and which requests it answers.
use mathlib.Core.Path.{subst, sym, ap}
use mathlib.Core.List.{map-append, append-nil, append_assoc}
use cd_praticas.Prelude.{
  ℕ, zero, suc, ◌+◌, ◌≤◌, ◌<◌, ◌≡◌, refl, ◌∙◌, ◌⊎◌, inl, inr, List, [], ◌∷◌, ◌++◌, Bool, true,
  false, not, ◌||◌, ◌&&◌, map, none-ne-some, some, arith, Bool-cases, ◌==◌, ltb, if◌then◌else◌,
  >>=-eq-some, eq_of_some, length, length-append,
}
use cd_praticas.Prelude.Int.{ℤ, negsuc, eqb_ℤ}
use cd_praticas.Protocol.Types.{MembershipId, Window, pack_entry}
use cd_praticas.Protocol.Total.{Returns}
use cd_praticas.Protocol.Retrans.{
  RingRtr, Answer, Retransmission, retransmit, is_equal, answer_seq, answer_seqs, answer_loop,
  answer_retrans, missing_seqs,
}

-- The numbers of a list are those of missing packets, between two bounds and growing.
abbrev pub AllMissing : Window → ℕ → ℕ → List ℕ → Type 0
AllMissing w lo hi [] = Unit {0}
AllMissing w lo hi (s ∷ ss) =
    (lo ≤ s) × (s < hi) × ((w.packets (pack_entry s)).exist ≡ 0) × AllMissing w (suc s) hi ss

AllMissing-mono :
    (w : Window) (lo lo' hi : ℕ) (ss : List ℕ)
    → lo ≤ lo'
    → AllMissing w lo' hi ss
    → AllMissing w lo hi ss
AllMissing-mono w lo lo' hi [] le m = tt
AllMissing-mono w lo lo' hi (s ∷ ss) le m = (omega (arith, m.0), m.1, m.2, m.3)

abbrev pub Listed : ℕ → List ℕ → Type 0
Listed s [] = ⊥
Listed s (x ∷ xs) = (x ≡ s) ⊎ Listed s xs

-- A daemon asks for missing packets only, each once and in order, for no more than fit.
pub missing_seqs-AllMissing :
    (k i hi allowed : ℕ) (w : Window)
    → i + k ≤ hi
    → AllMissing w i hi (missing_seqs k i allowed w)
      × (length (missing_seqs k i allowed w) ≤ allowed)
unfolding missing_seqs
missing_seqs-AllMissing zero i hi allowed w le = (tt, omega arith)
missing_seqs-AllMissing (suc k) i hi zero w le = (tt, omega arith)
missing_seqs-AllMissing (suc k) i hi (suc allowed) w le =
    let (m, few) = missing_seqs-AllMissing k (suc i) hi allowed w (omega arith) in
    let (m', few') = missing_seqs-AllMissing k (suc i) hi (suc allowed) w (omega arith) in
    elim (Bool-cases ((w.packets (pack_entry i)).exist == 0)) [
      | inl gap ↦ rw gap ((omega arith, omega arith, ground arith, m), omega (arith, few))
      | inr there ↦ rw there (AllMissing-mono w i (suc i) hi _ (omega arith) m', few')
    ]

-- A daemon asks for every packet that it misses in the range, unless the room is used up.
pub missing_seqs-Listed :
    (k i allowed : ℕ) (w : Window) (seq : ℕ)
    → i ≤ seq
    → seq < i + k
    → (w.packets (pack_entry seq)).exist ≡ 0
    → (length (missing_seqs k i allowed w) ≡ allowed) ⊎ Listed seq (missing_seqs k i allowed w)
unfolding missing_seqs
missing_seqs-Listed zero i allowed w seq lo hi gap = absurd (omega arith)
missing_seqs-Listed (suc k) i zero w seq lo hi gap = inl refl
missing_seqs-Listed (suc k) i (suc allowed) w seq lo hi gap =
    let here_or_later : (i ≡ seq) ⊎ (suc i ≤ seq) = omega arith in
    elim here_or_later [
      | inl here ↦
          let gap_here : ((w.packets (pack_entry i)).exist == 0) ≡ true = ground (arith, gap) in
          rw gap_here (inr (inl here))
      | inr later ↦ elim (Bool-cases ((w.packets (pack_entry i)).exist == 0)) [
        | inl gap_here ↦
            rw gap_here
              (elim (missing_seqs-Listed k (suc i) allowed w seq later (omega arith) gap) [
                | inl full ↦ inl (omega (arith, full))
                | inr listed ↦ inr (inr listed)
              ])
        | inr there ↦
            rw there (missing_seqs-Listed k (suc i) (suc allowed) w seq later (omega arith) gap)
      ]
    ]

-- The requests of other rings, which are none of this daemon's business.
abbrev pub foreign : MembershipId → List RingRtr → List RingRtr
foreign memb_id [] = []
foreign memb_id (r ∷ rs) =
    if is_equal r.memb_id memb_id then foreign memb_id rs else r ∷ foreign memb_id rs

-- The numbers that the requests of the daemon's own ring ask for, each with its request.
abbrev pub asked : MembershipId → List RingRtr → List (RingRtr × ℕ)
asked memb_id [] = []
asked memb_id (r ∷ rs) =
    if is_equal r.memb_id memb_id
    then map (λ s. (r, s)) r.seqs ++ asked memb_id rs
    else asked memb_id rs

abbrev pick : {A : Type 0} → (A → Bool) → List A → List A
pick f [] = []
pick f (x ∷ xs) = if f x then x ∷ pick f xs else pick f xs

abbrev any : {A : Type 0} → (A → Bool) → List A → Bool
any f [] = false
any f (x ∷ xs) = f x || any f xs

-- The daemon has the packet, or misses it; it misses one that another segment asks for.
abbrev has : Window → RingRtr × ℕ → Bool
has w x = ltb 0 (w.packets (pack_entry x.1)).exist

abbrev misses : Window → RingRtr × ℕ → Bool
misses w x = not (has w x)

abbrev misses_far : Window → ℤ → RingRtr × ℕ → Bool
misses_far w my_seg x = misses w x && not (eqb_ℤ x.0.seg_index my_seg)

abbrev again : RingRtr × ℕ → Retransmission
again x = retransmit x.0 x.1

-- The answer `b` to the requests `xs` on top of the answer `a`: the packets that are there were sent to those
-- who asked for them, in the order of the requests.
pub record Counted (w : Window) (my_seg : ℤ) (xs : List (RingRtr × ℕ)) (a b : Answer) : Type 0 where
  pub sent : b.sent ≡ a.sent ++ map again (pick (has w) xs)
  pub counted : b.num_retrans ≡ a.num_retrans + length (pick (has w) xs)
  pub proc_id : b.proc_id ≡ (if any (misses w) xs then negsuc 0 else a.proc_id)
  pub seg_index : b.seg_index ≡ (if any (misses_far w my_seg) xs then negsuc 0 else a.seg_index)

pick-append :
    {A : Type 0} (f : A → Bool) (xs ys : List A) → pick f (xs ++ ys) ≡ pick f xs ++ pick f ys
pick-append f [] ys = refl
pick-append f (x ∷ xs) ys = elim (Bool-cases (f x)) [
  | inl hit ↦ rw hit (ap (λ z. x ∷ z) (pick-append f xs ys))
  | inr miss ↦ rw miss (pick-append f xs ys)
]

any-append :
    {A : Type 0} (f : A → Bool) (xs ys : List A) → any f (xs ++ ys) ≡ (any f xs || any f ys)
any-append f [] ys = refl
any-append f (x ∷ xs) ys = elim (Bool-cases (f x)) [
  | inl hit ↦ rw hit refl
  | inr miss ↦ rw miss (any-append f xs ys)
]

answer_seq-Counted :
    (w : Window) (my_seg : ℤ) (r : RingRtr) (seq : ℕ) (a b : Answer)
    → answer_seq w my_seg r seq a ≡ some b
    → Counted w my_seg ((r, seq) ∷ []) a b
unfolding answer_seq
answer_seq-Counted w my_seg r seq a b e = elim (Bool-cases (ltb seq w.aru)) [
  | inl old ↦ absurd (none-ne-some (rw old at e))
  | inr new ↦ elim (Bool-cases ((w.packets (pack_entry seq)).exist == 0)) [
    | inl gap ↦
        let absent : ltb 0 (w.packets (pack_entry seq)).exist ≡ false = ground arith in
        subst (Counted w my_seg ((r, seq) ∷ []) a) (eq_of_some (rw (new, gap) at e)) (record {
          sent = rw absent (sym (append-nil a.sent));
          counted = rw absent (omega arith);
          proc_id = rw absent refl;
          seg_index = rw absent (elim (Bool-cases (eqb_ℤ r.seg_index my_seg)) [
            | inl near ↦ rw near refl
            | inr far ↦ rw far refl
          ]);
        })
    | inr there ↦
        let present : ltb 0 (w.packets (pack_entry seq)).exist ≡ true = ground arith in
        subst (Counted w my_seg ((r, seq) ∷ []) a) (eq_of_some (rw (new, there) at e)) (record {
          sent = rw present refl;
          counted = rw present refl;
          proc_id = rw present refl;
          seg_index = rw present refl;
        })
  ]
]

then_or :
    (s t : Bool) (x y z n : ℤ)
    → y ≡ (if s then n else x)
    → z ≡ (if t then n else y)
    → z ≡ (if s || t then n else x)
then_or s true x y z n e f = elim (Bool-cases s) [ inl h ↦ rw h f | inr h ↦ rw h f ]
then_or s false x y z n e f = elim (Bool-cases s) [
  | inl h ↦ rw h (f ∙ rw h at e)
  | inr h ↦ rw h (f ∙ rw h at e)
]

module _ (w : Window) (my_seg : ℤ) where
  Counted-trans :
      (xs ys : List (RingRtr × ℕ)) (a b c : Answer)
      → Counted w my_seg xs a b
      → Counted w my_seg ys b c
      → Counted w my_seg (xs ++ ys) a c
  Counted-trans xs ys a b c x y = record {
    sent =
        y.sent
        ∙ ap (λ z. z ++ map again (pick (has w) ys)) x.sent
        ∙ append_assoc a.sent (map again (pick (has w) xs)) (map again (pick (has w) ys))
        ∙ ap (λ z. a.sent ++ z)
            (sym (map-append again (pick (has w) xs) (pick (has w) ys))
              ∙ ap (map again) (sym (pick-append (has w) xs ys)));
    counted =
        rw (pick-append (has w) xs ys)
          (omega (arith, x.counted, y.counted, length-append (pick (has w) xs) (pick (has w) ys)));
    proc_id = rw (any-append (misses w) xs ys) (
        then_or (any (misses w) xs) (any (misses w) ys) a.proc_id b.proc_id c.proc_id (negsuc 0)
          x.proc_id y.proc_id);
    seg_index = rw (any-append (misses_far w my_seg) xs ys) (
        then_or (any (misses_far w my_seg) xs) (any (misses_far w my_seg) ys) a.seg_index
          b.seg_index c.seg_index (negsuc 0) x.seg_index y.seg_index);
  }

  Counted-refl : (a : Answer) → Counted w my_seg [] a a
  Counted-refl a = record {
    sent = sym (append-nil a.sent);
    counted = omega arith;
    proc_id = refl;
    seg_index = refl;
  }

  answer_seqs-Counted :
      (r : RingRtr) (seqs : List ℕ) (a b : Answer)
      → answer_seqs w my_seg r seqs a ≡ some b
      → Counted w my_seg (map (λ s. (r, s)) seqs) a b
  unfolding answer_seqs
  answer_seqs-Counted r [] a b e = subst (Counted w my_seg [] a) (eq_of_some e) (Counted-refl a)
  answer_seqs-Counted r (s ∷ ss) a b e =
      let (c, one, rest) = >>=-eq-some (answer_seq w my_seg r s a) (answer_seqs w my_seg r ss) e in
      Counted-trans ((r, s) ∷ []) (map (λ s. (r, s)) ss) a c b
        (answer_seq-Counted w my_seg r s a c one) (answer_seqs-Counted r ss c b rest)

  answer_loop-Counted :
      (memb_id : MembershipId) (rs rest : List RingRtr) (a b : Answer)
      → answer_loop w memb_id my_seg rs a ≡ some (b, rest)
      → Counted w my_seg (asked memb_id rs) a b × (rest ≡ foreign memb_id rs)
  unfolding answer_loop
  answer_loop-Counted memb_id [] rest a b e =
      (subst (Counted w my_seg [] a) (cc (eq_of_some e)) (Counted-refl a), cc (eq_of_some e))
  answer_loop-Counted memb_id (r ∷ rs) rest a b e = elim (Bool-cases (is_equal r.memb_id memb_id)) [
    | inl mine ↦
        let (c, one, more) =
          >>=-eq-some (answer_seqs w my_seg r r.seqs a) (answer_loop w memb_id my_seg rs)
            (rw mine at e) in
        let (x, same) = answer_loop-Counted memb_id rs rest c b more in
        rw mine (
          Counted-trans (map (λ s. (r, s)) r.seqs) (asked memb_id rs) a c b
              (answer_seqs-Counted r r.seqs a c one) x,
          same,
        )
    | inr other ↦
        let (x, one, more) =
          >>=-eq-some (answer_loop w memb_id my_seg rs a) (λ y. some (y.0, r ∷ y.1))
            (rw other at e) in
        let (y, same) = answer_loop-Counted memb_id rs x.1 a x.0 one in
        rw other (
          subst (Counted w my_seg (asked memb_id rs) a) (cc (eq_of_some more)) y,
          sym (cc (eq_of_some more)) ∙ ap (λ qs. r ∷ qs) same,
        )
  ]

abbrev pub AllFrom : ℕ → List ℕ → Type 0
AllFrom aru [] = Unit {0}
AllFrom aru (s ∷ ss) = (aru ≤ s) × AllFrom aru ss

abbrev pub AllFresh : ℕ → List RingRtr → Type 0
AllFresh aru [] = Unit {0}
AllFresh aru (r ∷ rs) = AllFrom aru r.seqs × AllFresh aru rs

answer_seqs-Returns :
    (w : Window) (my_seg : ℤ) (r : RingRtr) (seqs : List ℕ) (a : Answer)
    → AllFrom w.aru seqs
    → Returns (answer_seqs w my_seg r seqs a)
unfolding answer_seqs answer_seq
answer_seqs-Returns w my_seg r [] a f = (a, refl)
answer_seqs-Returns w my_seg r (s ∷ ss) a (le, f) =
    let new : ltb s w.aru ≡ false = ground arith in
    elim (Bool-cases ((w.packets (pack_entry s)).exist == 0)) [
      | inl gap ↦ rw (new, gap) (answer_seqs-Returns w my_seg r ss _ f)
      | inr there ↦ rw (new, there) (answer_seqs-Returns w my_seg r ss _ f)
    ]

answer_loop-Returns :
    (w : Window) (memb_id : MembershipId) (my_seg : ℤ) (rs : List RingRtr) (a : Answer)
    → AllFresh w.aru rs
    → Returns (answer_loop w memb_id my_seg rs a)
unfolding answer_loop
answer_loop-Returns w memb_id my_seg [] a f = ((a, []), refl)
answer_loop-Returns w memb_id my_seg (r ∷ rs) a (f, fs) =
    elim (Bool-cases (is_equal r.memb_id memb_id)) [
      | inl mine ↦
          let (b, e) = answer_seqs-Returns w my_seg r r.seqs a f in
          rw (mine, e) (answer_loop-Returns w memb_id my_seg rs b fs)
      | inr other ↦
          let (x, e) = answer_loop-Returns w memb_id my_seg rs a fs in
          rw (other, e) ((x.0, r ∷ x.1), refl)
    ]

-- An answer before the first request.
abbrev pub none_yet : ℤ → ℤ → Answer
none_yet my_id my_seg = record { sent = []; num_retrans = 0; proc_id = my_id; seg_index = my_seg }

-- With no request below `Aru`, `Answer_retrans` returns. It sends again exactly the packets that it has of
-- those that the requests of its own ring ask for, each to those who ask for it and in the order of the
-- requests, and counts them; it takes these requests out of the token and leaves those of other rings. The
-- daemon's own requests go to itself unless it misses a packet that was asked for, and to its
-- segment unless it misses one that another segment asked for.
pub answer_retrans-Counted :
    (w : Window) (memb_id : MembershipId) (my_id my_seg : ℤ) (rs : List RingRtr)
    → AllFresh w.aru rs
    → (b : Answer) × (answer_retrans w memb_id my_id my_seg rs ≡ some (b, foreign memb_id rs))
      × Counted w my_seg (asked memb_id rs) (none_yet my_id my_seg) b
unfolding answer_retrans
answer_retrans-Counted w memb_id my_id my_seg rs f =
    let (x, e) = answer_loop-Returns w memb_id my_seg rs (none_yet my_id my_seg) f in
    let (c, same) = answer_loop-Counted w my_seg memb_id rs x.1 (none_yet my_id my_seg) x.0 e in
    (x.0, e ∙ ap (λ rest. some (x.0, rest)) same, c)
