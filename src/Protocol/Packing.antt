-- ===== src/Protocol/Packing.antt =====
-- Packing and unpacking: what `Send_new_packets` puts in a packet, `Deliver_packet` takes out.
use mathlib.Core.Path.{subst, sym, ap}
use cd_praticas.Prelude.{
  ℕ, zero, suc, ◌+◌, ◌/◌, ◌%◌, ◌^◌, ◌<◌, ◌≤◌, ◌≡◌, ◌≢◌, refl, ◌∙◌, inl, inr, List, [], ◌∷◌, ◌++◌,
  true, false, Option, none, some, ltb, arith, Bool-cases, Option-cases, none-ne-some, >>=-eq-some,
  eq_of_some,
}
use cd_praticas.Prelude.Int.{ℤ, pos, ltb_ℤ, ◌+ℤ◌}
use cd_praticas.Protocol.Types.{PacketHeader, PacketBody, MembershipId}
use cd_praticas.Protocol.Body.{padding_bytes, bytes, int16_at, unpack}
use cd_praticas.Protocol.Pack.{
  Fragment, DownLink, DownQueue, Filling, body_size, put_index, take_fragment, next_fragment, fits,
  append_fragment, fill, new_packet, fill_fuel, first_filling,
}
use cd_praticas.Protocol.Queue.{content, pending, IsSound, take_fragment-pending}

bytes-eq :
    (n : ℕ) (b c : PacketBody) (o k : ℕ)
    → ((i : ℕ) → i < n → b (o + i) ≡ c (k + i))
    → bytes b o n ≡ bytes c k n
unfolding bytes
bytes-eq zero b c o k same = refl
bytes-eq (suc n) b c o k same =
    let later = bytes-eq n b c (o + 1) (k + 1) (λ i lt. ground (arith, same (suc i))) in
    ground (arith, same 0, later)

-- A length that was written is read again.
int16_at-eq :
    (b : PacketBody) (o n : ℕ)
    → b o ≡ n % 2 ^ 8
    → b (o + 1) ≡ n / 2 ^ 8
    → n < 2 ^ 15
    → int16_at b o ≡ pos n
unfolding int16_at
int16_at-eq b o n lo hi small = ground (arith, lo, hi)

-- Bytes of the finished packet `c` that agree with `b` below `n`, but for an index at `o`.
abbrev Keeps : PacketBody → PacketBody → ℕ → Option ℕ → Type 0
Keeps b c n none = (i : ℕ) → i < n → c i ≡ b i
Keeps b c n (some o) = (i : ℕ) → i < n → i ≢ o → i ≢ o + 1 → c i ≡ b i

-- What the loop `fill` did from a filling `p` and a queue `q`.
record Filled (p : Filling) (q : DownQueue) (h : PacketHeader) (c : PacketBody) (q' : DownQueue)
    (extra : List (List ℕ)) : Type 0 where
  grown : p.head.data_len ≤ h.data_len
  first_len : h.first_frag_header.fragment_len ≡ p.head.first_frag_header.fragment_len
  keeps : Keeps p.body c p.head.data_len p.frag
  unpacks :
      (k : ℕ)
      → h.data_len < k + p.head.data_len
      → 0 < k
      → unpack k c h.data_len p.head.data_len ≡ some extra
  sound : IsSound q'

Keeps-put_index :
    (o : Option ℕ) (x : ℤ) (h : PacketHeader) (b : PacketBody) (n : ℕ)
    → Keeps b (put_index o x h b).1 n o
Keeps-put_index none x h b n = λ i lt. refl
Keeps-put_index (some o) x h b n = λ i lt ne ne'. ground arith

pub data_len-put_index :
    (o : Option ℕ) (x : ℤ) (h : PacketHeader) (b : PacketBody)
    → ((put_index o x h b).0.data_len ≡ h.data_len)
      × ((put_index o x h b).0.first_frag_header.fragment_len ≡ h.first_frag_header.fragment_len)
data_len-put_index none x h b = (refl, refl)
data_len-put_index (some o) x h b = (refl, refl)

Keeps-trans :
    (o : Option ℕ) (a b c : PacketBody) (n : ℕ)
    → Keeps a b n o
    → ((i : ℕ) → i < n → c i ≡ b i)
    → Keeps a c n o
Keeps-trans none a b c n x y = λ i lt. y i lt ∙ x i lt
Keeps-trans (some o) a b c n x y = λ i lt ne ne'. y i lt ∙ x i lt ne ne'

-- What the finished packet `c` tells of a fragment that was appended, and of what stood before it.
module _ (h : PacketHeader) (b c : PacketBody) (e : Fragment) (small : e.len ≤ body_size)
    (keeps : Keeps
      (append_fragment h b e).body
      c
      (append_fragment h b e).head.data_len
      (append_fragment h b e).frag) where
  abbrev start : ℕ
  start = h.data_len + padding_bytes h.data_len

  before : (i : ℕ) → i < h.data_len → c i ≡ b i
  before i lt = ground (arith, keeps i)

  length_read : int16_at c (start + 2) ≡ pos e.len
  length_read =
      int16_at-eq c (start + 2) e.len (ground (arith, keeps (start + 2)))
        (ground (arith, keeps (start + 2 + 1))) (omega arith)

  content_read : bytes c (start + 4) e.len ≡ content e
  content_read =
      bytes-eq e.len c e.buf (start + 4) 0 (λ i lt. ground (arith, keeps (start + 4 + i)))

  -- The loop of `Deliver_packet` finds the fragment.
  unpack-appended :
      (data_len k : ℕ) (extra : List (List ℕ))
      → start + 4 + e.len ≤ data_len
      → data_len < k + h.data_len
      → 0 < k
      → ((j : ℕ)
          → data_len < j + (start + 4 + e.len)
          → 0 < j
          → unpack j c data_len (start + 4 + e.len) ≡ some extra)
      → unpack k c data_len h.data_len ≡ some (content e ∷ extra)
  unfolding unpack ◌+ℤ◌
  unpack-appended data_len zero extra within fuel some_fuel rest = absurd (omega arith)
  unpack-appended data_len (suc k) extra within fuel some_fuel rest =
      let more : ltb h.data_len data_len ≡ true = ground arith in
      let read = length_read in
      let inside : ltb_ℤ (pos data_len) (pos (start + 4) +ℤ int16_at c (start + 2)) ≡ false =
        rw read (ground arith) in
      let whole : ltb_ℤ (int16_at c (start + 2)) (pos 0) ≡ false = rw read (ground arith) in
      let after = rest k (omega arith) (omega arith) in
      rw (more, inside, whole) (rw (length_read, content_read, after) refl)

unpack-end :
    (k : ℕ) (c : PacketBody) (data_len done : ℕ)
    → data_len ≤ done
    → 0 < k
    → unpack k c data_len done ≡ some []
unfolding unpack
unpack-end zero c data_len done over some_fuel = absurd (omega arith)
unpack-end (suc k) c data_len done over some_fuel =
    let end : ltb done data_len ≡ false = ground arith in rw end

abbrev Fills : Filling → DownQueue → Fragment → PacketHeader × PacketBody × DownQueue → Type 0
Fills p q e (h, c, q') =
    (extra : List (List ℕ)) × Filled p q h c q' extra
    × (pending q ≡ content e ∷ (extra ++ pending q'))

abbrev indexed : Filling → ℤ → DownQueue → PacketHeader × PacketBody × DownQueue
indexed p x q = let packet = put_index p.frag x p.head p.body in (packet.0, packet.1, q)

fill-stops :
    (p : Filling) (q : DownQueue) (e : Fragment) (x : ℤ) (q1 : DownQueue)
    → pending q ≡ content e ∷ pending q1
    → IsSound q1
    → Fills p q e (indexed p x q1)
fill-stops p q e x q1 first sound =
    let (same, first_same) = data_len-put_index p.frag x p.head p.body in
    (
      [],
      record {
        grown = omega (arith, same);
        first_len = first_same;
        keeps = Keeps-put_index p.frag x p.head p.body p.head.data_len;
        unpacks = λ k fuel some_fuel. unpack-end k _ _ _ (omega (arith, same)) some_fuel;
        sound = sound;
      },
      first,
    )

fill-goes_on :
    (p : Filling) (q : DownQueue) (e : Fragment) (x : ℤ) (q1 : DownQueue) (l2 : DownLink)
    (e2 : Fragment) (h : PacketHeader) (c : PacketBody) (q' : DownQueue)
    → pending q ≡ content e ∷ pending q1
    → fits (put_index p.frag x p.head p.body).0 l2 e2 ≡ true
    → Fills
        (append_fragment
          (put_index p.frag x p.head p.body).0
          (put_index p.frag x p.head p.body).1
          e2)
        q1
        e2
        (h, c, q')
    → Fills p q e (h, c, q')
fill-goes_on p q e x q1 l2 e2 h c q' first room (extra, r, more) =
    let packet = put_index p.frag x p.head p.body in
    let (same, first_same) = data_len-put_index p.frag x p.head p.body in
    let small : e2.len ≤ body_size = ground arith in
    (
      content e2 ∷ extra,
      record {
        grown = omega (arith, same, r.grown);
        first_len = r.first_len ∙ first_same;
        keeps =
            Keeps-trans p.frag p.body packet.1 c p.head.data_len
              (Keeps-put_index p.frag x p.head p.body p.head.data_len)
              (λ i lt. before packet.0 packet.1 c e2 small r.keeps i (omega (arith, same)));
        unpacks = λ k fuel some_fuel.
            subst (λ d. unpack k c h.data_len d ≡ some (content e2 ∷ extra)) same
              (unpack-appended packet.0 packet.1 c e2 small r.keeps h.data_len k extra r.grown
                (omega (arith, same)) some_fuel r.unpacks);
        sound = r.sound;
      },
      first ∙ ap (λ y. content e ∷ y) more,
    )

fill-Fills :
    (fuel : ℕ) (p : Filling) (q : DownQueue) (l : DownLink) (e : Fragment)
    (out : PacketHeader × PacketBody × DownQueue)
    → IsSound q
    → next_fragment q ≡ some (l, e)
    → fill fuel p q ≡ some out
    → Fills p q e out
unfolding fill
fill-Fills zero p q l e out s n f = absurd (none-ne-some f)
fill-Fills (suc fuel) p q l e out s n f =
    let (taken, t, rest) = >>=-eq-some (take_fragment q.cur_element q.links) _ f in
    let (first, sound) = take_fragment-pending q.links q.cur_element l e taken.0 taken.1 s n t in
    let packet = put_index p.frag taken.0 p.head p.body in
    let stop = fill-stops p q e taken.0 taken.1 first sound in
    elim (Option-cases (next_fragment taken.1)) [
      | inl none_left ↦ subst (Fills p q e) (eq_of_some (rw none_left at rest)) stop
      | inr ((m, e2), following) ↦ elim (Bool-cases (fits packet.0 m e2)) [
        | inr full ↦ subst (Fills p q e) (eq_of_some (rw (following, full) at rest)) stop
        | inl room ↦
            let r =
              fill-Fills fuel (append_fragment packet.0 packet.1 e2) taken.1 m e2 out sound
                following (rw (following, room) at rest) in
            fill-goes_on p q e taken.0 taken.1 m e2 out.0 out.1 out.2 first room r
      ]
    ]

-- A packet that `Send_new_packets` makes from a queue of sound messages holds the fragments that stand
-- next in the queue, in their order: the first one in front, and behind it those that the receiver
-- unpacks; the queue keeps the rest.
pub unpack-new_packet :
    (my_id : ℕ) (memb_id : MembershipId) (seq : ℕ) (q q' : DownQueue) (h : PacketHeader)
    (c : PacketBody)
    → IsSound q
    → new_packet my_id memb_id seq q ≡ some (h, c, q')
    → (extra : List (List ℕ)) × (unpack
          (suc h.data_len)
          c
          h.data_len
          h.first_frag_header.fragment_len
        ≡ some extra)
      × (pending q ≡ bytes c 0 h.first_frag_header.fragment_len ∷ (extra ++ pending q'))
      × IsSound q'
unfolding new_packet
unpack-new_packet my_id memb_id seq q q' h c s made =
    let ((l, e), n, filled) = >>=-eq-some (next_fragment q) _ made in
    let (extra, r, all) =
      fill-Fills fill_fuel (first_filling my_id memb_id seq l e) q l e (h, c, q') s n filled in
    let len : h.first_frag_header.fragment_len ≡ e.len = r.first_len in
    let same : bytes c 0 e.len ≡ content e =
      bytes-eq e.len c e.buf 0 0 (λ i lt. r.keeps (0 + i) (omega arith)) in
    (
      extra,
      subst (λ d. unpack (suc h.data_len) c h.data_len d ≡ some extra) (sym len)
          (r.unpacks (suc h.data_len) (omega arith) (omega arith)),
      rw (len, same) all,
      r.sound,
    )
