-- ===== src/Protocol/Queue.antt =====
-- The queue of messages to be sent: what waits in it, and its current fragment.
use mathlib.Core.Path.{subst, sym, ap}
use cd_praticas.Prelude.{
  ℕ, zero, suc, ◌<◌, ◌≤◌, ◌≡◌, refl, ◌∙◌, inl, inr, List, [], ◌∷◌, ◌++◌, true, some, ltb, ◌==◌,
  length, get_elem?, arith, Bool-cases, Option-cases, none-ne-some, eq_of_some, map, drop,
  drop-length,
}
use cd_praticas.Prelude.Int.{ℤ}
use cd_praticas.Protocol.Body.{bytes}
use cd_praticas.Protocol.Pack.{
  Fragment, DownLink, DownQueue, body_size, take_fragment, next_fragment,
}

-- The bytes of a fragment, and of all that wait in a queue, in their order.
abbrev pub content : Fragment → List ℕ
content e = bytes e.buf 0 e.len

abbrev pub contents : List DownLink → List (List ℕ)
contents [] = []
contents (l ∷ ls) = map content l.mess ++ contents ls

abbrev pub pending : DownQueue → List (List ℕ)
pending q = elim q.links [
  | [] ↦ []
  | l ∷ ls ↦ map content (drop q.cur_element l.mess) ++ contents ls
]

-- A queue whose messages have fragments, each no longer than a packet's body.
abbrev pub AllFit : List Fragment → Type 0
AllFit [] = Unit {0}
AllFit (e ∷ es) = (e.len ≤ body_size) × AllFit es

abbrev pub AllSound : List DownLink → Type 0
AllSound [] = Unit {0}
AllSound (l ∷ ls) = (0 < length l.mess) × AllFit l.mess × AllSound ls

abbrev pub IsSound : DownQueue → Type 0
IsSound q =
    AllSound q.links
    × elim q.links [ [] ↦ q.cur_element ≡ 0 | l ∷ ls ↦ q.cur_element < length l.mess ]

drop-get :
    (es : List Fragment) (k : ℕ) (e : Fragment)
    → get_elem? es k ≡ some e
    → drop k es ≡ e ∷ drop (suc k) es
drop-get [] k e h = absurd (none-ne-some h)
drop-get (x ∷ es) zero e h = ap (λ y. y ∷ es) (eq_of_some h)
drop-get (x ∷ es) (suc k) e h = drop-get es k e h

-- What a sound queue holds after its current fragment was taken.
pending-start :
    (ls : List DownLink) → pending (record { links = ls; cur_element = 0 }) ≡ contents ls
pending-start [] = refl
pending-start (l ∷ ls) = refl

IsSound-start :
    (ls : List DownLink) → AllSound ls → IsSound (record { links = ls; cur_element = 0 })
IsSound-start [] s = (s, refl)
IsSound-start (l ∷ ls) s = (s, s.0)

pub take_fragment-pending :
    (ls : List DownLink) (cur : ℕ) (l : DownLink) (e : Fragment) (x : ℤ) (q' : DownQueue)
    → IsSound (record { links = ls; cur_element = cur })
    → next_fragment (record { links = ls; cur_element = cur }) ≡ some (l, e)
    → take_fragment cur ls ≡ some (x, q')
    → (pending (record { links = ls; cur_element = cur }) ≡ content e ∷ pending q') × IsSound q'
unfolding take_fragment next_fragment
take_fragment-pending [] cur l e x q' s h t = absurd (none-ne-some h)
take_fragment-pending (m ∷ ls) cur l e x q' s h t = elim (Option-cases (get_elem? m.mess cur)) [
  | inl gone ↦ absurd (none-ne-some (rw gone at h))
  | inr (e2, g) ↦
      let same : e2 ≡ e = cc (eq_of_some (rw g at h)) in
      let first : drop cur m.mess ≡ e ∷ drop (suc cur) m.mess =
        drop-get m.mess cur e (g ∙ ap some same) in
      elim (Bool-cases (ltb (suc cur) (length m.mess))) [
        | inl more ↦
            let is : record { links = m ∷ ls; cur_element = suc cur } ≡ q' =
              cc (eq_of_some (rw more at t)) in
            subst (Taken e cur) is (rw first refl, (s.0, ground arith))
        | inr last ↦ elim (Bool-cases (suc cur == length m.mess)) [
          | inl end ↦
              let is : record { links = ls; cur_element = 0 } ≡ q' =
                cc (eq_of_some (rw (last, end) at t)) in
              let none_left : drop (suc cur) m.mess ≡ [] =
                let n : suc cur ≡ length m.mess = ground arith in rw n (drop-length m.mess) in
              subst (Taken e cur) is
                (rw (first, none_left, pending-start ls) refl, IsSound-start ls s.0.2)
          | inr beyond ↦ absurd (none-ne-some (rw (last, beyond) at t))
        ]
      ]
]
  where
    Taken : Fragment → ℕ → DownQueue → Type 0
    Taken f k q = (map content (drop k m.mess) ++ contents ls ≡ content f ∷ pending q) × IsSound q

fitting :
    (es : List Fragment) (k : ℕ)
    → AllFit es
    → k < length es
    → (e : Fragment) × (get_elem? es k ≡ some e) × (e.len ≤ body_size)
fitting [] k f lt = absurd (omega arith)
fitting (e ∷ es) zero f lt = (e, refl, f.0)
fitting (e ∷ es) (suc k) f lt = fitting es k f.1 (omega arith)

-- A sound queue that is not empty has a current fragment, and it can be taken.
pub next_fragment-Returns :
    (l : DownLink) (ls : List DownLink) (cur : ℕ)
    → IsSound (record { links = l ∷ ls; cur_element = cur })
    → (x : DownLink × Fragment) × (next_fragment (record { links = l ∷ ls; cur_element = cur })
        ≡ some x)
      × (x.1.len ≤ body_size)
unfolding next_fragment
next_fragment-Returns l ls cur s =
    let (e, g, small) = fitting l.mess cur s.0.1 s.1 in ((l, e), rw g, small)

pub next_fragment-small :
    (q : DownQueue) (x : DownLink × Fragment)
    → IsSound q
    → next_fragment q ≡ some x
    → x.1.len ≤ body_size
unfolding next_fragment
next_fragment-small q x s h = small q.links q.cur_element s h
  where
    small :
        (ls : List DownLink) (cur : ℕ)
        → IsSound (record { links = ls; cur_element = cur })
        → next_fragment (record { links = ls; cur_element = cur }) ≡ some x
        → x.1.len ≤ body_size
    small [] cur s h = absurd (none-ne-some h)
    small (l ∷ ls) cur s h =
        let (y, e, le) = next_fragment-Returns l ls cur s in
        let same : y ≡ x = eq_of_some (sym e ∙ h) in
        subst (λ (z : DownLink × Fragment). z.1.len ≤ body_size) same le

pub take_fragment-Returns :
    (cur : ℕ) (ls : List DownLink) (x : DownLink × Fragment)
    → IsSound (record { links = ls; cur_element = cur })
    → next_fragment (record { links = ls; cur_element = cur }) ≡ some x
    → (y : ℤ × DownQueue) × (take_fragment cur ls ≡ some y)
unfolding take_fragment next_fragment
take_fragment-Returns cur [] x s h = absurd (none-ne-some h)
take_fragment-Returns cur (l ∷ ls) x s h = elim (Bool-cases (ltb (suc cur) (length l.mess))) [
  | inl more ↦ rw more (_, refl)
  | inr last ↦
      let end : suc cur == length l.mess ≡ true = ground (arith, s.1) in rw (last, end) (_, refl)
]
