-- ===== src/Configuration/Walk.antt =====
-- The ring of a configuration: its processes in the order of the segments.
use Prim.Native.Nat.add
use mathlib.Core.List.{append-nil, append_assoc}
use cd_praticas.Prelude.{
  ℕ, zero, suc, ◌+◌, ◌≡◌, refl, sym, ap, List, [], ◌∷◌, ◌++◌, Option, none, some, length, take,
  drop,
}
use cd_praticas.Configuration.{
  Proc, Segment, first_id, last_id, or_else, procs_at, leader_from, last_down,
}

abbrev pub ring : List Segment → List Proc
ring [] = []
ring (s ∷ ss) = s.procs ++ ring ss

-- The last id of a list, with a default.
abbrev pub last_or : ℕ → List Proc → ℕ
last_or d [] = d
last_or d (p ∷ ps) = last_or p.id ps

pub last_or-append : (d : ℕ) (xs ys : List Proc) → last_or d (xs ++ ys) ≡ last_or (last_or d xs) ys
last_or-append d [] ys = refl
last_or-append d (x ∷ xs) ys = last_or-append x.id xs ys

pub last_id-cons : (p : Proc) (ps : List Proc) → last_id (p ∷ ps) ≡ some (last_or p.id ps)
last_id-cons p [] = refl
last_id-cons p (q ∷ ps) = last_id-cons q ps

or_else-none : (o : Option ℕ) → or_else o none ≡ o
or_else-none none = refl
or_else-none (some x) = refl

pub last_id-append : (xs ys : List Proc) → last_id (xs ++ ys) ≡ or_else (last_id ys) (last_id xs)
last_id-append [] ys = sym (or_else-none (last_id ys))
last_id-append (x ∷ xs) [] = rw append-nil
last_id-append (x ∷ xs) (y ∷ ys) =
    rw (last_id-cons x (xs ++ y ∷ ys), last_id-cons y ys, last_or-append x.id xs (y ∷ ys))

first_id-append : (xs ys : List Proc) → first_id (xs ++ ys) ≡ or_else (first_id xs) (first_id ys)
first_id-append [] ys = refl
first_id-append (x ∷ xs) ys = refl

-- `Conf_leader`'s loop finds the first process of the ring.
pub leader_from-ring : (ss : List Segment) → leader_from ss ≡ first_id (ring ss)
unfolding leader_from
leader_from-ring [] = refl
leader_from-ring (s ∷ ss) = rw (first_id-append s.procs (ring ss), leader_from-ring ss)

procs_at-drop : (lo k : ℕ) (ss : List Segment) → procs_at (drop lo ss) k ≡ procs_at ss (lo + k)
procs_at-drop zero k ss = rw add.zero
procs_at-drop (suc lo) k [] = refl
procs_at-drop (suc lo) k (s ∷ ss) = rw add.suc (procs_at-drop lo k ss)

ring-take : (k : ℕ) (ss : List Segment) → ring (take (suc k) ss) ≡ ring (take k ss) ++ procs_at ss k
ring-take zero [] = refl
ring-take zero (s ∷ ss) = append-nil s.procs
ring-take (suc k) [] = refl
ring-take (suc k) (s ∷ ss) = rw (ring-take k ss, append_assoc)

-- The downward loop finds the last process of the segments that it runs over.
pub last_down-ring :
    (ss : List Segment) (lo k : ℕ) → last_down ss lo k ≡ last_id (ring (take k (drop lo ss)))
unfolding last_down
last_down-ring ss lo zero = refl
last_down-ring ss lo (suc k) = rw (
  ring-take k (drop lo ss),
  last_id-append (ring (take k (drop lo ss))) (procs_at (drop lo ss) k),
  procs_at-drop lo k ss,
  last_down-ring ss lo k,
)

pub take-length-append : (front back : List Segment) → take (length front) (front ++ back) ≡ front
take-length-append [] back = refl
take-length-append (x ∷ xs) back = ap (◌∷◌ x) (take-length-append xs back)

pub drop-length-append : (front back : List Segment) → drop (length front) (front ++ back) ≡ back
drop-length-append [] back = refl
drop-length-append (x ∷ xs) back = drop-length-append xs back

pub ring-append : (xs ys : List Segment) → ring (xs ++ ys) ≡ ring xs ++ ring ys
ring-append [] ys = refl
ring-append (x ∷ xs) ys = rw (ring-append xs ys, append_assoc)
