-- ===== src/Configuration/Order.antt =====
-- Who leads the ring, who closes it, and who comes before a daemon in it; membership of the ring.
use mathlib.Core.List.{append-nil}
use cd_praticas.Prelude.{
  ℕ, suc, ◌+◌, ◌-◌, ◌≡◌, refl, ap, ◌∙◌, List, [], ◌∷◌, ◌++◌, some, length, arith, length-append,
  take-length,
}
use cd_praticas.Configuration.{
  Proc, Segment, Configuration, find_id, id_in_seg, first_id, last_id, or_else, id_at, procs_at,
  last_down, leader, last, previous,
}
use cd_praticas.Configuration.Lookup.{Absent}
use cd_praticas.Configuration.Walk.{
  ring, last_or, last_or-append, last_id-cons, leader_from-ring, last_down-ring, take-length-append,
  drop-length-append,
}

-- The leader is the first process of the ring and `Conf_last` the last one, however many segments
-- are empty; on a ring with no process both stop the daemon.
pub leader-last-ring :
    (c : Configuration)
    → (leader c ≡ first_id (ring c.segments)) × (last c ≡ last_id (ring c.segments))
unfolding leader last
leader-last-ring c = (
  leader_from-ring c.segments,
  last_down-ring c.segments 0 (length c.segments)
      ∙ ap (λ (ss : List Segment). last_id (ring ss)) (take-length c.segments),
)

find_id-middle :
    (l r : List Proc) (me : Proc) (i id : ℕ)
    → Absent id l
    → me.id ≡ id
    → find_id (l ++ me ∷ r) i id ≡ some (i + length l, me)
unfolding find_id
find_id-middle [] r me i id a e = ground arith
find_id-middle (x ∷ l) r me i id a e = ground (arith, find_id-middle l r me (suc i) id a.1 e)

id_at-before :
    (x : Proc) (l r : List Proc) (me : Proc)
    → id_at (x ∷ l ++ me ∷ r) (length l) ≡ some (last_or x.id l)
id_at-before x [] r me = refl
id_at-before x (y ∷ l) r me = id_at-before y l r me

procs_at-middle :
    (front back : List Segment) (s : Segment)
    → procs_at (front ++ s ∷ back) (length front) ≡ s.procs
procs_at-middle [] back s = refl
procs_at-middle (x ∷ front) back s = procs_at-middle front back s

or_else-last_or :
    (d : ℕ) (xs ys : List Proc)
    → or_else (last_id ys) (some (last_or d xs)) ≡ some (last_or d (xs ++ ys))
or_else-last_or d xs [] = rw append-nil
or_else-last_or d xs (y ∷ ys) = rw (last_id-cons y ys, last_or-append d xs (y ∷ ys))

-- The loop over the segments before the daemon's own, and the loop over the rest.
front_loop :
    (front back : List Segment) → last_down (front ++ back) 0 (length front) ≡ last_id (ring front)
front_loop front back =
    last_down-ring _ 0 (length front)
    ∙ ap (λ (ss : List Segment). last_id (ring ss)) (take-length-append front back)

back_loop :
    (front back : List Segment)
    → last_down (front ++ back) (length front) (length (front ++ back) - length front)
      ≡ last_id (ring back)
back_loop front back =
    let n : length (front ++ back) - length front ≡ length back =
      omega (arith, length-append front back) in
    rw (n, last_down-ring, drop-length-append front back, take-length)

-- `Conf_previous` finds the last process that is met on a walk once round the ring, which starts
-- behind the daemon itself and comes back to it.
pub previous_lem :
    (my me : Proc) (c : Configuration) (front back : List Segment) (l r : List Proc)
    → c.segments ≡ front ++ record { procs = l ++ me ∷ r } ∷ back
    → length front ≡ my.seg_index
    → me.id ≡ my.id
    → Absent my.id l
    → previous my c ≡ some (last_or my.id (r ++ ring back ++ ring front ++ l))
unfolding previous id_in_seg
previous_lem my me c front back [] r e s m a =
    rw
      (
        e,
        ← s,
        procs_at-middle front back (record { procs = me ∷ r }),
        find_id-middle [] r me 0 my.id a m,
      )
      (rw (front_loop front _, back_loop front (record { procs = me ∷ r } ∷ back))
        (rw (last_id-cons me (r ++ ring back), m, append-nil)
          (or_else-last_or my.id (r ++ ring back) (ring front))))
previous_lem my me c front back (x ∷ l) r e s m a =
    rw
      (
        e,
        ← s,
        procs_at-middle front back (record { procs = x ∷ l ++ me ∷ r }),
        find_id-middle (x ∷ l) r me 0 my.id a m,
      )
      (ground (
        arith,
        ap (id_at (x ∷ l ++ me ∷ r)) (let k : 0 + suc (length l) - 1 ≡ length l = omega arith in k),
        id_at-before x l r me,
        last_or-append my.id (r ++ ring back ++ ring front) (x ∷ l),
      ))
