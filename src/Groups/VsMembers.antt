-- ===== src/Groups/VsMembers.antt =====
-- The order of the daemons for the sets of `G_build_memb_vs_buf`, and the members that it appends to a set.
use cd_praticas.Prelude.{
  ℕ, ◌+◌, ◌≡◌, refl, inl, inr, Bool, true, false, List, [], ◌∷◌, arith, if◌then◌else◌, Bool-cases,
  Option, none, some, ◌==◌,
}
use cd_praticas.Configuration.{same_name}
use cd_praticas.Groups.Keyed.{
  is_empty, sum, All, insert_at, Fresh, Distinct, All-insert_at, Distinct-insert_at, sum-insert_at,
}
use cd_praticas.Groups.Names.{same_name_refl, eq_of_same_name}
use cd_praticas.Groups.State.{DaemonMembers, World, daemon_keyed}
use cd_praticas.Groups.Notices.{put_seq, vs_members, add_to_last}
use cd_praticas.Groups.Counts.{count, in_sets, count-append}

pub sum-put_seq :
    (w : World) (f : DaemonMembers → ℕ) (acc ds : List DaemonMembers)
    → sum f (put_seq w acc ds) ≡ sum f acc + sum f ds
unfolding put_seq
sum-put_seq w f acc [] = omega arith
sum-put_seq w f acc (d ∷ ds) = omega (
  arith,
  sum-put_seq w f (insert_at (w.place_vs d acc) d acc) ds,
  sum-insert_at f (w.place_vs d acc) d acc,
)

pub flip_Fresh :
    (d : DaemonMembers) (ds : List DaemonMembers)
    → Fresh d.proc_id ds
    → All (λ (e : DaemonMembers). (d.proc_id == e.proc_id) ≡ false) ds
flip_Fresh d [] f = tt
flip_Fresh d (e ∷ es) f = (ground arith, flip_Fresh d es f.1)

-- None of `ds` has the id of one of `acc`.
abbrev pub Apart : List DaemonMembers → List DaemonMembers → Type 0
Apart acc ds = All (λ (e : DaemonMembers). Fresh e.proc_id acc) ds

pub Apart-insert_at :
    (n : ℕ) (d : DaemonMembers) (acc ds : List DaemonMembers)
    → Apart acc ds
    → All (λ (e : DaemonMembers). (d.proc_id == e.proc_id) ≡ false) ds
    → Apart (insert_at n d acc) ds
Apart-insert_at n d acc [] a f = tt
Apart-insert_at n d acc (e ∷ es) a f = (
  All-insert_at (λ (z : DaemonMembers). (z.proc_id == e.proc_id) ≡ false) n d acc f.0 a.0,
  Apart-insert_at n d acc es a.1 f.1,
)

pub put_seq-Distinct :
    (w : World) (acc ds : List DaemonMembers)
    → Distinct ℕ acc
    → Distinct ℕ ds
    → Apart acc ds
    → Distinct ℕ (put_seq w acc ds)
unfolding put_seq
put_seq-Distinct w acc [] da dd a = da
put_seq-Distinct w acc (d ∷ ds) da dd a =
    let n = w.place_vs d acc in
    put_seq-Distinct w (insert_at n d acc) ds (Distinct-insert_at n d.proc_id d acc refl a.0 da)
      dd.1 (Apart-insert_at n d acc ds a.1 (flip_Fresh d ds dd.0))

pub Apart-nil : (ds : List DaemonMembers) → Apart [] ds
Apart-nil [] = tt
Apart-nil (d ∷ ds) = (tt, Apart-nil ds)

-- The joiner's name counts while it has not been left out.
abbrev pub left_out : Option (List ℕ) → Bool → List ℕ → ℕ
left_out none found n = 0
left_out (some j) found n = if found then (if same_name j n then 1 else 0) else 0

pub vs_members-count :
    (joiner : Option (List ℕ)) (found : Bool) (ms : List (List ℕ)) (n : List ℕ)
    → count n (vs_members joiner found ms).0 + left_out joiner (vs_members joiner found ms).1 n
      ≡ count n ms + left_out joiner found n
unfolding vs_members count
vs_members-count none found ms n = refl
vs_members-count (some j) true ms n = refl
vs_members-count (some j) false [] n = refl
vs_members-count (some j) false (m ∷ ms) n = elim (Bool-cases (same_name j m)) [
  | inl hit ↦ rw (hit, eq_of_same_name j m hit) (omega arith)
  | inr miss ↦ rw miss (omega (arith, vs_members-count (some j) false ms n))
]

pub same_name_sym : (a b : List ℕ) → same_name a b ≡ false → same_name b a ≡ false
same_name_sym a b h = ground (arith, eq_of_same_name b a, same_name_refl a)

-- While the joiner is not found it is in no set.
pub vs_members-found :
    (j : List ℕ) (found : Bool) (ms : List (List ℕ))
    → (vs_members (some j) found ms).1 ≡ false
    → (found ≡ false) × (count j ms ≡ 0)
unfolding vs_members count
vs_members-found j true ms h = cc
vs_members-found j false [] h = (refl, refl)
vs_members-found j false (m ∷ ms) h = elim (Bool-cases (same_name j m)) [
  | inl hit ↦ ground arith
  | inr miss ↦ ground (arith, vs_members-found j false ms, same_name_sym j m miss)
]

pub add_to_last-count :
    (n : List ℕ) (names : List (List ℕ)) (sets : List (List (List ℕ)))
    → is_empty sets ≡ false
    → in_sets n (add_to_last names sets) ≡ in_sets n sets + count n names
unfolding add_to_last in_sets
add_to_last-count n names [] h = cc
add_to_last-count n names (s ∷ []) h = omega (arith, count-append n s names)
add_to_last-count n names (s ∷ t ∷ ts) h = omega (arith, add_to_last-count n names (t ∷ ts) refl)

pub add_to_last-nonempty :
    (names : List (List ℕ)) (sets : List (List (List ℕ)))
    → is_empty sets ≡ false
    → is_empty (add_to_last names sets) ≡ false
unfolding add_to_last
add_to_last-nonempty names [] h = h
add_to_last-nonempty names (s ∷ []) h = refl
add_to_last-nonempty names (s ∷ t ∷ ts) h = refl
