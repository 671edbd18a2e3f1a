-- ===== src/Groups/Counts.antt =====
-- How often a name stands in a list of names, in the daemons of a group, and in the sets of a message.
use cd_praticas.Prelude.{
  ℕ, ◌+◌, ◌≤◌, ◌≡◌, refl, true, false, List, [], ◌∷◌, ◌++◌, arith, if◌then◌else◌, Bool-cases, inl,
  inr, length, length-append, Option, none, some,
}
use mathlib.Core.Path.{subst}
use cd_praticas.Configuration.{same_name}
use cd_praticas.Groups.Keyed.{sum, find, Fresh, Distinct}
use cd_praticas.Groups.State.{DaemonMembers, Group, Groups, member_keyed, group_keyed}
use cd_praticas.Groups.Names.{eq_of_same_name}
use cd_praticas.Groups.Notices.{members_of}

abbrev pub is_name : List ℕ → List ℕ → ℕ
is_name n m = if same_name m n then 1 else 0

-- How often a name stands in a list.
unfoldable pub count : List ℕ → List (List ℕ) → ℕ
count n ms = sum (is_name n) ms

-- How often a name is listed by the daemons of a group.
unfoldable pub occurrences : List ℕ → List DaemonMembers → ℕ
occurrences n ds = sum (λ d. count n d.members) ds

unfoldable pub in_group : List ℕ → List ℕ → Group → ℕ
in_group group n g = if same_name g.name group then occurrences n g.daemons else 0

-- How often a name is listed in the group of the name `group`.
unfoldable pub listed : List ℕ → List ℕ → Groups → ℕ
listed group n s = sum (in_group group n) s.groups

-- The number of members that the daemons list.
unfoldable pub number_of_members : List DaemonMembers → ℕ
number_of_members ds = sum (λ d. length d.members) ds

unfoldable pub in_sets : List ℕ → List (List (List ℕ)) → ℕ
in_sets n sets = sum (count n) sets

module _ {A : Type 0} where
  pub sum-append : (f : A → ℕ) (xs ys : List A) → sum f (xs ++ ys) ≡ sum f xs + sum f ys
  sum-append f [] ys = omega arith
  sum-append f (x ∷ xs) ys = omega (arith, sum-append f xs ys)

pub count-append :
    (n : List ℕ) (xs ys : List (List ℕ)) → count n (xs ++ ys) ≡ count n xs + count n ys
unfolding count
count-append n xs ys = sum-append (is_name n) xs ys

pub in_sets-append :
    (n : List ℕ) (xs ys : List (List (List ℕ))) → in_sets n (xs ++ ys) ≡ in_sets n xs + in_sets n ys
unfolding in_sets
in_sets-append n xs ys = sum-append (count n) xs ys

pub count-members_of :
    (n : List ℕ) (ds : List DaemonMembers) → count n (members_of ds) ≡ occurrences n ds
unfolding members_of occurrences count
count-members_of n [] = refl
count-members_of n (d ∷ ds) =
    omega (arith, sum-append (is_name n) d.members (members_of ds), count-members_of n ds)

pub length-members_of : (ds : List DaemonMembers) → length (members_of ds) ≡ number_of_members ds
unfolding members_of number_of_members
length-members_of [] = refl
length-members_of (d ∷ ds) =
    omega (arith, length-append d.members (members_of ds), length-members_of ds)

-- A name that is not found does not stand in the list.
pub Fresh-count : (n : List ℕ) (ms : List (List ℕ)) → Fresh n ms → count n ms ≡ 0
unfolding count
Fresh-count n [] f = refl
Fresh-count n (m ∷ ms) f = rw f.0 (omega (arith, Fresh-count n ms f.1))

-- A name stands at most once in a list of distinct names.
pub count-Distinct : (n : List ℕ) (ms : List (List ℕ)) → Distinct (List ℕ) ms → count n ms ≤ 1
unfolding count
count-Distinct n [] d = omega arith
count-Distinct n (m ∷ ms) d = elim (Bool-cases (same_name m n)) [
  | inl hit ↦ rw hit (omega (arith, Fresh-count n ms (fresh_of hit d.0)))
  | inr miss ↦ rw miss (omega (arith, count-Distinct n ms d.1))
]
  where
    fresh_of : same_name m n ≡ true → Fresh m ms → Fresh n ms
    fresh_of h f = subst (λ z. Fresh z ms) (eq_of_same_name m n h) f

pub Fresh-in_group :
    (group n : List ℕ) (gs : List Group) → Fresh group gs → sum (in_group group n) gs ≡ 0
unfolding in_group
Fresh-in_group group n [] f = refl
Fresh-in_group group n (g ∷ gs) f = rw f.0 (omega (arith, Fresh-in_group group n gs f.1))

abbrev pub occurrences_at : List ℕ → Option Group → ℕ
occurrences_at n none = 0
occurrences_at n (some g) = occurrences n g.daemons

-- Where the names are distinct, what a group lists is what the group of that name lists.
pub in_group-find :
    (group n : List ℕ) (gs : List Group)
    → Distinct (List ℕ) gs
    → sum (in_group group n) gs ≡ occurrences_at n (find group gs)
unfolding in_group find
in_group-find group n [] d = refl
in_group-find group n (g ∷ gs) d = elim (Bool-cases (same_name g.name group)) [
  | inl hit ↦
      let gone : Fresh group gs = subst (λ z. Fresh z gs) (eq_of_same_name g.name group hit) d.0 in
      rw hit (omega (arith, Fresh-in_group group n gs gone))
  | inr miss ↦ rw miss (omega (arith, in_group-find group n gs d.1))
]

pub in_group_hit :
    (h n : List ℕ) (g : Group)
    → same_name g.name h ≡ true
    → in_group h n g ≡ occurrences n g.daemons
unfolding in_group
in_group_hit h n g e = rw e refl

pub in_group_miss : (h n : List ℕ) (g : Group) → same_name g.name h ≡ false → in_group h n g ≡ 0
unfolding in_group
in_group_miss h n g e = rw e refl

pub in_group_empty : (h n : List ℕ) (g : Group) → g.daemons ≡ [] → in_group h n g ≡ 0
unfolding in_group occurrences
in_group_empty h n g e = rw e (ground arith)
