-- ===== src/Groups/Remains.antt =====
-- What is left of a group that a member leaves.
use cd_praticas.Prelude.{
  ℕ, ◌+◌, ◌≡◌, refl, true, false, List, [], ◌∷◌, arith, if◌then◌else◌, Option, none, some, length,
  none-ne-some,
}
use cd_praticas.Configuration.{same_name}
use cd_praticas.Groups.Keyed.{is_empty, All, find, erase}
use cd_praticas.Groups.State.{DaemonMembers, Group, World, Notice, daemon_keyed, member_keyed}
use cd_praticas.Groups.Counts.{occurrences, number_of_members}
use cd_praticas.Groups.Valid.{IsValidDaemon, IsValidGroup}

pub length-erase :
    (m x : List ℕ) (ms : List (List ℕ)) → find m ms ≡ some x → length (erase m ms) + 1 ≡ length ms
unfolding find erase
length-erase m x [] e = absurd (none-ne-some e)
length-erase m x (y ∷ ys) e = ground (arith, length-erase m x ys)

-- Daemons with members that list none are none.
pub total-empty :
    (w : World) (ds : List DaemonMembers)
    → All (IsValidDaemon w) ds
    → number_of_members ds ≡ 0
    → is_empty ds ≡ true
unfolding number_of_members
total-empty w [] v e = refl
total-empty w (d ∷ ds) v e = absurd (inhabited_length d.members v.0.inhabited (omega arith))
  where
    inhabited_length : (ms : List (List ℕ)) → is_empty ms ≡ false → length ms ≡ 0 → ⊥
    inhabited_length [] h e = cc
    inhabited_length (y ∷ ys) h e = omega arith

pub empty-total : (ds : List DaemonMembers) → is_empty ds ≡ true → number_of_members ds ≡ 0
unfolding number_of_members
empty-total [] e = refl
empty-total (d ∷ ds) e = cc

pub empty_list : {A : Type 0} (ms : List A) → is_empty ms ≡ true → ms ≡ []
empty_list [] e = refl
empty_list (m ∷ ms) e = cc

abbrev pub rest_of : Option Group → List DaemonMembers
rest_of none = []
rest_of (some g) = g.daemons

-- A group that is left over.
abbrev pub LeftOver : World → Group → Option Group → Type 0
LeftOver w g none = Unit {0}
LeftOver w g (some g') =
    (g'.name ≡ g.name)
    × IsValidGroup w g'
    × (is_empty g'.daemons ≡ false)
    × (g.changed ≡ false → g'.changed ≡ false)

-- A group after a member has left it: discarded where nobody is left.
pub record Departed (w : World) (m : List ℕ) (g : Group)
    (r : Option (Option Group × List (ℕ × Notice))) : Type 0 where
  pub group : Option Group
  pub sent : List (ℕ × Notice)
  pub returns : r ≡ some (group, sent)
  pub left_over : LeftOver w g group
  pub lists :
      (n : List ℕ)
      → occurrences n (rest_of group) ≡ (if same_name m n then 0 else occurrences n g.daemons)
