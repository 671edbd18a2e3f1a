-- ===== src/Membership/Select.antt =====
-- What `Smallest_member`, `Smallest_rep`, `Sort_members` and `Sort_reps` share: a scan for the best
-- element, and the sort that takes it out again and again.
use cd_praticas.Prelude.{
  ℕ, zero, suc, List, [], ◌∷◌, Bool, Option, some, if◌then◌else◌, ◌>>=◌, get_elem?,
}

module _ {A : Type 0} where
  -- The loop of the two searches: `c` is the best element so far, at index `current`; `better x c` tells
  -- whether `x` replaces it. `none` is a fatal alarm.
  unfoldable pub smallest_from : (A → A → Option Bool) → A → ℕ → ℕ → List A → Option ℕ
  smallest_from better c current i [] = some current
  smallest_from better c current i (x ∷ xs) = better x c >>= λ b.
      smallest_from better (if b then x else c) (if b then i else current) (suc i) xs

  abbrev pub last_of : A → List A → A
  last_of x [] = x
  last_of x (y ∷ ys) = last_of y ys

  abbrev pub init_of : A → List A → List A
  init_of x [] = []
  init_of x (y ∷ ys) = x ∷ init_of y ys

  -- The element at an index is overwritten by the last one, and the list gets shorter.
  unfoldable pub swap_remove : ℕ → List A → List A
  swap_remove i [] = []
  swap_remove zero (x ∷ []) = []
  swap_remove zero (x ∷ y ∷ ys) = last_of y ys ∷ init_of y ys
  swap_remove (suc i) (x ∷ xs) = x ∷ swap_remove i xs

  -- `k` rounds of the sorts: `temp` is what is left.
  unfoldable pub sort_rounds : (List A → Option ℕ) → ℕ → List A → Option (List A)
  sort_rounds smallest zero temp = some []
  sort_rounds smallest (suc k) temp = smallest temp >>= λ index. get_elem? temp index >>= λ x.
      sort_rounds smallest k (swap_remove index temp) >>= λ rest. some (x ∷ rest)
