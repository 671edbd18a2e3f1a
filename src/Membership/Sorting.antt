-- ===== src/Membership/Sorting.antt =====
-- The sorts of membership.c, for any search that finds an element which no other one precedes.
use mathlib.Core.List.{Perm}
use mathlib.Core.List.Perm
use mathlib.Core.Path.{subst}
use cd_praticas.Prelude.{
  ℕ, zero, suc, ◌≡◌, refl, ap, List, [], ◌∷◌, Option, some, get_elem?, length, arith, eq_of_some,
  none-ne-some,
}
use cd_praticas.Membership.Select.{last_of, init_of, swap_remove, sort_rounds}

module _ {A : Type 0} where
  abbrev pub All : (A → Type 0) → List A → Type 0
  All P [] = Unit {0}
  All P (x ∷ xs) = P x × All P xs

  pub All-map : (P Q : A → Type 0) (xs : List A) → ((x : A) → P x → Q x) → All P xs → All Q xs
  All-map P Q [] f a = tt
  All-map P Q (x ∷ xs) f a = (f x a.0, All-map P Q xs f a.1)

  -- No later element has to stand before an earlier one.
  abbrev pub IsSorted : (A → A → Type 0) → List A → Type 0
  IsSorted R [] = Unit {0}
  IsSorted R (x ∷ xs) = All (R x) xs × IsSorted R xs

  last-Perm : (x : A) (xs : List A) → Perm (x ∷ xs) (last_of x xs ∷ init_of x xs)
  last-Perm x [] = Perm.refl (x ∷ [])
  last-Perm x (y ∷ ys) =
      Perm.trans (Perm.cons x (last-Perm y ys)) (Perm.swap (last_of y ys) x (init_of y ys))

  swap_remove-Perm :
      (i : ℕ) (xs : List A) (x : A) → get_elem? xs i ≡ some x → Perm xs (x ∷ swap_remove i xs)
  unfolding swap_remove
  swap_remove-Perm i [] x e = absurd (none-ne-some e)
  swap_remove-Perm zero (y ∷ []) x e =
      subst (λ z. Perm (y ∷ []) (z ∷ [])) (eq_of_some e) (Perm.refl (y ∷ []))
  swap_remove-Perm zero (y ∷ z ∷ zs) x e =
      subst (λ u. Perm (y ∷ z ∷ zs) (u ∷ last_of z zs ∷ init_of z zs)) (eq_of_some e)
        (Perm.cons y (last-Perm z zs))
  swap_remove-Perm (suc i) (y ∷ ys) x e =
      Perm.trans (Perm.cons y (swap_remove-Perm i ys x e)) (Perm.swap x y (swap_remove i ys))

  All-last :
      (P : A → Type 0) (x : A) (xs : List A)
      → P x
      → All P xs
      → P (last_of x xs) × All P (init_of x xs)
  All-last P x [] p a = (p, tt)
  All-last P x (y ∷ ys) p a = let (q, r) = All-last P y ys a.0 a.1 in (q, (p, r))

  pub All-swap_remove : (P : A → Type 0) (i : ℕ) (xs : List A) → All P xs → All P (swap_remove i xs)
  unfolding swap_remove
  All-swap_remove P i [] a = a
  All-swap_remove P zero (x ∷ []) a = tt
  All-swap_remove P zero (x ∷ y ∷ ys) a = All-last P y ys a.1.0 a.1.1
  All-swap_remove P (suc i) (x ∷ xs) a = (a.0, All-swap_remove P i xs a.1)

  length-last : (x : A) (xs : List A) → length (init_of x xs) ≡ length xs
  length-last x [] = refl
  length-last x (y ∷ ys) = ap suc (length-last y ys)

  length-swap_remove :
      (i : ℕ) (xs : List A) (x : A)
      → get_elem? xs i ≡ some x
      → suc (length (swap_remove i xs)) ≡ length xs
  unfolding swap_remove
  length-swap_remove i [] x e = absurd (none-ne-some e)
  length-swap_remove zero (y ∷ []) x e = refl
  length-swap_remove zero (y ∷ z ∷ zs) x e = ap (λ n. suc (suc n)) (length-last z zs)
  length-swap_remove (suc i) (y ∷ ys) x e = ap suc (length-swap_remove i ys x e)

  -- A search that returns on every list of good elements, with an element that stands in relation
  -- `R` to all.
  pub record Finds (R : A → A → Type 0) (xs : List A) (r : Option ℕ) : Type 0 where
    pub index : ℕ
    pub element : A
    pub returns : r ≡ some index
    pub stands : get_elem? xs index ≡ some element
    pub smallest : All (R element) xs

  -- A sort of good elements.
  pub record Sorts (R : A → A → Type 0) (xs : List A) (r : Option (List A)) : Type 1 where
    pub sorted : List A
    pub returns : r ≡ some sorted
    pub perm : Perm xs sorted
    pub ordered : IsSorted R sorted
    -- What holds for all elements still does.
    pub all : (P : A → Type 0) → All P xs → All P sorted

  IsSorted-map :
      (R S : A → A → Type 0) (Good : A → Type 0)
      → ((x y : A) → Good x → Good y → R x y → S x y)
      → (xs : List A) → All Good xs
      → IsSorted R xs
      → IsSorted S xs
  IsSorted-map R S Good f [] good s = tt
  IsSorted-map R S Good f (x ∷ xs) good s =
      (rest xs good.1 s.0, IsSorted-map R S Good f xs good.1 s.1)
    where
      rest : (ys : List A) → All Good ys → All (R x) ys → All (S x) ys
      rest [] g a = tt
      rest (y ∷ ys) g a = (f x y good.0 g.0 a.0, rest ys g.1 a.1)

  -- A sort by one order is a sort by another one that follows from it for good elements.
  pub Sorts-map :
      (R S : A → A → Type 0) (Good : A → Type 0)
      → ((x y : A) → Good x → Good y → R x y → S x y)
      → (xs : List A) (r : Option (List A)) → All Good xs
      → Sorts R xs r
      → Sorts S xs r
  Sorts-map R S Good f xs r good s = record {
    sorted = s.sorted;
    returns = s.returns;
    perm = s.perm;
    ordered = IsSorted-map R S Good f s.sorted (s.all Good good) s.ordered;
    all = s.all;
  }

  All-get :
      (P : A → Type 0) (i : ℕ) (xs : List A) (x : A) → get_elem? xs i ≡ some x → All P xs → P x
  All-get P i [] x e a = absurd (none-ne-some e)
  All-get P zero (y ∷ ys) x e a = subst P (eq_of_some e) a.0
  All-get P (suc i) (y ∷ ys) x e a = All-get P i ys x e a.1

  pub sort_rounds-Sorts :
      (R : A → A → Type 0) (Good : A → Type 0) (smallest : List A → Option ℕ)
      → ((x : A) (xs : List A) → All Good (x ∷ xs) → Finds R (x ∷ xs) (smallest (x ∷ xs)))
      → (k : ℕ) (xs : List A) → length xs ≡ k
      → All Good xs
      → Sorts R xs (sort_rounds smallest k xs)
  unfolding sort_rounds
  sort_rounds-Sorts R Good smallest finds zero [] len good = record {
    sorted = [];
    returns = refl;
    perm = Perm.refl [];
    ordered = tt;
    all = λ P a. tt;
  }
  sort_rounds-Sorts R Good smallest finds zero (x ∷ xs) len good = absurd (omega arith)
  sort_rounds-Sorts R Good smallest finds (suc k) [] len good = absurd (omega arith)
  sort_rounds-Sorts R Good smallest finds (suc k) (x ∷ xs) len good =
      let f = finds x xs good in
      let left = swap_remove f.index (x ∷ xs) in
      let r =
        sort_rounds-Sorts R Good smallest finds k left
          (omega (arith, length-swap_remove f.index (x ∷ xs) f.element f.stands))
          (All-swap_remove Good f.index (x ∷ xs) good) in
      record {
        sorted = f.element ∷ r.sorted;
        returns = rw (f.returns, f.stands, r.returns) refl;
        perm =
            Perm.trans (swap_remove-Perm f.index (x ∷ xs) f.element f.stands)
              (Perm.cons f.element r.perm);
        ordered = (
          r.all (R f.element) (All-swap_remove (R f.element) f.index (x ∷ xs) f.smallest),
          r.ordered,
        );
        all = λ P a. (
          All-get P f.index (x ∷ xs) f.element f.stands a,
          r.all P (All-swap_remove P f.index (x ∷ xs) a),
        );
      }
