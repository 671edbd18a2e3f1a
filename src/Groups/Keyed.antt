-- ===== src/Groups/Keyed.antt =====
-- What groups.c relies on of the skip lists of stdutil: a list in the order of iteration, whose elements
-- are found by a key that no two of them share. Where a new element goes is a parameter.
use cd_praticas.Prelude.{
  ℕ, zero, suc, ◌+◌, ◌≡◌, refl, ap, sym, ◌∙◌, inl, inr, Bool, true, false, List, [], ◌∷◌, Option,
  none, some, arith, if◌then◌else◌, Bool-cases, none-ne-some,
}
use mathlib.Core.Path.{subst}

-- A comparison of keys that returns 0 for equal keys alone.
pub record Keyed (A K : Type 0) : Type 0 where
  pub key : A → K
  pub same : K → K → Bool
  pub same_refl : (a : K) → same a a ≡ true
  pub eq_of_same : (a b : K) → same a b ≡ true → a ≡ b

-- A measure of the elements, added up.
abbrev pub sum : {A : Type 0} → (A → ℕ) → List A → ℕ
sum f [] = 0
sum f (x ∷ xs) = f x + sum f xs

abbrev pub All : {A : Type 0} → (A → Type 0) → List A → Type 0
All P [] = Unit {0}
All P (x ∷ xs) = P x × All P xs

pub All-map :
    {A : Type 0} (P Q : A → Type 0) (xs : List A) → ((x : A) → P x → Q x) → All P xs → All Q xs
All-map P Q [] f a = tt
All-map P Q (x ∷ xs) f a = (f x a.0, All-map P Q xs f a.1)

-- `stdskl_put` of a key that is not there, at position `n`.
abbrev pub insert_at : {A : Type 0} → ℕ → A → List A → List A
insert_at n x [] = x ∷ []
insert_at zero x (y ∷ ys) = x ∷ y ∷ ys
insert_at (suc n) x (y ∷ ys) = y ∷ insert_at n x ys

-- `stdskl_empty`, `stdarr_empty`
abbrev pub is_empty : {A : Type 0} → List A → Bool
is_empty [] = true
is_empty (x ∷ xs) = false

pub insert_at-nonempty :
    {A : Type 0} (n : ℕ) (x : A) (xs : List A) → is_empty (insert_at n x xs) ≡ false
insert_at-nonempty n x [] = refl
insert_at-nonempty zero x (y ∷ ys) = refl
insert_at-nonempty (suc n) x (y ∷ ys) = refl

module _ {A K : Type 0} ⦃k : Keyed A K⦄ where
  -- `stdskl_find`, and the key that its iterator points to
  unfoldable pub find : K → List A → Option A
  find q [] = none
  find q (x ∷ xs) = if k.same (k.key x) q then some x else find q xs

  -- `stdskl_find` and `stdskl_erase`
  unfoldable pub erase : K → List A → List A
  erase q [] = []
  erase q (x ∷ xs) = if k.same (k.key x) q then xs else x ∷ erase q xs

  -- A write through the pointer that was found.
  unfoldable pub assign : K → A → List A → List A
  assign q y [] = []
  assign q y (x ∷ xs) = if k.same (k.key x) q then y ∷ xs else x ∷ assign q y xs

  -- No element has the key.
  abbrev pub Fresh : K → List A → Type 0
  Fresh q xs = All (λ x. k.same (k.key x) q ≡ false) xs

abbrev pub Distinct : {A : Type 0} (K : Type 0) ⦃k : Keyed A K⦄ → List A → Type 0
Distinct K [] = Unit {0}
Distinct K ⦃k⦄ (x ∷ xs) = Fresh (k.key x) xs × Distinct K xs

pub All-insert_at :
    {A : Type 0} (P : A → Type 0) (n : ℕ) (x : A) (xs : List A)
    → P x
    → All P xs
    → All P (insert_at n x xs)
All-insert_at P n x [] p a = (p, tt)
All-insert_at P zero x (y ∷ ys) p a = (p, a)
All-insert_at P (suc n) x (y ∷ ys) p a = (a.0, All-insert_at P n x ys p a.1)

pub sum-insert_at :
    {A : Type 0} (f : A → ℕ) (n : ℕ) (x : A) (xs : List A)
    → sum f (insert_at n x xs) ≡ f x + sum f xs
sum-insert_at f n x [] = refl
sum-insert_at f zero x (y ∷ ys) = refl
sum-insert_at f (suc n) x (y ∷ ys) = omega (arith, sum-insert_at f n x ys)

module _ {A K : Type 0} ⦃k : Keyed A K⦄ where
  same_sym : (x : A) (q : K) → k.same (k.key x) q ≡ false → k.same q (k.key x) ≡ false
  same_sym x q h = ground (arith, k.eq_of_same q (k.key x), k.same_refl q)

  pub find-Fresh : (q : K) (xs : List A) → find q xs ≡ none → Fresh q xs
  unfolding find
  find-Fresh q [] h = tt
  find-Fresh q (x ∷ xs) h = elim (Bool-cases (k.same (k.key x) q)) [
    | inl hit ↦ absurd (none-ne-some {a = x} (ground arith))
    | inr miss ↦ (miss, find-Fresh q xs (ground arith))
  ]

  pub Fresh-find : (q : K) (xs : List A) → Fresh q xs → find q xs ≡ none
  unfolding find
  Fresh-find q [] h = refl
  Fresh-find q (x ∷ xs) h = rw h.0 (Fresh-find q xs h.1)

  pub key-find : (q : K) (xs : List A) (x : A) → find q xs ≡ some x → k.key x ≡ q
  unfolding find
  key-find q [] x h = absurd (none-ne-some h)
  key-find q (y ∷ ys) x h = ground (arith, k.eq_of_same (k.key y) q, key-find q ys x)

  pub All-find :
      (P : A → Type 0) (q : K) (xs : List A) (x : A) → find q xs ≡ some x → All P xs → P x
  unfolding find
  All-find P q [] x h a = absurd (none-ne-some h)
  All-find P q (y ∷ ys) x h a = elim (Bool-cases (k.same (k.key y) q)) [
    | inl hit ↦ subst P (ground arith) a.0
    | inr miss ↦ All-find P q ys x (ground arith) a.1
  ]

  pub All-erase : (P : A → Type 0) (q : K) (xs : List A) → All P xs → All P (erase q xs)
  unfolding erase
  All-erase P q [] a = tt
  All-erase P q (x ∷ xs) a =
      elim (k.same (k.key x) q) as (λ b. All P (if b then xs else x ∷ erase q xs)) [
        | true ↦ a.1
        | false ↦ (a.0, All-erase P q xs a.1)
      ]

  pub All-assign :
      (P : A → Type 0) (q : K) (y : A) (xs : List A) → P y → All P xs → All P (assign q y xs)
  unfolding assign
  All-assign P q y [] p a = tt
  All-assign P q y (x ∷ xs) p a =
      elim (k.same (k.key x) q) as (λ b. All P (if b then y ∷ xs else x ∷ assign q y xs)) [
        | true ↦ (p, a.1)
        | false ↦ (a.0, All-assign P q y xs p a.1)
      ]

  pub Distinct-insert_at :
      (n : ℕ) (q : K) (x : A) (xs : List A)
      → k.key x ≡ q
      → Fresh q xs
      → Distinct K xs
      → Distinct K (insert_at n x xs)
  Distinct-insert_at n q x [] e f d = (tt, tt)
  Distinct-insert_at zero q x (y ∷ ys) e f d = (subst (λ z. Fresh z (y ∷ ys)) (sym e) f, d)
  Distinct-insert_at (suc n) q x (y ∷ ys) e f d = (
    All-insert_at (λ z. k.same (k.key z) (k.key y) ≡ false) n x ys (rw e (same_sym y q f.0)) d.0,
    Distinct-insert_at n q x ys e f.1 d.1,
  )

  pub Distinct-erase : (q : K) (xs : List A) → Distinct K xs → Distinct K (erase q xs)
  unfolding erase
  Distinct-erase q [] d = tt
  Distinct-erase q (x ∷ xs) d =
      elim (k.same (k.key x) q) as (λ b. Distinct K (if b then xs else x ∷ erase q xs)) [
        | true ↦ d.1
        | false ↦
            (All-erase (λ z. k.same (k.key z) (k.key x) ≡ false) q xs d.0, Distinct-erase q xs d.1)
      ]

  pub erase-Fresh : (q : K) (xs : List A) → Distinct K xs → Fresh q (erase q xs)
  unfolding erase
  erase-Fresh q [] d = tt
  erase-Fresh q (x ∷ xs) d = elim (Bool-cases (k.same (k.key x) q)) [
    | inl hit ↦ rw hit (subst (λ z. Fresh z xs) (k.eq_of_same (k.key x) q hit) d.0)
    | inr miss ↦ rw miss (miss, erase-Fresh q xs d.1)
  ]

  pub Distinct-assign :
      (q : K) (y : A) (xs : List A) → k.key y ≡ q → Distinct K xs → Distinct K (assign q y xs)
  unfolding assign
  Distinct-assign q y [] e d = tt
  Distinct-assign q y (x ∷ xs) e d = elim (Bool-cases (k.same (k.key x) q)) [
    | inl hit ↦ rw hit (subst (λ z. Fresh z xs) (k.eq_of_same (k.key x) q hit ∙ sym e) d.0, d.1)
    | inr miss ↦ rw miss (
      All-assign (λ z. k.same (k.key z) (k.key x) ≡ false) q y xs (rw e (same_sym x q miss)) d.0,
      Distinct-assign q y xs e d.1,
    )
  ]

  pub sum-erase :
      (f : A → ℕ) (q : K) (x : A) (xs : List A)
      → find q xs ≡ some x
      → sum f (erase q xs) + f x ≡ sum f xs
  unfolding find erase
  sum-erase f q x [] h = absurd (none-ne-some h)
  sum-erase f q x (y ∷ ys) h = ground (arith, sum-erase f q x ys)

  pub sum-assign :
      (f : A → ℕ) (q : K) (x y : A) (xs : List A)
      → find q xs ≡ some x
      → sum f (assign q y xs) + f x ≡ sum f xs + f y
  unfolding find assign
  sum-assign f q x y [] h = absurd (none-ne-some h)
  sum-assign f q x y (z ∷ zs) h = ground (arith, sum-assign f q x y zs)

  pub find-insert_at :
      (n : ℕ) (q : K) (x : A) (xs : List A)
      → k.key x ≡ q
      → Fresh q xs
      → find q (insert_at n x xs) ≡ some x
  unfolding find
  find-insert_at n q x [] e f = rw (e, k.same_refl q) refl
  find-insert_at zero q x (y ∷ ys) e f = rw (e, k.same_refl q) refl
  find-insert_at (suc n) q x (y ∷ ys) e f = rw f.0 (find-insert_at n q x ys e f.1)

  pub find-assign :
      (q : K) (x y : A) (xs : List A)
      → find q xs ≡ some x
      → k.key y ≡ q
      → find q (assign q y xs) ≡ some y
  unfolding find assign
  find-assign q x y [] h e = absurd (none-ne-some h)
  find-assign q x y (z ∷ zs) h e = elim (Bool-cases (k.same (k.key z) q)) [
    | inl hit ↦ rw (hit, e, k.same_refl q) refl
    | inr miss ↦ rw (miss, miss) (find-assign q x y zs (ground arith) e)
  ]

  -- The write replaces the element that was put there just before.
  pub assign-insert_at :
      (n : ℕ) (q : K) (x y : A) (xs : List A)
      → k.key x ≡ q
      → Fresh q xs
      → assign q y (insert_at n x xs) ≡ insert_at n y xs
  unfolding assign
  assign-insert_at n q x y [] e f = rw (e, k.same_refl q) refl
  assign-insert_at zero q x y (z ∷ zs) e f = rw (e, k.same_refl q) refl
  assign-insert_at (suc n) q x y (z ∷ zs) e f =
      rw f.0 (ap (λ ws. z ∷ ws) (assign-insert_at n q x y zs e f.1))

  -- What was written is taken out again.
  pub erase-assign :
      (q : K) (y : A) (xs : List A) → k.key y ≡ q → erase q (assign q y xs) ≡ erase q xs
  unfolding erase assign
  erase-assign q y [] e = refl
  erase-assign q y (x ∷ xs) e = elim (Bool-cases (k.same (k.key x) q)) [
    | inl hit ↦ rw (hit, e, k.same_refl q) refl
    | inr miss ↦ rw (miss, miss) (ap (λ zs. x ∷ zs) (erase-assign q y xs e))
  ]
