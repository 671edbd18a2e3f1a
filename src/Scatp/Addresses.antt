-- ===== src/Scatp/Addresses.antt =====
-- The addresses that a cursor has before it, and how it moves over them.
use cd_praticas.Prelude.{
  ℕ, zero, suc, ◌+◌, ◌-◌, ◌≤◌, ◌<◌, ◌≡◌, refl, ◌∙◌, sym, ap, inl, inr, List, [], ◌∷◌, ◌++◌, ◌==◌,
  drop, arith, Bool-cases,
}
use cd_praticas.Scatp.Layout.{Scatter}
use cd_praticas.Scatp.Copy.{Cursor, within, past, next_cursor, advance_cursor, Memcpy}

-- `n` addresses from `a` on.
abbrev pub range : ℕ → ℕ → List ℕ
range a zero = []
range a (suc n) = a ∷ range (suc a) n

-- The addresses of the bytes of a scatter, and those from a cursor on.
abbrev pub flat : Scatter → List ℕ
flat [] = []
flat (x ∷ xs) = range x.buf x.len ++ flat xs

abbrev pub addresses : Cursor → List ℕ
addresses (within e a l r) = range a l ++ flat r
addresses (past e) = []

-- The first `n` addresses of two lists side by side, as far as both go.
abbrev pub pairs : ℕ → List ℕ → List ℕ → List (ℕ × ℕ)
pairs zero xs ys = []
pairs (suc n) [] ys = []
pairs (suc n) (x ∷ xs) [] = []
pairs (suc n) (x ∷ xs) (y ∷ ys) = (x, y) ∷ pairs n xs ys

-- The bytes that calls of `memcpy` copy, in their order: where to and where from.
abbrev pub moved : List Memcpy → List (ℕ × ℕ)
moved [] = []
moved (m ∷ ms) = pairs m.size (range m.dst m.size) (range m.src m.size) ++ moved ms

addresses-next_cursor : (r : Scatter) (e : ℕ) → addresses (next_cursor r e) ≡ flat r
unfolding next_cursor
addresses-next_cursor [] e = refl
addresses-next_cursor (x ∷ xs) e = elim (Bool-cases (x.len == 0)) [
  | inl empty ↦
      let none : x.len ≡ 0 = ground arith in rw (empty, none) (addresses-next_cursor xs (suc e))
  | inr some_bytes ↦ rw some_bytes refl
]

drop-range :
    (c a l : ℕ) (ys : List ℕ) → c ≤ l → drop c (range a l ++ ys) ≡ range (a + c) (l - c) ++ ys
drop-range zero a l ys le =
    let same_start : a + 0 ≡ a = omega arith in
    let same_size : l - 0 ≡ l = omega arith in rw (same_start, same_size) refl
drop-range (suc c) a zero ys le = absurd (omega arith)
drop-range (suc c) a (suc l) ys le =
    let same_start : suc a + c ≡ a + suc c = omega arith in
    let same_size : l - c ≡ suc l - suc c = omega arith in
    drop-range c (suc a) l ys (omega arith) ∙ rw (same_start, same_size) refl

pairs-none : (n : ℕ) (ys : List ℕ) → pairs n [] ys ≡ []
pairs-none zero ys = refl
pairs-none (suc n) ys = refl

none-pairs : (n : ℕ) (xs : List ℕ) → pairs n xs [] ≡ []
none-pairs zero xs = refl
none-pairs (suc n) [] = refl
none-pairs (suc n) (x ∷ xs) = refl

pub pairs-split :
    (c n : ℕ) (xs ys : List ℕ)
    → c ≤ n
    → pairs n xs ys ≡ pairs c xs ys ++ pairs (n - c) (drop c xs) (drop c ys)
pairs-split zero n xs ys le = let same : n - 0 ≡ n = omega arith in rw same refl
pairs-split (suc c) zero xs ys le = absurd (omega arith)
pairs-split (suc c) (suc n) [] ys le = sym (pairs-none (suc n - suc c) (drop (suc c) ys))
pairs-split (suc c) (suc n) (x ∷ xs) [] le = sym (none-pairs (suc n - suc c) (drop c xs))
pairs-split (suc c) (suc n) (x ∷ xs) (y ∷ ys) le =
    let same : suc n - suc c ≡ n - c = omega arith in
    rw same (ap (λ z. (x, y) ∷ z) (pairs-split c n xs ys (omega arith)))

pub pairs-range :
    (c a b l m : ℕ) (xs ys : List ℕ)
    → c ≤ l
    → c ≤ m
    → pairs c (range a l ++ xs) (range b m ++ ys) ≡ pairs c (range a c) (range b c)
pairs-range zero a b l m xs ys le le' = refl
pairs-range (suc c) a b zero m xs ys le le' = absurd (omega arith)
pairs-range (suc c) a b (suc l) zero xs ys le le' = absurd (omega arith)
pairs-range (suc c) a b (suc l) (suc m) xs ys le le' =
    ap (λ z. (a, b) ∷ z) (pairs-range c (suc a) (suc b) l m xs ys (omega arith) (omega arith))

pub addresses-advance_cursor :
    (c e a l : ℕ) (r : Scatter)
    → c ≤ l
    → addresses (advance_cursor c e a l r) ≡ drop c (range a l ++ flat r)
unfolding advance_cursor
addresses-advance_cursor c e a l r le = elim (Bool-cases (c == l)) [
  | inl all ↦
      let same : c ≡ l = ground arith in
      let nothing : l - c ≡ 0 = omega arith in
      let dropped : drop c (range a l ++ flat r) ≡ range (a + c) 0 ++ flat r =
        rw nothing at (drop-range c a l (flat r) le) in
      rw all (addresses-next_cursor r (suc e) ∙ sym dropped)
  | inr some_left ↦ rw some_left (sym (drop-range c a l (flat r) le))
]

-- A cursor in a buffer has a byte there.
abbrev pub IsOpen : Cursor → Type 0
IsOpen (within e a l r) = 0 < l
IsOpen (past e) = Unit {0}

next_cursor-IsOpen : (r : Scatter) (e : ℕ) → IsOpen (next_cursor r e)
unfolding next_cursor
next_cursor-IsOpen [] e = tt
next_cursor-IsOpen (x ∷ xs) e = elim (Bool-cases (x.len == 0)) [
  | inl empty ↦ rw empty (next_cursor-IsOpen xs (suc e))
  | inr some_bytes ↦ rw some_bytes (ground arith)
]

pub advance_cursor-IsOpen : (c e a l : ℕ) (r : Scatter) → c ≤ l → IsOpen (advance_cursor c e a l r)
unfolding advance_cursor
advance_cursor-IsOpen c e a l r le = elim (Bool-cases (c == l)) [
  | inl all ↦ rw all (next_cursor-IsOpen r (suc e))
  | inr some_left ↦ rw some_left (ground arith)
]

drop-nil : (i : ℕ) → drop {A = ℕ} i [] ≡ []
drop-nil zero = refl
drop-nil (suc i) = refl

pub drop-drop : (i j : ℕ) (xs : List ℕ) → drop i (drop j xs) ≡ drop (j + i) xs
drop-drop i zero xs = let same : 0 + i ≡ i = omega arith in rw same refl
drop-drop i (suc j) [] = let next : suc j + i ≡ suc (j + i) = omega arith in rw next (drop-nil i)
drop-drop i (suc j) (x ∷ xs) =
    let next : suc j + i ≡ suc (j + i) = omega arith in rw next (drop-drop i j xs)
