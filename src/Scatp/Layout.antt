-- ===== src/Scatp/Layout.antt =====
-- `scatter` and `scat_element` of include/sp.h, and the byte offsets of their entries.
use Prim.Native.Nat.add
use cd_praticas.Prelude.{
  ℕ, zero, suc, ◌+◌, ◌≤◌, ◌<◌, ◌≡◌, refl, List, [], ◌∷◌, length, drop, ap, arith,
}

-- A buffer is the address of its first byte and its length.
pub record ScatElement : Type 0 where
  pub buf : ℕ
  pub len : ℕ

-- `elements[0 .. num_elements)`; `num_elements` is the length of the list.
abbrev pub Scatter : Type 0
Scatter = List ScatElement

-- `elements[i].len`; the code reads it only at an index in range.
abbrev pub len_at : Scatter → ℕ → ℕ
len_at [] i = 0
len_at (x ∷ xs) zero = x.len
len_at (x ∷ xs) (suc i) = len_at xs i

-- The bytes that stand before entry `i`.
abbrev pub prefix : Scatter → ℕ → ℕ
prefix [] i = 0
prefix (x ∷ xs) zero = 0
prefix (x ∷ xs) (suc i) = x.len + prefix xs i

-- The bytes of the whole scatter.
abbrev pub total : Scatter → ℕ
total [] = 0
total (x ∷ xs) = x.len + total xs

pub prefix-zero : (s : Scatter) → prefix s 0 ≡ 0
prefix-zero [] = refl
prefix-zero (x ∷ xs) = refl

pub prefix-suc : (s : Scatter) (i : ℕ) → prefix s (suc i) ≡ prefix s i + len_at s i
prefix-suc [] i = refl
prefix-suc (x ∷ xs) zero = omega (arith, prefix-zero xs)
prefix-suc (x ∷ xs) (suc i) = omega (arith, prefix-suc xs i)

pub prefix-total : (s : Scatter) (i : ℕ) → length s ≤ i → prefix s i ≡ total s
prefix-total [] i h = refl
prefix-total (x ∷ xs) zero h = elim h [ ]
prefix-total (x ∷ xs) (suc i) h = omega (arith, prefix-total xs i (omega arith))

pub prefix-le-total : (s : Scatter) (i : ℕ) → prefix s i ≤ total s
prefix-le-total [] i = omega arith
prefix-le-total (x ∷ xs) zero = omega arith
prefix-le-total (x ∷ xs) (suc i) = omega (arith, prefix-le-total xs i)

pub prefix_mono : (s : Scatter) (i j : ℕ) → i ≤ j → prefix s i ≤ prefix s j
prefix_mono [] i j h = omega arith
prefix_mono (x ∷ xs) zero j h = omega arith
prefix_mono (x ∷ xs) (suc i) zero h = elim h [ ]
prefix_mono (x ∷ xs) (suc i) (suc j) h = omega (arith, prefix_mono xs i j (omega arith))

-- An offset inside entry `i` stays below every later entry.
pub prefix-below : (s : Scatter) (i j : ℕ) → i < j → prefix s i + len_at s i ≤ prefix s j
prefix-below s i j h = omega (arith, prefix-suc s i, prefix_mono s (suc i) j h)

pub prefix-drop : (s : Scatter) (e n : ℕ) → prefix s (e + n) ≡ prefix s e + prefix (drop e s) n
prefix-drop s zero n = omega (arith, prefix-zero s, ap (prefix s) (add.zero n))
prefix-drop [] (suc e) n = refl
prefix-drop (x ∷ xs) (suc e) n = rw add.suc (omega (arith, prefix-drop xs e n))

pub len_at-drop : (s : Scatter) (e n : ℕ) → len_at (drop e s) n ≡ len_at s (e + n)
len_at-drop s zero n = rw add.zero
len_at-drop [] (suc e) n = refl
len_at-drop (x ∷ xs) (suc e) n = rw add.suc (len_at-drop xs e n)
