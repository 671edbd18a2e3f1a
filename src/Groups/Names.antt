-- ===== src/Groups/Names.antt =====
-- Names of groups and of their members in groups.c and session.c: the characters before the terminating nul.
use cd_praticas.Prelude.{
  ℕ, zero, suc, ◌+◌, ◌-◌, ◌≤◌, ◌<◌, ◌≡◌, refl, ap, Bool, true, false, not, ◌&&◌, ◌||◌, List, [],
  ◌∷◌, ◌++◌, Option, none, some, arith, if◌then◌else◌, Bool-cases, ◌==◌, ltb, leb, length, take,
  length-append, ◌>>=◌, >>=-eq-some, sym, inl, inr, Option-cases,
}
use cd_praticas.Configuration.{same_name}

abbrev pub max_private_name : ℕ
max_private_name = 10

-- With the terminating nul.
abbrev pub max_proc_name : ℕ
max_proc_name = 20

-- With the terminating nul.
abbrev pub max_group_name : ℕ
max_group_name = 1 + max_private_name + 1 + max_proc_name

abbrev hash : ℕ
hash = 35

abbrev tilde : ℕ
tilde = 126

-- `snprintf( …, MAX_GROUP_NAME, "#%s#%s", name, proc )`
unfoldable pub private_group_name : List ℕ → List ℕ → List ℕ
private_group_name name proc = take (max_group_name - 1) (hash ∷ (name ++ (hash ∷ proc)))

-- The characters before the first '#' and those after it: `strchr` and the nul that is put there.
unfoldable pub split_hash : List ℕ → Option (List ℕ × List ℕ)
split_hash [] = none
split_hash (c ∷ cs) = elim (c == hash) [
  | true ↦ some ([], cs)
  | false ↦ elim (split_hash cs) [ none ↦ none | some (a, b) ↦ some (c ∷ a, b) ]
]

-- No character is at most '#' or above '~'.
unfoldable pub legal_name : List ℕ → Bool
legal_name [] = true
legal_name (c ∷ cs) = not (leb c hash || ltb tilde c) && legal_name cs

abbrev is_length : ℕ → ℕ → Bool
is_length most n = not (ltb most n) && not (ltb n 1)

-- `none`: ILLEGAL_GROUP. `c` is the first character.
unfoldable pub legal_names : ℕ → List ℕ × List ℕ → Option (List ℕ × List ℕ)
legal_names c (name, proc) =
    if not (c == hash)
      || not (is_length max_private_name (length name))
      || not (is_length (max_proc_name - 1) (length proc))
    then none
    else if legal_name name && legal_name proc
    then some (name, proc)
    else none

unfoldable pub private_to_names : List ℕ → Option (List ℕ × List ℕ)
private_to_names [] = none
private_to_names (c ∷ cs) = split_hash cs >>= legal_names c

ne_of_legal :
    (c : ℕ) (b : Bool) → (not (leb c hash || ltb tilde c) && b) ≡ true → (c == hash) ≡ false
ne_of_legal c b h = ground arith

legal_tail : (c : ℕ) (b : Bool) → (not (leb c hash || ltb tilde c) && b) ≡ true → b ≡ true
legal_tail c b h = ground arith

split_hash-append :
    (name proc : List ℕ)
    → legal_name name ≡ true
    → split_hash (name ++ (hash ∷ proc)) ≡ some (name, proc)
unfolding split_hash legal_name
split_hash-append [] proc h = refl
split_hash-append (c ∷ cs) proc h =
    rw
      (
        split_hash,
        ne_of_legal c (legal_name cs) h,
        split_hash-append cs proc (legal_tail c (legal_name cs) h),
      )
      refl

take_all : (n : ℕ) (xs : List ℕ) → length xs ≤ n → take n xs ≡ xs
take_all zero [] h = refl
take_all zero (x ∷ xs) h = absurd (omega arith)
take_all (suc n) [] h = refl
take_all (suc n) (x ∷ xs) h = ap (λ ys. x ∷ ys) (take_all n xs (omega arith))

-- A session's private name and the daemon's name, each of legal characters, not empty, and of at most
-- 10 and 19 characters, are read back from the private group name that the session is given.
pub private_to_names-private_group_name :
    (name proc : List ℕ)
    → legal_name name ≡ true
    → legal_name proc ≡ true
    → (0 < length name) × (length name ≤ 10)
    → (0 < length proc) × (length proc ≤ 19)
    → private_to_names (private_group_name name proc) ≡ some (name, proc)
unfolding private_to_names private_group_name legal_names
private_to_names-private_group_name name proc n p ln lp =
    rw
      (
        take_all 30 (name ++ (hash ∷ proc)) (omega (arith, length-append name (hash ∷ proc))),
        private_to_names,
        split_hash-append name proc n,
        legal_names,
      )
      (ground (arith, n, p))

split_hash-inverse : (cs a b : List ℕ) → split_hash cs ≡ some (a, b) → cs ≡ a ++ (hash ∷ b)
unfolding split_hash
split_hash-inverse [] a b e = cc
split_hash-inverse (c ∷ cs) a b e = elim (Bool-cases (c == hash)) [
  | inl hit ↦ ground arith
  | inr miss ↦ elim (Option-cases (split_hash cs)) [
    | inl none_found ↦ ground arith
    | inr ((x, y), found) ↦ ground (arith, split_hash-inverse cs x y)
  ]
]

legal_names-inverse :
    (c : ℕ) (p : List ℕ × List ℕ) (name proc : List ℕ)
    → legal_names c p ≡ some (name, proc)
    → (c ≡ hash) × (p ≡ (name, proc)) × (length name ≤ 10) × (length proc ≤ 19)
unfolding legal_names
legal_names-inverse c (a, b) name proc h = ground arith

-- Where a name is read, it is '#', a private name of at most 10 characters, '#' and a daemon's name of at
-- most 19 characters.
pub private_to_names-inverse :
    (group name proc : List ℕ)
    → private_to_names group ≡ some (name, proc)
    → (group ≡ hash ∷ (name ++ (hash ∷ proc))) × (length name ≤ 10) × (length proc ≤ 19)
unfolding private_to_names
private_to_names-inverse [] name proc e = cc
private_to_names-inverse (c ∷ cs) name proc e =
    let (p, split, h) = >>=-eq-some (split_hash cs) (legal_names c) e in
    let (is_hash, parts, ln, lp) = legal_names-inverse c p name proc h in
    let cs_eq = split_hash-inverse cs name proc (rw (sym parts) split) in
    (rw (is_hash, cs_eq) refl, ln, lp)

pub same_name_refl : (a : List ℕ) → same_name a a ≡ true
unfolding same_name
same_name_refl [] = refl
same_name_refl (x ∷ xs) = ground (arith, same_name_refl xs)

pub eq_of_same_name : (a b : List ℕ) → same_name a b ≡ true → a ≡ b
unfolding same_name
eq_of_same_name [] [] h = refl
eq_of_same_name [] (y ∷ ys) h = cc
eq_of_same_name (x ∷ xs) [] h = cc
eq_of_same_name (x ∷ xs) (y ∷ ys) h = ground (arith, eq_of_same_name xs ys)
