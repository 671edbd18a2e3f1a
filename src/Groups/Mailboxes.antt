-- ===== src/Groups/Mailboxes.antt =====
-- The mailboxes of a group: `G_remove_mailbox`, and how often a mailbox stands in the list.
use cd_praticas.Prelude.{
  ℕ, zero, suc, ◌+◌, ◌<◌, ◌≡◌, refl, true, List, [], ◌∷◌, ◌++◌, arith, if◌then◌else◌, Bool-cases,
  inl, inr, Option, some, ◌==◌, get_elem?, none-ne-some, eq_of_some,
}
use cd_praticas.Membership.Select.{swap_remove, last_of, init_of}
use cd_praticas.Groups.Keyed.{is_empty, sum}
use cd_praticas.Groups.State.{Group}
use cd_praticas.Groups.Handlers.{mailbox_index, remove_mailbox}
use cd_praticas.Groups.Counts.{sum-append}

abbrev pub is_box : ℕ → ℕ → ℕ
is_box b m = if m == b then 1 else 0

unfoldable pub count_box : ℕ → List ℕ → ℕ
count_box b ms = sum (is_box b) ms

pub count_box-append :
    (b m : ℕ) (ms : List ℕ) → count_box b (ms ++ (m ∷ [])) ≡ count_box b ms + is_box b m
unfolding count_box
count_box-append b m ms = omega (arith, sum-append (is_box b) ms (m ∷ []))

-- A list without any mailbox is empty.
pub count_box-empty : (ms : List ℕ) → ((b : ℕ) → count_box b ms ≡ 0) → is_empty ms ≡ true
unfolding count_box
count_box-empty [] h = refl
count_box-empty (m ∷ ms) h = absurd (ground (arith, h m))

sum-last :
    (f : ℕ → ℕ) (x : ℕ) (xs : List ℕ) → f (last_of x xs) + sum f (init_of x xs) ≡ f x + sum f xs
sum-last f x [] = refl
sum-last f x (y ∷ ys) = omega (arith, sum-last f y ys)

sum-swap_remove :
    (f : ℕ → ℕ) (i m : ℕ) (xs : List ℕ)
    → get_elem? xs i ≡ some m
    → sum f (swap_remove i xs) + f m ≡ sum f xs
unfolding swap_remove
sum-swap_remove f i m [] e = absurd (none-ne-some e)
sum-swap_remove f zero m (y ∷ []) e = rw (eq_of_some e) (omega arith)
sum-swap_remove f zero m (y ∷ z ∷ zs) e = rw (eq_of_some e) (omega (arith, sum-last f z zs))
sum-swap_remove f (suc i) m (y ∷ ys) e = omega (arith, sum-swap_remove f i m ys e)

mailbox_index-found :
    (m : ℕ) (ms : List ℕ)
    → 0 < count_box m ms
    → (i : ℕ) × (mailbox_index m ms ≡ some i) × (get_elem? ms i ≡ some m)
unfolding count_box mailbox_index
mailbox_index-found m [] h = absurd (omega arith)
mailbox_index-found m (n ∷ ns) h = elim (Bool-cases (n == m)) [
  | inl hit ↦ (0, rw (mailbox_index, hit) refl, ground arith)
  | inr miss ↦
      let (i, e, g) = mailbox_index-found m ns (ground arith) in
      (suc i, rw (mailbox_index, miss, e) refl, g)
]

-- A mailbox that stands in the list is taken out of it once.
pub record BoxRemoved (m : ℕ) (g : Group) (r : Option Group) : Type 0 where
  pub mboxes : List ℕ
  pub returns : r ≡ some (record g { mboxes = mboxes })
  pub counts : (b : ℕ) → count_box b mboxes + is_box b m ≡ count_box b g.mboxes

pub remove_mailbox-BoxRemoved :
    (m : ℕ) (g : Group) → 0 < count_box m g.mboxes → BoxRemoved m g (remove_mailbox m g)
unfolding remove_mailbox count_box
remove_mailbox-BoxRemoved m g h =
    let (i, e, at_i) = mailbox_index-found m g.mboxes h in
    record {
      mboxes = swap_remove i g.mboxes;
      returns = rw e refl;
      counts = λ b. sum-swap_remove (is_box b) i m g.mboxes at_i;
    }
