-- ===== src/Scatp/Tests.antt =====
-- Runs of scatp.c on a scatter of buffers of 3, 0 and 4 bytes, and its theorems at that scatter.
use cd_praticas.Prelude.{
  false, ◌≤◌, drop, ◌==◌, if◌then◌else◌, ℕ, ◌<◌, ◌≡◌, refl, ◌⊎◌, true, [], ◌∷◌,
}
use cd_praticas.Prelude.Int.{pos, negsuc, ◌+ℤ◌, ◌-ℤ◌, ◌<ℤ◌}
use cd_praticas.Scatp.Layout.{Scatter}
use cd_praticas.Scatp.Copy.{adv_cpy0, copy_bytes, copy_loop, advance_cursor, next_cursor}
use cd_praticas.Scatp.Addresses.{moved, pairs}
use cd_praticas.Scatp.Copying.{bytes_from, adv_cpy0-moved}
use cd_praticas.Scatp.{
  Scatp, is_true, seek_set, seek_end, is_legal, is_not_legal, is_end, skip_backward, backward_to,
  forward_from, jforward, jbackward, jump, seek, end, comp, sum_lens,
}
use cd_praticas.Scatp.Offset.{offset}
use cd_praticas.Scatp.Forward.{Forward, jforward-Forward}
use cd_praticas.Scatp.Seek.{Sought, seek_lem}
use cd_praticas.Scatp.Compare.{comp_order, comp_distance}

abbrev three : Scatter
three =
    record { buf = 1000; len = 3 }
    ∷ record { buf = 2000; len = 0 }
    ∷ record { buf = 3000; len = 4 }
    ∷ []

abbrev store : ℕ → Scatter
store a = three

abbrev at : ℕ → ℕ → Scatp
at e b = record { scat = 7; elem_ind = pos e; buff_ind = pos b }

at-legal : is_legal store (at 0 2) ≡ true
unfolding is_legal
at-legal = refl

late-legal : is_legal store (at 2 1) ≡ true
unfolding is_legal
late-legal = refl

-- The jump goes over the empty buffer.
forward_run : jforward store (at 0 2) (pos 3) ≡ (pos 3, at 2 2)
unfolding jforward forward_from is_end is_not_legal
forward_run = refl

forward_short : jforward store (at 0 2) (pos 9) ≡ (pos 5, at 0 2)
unfolding jforward forward_from is_end is_not_legal ◌-ℤ◌
forward_short = refl

backward_run : jbackward store (at 2 2) (pos 3) ≡ (pos 3, at 0 2)
unfolding jbackward skip_backward backward_to is_not_legal
backward_run = refl

seek_run : seek store (at 0 2) (negsuc 1) seek_end ≡ (pos 0, at 2 2)
unfolding seek jump jbackward skip_backward backward_to is_not_legal end ◌-ℤ◌
seek_run = refl

-- Four bytes lie between the two positions; the code says three.
comp_run : comp store (at 2 1) (at 0 0) ≡ pos 3
unfolding comp is_not_legal ◌-ℤ◌ ◌+ℤ◌ sum_lens
comp_run = refl

jforward-Forward_example :
    Forward store (at 0 2) 3 (jforward store (at 0 2) (pos 3))
    × (is_legal store (jforward store (at 0 2) (pos 3)).1 ≡ true)
jforward-Forward_example = jforward-Forward store (at 0 2) 3 at-legal

seek_lem_example : Sought store (at 2 1) 0 (pos 5) (seek store (at 2 1) (pos 5) seek_set)
seek_lem_example = seek_lem store (at 2 1) (pos 5) seek_set late-legal (λ e. cc e)

comp_order_example :
    (offset store (at 2 1) < offset store (at 0 2)) × (comp store (at 2 1) (at 0 2) <ℤ pos 0)
    ⊎ (at 2 1 ≡ at 0 2) × (comp store (at 2 1) (at 0 2) ≡ pos 0)
    ⊎ (offset store (at 0 2) < offset store (at 2 1)) × (pos 0 <ℤ comp store (at 2 1) (at 0 2))
comp_order_example = comp_order store (at 2 1) (at 0 2) late-legal at-legal refl

comp_distance_example :
    (pos 2 ≡ pos 0) × (comp store (at 2 1) (at 0 2) +ℤ pos 2 ≡ pos 4)
    ⊎ (pos 2 <ℤ pos 0) × (comp store (at 2 1) (at 0 2) +ℤ pos 2 ≡ pos 4 +ℤ pos 2)
    ⊎ (pos 0 <ℤ pos 2) × (comp store (at 2 1) (at 0 2) +ℤ pos 2 +ℤ pos 1 ≡ pos 4)
comp_distance_example = comp_distance store (at 2 1) (at 0 2) late-legal at-legal refl

-- Five bytes from the one scatter to another, in three calls of `memcpy`.
abbrev two_stores : ℕ → Scatter
two_stores a =
    if a == 7 then three else record { buf = 5000; len = 4 } ∷ record { buf = 6000; len = 2 } ∷ []

abbrev target : Scatp
target = record { scat = 8; elem_ind = pos 0; buff_ind = pos 1 }

copy_run :
    (adv_cpy0 two_stores target (at 0 2) (pos 4) true true).calls
    ≡ record { dst = 5001; src = 1002; size = 1 }
      ∷ record { dst = 5002; src = 3000; size = 2 }
      ∷ record { dst = 6000; src = 3002; size = 1 }
      ∷ []
unfolding adv_cpy0 copy_bytes copy_loop advance_cursor next_cursor is_end is_not_legal
copy_run = refl

target-legal :
    (is_not_legal two_stores target ≡ false) × (is_true (is_end two_stores target) ≡ false)
unfolding is_not_legal is_end
target-legal = (refl, refl)

source-legal :
    (is_not_legal two_stores (at 0 2) ≡ false) × (is_true (is_end two_stores (at 0 2)) ≡ false)
unfolding is_not_legal is_end
source-legal = (refl, refl)

adv_cpy0-moved_example :
    (k : ℕ) × ((adv_cpy0 two_stores target (at 0 2) (pos 4) true true).ret ≡ pos k)
    × (k ≤ 4)
    × (moved (adv_cpy0 two_stores target (at 0 2) (pos 4) true true).calls
        ≡ pairs k (bytes_from two_stores target) (bytes_from two_stores (at 0 2)))
    × ((k ≡ 4)
        ⊎ (drop k (bytes_from two_stores target) ≡ [])
        ⊎ (drop k (bytes_from two_stores (at 0 2)) ≡ []))
adv_cpy0-moved_example =
    adv_cpy0-moved two_stores target (at 0 2) 4 true true target-legal.0 source-legal.0
      target-legal.1 source-legal.1
