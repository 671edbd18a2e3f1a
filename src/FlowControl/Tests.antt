-- ===== src/FlowControl/Tests.antt =====
-- Runs of flow_control.c with the default windows, and its theorems there.
use cd_praticas.Prelude.{◌≤◌, ◌≡◌, refl, false, arith}
use cd_praticas.Prelude.Int.{pos, negsuc, ◌+ℤ◌, ◌-ℤ◌, ◌≤ℤ◌}
use cd_praticas.Protocol.Types.{op, is_evs}
use cd_praticas.FlowControl.{FlowControl, ConfWindows, allowed, init, to_int16}
use cd_praticas.FlowControl.Allowed.{allowed_fits, IsShown}

abbrev defaults : ConfWindows
defaults = record {
  window = pos 160;
  personal_window = pos 20;
  accelerated_ring = false;
  accelerated_window = pos 15;
}

abbrev running : FlowControl
running = record {
  window = pos 160;
  personal_window = pos 20;
  accelerated_ring = false;
  accelerated_window = pos 15;
  status_window = pos 160;
  status_personal_window = pos 20;
  status_accelerated_ring = false;
  status_accelerated_window = pos 15;
}

init_run : init defaults ≡ running
unfolding init
init_run = refl

allowed_run : allowed running op 100 90 (pos 170) ≡ pos 10
unfolding allowed ◌+ℤ◌ ◌-ℤ◌
allowed_run = refl

-- A window of 40000 does not fit an `int16`.
too_wide : to_int16 (pos 40000) ≡ negsuc 25535
unfolding to_int16
too_wide = refl

next_fits : pos 101 ≤ℤ pos 100 +ℤ allowed running op 100 90 (pos 170)
unfolding allowed ◌+ℤ◌ ◌-ℤ◌
next_fits = omega arith

allowed_fits_example : (is_evs op ≡ false) × (100 ≤ 1690) × (101 ≤ 8282)
allowed_fits_example =
    allowed_fits running op 100 90 101 (pos 170) (omega arith) (omega arith) (omega arith) next_fits

shown : IsShown running
shown = record {
  window = refl;
  personal_window = refl;
  accelerated_ring = refl;
  accelerated_window = refl;
}
