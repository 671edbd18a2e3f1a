-- ===== src/FlowControl.antt =====
-- ProjetoFinal/spread/spread-src-5.0.1/daemon/flow_control.c: how many packets a daemon may send at
-- a visit of the token, and the monitor's request to change the windows.
pub mod Allowed
mod Tests
use cd_praticas.Prelude.{
  ℕ, zero, suc, ◌+◌, ◌-◌, ◌*◌, ◌/◌, ◌%◌, ◌^◌, List, [], ◌∷◌, Bool, true, false, not, ltb, ◌==◌,
  if◌then◌else◌,
}
use cd_praticas.Prelude.Int.{ℤ, pos, negsuc, pos_part, neg_part, ◌+ℤ◌, ◌-ℤ◌, ltb_ℤ, eqb_ℤ}
use cd_praticas.Protocol.Types.{MembState, is_evs}

-- The static variables, and the copies of them in `GlobalStatus`.
pub record FlowControl : Type 0 where
  pub window : ℤ
  pub personal_window : ℤ
  pub accelerated_ring : Bool
  pub accelerated_window : ℤ
  pub status_window : ℤ
  pub status_personal_window : ℤ
  pub status_accelerated_ring : Bool
  pub status_accelerated_window : ℤ

-- What configuration.c answers to the four questions of `FC_init`.
pub record ConfWindows : Type 0 where
  pub window : ℤ
  pub personal_window : ℤ
  pub accelerated_ring : Bool
  pub accelerated_window : ℤ

-- The value of a 16-bit pattern as an `int16`, and an `int` stored in an `int16`.
abbrev pub int16_of : ℕ → ℤ
int16_of w = if ltb w (2 ^ 15) then pos w else negsuc (2 ^ 16 - w - 1)

pub to_int16 : ℤ → ℤ
to_int16 x = int16_of ((pos_part x + (2 ^ 16 - neg_part x % 2 ^ 16)) % 2 ^ 16)

-- `Flip_int16`, on the bit pattern.
abbrev pub flip_int16 : ℕ → ℕ
flip_int16 w = (w / 2 ^ 8) % 2 ^ 8 + (w % 2 ^ 8) * 2 ^ 8

pub init : ConfWindows → FlowControl
unfolding to_int16
init c = record {
  window = to_int16 c.window;
  personal_window = to_int16 c.personal_window;
  accelerated_ring = c.accelerated_ring;
  accelerated_window = to_int16 c.accelerated_window;
  status_window = to_int16 c.window;
  status_personal_window = to_int16 c.personal_window;
  status_accelerated_ring = c.accelerated_ring;
  status_accelerated_window = to_int16 c.accelerated_window;
}

abbrev pub max_seq_gap : ℕ
max_seq_gap = 1600

-- `FC_allowed`; its second argument is not used in the source either.
pub allowed : FlowControl → MembState → ℕ → ℕ → ℤ → ℤ
allowed f state highest_seq aru flow_control =
    let free = f.window +ℤ f.personal_window -ℤ flow_control in
    let positive = if ltb_ℤ free (pos 0) then pos 0 else free in
    let below = if ltb_ℤ f.window positive then f.window else positive in
    let own = if ltb_ℤ f.personal_window below then f.personal_window else below in
    if is_evs state then pos 0 else if ltb (aru + max_seq_gap) highest_seq then pos 0 else own

-- The table of a monitor's message: a pair of 16-bit patterns for each process, and one more.
abbrev pub entry : List (ℕ × ℕ) → ℕ → ℕ × ℕ
entry [] i = (0, 0)
entry (x ∷ xs) zero = x
entry (x ∷ xs) (suc i) = entry xs i

-- -1 leaves a window as it is.
abbrev change : ℤ → ℤ → ℤ
change old new = if eqb_ℤ new (negsuc 0) then old else new

-- `FC_handle_message`. The arguments are the monitor's mode, `Conf_id_in_conf` of the sender,
-- `Same_endian`, the table, `Conf_num_procs` and the daemon's own index.
pub handle_message : Bool → ℤ → Bool → List (ℕ × ℕ) → ℕ → ℕ → FlowControl → FlowControl
handle_message dangerous sender same_endian table num_procs my_index f =
    let read = λ (w : ℕ). int16_of (if same_endian then w else flip_int16 w) in
    let window = change f.window (read (entry table num_procs).0) in
    let personal = change f.personal_window (read (entry table my_index).0) in
    let accelerated = change f.accelerated_window (read (entry table my_index).1) in
    if not dangerous then f else if ltb_ℤ sender (pos 0) then f else record f {
      window = window;
      personal_window = personal;
      accelerated_window = accelerated;
      status_window = window;
      status_personal_window = personal;
      status_accelerated_window = accelerated;
    }
