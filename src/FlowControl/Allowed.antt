-- ===== src/FlowControl/Allowed.antt =====
-- The bounds of `FC_allowed`, and what the status shows.
use cd_praticas.Prelude.{
  ℕ, ◌+◌, ◌≤◌, ◌<◌, ◌≡◌, refl, ◌⊎◌, inl, inr, List, Bool, false, ltb, arith, Bool-cases,
}
use cd_praticas.Prelude.Int.{ℤ, pos, ◌+ℤ◌, ◌-ℤ◌, ◌≤ℤ◌, int_laws, parts_of_eq}
use cd_praticas.Protocol.Types.{MembState, is_evs}
use cd_praticas.FlowControl.{FlowControl, ConfWindows, allowed, init, handle_message}

-- With windows that are not negative, what `FC_allowed` grants is between 0 and each of the two
-- windows, and either nothing or no more than keeps the ring's count within the sum of both.
pub allowed_bounds :
    (f : FlowControl) (state : MembState) (highest_seq aru : ℕ) (flow_control : ℤ)
    → pos 0 ≤ℤ f.window
    → pos 0 ≤ℤ f.personal_window
    → let n = allowed f state highest_seq aru flow_control in
      (pos 0 ≤ℤ n)
      × (n ≤ℤ f.window)
      × (n ≤ℤ f.personal_window)
      × ((n ≡ pos 0) ⊎ (n +ℤ flow_control ≤ℤ f.window +ℤ f.personal_window))
unfolding allowed ◌+ℤ◌ ◌-ℤ◌
allowed_bounds f state highest_seq aru flow_control hw hp = ground arith

allowed_gate :
    (f : FlowControl) (state : MembState) (highest_seq aru : ℕ) (flow_control : ℤ)
    → (allowed f state highest_seq aru flow_control ≡ pos 0)
      ⊎ (is_evs state ≡ false) × (highest_seq ≤ aru + 1600)
unfolding allowed
allowed_gate f state highest_seq aru flow_control = elim (Bool-cases (is_evs state)) [
  | inl e ↦ inl (rw e)
  | inr e ↦ elim (Bool-cases (ltb (aru + 1600) highest_seq)) [
    | inl far ↦ inl (rw (e, far))
    | inr near ↦ inr (e, ground arith)
  ]
]

allowed-le-window :
    (f : FlowControl) (state : MembState) (highest_seq aru : ℕ) (flow_control : ℤ)
    → pos 0 ≤ℤ f.window
    → allowed f state highest_seq aru flow_control ≤ℤ f.window
unfolding allowed
allowed-le-window f state highest_seq aru flow_control hw = ground arith

-- A daemon that may send is not in the state EVS and has the last packet at most 1600 above `Aru`; so
-- with a window of at most 6592, the numbers of its new packets stay within 8192 of `Aru`, as many
-- as there are entries for packets.
pub allowed_fits :
    (f : FlowControl) (state : MembState) (highest_seq aru seq : ℕ) (flow_control : ℤ)
    → pos 0 ≤ℤ f.window
    → f.window ≤ℤ pos 6592
    → highest_seq < seq
    → pos seq ≤ℤ pos highest_seq +ℤ allowed f state highest_seq aru flow_control
    → (is_evs state ≡ false) × (highest_seq ≤ aru + 1600) × (seq ≤ aru + 8192)
allowed_fits f state highest_seq aru seq flow_control hw hb lo hi =
    elim (allowed_gate f state highest_seq aru flow_control) [
      | inl nothing ↦ let z = parts_of_eq nothing in absurd (omega int_laws)
      | inr (up, gap) ↦
          let top = allowed-le-window f state highest_seq aru flow_control hw in
          (up, gap, omega int_laws)
    ]

-- The status shows the windows in use.
pub record IsShown (f : FlowControl) : Type 0 where
  pub window : f.status_window ≡ f.window
  pub personal_window : f.status_personal_window ≡ f.personal_window
  pub accelerated_ring : f.status_accelerated_ring ≡ f.accelerated_ring
  pub accelerated_window : f.status_accelerated_window ≡ f.accelerated_window

-- The status shows the windows in use from `FC_init` on, and after a message of a monitor if it did
-- before.
pub handle_message-IsShown :
    (dangerous : Bool) (sender : ℤ) (same_endian : Bool) (table : List (ℕ × ℕ))
    (num_procs my_index : ℕ) (f : FlowControl) (c : ConfWindows)
    → IsShown f
    → IsShown (init c)
      × IsShown (handle_message dangerous sender same_endian table num_procs my_index f)
unfolding init handle_message
handle_message-IsShown dangerous sender same_endian table num_procs my_index f c s = (
  record {
    window = refl;
    personal_window = refl;
    accelerated_ring = refl;
    accelerated_window = refl;
  },
  ground arith,
)
