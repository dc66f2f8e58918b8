-- ===== src/Device/Console.antt =====
-- src/devices/console.c, include/buxn/devices/console.h: the console device.
pub mod Args
use mathlib.Core.Option
use buxn.Prelude.{
  ℕ, zero, suc, ◌==◌, if◌then◌else◌, not, Bool, true, false, Option, none, some, List, [], ◌∷◌,
}
use buxn.Vm.State.{Vm, Host, dev_load2}
use buxn.Vm.Exec.{Hook}
use buxn.Device.Vector.{exec_vector}

abbrev pub console_stdin : ℕ
console_stdin = 1

abbrev pub console_arg : ℕ
console_arg = 2

abbrev pub console_arg_sep : ℕ
console_arg_sep = 3

abbrev pub console_end : ℕ
console_end = 4

-- `buxn_console_t`. `argv` holds the arguments left, without their final zero; `argc` is their count.
pub record Console : Type 0 where
  pub argv : List (List ℕ)
  pub type : ℕ
  pub value : ℕ

-- `buxn_console_init`: whether arguments will follow.
unfoldable pub console_init : List (List ℕ) → ℕ → Console
console_init [] value = record { argv = []; type = 0; value = value }
console_init (arg ∷ argv) value = record { argv = arg ∷ argv; type = 1; value = value }

-- What the host provides for the console: the handlers of its two output ports.
pub record ConsoleHost (W : Type 0) : Type 0 where
  pub handle_write : Vm W → Console → ℕ → Vm W
  pub handle_error : Vm W → Console → ℕ → Vm W

module _ {W : Type 0} where
  -- `buxn_console_dei`
  unfoldable pub console_dei : Vm W → Console → ℕ → ℕ
  console_dei vm device address =
      if address == 0x12
      then device.value
      else if address == 0x17
      then device.type
      else vm.device address

  -- `buxn_console_deo`
  unfoldable pub console_deo : ConsoleHost W → Vm W → Console → ℕ → Vm W
  console_deo handlers vm device address =
      if address == 0x18
      then handlers.handle_write vm device (vm.device address)
      else if address == 0x19
      then handlers.handle_error vm device (vm.device address)
      else vm

  -- `buxn_console_should_send_input`
  unfoldable pub should_send_input : Vm W → Bool
  unfolding dev_load2
  should_send_input vm = not (dev_load2 vm 0x10 == 0)

infixl 5 ◌>>=◌
abbrev pub ◌>>=◌ :
    {W : Type 0}
    → Option (Console × Vm W)
    → (Console × Vm W → Option (Console × Vm W))
    → Option (Console × Vm W)
none >>= f = none
some s >>= f = f s

-- The machine reaches the console only through its ports, which read the type and the value and
-- change neither: its host is a function of the two. A call gives none if a run of the vector does
-- not return within the fuel.
module _ {W : Type 0} (host : ℕ → ℕ → Host W) (hook : Hook W) (fuel : ℕ) where
  -- `buxn_console_send_data`
  unfoldable pub send_data : ℕ → ℕ → Console × Vm W → Option (Console × Vm W)
  unfolding exec_vector dev_load2
  send_data type value (device, vm) =
      Option.map (λ vm'. (record device { type = type; value = value }, vm'))
        (exec_vector (host type value) hook fuel vm (dev_load2 vm 0x10))

  -- The inner loop: one argument, of which `rest` follow.
  unfoldable pub send_arg : List ℕ → List (List ℕ) → Console × Vm W → Option (Console × Vm W)
  send_arg (ch ∷ chars) rest s = do s' ← send_data console_arg ch s; send_arg chars rest s'
  send_arg [] [] s = send_data console_end 10 s
  send_arg [] (_ ∷ _) s = send_data console_arg_sep 10 s

  -- `--device->argc; ++device->argv;`
  unfoldable pub next_arg : List (List ℕ) → Console × Vm W → Option (Console × Vm W)
  next_arg rest (device, vm) = some (record device { argv = rest }, vm)

  -- The outer loop over the arguments left.
  unfoldable pub send_argv : List (List ℕ) → Console × Vm W → Option (Console × Vm W)
  unfolding send_arg next_arg
  send_argv [] s = some s
  send_argv (arg ∷ rest) s = do s' ← send_arg arg rest s; s'' ← next_arg rest s'; send_argv rest s''

  -- `buxn_console_send_args`
  unfoldable pub send_args : Console × Vm W → Option (Console × Vm W)
  unfolding send_argv
  send_args (device, vm) = send_argv device.argv (device, vm)

  -- `buxn_console_send_input` and `buxn_console_send_input_end`
  unfoldable pub send_input : ℕ → Console × Vm W → Option (Console × Vm W)
  unfolding send_data
  send_input c s = send_data console_stdin c s

  unfoldable pub send_input_end : Console × Vm W → Option (Console × Vm W)
  unfolding send_data
  send_input_end s = send_data console_end 0 s
