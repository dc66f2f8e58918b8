-- ===== src/Device/Buttons.antt =====
-- src/devices/controller.c, src/devices/mouse.c and their headers: bit masks of buttons, and the
-- input ports of the controllers and the mouse.
pub mod Bits
use mathlib.Core.Option
use buxn.Device.Vector.{call_vector}
use buxn.Prelude.{
  ℕ, ◌-◌, ◌/◌, ◌%◌, ◌^◌, Bool, true, false, not, Option, ◌==◌, if◌then◌else◌, u8, Bytes, update,
  bit_and, bit_or,
}
use buxn.Vm.State.{Host, Vm}
use buxn.Vm.Exec.{Hook}

-- `uint8_t mask = 1 << button; if (down) state |= mask; else state &= ~mask;`
unfoldable pub set_bit : ℕ → ℕ → Bool → ℕ
set_bit state button true = bit_or state (u8 (2 ^ button))
set_bit state button false = bit_and state (255 - u8 (2 ^ button))

-- `buxn_controller_t`
pub record Controller : Type 0 where
  pub buttons : Bytes
  pub ch : ℕ

-- `buxn_mouse_t`; the scroll offsets are the bit patterns of their `int16_t`.
pub record Mouse : Type 0 where
  pub x : ℕ
  pub y : ℕ
  pub state : ℕ
  pub scroll_x : ℕ
  pub scroll_y : ℕ

-- `buxn_controller_set_button`
unfoldable pub controller_set_button : Controller → ℕ → ℕ → Bool → Controller
unfolding set_bit
controller_set_button device index btn down = record device {
  buttons = update device.buttons index (set_bit (device.buttons index) btn down);
}

-- `buxn_mouse_set_button`
unfoldable pub mouse_set_button : Mouse → ℕ → Bool → Mouse
unfolding set_bit
mouse_set_button device button down = record device { state = set_bit device.state button down }

-- `buxn_mouse_check_button`: `(state & mask) > 0`
unfoldable pub mouse_check_button : Mouse → ℕ → Bool
mouse_check_button device button = not (bit_and device.state (u8 (2 ^ button)) == 0)

module _ {W : Type 0} where
  -- `buxn_controller_dei`
  unfoldable pub controller_dei : Vm W → Controller → ℕ → ℕ
  controller_dei vm device address =
      if address == 0x82
      then device.buttons 0
      else if address == 0x83
      then device.ch
      else if address == 0x85
      then device.buttons 1
      else if address == 0x86
      then device.buttons 2
      else if address == 0x87
      then device.buttons 3
      else vm.device address

  -- `buxn_mouse_dei`
  unfoldable pub mouse_dei : Vm W → Mouse → ℕ → ℕ
  mouse_dei vm device address =
      if address == 0x92
      then u8 (device.x / 256)
      else if address == 0x93
      then u8 device.x
      else if address == 0x94
      then u8 (device.y / 256)
      else if address == 0x95
      then u8 device.y
      else if address == 0x96
      then u8 device.state
      else if address == 0x9a
      then u8 (device.scroll_x / 256)
      else if address == 0x9b
      then u8 device.scroll_x
      else if address == 0x9c
      then u8 (device.scroll_y / 256)
      else if address == 0x9d
      then u8 device.scroll_y
      else vm.device address

-- The machine reads the controller through its ports: its host is a function of it.
module _ {W : Type 0} (host : Controller → Host W) (hook : Hook W) (fuel : ℕ) where
  -- `buxn_controller_send_button`
  unfoldable pub controller_send_button :
      ℕ → ℕ → Bool → Controller × Vm W → Option (Controller × Vm W)
  unfolding controller_set_button call_vector
  controller_send_button index btn down (device, vm) =
      let device' = controller_set_button device index btn down in
      Option.map (λ vm'. (device', vm')) (call_vector (host device') hook fuel 0x80 vm)

  -- `buxn_controller_send_char`: the character is there for the call only.
  unfoldable pub controller_send_char : ℕ → Controller × Vm W → Option (Controller × Vm W)
  unfolding call_vector
  controller_send_char ch (device, vm) =
      Option.map (λ vm'. (record device { ch = 0 }, vm'))
        (call_vector (host (record device { ch = ch })) hook fuel 0x80 vm)
