-- ===== src/Device/Tests.antt =====
-- src/devices: the devices at concrete inputs.
use mathlib.Core.Option
use buxn.Vm.State.{dev_load2, load2}
use buxn.Device.Screen.{Screen, draw_pixel}
use buxn.Device.Screen.Sprites.{draw_port}
use buxn.Device.Screen.Colors.{DrawnWithin, draw-DrawnWithin}
use buxn.Device.Audio.{Audio, receive, audio_message}
use buxn.Device.Audio.Notes.{Playable, receive-audio_message}
use buxn.Prelude.{
  Bytes, ◌*◌, ◌-◌, ◌+◌, ltb, ◌≤◌, arith, ◌&&◌, ◌==◌, leb, true, if◌then◌else◌, false, ◌∷◌, AllBytes,
  [], none, List, ◌≡◌, ℕ, refl, inl,
}
use buxn.Vm.Tests.{at-AllBytes, quiet, at, boot}
use buxn.Vm.State.{Vm}
use buxn.Device.System.{bank_address, nibble, clamp_start, fill, expand, palette, copy}
use buxn.Device.Buttons.Bits.{controller_set_button_lem, mouse_check_button-mouse_set_button, bit}
use buxn.Device.Console.{send_args, Console}
use buxn.Device.Buttons.{
  controller_set_button, mouse_set_button, mouse_check_button, Mouse, Controller,
}
use buxn.Device.System.Expansion.{
  copy-memmove_up, copy-memmove_down, fill_lem, moved, target, source, expand_outside,
}
use buxn.Device.System.Palette.{palette-doubled, doubled}
use buxn.Device.System.Copy.{memmove}
use buxn.Device.Console.Args.{send_args-deliver, separated, deliver, set_argv}

abbrev bytes_code : List ℕ
bytes_code =
    0x01 ∷ 0x00 ∷ 0x03 ∷ 0x00 ∷ 0x00 ∷ 0x02 ∷ 0x01 ∷ 0x00 ∷ 0x00 ∷ 0x02 ∷ 0x00 ∷ 7 ∷ 8 ∷ 9 ∷ []

-- At 0x01f6, the command 0x01 that moves three bytes from 0x0201 to 0x0200.
abbrev mover : Vm (Unit {0})
mover = record (boot (at 0x1f6 bytes_code)) { device = at 2 (1 ∷ 0xf6 ∷ []) }

moves : ((expand mover).memory 0x200 ≡ 7) × ((expand mover).memory 0x202 ≡ 9)
unfolding expand load2
moves = (refl, refl)

mover_order : target mover 0x1f6 3 ≤ source mover 0x1f6 3
unfolding clamp_start bank_address load2
mover_order = omega arith

copy-memmove_up_example :
    (copy mover 1 0x1f6 3).memory 0x201
    ≡ memmove (source mover 0x1f6 3) (target mover 0x1f6 3) (moved mover 0x1f6 3) mover.memory 0x201
copy-memmove_up_example =
    copy-memmove_up mover 0x1f6 3 (omega arith) (omega arith) (omega arith) (inl mover_order) 0x201

-- The same bytes with the addresses the other way round.
abbrev back_code : List ℕ
back_code =
    0x02 ∷ 0x00 ∷ 0x03 ∷ 0x00 ∷ 0x00 ∷ 0x02 ∷ 0x00 ∷ 0x00 ∷ 0x00 ∷ 0x02 ∷ 0x01 ∷ 7 ∷ 8 ∷ 9 ∷ []

abbrev back : Vm (Unit {0})
back = record (boot (at 0x1f6 back_code)) { device = at 2 (1 ∷ 0xf6 ∷ []) }

back_order : source back 0x1f6 3 ≤ target back 0x1f6 3
unfolding clamp_start bank_address load2
back_order = omega arith

copy-memmove_down_example :
    (copy back 2 0x1f6 3).memory 0x203
    ≡ memmove (source back 0x1f6 3) (target back 0x1f6 3) (moved back 0x1f6 3) back.memory 0x203
copy-memmove_down_example =
    copy-memmove_down back 0x1f6 3 (omega arith) (omega arith) (omega arith) (inl back_order) 0x203

fill_lem_example : (fill mover 0x1f6 3).memory 0x202 ≡ (
    if leb (source mover 0x1f6 3) 0x202
      && (ltb 0x202 (source mover 0x1f6 3 + 3) && ltb 0x202 mover.memory_size)
    then mover.memory (0x1f6 + 7)
    else mover.memory 0x202)
fill_lem_example = fill_lem mover 0x1f6 3 (omega arith) (omega arith) (omega arith) 0x202

bytes_code-AllBytes : AllBytes (at 0x1f6 bytes_code)
bytes_code-AllBytes = at-AllBytes 0x1f6 bytes_code (omega arith)

expand_outside_example : (expand mover).memory 65536 ≡ mover.memory 65536
expand_outside_example =
    expand_outside mover (omega arith) (omega arith) bytes_code-AllBytes 65536 (omega arith)

-- The theme 0x0123 for red, 0x4567 for green and 0x89ab for blue.
abbrev themed : Vm (Unit {0})
themed = record (boot (at 0 [])) { device = at 8 (0x01 ∷ 0x23 ∷ 0x45 ∷ 0x67 ∷ 0x89 ∷ 0xab ∷ []) }

palette-doubled_example :
    palette themed 3
    ≡ doubled
        (nibble (dev_load2 themed 8) (12 - 4 * 3))
        (nibble (dev_load2 themed 10) (12 - 4 * 3))
        (nibble (dev_load2 themed 12) (12 - 4 * 3))
palette-doubled_example = palette-doubled themed 3 (omega arith)

-- The arguments "a" and "b".
abbrev console : Console
console = record { argv = (97 ∷ []) ∷ (98 ∷ []) ∷ []; type = 1; value = 0 }

send_args-deliver_example :
    send_args (λ _ _. quiet) none 5 (console, boot (at 0 []))
    ≡ Option.map
        (set_argv [])
        (deliver (λ _ _. quiet) none 5 (separated console.argv) (console, boot (at 0 [])))
send_args-deliver_example = send_args-deliver (λ _ _. quiet) none 5 console (boot (at 0 []))

abbrev mouse : Mouse
mouse = record { x = 0; y = 0; state = 0x85; scroll_x = 0; scroll_y = 0 }

mouse_check_button-mouse_set_button_example :
    mouse_check_button (mouse_set_button mouse 2 false) 7
    ≡ (if 2 == 7 then false else mouse_check_button mouse 7)
mouse_check_button-mouse_set_button_example =
    mouse_check_button-mouse_set_button mouse 2 7 false (omega arith) (omega arith) (omega arith)

abbrev controller : Controller
controller = record { buttons = at 0 (0 ∷ 0x81 ∷ []); ch = 0 }

controller_set_button_lem_example :
    bit ((controller_set_button controller 1 3 true).buttons 1) 7
    ≡ (if 1 == 1 && 3 == 7 then true else bit (controller.buttons 1) 7)
controller_set_button_lem_example =
    controller_set_button_lem controller 1 1 3 7 true (omega arith) (omega arith) (omega arith)

-- The note 60, with 0x0100 samples from 0xfff0 on.
abbrev ports : Bytes
ports = at 8 (0x12 ∷ 0x34 ∷ 0x01 ∷ 0x00 ∷ 0xff ∷ 0xf0 ∷ 0xff ∷ 60 ∷ [])

abbrev silent : Audio
silent = record {
  sample_frequency = 44100;
  addr = 0;
  count = 0;
  advance = 0;
  period = 0;
  age = 0;
  a = 0;
  d = 0;
  s = 0;
  r = 0;
  i = 0;
  len = 0;
  volume_0 = 0;
  volume_1 = 0;
  repeats = false;
}

note_plays : (receive (audio_message ports) silent).advance ≡ 65536
unfolding receive audio_message
note_plays = refl

receive-audio_message_example : Playable (receive (audio_message ports) silent)
receive-audio_message_example =
    receive-audio_message ports silent
      (at-AllBytes 8 (0x12 ∷ 0x34 ∷ 0x01 ∷ 0x00 ∷ 0xff ∷ 0xf0 ∷ 0xff ∷ 60 ∷ []) (omega arith))
      (omega arith) (λ e. absurd (omega (arith, e, note_plays)))

abbrev blank_screen : Screen
blank_screen = record {
  rx = 3;
  ry = 4;
  ra = 0x1000;
  rmx = true;
  rmy = false;
  rma = true;
  rml = 2;
  width = 64;
  height = 48;
  fg_dirty_rect = record { x1 = 0; y1 = 0; x2 = 0; y2 = 0 };
  bg_dirty_rect = record { x1 = 0; y1 = 0; x2 = 0; y2 = 0 };
  fg = λ i. 0;
  bg = λ i. 0;
}

-- Three pixels behind a position, and the next position.
abbrev probe : Screen → List ℕ
probe t = t.bg (11 + 12 * 80) ∷ t.bg (12 + 12 * 80) ∷ t.bg (18 + 12 * 80) ∷ t.rx ∷ []

-- A line of a sprite: its dots are drawn in the color 1, and the position moves on.
sprite_drawn :
    probe (draw_port (λ i. if i == 0x1000 then 0x81 else 0) 0x01 blank_screen) ≡ 1 ∷ 0 ∷ 1 ∷ 11 ∷ []
unfolding draw_port
sprite_drawn = refl

draw-DrawnWithin_example :
    DrawnWithin blank_screen (draw_pixel 0x45 blank_screen)
    × DrawnWithin blank_screen (draw_port (λ i. 0xff) 0x45 blank_screen)
draw-DrawnWithin_example =
    draw-DrawnWithin (λ i. 0xff) 0x45 blank_screen (λ i. omega arith, λ i. omega arith)
