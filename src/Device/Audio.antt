-- ===== src/Device/Audio.antt =====
-- src/devices/audio.c, include/buxn/devices/audio.h: the output port of the audio device and the
-- messages that it sends, without the input ports, the envelope and the renderer of `float` samples.
pub mod Notes
use buxn.Prelude.{
  ℕ, ◌+◌, ◌-◌, ◌*◌, ◌/◌, ◌%◌, ◌^◌, Bool, true, false, not, ◌&&◌, ◌||◌, ltb, leb, ◌==◌,
  if◌then◌else◌, u8, u16, u32, Bytes, update, bit_or,
}
use buxn.Vm.State.{Vm, load2}

-- `buxn_audio_message_t`; `addr` is an address in the memory of the machine.
pub record AudioMessage : Type 0 where
  pub addr : ℕ
  pub adsr : ℕ
  pub len : ℕ
  pub pitch : ℕ
  pub repeats : Bool
  pub volume_0 : ℕ
  pub volume_1 : ℕ

-- `buxn_audio_t`
pub record Audio : Type 0 where
  pub sample_frequency : ℕ
  pub addr : ℕ
  pub count : ℕ
  pub advance : ℕ
  pub period : ℕ
  pub age : ℕ
  pub a : ℕ
  pub d : ℕ
  pub s : ℕ
  pub r : ℕ
  pub i : ℕ
  pub len : ℕ
  pub volume_0 : ℕ
  pub volume_1 : ℕ
  pub repeats : Bool

-- `BUXN_AUDIO_ADVANCES`
unfoldable pub advances : ℕ → ℕ
advances n =
    if n == 0
    then 0x80000
    else if n == 1
    then 0x879c8
    else if n == 2
    then 0x8facd
    else if n == 3
    then 0x9837f
    else if n == 4
    then 0xa1451
    else if n == 5
    then 0xaadc1
    else if n == 6
    then 0xb504f
    else if n == 7
    then 0xbfc88
    else if n == 8
    then 0xcb2ff
    else if n == 9
    then 0xd7450
    else if n == 10
    then 0xe411f
    else 0xf1a1c

-- `BUXN_AUDIO_ADVANCES[pitch % 12] >> (8 - pitch / 12)`
unfoldable pub advance_of : ℕ → ℕ
unfolding advances
advance_of pitch = advances (pitch % 12) / 2 ^ (8 - pitch / 12)

-- The envelope and the period of a note that is played.
unfoldable pub start_note : AudioMessage → Audio → Audio
unfolding advance_of
start_note message c =
    let note_period = u32 (c.sample_frequency * 0x4000) / 11025 in
    let adsr_step = c.sample_frequency / 0xf in
    let a = u32 (adsr_step * (message.adsr / 4096)) in
    let d = u32 (adsr_step * (message.adsr / 256 % 16) + a) in
    let s = u32 (adsr_step * (message.adsr / 16 % 16) + d) in
    let r = u32 (adsr_step * (message.adsr % 16) + s) in
    record c {
      advance = advance_of message.pitch;
      a = a;
      d = d;
      s = s;
      r = r;
      age = 0;
      i = 0;
      period =
          if leb message.len 0x100 then u32 (note_period * 337) / 2 / message.len else note_period;
    }

-- `buxn_audio_receive`
unfoldable pub receive : AudioMessage → Audio → Audio
unfolding start_note
receive message c =
    let c₁ = record c {
      len = message.len;
      addr = message.addr;
      volume_0 = message.volume_0;
      volume_1 = message.volume_1;
      repeats = message.repeats;
    } in
    if ltb message.pitch 108 && not (message.len == 0)
    then start_note message c₁
    else record c₁ { advance = 0 }

-- The message that a write to the port 0x0f of a page of ports makes.
unfoldable pub audio_message : Bytes → AudioMessage
unfolding load2
audio_message mem =
    let addr = load2 mem 0x0c 16 in
    let len = load2 mem 0x0a 16 in
    record {
      addr = addr;
      adsr = load2 mem 0x08 16;
      len = if ltb (65536 - addr) len then 65536 - addr else len;
      pitch = mem 0x0f % 128;
      repeats = ltb (mem 0x0f) 128;
      volume_0 = mem 0x0e / 16;
      volume_1 = mem 0x0e % 16;
    }

-- `buxn_audio_deo`; the host sends the message to its audio thread.
unfoldable pub audio_deo : {W : Type 0} → (AudioMessage → Vm W → Vm W) → ℕ → ℕ → Vm W → Vm W
unfolding audio_message
audio_deo send base port vm =
    if port == 0x0f then send (audio_message (λ i. vm.device (base + i))) vm else vm
