-- ===== src/Device/Audio/Notes.antt =====
-- src/devices/audio.c: the samples and the envelope of a note.
use buxn.Prelude.{
  not, ◌==◌, ◌&&◌, ltb, ◌≡◌, Bool-cases, refl, inl, inr, ◌%◌, ◌/◌, ◌*◌, ◌≢◌, AllBytes, Bytes, ℕ,
  ◌+◌, ◌≤◌, ◌<◌, arith,
}
use buxn.Device.Audio.{start_note, Audio, AudioMessage, receive, audio_message}
use buxn.Vm.State.{load2}
use native.Mathlib.Nat.{mul-le-mul_left}

load2-lt : (mem : Bytes) (at size : ℕ) → AllBytes mem → load2 mem at size < 65536
unfolding load2
load2-lt mem at size h =
    let hi = h (at % size) in let lo = h ((at + 1) % size) in omega (arith, hi, lo)

-- A part of the envelope is at most 15 steps of a fifteenth of a second.
part-le : (x k : ℕ) → x ≤ 71582788 → k ≤ 15 → x * k ≤ 1073741820
part-le x k h h' = let m = mul-le-mul_left x h' in omega (arith, m)

record InOrder (c : Audio) : Type 0 where
  attack : c.a ≤ c.d
  decay : c.d ≤ c.s
  sustain : c.s ≤ c.r

start_note-InOrder :
    (message : AudioMessage) (c : Audio)
    → message.adsr < 65536
    → c.sample_frequency < 1073741824
    → InOrder (start_note message c)
unfolding start_note
start_note-InOrder message c h rate =
    let x = c.sample_frequency / 15 in
    let le : x ≤ 71582788 = omega arith in
    let pa = part-le x (message.adsr / 4096) le (omega arith) in
    let pd = part-le x (message.adsr / 256 % 16) le (omega arith) in
    let ps = part-le x (message.adsr / 16 % 16) le (omega arith) in
    let pr = part-le x (message.adsr % 16) le (omega arith) in
    record { attack = omega arith; decay = omega arith; sustain = omega arith }

audio_message-bounds :
    (mem : Bytes)
    → AllBytes mem
    → ((audio_message mem).adsr < 65536)
      × ((audio_message mem).addr + (audio_message mem).len ≤ 65536)
unfolding audio_message
audio_message-bounds mem bytes =
    let a = load2-lt mem 0x0c 16 bytes in (load2-lt mem 0x08 16 bytes, ground arith)

start_note-samples :
    (message : AudioMessage) (c : Audio)
    → ((start_note message c).addr ≡ c.addr) × ((start_note message c).len ≡ c.len)
unfolding start_note
start_note-samples message c = (refl, refl)

-- What a note that is played has: samples within the first bank of memory, at least one of them, and
-- an envelope whose parts are in order.
abbrev pub Playable : Audio → Type 0
Playable c = (c.addr + c.len ≤ 65536) × (0 < c.len) × (c.a ≤ c.d) × (c.d ≤ c.s) × (c.s ≤ c.r)

-- Whatever the ports hold, a message that leaves the device playing leaves it with samples within the
-- first bank of memory, at least one of them, and with an envelope whose parts are in order, at
-- sample rates below 2 ^ 30.
pub receive-audio_message :
    (mem : Bytes) (c : Audio)
    → AllBytes mem
    → c.sample_frequency < 1073741824
    → (receive (audio_message mem) c).advance ≢ 0
    → Playable (receive (audio_message mem) c)
unfolding receive
receive-audio_message mem c bytes rate plays =
    let message = audio_message mem in
    let (adsr, fits) = audio_message-bounds mem bytes in
    elim (Bool-cases (ltb message.pitch 108 && not (message.len == 0))) [
      | inl t ↦
          (let c₁ : Audio = record c {
            len = message.len;
            addr = message.addr;
            volume_0 = message.volume_0;
            volume_1 = message.volume_1;
            repeats = message.repeats;
          } in
            let order = start_note-InOrder message c₁ adsr rate in
            let (a, l) = start_note-samples message c₁ in
            let played : Playable (start_note message c₁) =
              (rw (a, l) fits, rw l (ground arith), order.attack, order.decay, order.sustain) in
            rw (receive, t) played)
      | inr f ↦ absurd (plays (rw (receive, f) refl))
    ]
