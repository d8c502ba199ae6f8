-- ===== src/Talk/Audio.antt =====
-- The PCM between the audio device and the call: `audioBridge` and its `process` of cmd/talk/audio.go.
-- An `int16` is its bit pattern, a ℕ below 2 ^ 16, so the conversions with `uint16` do nothing. A
-- channel is the list of what it holds; the call works on the other ends of the two channels.
pub mod Choice
pub mod Playback
pub mod Capture
pub mod Process
use i_lbc_go.Prelude.{
  ℕ, zero, suc, ◌+◌, ◌*◌, ◌/◌, ◌%◌, List, [], ◌∷◌, ◌++◌, Option, none, some, if◌then◌else◌, ltb,
  ◌==◌, length, get_or, set, replicate,
}

abbrev pub frame_samples : ℕ
frame_samples = 160

pub record PcmFrame : Type 0 where
  pub seq : ℕ
  pub samples : List ℕ

-- `pcmFrame{}`
abbrev pub silence : PcmFrame
silence = record { seq = 0; samples = replicate 160 0 }

pub record AudioBridge : Type 0 where
  pub captured : List PcmFrame
  pub playback : List PcmFrame
  pub capture : PcmFrame
  pub output : PcmFrame
  pub input_at : ℕ
  pub output_at : ℕ

abbrev pub new_audio_bridge : AudioBridge
new_audio_bridge = record {
  captured = [];
  playback = [];
  capture = silence;
  output = silence;
  input_at = 0;
  output_at = frame_samples;
}

-- A send with a `default`, on a channel of this capacity.
abbrev pub offer {ℓ} : {A : Type ℓ} → ℕ → A → List A → List A
offer size x queue = if ltb (length queue) size then queue ++ (x ∷ []) else queue

-- A full frame: `captured` gets it if it has room, and the next one starts.
unfoldable pub frame_captured : AudioBridge → AudioBridge
frame_captured b = record b {
  captured = offer 4 b.capture b.captured;
  capture = record { seq = (b.capture.seq + 1) % 4294967296; samples = b.capture.samples };
  input_at = 0;
}

-- A round of the first loop of `process`. The offset is in range (Talk/Audio/Capture).
unfoldable pub capture_sample : ℕ → AudioBridge → AudioBridge
unfolding frame_captured
capture_sample v b =
    let stored = record b {
      capture = record { seq = b.capture.seq; samples = set b.capture.samples b.input_at v };
      input_at = b.input_at + 1;
    } in
    if b.input_at + 1 == frame_samples then frame_captured stored else stored

-- The first loop: two bytes for each sample, the low one first.
unfoldable pub capture_bytes : List ℕ → AudioBridge → AudioBridge
unfolding capture_sample
capture_bytes [] b = b
capture_bytes (low ∷ []) b = b
capture_bytes (low ∷ high ∷ input) b = capture_bytes input (capture_sample (low + 256 * high) b)

-- A frame with a sample to play; `none` is the return on an underrun.
abbrev pub next_frame : List PcmFrame → AudioBridge → Option AudioBridge
next_frame [] b = none
next_frame (f ∷ queue) b = some (record b { playback = queue; output = f; output_at = 0 })

unfoldable pub frame_to_play : AudioBridge → Option AudioBridge
frame_to_play b = if b.output_at == frame_samples then next_frame b.playback b else some b

-- The second loop, over so many cleared bytes of `output`.
unfoldable pub play_bytes : ℕ → AudioBridge → List ℕ × AudioBridge
unfolding frame_to_play
play_bytes zero b = ([], b)
play_bytes (suc zero) b = (0 ∷ [], b)
play_bytes (suc (suc n)) b = elim (frame_to_play b) [
  | none ↦ (replicate (suc (suc n)) 0, b)
  | some c ↦
      let v = get_or c.output.samples c.output_at 0 in
      let (rest, d) = play_bytes n (record c { output_at = c.output_at + 1 }) in
      (v % 256 ∷ v / 256 % 256 ∷ rest, d)
]

-- `process`: the new contents of `output`, and the bridge.
unfoldable pub process : List ℕ → List ℕ → AudioBridge → List ℕ × AudioBridge
unfolding capture_bytes play_bytes
process output input b = play_bytes (length output) (capture_bytes input b)
