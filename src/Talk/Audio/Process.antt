-- ===== src/Talk/Audio/Process.antt =====
-- A whole call of `process` of cmd/talk/audio.go.
use i_lbc_go.Prelude.{
  ℕ, ◌+◌, ◌*◌, ◌≤◌, ◌<◌, ◌≡◌, refl, sym, ap, ◌∙◌, subst, arith, List, [], ◌∷◌, ◌++◌, length, set,
  length-set, length-append, ltb→lt, take, drop, replicate, false, ltb, ◌==◌, Bool-cases, inl, inr,
  All, All-append,
}
use i_lbc_go.Talk.Audio.{
  PcmFrame, AudioBridge, offer, frame_captured, capture_sample, capture_bytes, process,
}
use i_lbc_go.Talk.Audio.Playback.{IsFrame, IsPlayable, queued, little_endian, play_bytes-Played}
use i_lbc_go.Talk.Audio.Choice.{play_bytes-keeps}
use i_lbc_go.Talk.Audio.Capture.{SameOutput, capture_bytes-SameOutput}

-- The capture side: the offset is in range, and the channel holds at most four whole frames.
pub record IsCapturing (b : AudioBridge) : Type 0 where
  pub capture_size : length b.capture.samples ≡ 160
  pub input_lt : b.input_at < 160
  pub seq_lt : b.capture.seq < 4294967296
  pub captured_le : length b.captured ≤ 4
  pub captured_sizes : All IsFrame b.captured

offer-le :
    (n : ℕ) (f : PcmFrame) (queue : List PcmFrame) → length queue ≤ n → length (offer n f queue) ≤ n
offer-le n f queue h = elim (Bool-cases (ltb (length queue) n)) [
  | inl e ↦ rw e (room (ltb→lt _ _ e) (length-append queue (f ∷ [])))
  | inr e ↦ rw e h
]
  where
    room : {k m : ℕ} → k < n → m ≡ k + 1 → m ≤ n
    room a b = omega arith

offer-All :
    (n : ℕ) (f : PcmFrame) (queue : List PcmFrame)
    → IsFrame f
    → All IsFrame queue
    → All IsFrame (offer n f queue)
offer-All n f queue v h = elim (Bool-cases (ltb (length queue) n)) [
  | inl e ↦ rw e (All-append IsFrame queue (f ∷ []) h (v, tt))
  | inr e ↦ rw e h
]

capture_sample-IsCapturing :
    (v : ℕ) (b : AudioBridge) → IsCapturing b → IsCapturing (capture_sample v b)
unfolding capture_sample frame_captured
capture_sample-IsCapturing v b w =
    let size : length (set b.capture.samples b.input_at v) ≡ 160 =
      length-set b.capture.samples b.input_at v ∙ w.capture_size in
    elim (Bool-cases (b.input_at + 1 == 160)) [
      | inl e ↦ rw e (record {
        capture_size = size;
        input_lt = omega arith;
        seq_lt = omega arith;
        captured_le = offer-le 4 _ b.captured w.captured_le;
        captured_sizes = offer-All 4 _ b.captured size w.captured_sizes;
      })
      | inr e ↦ rw e (record {
        capture_size = size;
        input_lt = not_160 e w.input_lt;
        seq_lt = w.seq_lt;
        captured_le = w.captured_le;
        captured_sizes = w.captured_sizes;
      })
    ]
  where
    not_160 : {n : ℕ} → (n + 1 == 160) ≡ false → n < 160 → n + 1 < 160
    not_160 h k = ground arith

capture_bytes-IsCapturing :
    (input : List ℕ) (b : AudioBridge) → IsCapturing b → IsCapturing (capture_bytes input b)
unfolding capture_bytes
capture_bytes-IsCapturing [] b v = v
capture_bytes-IsCapturing (low ∷ []) b v = v
capture_bytes-IsCapturing (low ∷ high ∷ input) b v =
    capture_bytes-IsCapturing input (capture_sample (low + 256 * high) b)
      (capture_sample-IsCapturing (low + 256 * high) b v)

SameOutput-queued : (b c : AudioBridge) → SameOutput b c → queued c ≡ queued b
SameOutput-queued b c s = rw (s.playback, s.output, s.output_at) refl

SameOutput-IsPlayable : (b c : AudioBridge) → SameOutput b c → IsPlayable b → IsPlayable c
SameOutput-IsPlayable b c s v = record {
  output_size = ap (λ (f : PcmFrame). length f.samples) s.output ∙ v.output_size;
  output_le = omega (arith, s.output_at, v.output_le);
  queue_sizes = subst (All IsFrame) (sym s.playback) v.queue_sizes;
}

-- For a device that asks for `n` samples, whatever it has captured: the output is the next `n` of the
-- samples that the current frame and the queued frames hold, in order, and silence from where these
-- end; exactly the played samples leave the queue, and the playback side stays well formed.
pub process_plays :
    (n : ℕ) (output input : List ℕ) (b : AudioBridge)
    → IsPlayable b
    → length output ≡ 2 * n
    → ((process output input b).0 ≡ little_endian (take n (queued b ++ replicate n 0)))
      × (queued (process output input b).1 ≡ drop n (queued b))
      × IsPlayable (process output input b).1
unfolding process
process_plays n output input b v h =
    let s = capture_bytes-SameOutput input b in
    let same = SameOutput-queued b (capture_bytes input b) s in
    let p =
      play_bytes-Played n (length output) (capture_bytes input b)
        (SameOutput-IsPlayable b (capture_bytes input b) s v) h in
    (
      p.heard ∙ ap (λ (vs : List ℕ). little_endian (take n (vs ++ replicate n 0))) same,
      p.left ∙ ap (drop n) same,
      p.playable,
    )

-- Every call of `process` whose output is whole samples keeps both sides well formed: the two offsets
-- are in range, frames have 160 samples, and the channel to the encoder holds at most four.
pub process-IsCapturing :
    (n : ℕ) (output input : List ℕ) (b : AudioBridge)
    → IsPlayable b
    → IsCapturing b
    → length output ≡ 2 * n
    → IsPlayable (process output input b).1 × IsCapturing (process output input b).1
unfolding process
process-IsCapturing n output input b v w h = (
  (process_plays n output input b v h).2,
  play_bytes-keeps IsCapturing
      (λ c queue f i u. record {
        capture_size = u.capture_size;
        input_lt = u.input_lt;
        seq_lt = u.seq_lt;
        captured_le = u.captured_le;
        captured_sizes = u.captured_sizes;
      })
      (length output) (capture_bytes input b) (capture_bytes-IsCapturing input b w),
)
