-- ===== src/Talk/Audio/Capture.antt =====
-- What `process` of cmd/talk/audio.go captures: the samples of the device in frames of 160, however
-- they are cut into buffers.
use i_lbc_go.Prelude.{
  ℕ, zero, suc, ◌+◌, ◌*◌, ◌/◌, ◌%◌, ◌<◌, ◌≡◌, refl, sym, ap, ◌∙◌, arith, List, [], ◌∷◌, ◌++◌,
  length, set, length-set, take, take-length, true, false, ◌==◌, Bool-cases, inl, inr, All,
  append_assoc, append-nil, length-append,
}
use i_lbc_go.Talk.Audio.{
  PcmFrame, AudioBridge, offer, frame_captured, capture_sample, capture_bytes,
}
use i_lbc_go.Talk.Audio.Playback.{little_endian}

-- The next values of an array, from an offset on.
abbrev pub set_all : List ℕ → ℕ → List ℕ → List ℕ
set_all xs i [] = xs
set_all xs i (v ∷ vs) = set_all (set xs i v) (i + 1) vs

set_all-append :
    (xs : List ℕ) (i : ℕ) (us vs : List ℕ)
    → set_all xs i (us ++ vs) ≡ set_all (set_all xs i us) (i + length us) vs
set_all-append xs i [] vs = let e : i ≡ i + 0 = omega arith in ap (λ (k : ℕ). set_all xs k vs) e
set_all-append xs i (u ∷ us) vs =
    let e : i + 1 + length us ≡ i + suc (length us) = omega arith in
    set_all-append (set xs i u) (i + 1) us vs
    ∙ ap (λ (k : ℕ). set_all (set_all (set xs i u) (i + 1) us) k vs) e

take-set_next :
    (xs : List ℕ) (i v : ℕ) → i < length xs → take (i + 1) (set xs i v) ≡ take i xs ++ (v ∷ [])
take-set_next [] i v h = absurd (omega arith)
take-set_next (x ∷ xs) zero v h = refl
take-set_next (x ∷ xs) (suc i) v h =
    let e : suc i + 1 ≡ suc (i + 1) = omega arith in
    ap (λ (k : ℕ). take k (x ∷ set xs i v)) e ∙ ap (◌∷◌ x) (take-set_next xs i v (omega arith))

-- Written to the end of the array.
set_all_lem :
    (xs : List ℕ) (i : ℕ) (vs : List ℕ)
    → i + length vs ≡ length xs
    → set_all xs i vs ≡ take i xs ++ vs
set_all_lem xs i [] h =
    let e : length xs ≡ i = omega arith in
    sym (take-length xs) ∙ ap (λ (k : ℕ). take k xs) e ∙ sym (append-nil (take i xs))
set_all_lem xs i (v ∷ vs) h =
    set_all_lem (set xs i v) (i + 1) vs (omega (arith, length-set xs i v))
    ∙ ap (λ (us : List ℕ). us ++ vs) (take-set_next xs i v (omega arith))
    ∙ append_assoc (take i xs) (v ∷ []) vs

-- A sample in 16 bits.
abbrev pub IsSample : ℕ → Type 0
IsSample v = v < 65536

two_bytes : (v : ℕ) → v < 65536 → v % 256 + 256 * (v / 256 % 256) ≡ v
two_bytes v h = omega arith

-- The bridge with samples stored that do not fill the frame.
abbrev pub stored : AudioBridge → List ℕ → AudioBridge
stored b vs = record b {
  capture = record { seq = b.capture.seq; samples = set_all b.capture.samples b.input_at vs };
  input_at = b.input_at + length vs;
}

capture_sample-stored :
    (v : ℕ) (b : AudioBridge) → b.input_at < 159 → capture_sample v b ≡ stored b (v ∷ [])
unfolding capture_sample
capture_sample-stored v b h = simp (not_160 b.input_at h) refl
  where
    not_160 : (n : ℕ) → n < 159 → (n + 1 == 160) ≡ false
    not_160 n h = ground arith

-- Samples that do not fill the frame are stored behind those that it has.
pub capture_bytes-stored :
    (vs : List ℕ) (b : AudioBridge)
    → All IsSample vs
    → b.input_at + length vs < 160
    → capture_bytes (little_endian vs) b ≡ stored b vs
unfolding capture_bytes
capture_bytes-stored [] b a h =
    let e : b.input_at ≡ b.input_at + 0 = omega arith in ap (λ (k : ℕ). record b { input_at = k }) e
capture_bytes-stored (v ∷ vs) b a h =
    let e : b.input_at + 1 + length vs ≡ b.input_at + suc (length vs) = omega arith in
    ap (λ (w : ℕ). capture_bytes (little_endian vs) (capture_sample w b)) (two_bytes v a.0)
    ∙ ap (capture_bytes (little_endian vs)) (capture_sample-stored v b (omega arith))
    ∙ capture_bytes-stored vs (stored b (v ∷ [])) a.1 (omega arith)
    ∙ ap (λ (k : ℕ). record (stored b (v ∷ vs)) { input_at = k }) e

-- Two buffers, the first of whole samples, are captured as one.
capture_bytes-append :
    (n : ℕ) (input more : List ℕ) (b : AudioBridge)
    → length input ≡ 2 * n
    → capture_bytes (input ++ more) b ≡ capture_bytes more (capture_bytes input b)
unfolding capture_bytes
capture_bytes-append n [] more b h = refl
capture_bytes-append n (low ∷ []) more b h = absurd (omega arith)
capture_bytes-append zero (low ∷ high ∷ input) more b h = absurd (omega arith)
capture_bytes-append (suc n) (low ∷ high ∷ input) more b h =
    capture_bytes-append n input more (capture_sample (low + 256 * high) b) (omega arith)

length-little_endian : (vs : List ℕ) → length (little_endian vs) ≡ 2 * length vs
length-little_endian [] = refl
length-little_endian (v ∷ vs) = omega (arith, length-little_endian vs)

little_endian-append :
    (us vs : List ℕ) → little_endian (us ++ vs) ≡ little_endian us ++ little_endian vs
little_endian-append [] vs = refl
little_endian-append (u ∷ us) vs =
    ap (λ (bs : List ℕ). u % 256 ∷ u / 256 % 256 ∷ bs) (little_endian-append us vs)

capture_sample-last :
    (v : ℕ) (b : AudioBridge)
    → b.input_at ≡ 159
    → capture_sample v b ≡ frame_captured (stored b (v ∷ []))
unfolding capture_sample
capture_sample-last v b h = simp (is_160 b.input_at h) refl
  where
    is_160 : (n : ℕ) → n ≡ 159 → (n + 1 == 160) ≡ true
    is_160 n h = ground arith

-- The frame that the samples `vs` complete.
abbrev pub completed : AudioBridge → List ℕ → PcmFrame
completed b vs = record { seq = b.capture.seq; samples = take b.input_at b.capture.samples ++ vs }

-- Samples that fill the frame: `captured` gets the samples since the last frame, in order and under the
-- number of the frame, unless four frames wait there already. Either way the next frame has the
-- next 32-bit number and starts at offset 0.
pub capture_bytes-completed :
    (vs : List ℕ) (v : ℕ) (b : AudioBridge)
    → length b.capture.samples ≡ 160
    → All IsSample vs
    → IsSample v
    → b.input_at + length vs ≡ 159
    → capture_bytes (little_endian (vs ++ (v ∷ []))) b ≡ record b {
      captured = offer 4 (completed b (vs ++ (v ∷ []))) b.captured;
      capture = record {
        seq = (b.capture.seq + 1) % 4294967296;
        samples = take b.input_at b.capture.samples ++ (vs ++ (v ∷ []));
      };
      input_at = 0;
    }
unfolding capture_bytes frame_captured
capture_bytes-completed vs v b n a w h =
    let whole : set_all (set_all b.capture.samples b.input_at vs) (b.input_at + length vs) (v ∷ [])
        ≡ take b.input_at b.capture.samples ++ (vs ++ (v ∷ [])) =
      sym (set_all-append b.capture.samples b.input_at vs (v ∷ []))
      ∙ set_all_lem b.capture.samples b.input_at (vs ++ (v ∷ []))
          (omega (arith, length-append vs (v ∷ []))) in
    let full : List ℕ → AudioBridge = λ (samples : List ℕ). record b {
      captured = offer 4 (record { seq = b.capture.seq; samples = samples }) b.captured;
      capture = record { seq = (b.capture.seq + 1) % 4294967296; samples = samples };
      input_at = 0;
    } in
    ap (λ (bs : List ℕ). capture_bytes bs b) (little_endian-append vs (v ∷ []))
    ∙ capture_bytes-append (length vs) (little_endian vs) (little_endian (v ∷ [])) b
        (length-little_endian vs)
    ∙ ap (capture_bytes (little_endian (v ∷ []))) (capture_bytes-stored vs b a (omega arith))
    ∙ ap (λ (u : ℕ). capture_sample u (stored b vs)) (two_bytes v w)
    ∙ capture_sample-last v (stored b vs) h
    ∙ ap full whole

-- Capturing leaves the playback side alone.
pub record SameOutput (b c : AudioBridge) : Type 0 where
  pub playback : c.playback ≡ b.playback
  pub output : c.output ≡ b.output
  pub output_at : c.output_at ≡ b.output_at

capture_sample-SameOutput : (v : ℕ) (b : AudioBridge) → SameOutput b (capture_sample v b)
unfolding capture_sample frame_captured
capture_sample-SameOutput v b = elim (Bool-cases (b.input_at + 1 == 160)) [
  | inl e ↦ rw e (record { playback = refl; output = refl; output_at = refl })
  | inr e ↦ rw e (record { playback = refl; output = refl; output_at = refl })
]

pub capture_bytes-SameOutput :
    (input : List ℕ) (b : AudioBridge) → SameOutput b (capture_bytes input b)
unfolding capture_bytes
capture_bytes-SameOutput [] b = record { playback = refl; output = refl; output_at = refl }
capture_bytes-SameOutput (low ∷ []) b = record { playback = refl; output = refl; output_at = refl }
capture_bytes-SameOutput (low ∷ high ∷ input) b =
    let one = capture_sample-SameOutput (low + 256 * high) b in
    let rest = capture_bytes-SameOutput input (capture_sample (low + 256 * high) b) in
    record {
      playback = rest.playback ∙ one.playback;
      output = rest.output ∙ one.output;
      output_at = rest.output_at ∙ one.output_at;
    }
