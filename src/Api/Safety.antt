-- ===== src/Api/Safety.antt =====
-- The calls of a decoder, on every branch, and any sequence of them.
use i_lbc_go.Prelude.{
  Bool-cases, ℕ, ◌<◌, ◌≡◌, refl, sym, ap, ◌∙◌, subst, arith, Bool, true, false, not, List, [], ◌∷◌,
  length, All, some, if◌then◌else◌, ltb, ltb→lt, ltb-false→le, ◌==◌, ◌||◌, ◌⊎◌, inl, inr,
}
use mathlib.Core.Option.{some-injective, none-ne-some}
use i_lbc_go.Bitstream.{◌>>=◌}
use i_lbc_go.Arrays.{Returns, returned, Returns-bind, Returns-if}
use i_lbc_go.Floats.{Floats}
use i_lbc_go.Bitstream.Bytes.{IsByte}
use i_lbc_go.Layout.{FrameShape, frame_shape}
use i_lbc_go.State.{DecoderState, EncoderState, init_decode, zero_decoder, zero_encoder}
use i_lbc_go.State.Initial.{
  HasBuffers, initial_decoder, initial_encoder, zero_decoder-HasArrays, zero_encoder-HasBuffers,
  init_decode_lem, init_encode_lem,
}
use i_lbc_go.State.Decoder.{IsDecoder, IsDecoder-HasArrays, init_decode-IsDecoder}
use i_lbc_go.Decoder.Calls.{IsWritten, decode_pcm-Returns}
use i_lbc_go.Api.{
  CodecError, packet_size, short_buffer, Use, decode_call, conceal_call, reset_call, new_decoder,
  decode_packet, conceal_packet, reset_decoder, new_encoder, reset_encoder, state_after,
  state_reset, use_decoder, use_all,
}

-- A shape has the mode that it is of, which is not 0.
mode_of_shape :
    (mode : ℕ) (s : FrameShape)
    → frame_shape mode ≡ some s
    → (s.mode ≡ mode) × ((s.mode == 0) ≡ false)
unfolding frame_shape
mode_of_shape mode s m = elim (Bool-cases (mode == 30)) [
  | inl a ↦
      subst (λ (t : FrameShape). (t.mode ≡ mode) × ((t.mode == 0) ≡ false))
        (some-injective _ _ (rw a at m)) (ground arith, refl)
  | inr a ↦ elim (Bool-cases (mode == 20)) [
    | inl b ↦
        subst (λ (t : FrameShape). (t.mode ≡ mode) × ((t.mode == 0) ≡ false))
          (some-injective _ _ (rw (a, b) at m)) (ground arith, refl)
    | inr b ↦ absurd (none-ne-some _ (rw (a, b) at m))
  ]
]

known_mode :
    (mode : ℕ) (s : FrameShape) → frame_shape mode ≡ some s → not (mode == 20 || mode == 30) ≡ false
unfolding frame_shape
known_mode mode s m = elim (Bool-cases (mode == 30)) [
  | inl a ↦ ground arith
  | inr a ↦ elim (Bool-cases (mode == 20)) [
    | inl b ↦ ground arith
    | inr b ↦ absurd (none-ne-some _ (rw (a, b) at m))
  ]
]

differ : {b : Bool} → b ≡ true → b ≡ false → ⊥
differ p q = cc

not-true : (b : Bool) → not b ≡ true → b ≡ false
not-true b e = ground arith

not-false : (b : Bool) → not b ≡ false → b ≡ true
not-false b e = ground arith

same_size : (m n : ℕ) → (m == n) ≡ true → m ≡ n
same_size m n e = ground arith

-- What a call with an output gives: the error of the first guard that fails, or samples and a state.
abbrev pub Answer :
    (F : Floats)
    → ℕ
    → DecoderState F
    → Bool
    → List ℕ
    → CodecError ⊎ (List ℕ × DecoderState F)
    → Type 0
Answer F mode d sized dst (inl e) =
    ((sized ≡ false) × (e ≡ packet_size))
    ⊎ ((sized ≡ true) × (e ≡ short_buffer) × (length dst < d.shape.frame_samples))
Answer F mode d sized dst (inr r) =
    (sized ≡ true) × IsWritten d.shape.frame_samples dst r.0 × IsDecoder F mode r.1

module _ (F : Floats) where
  -- For a decoder that is well formed and any bytes, `Decode` ends with no panic: with `packet_size` if the
  -- packet has not the frame's size, else with `short_buffer` if the output is too short for a frame, else
  -- with one frame of samples, the rest of the output as it was, and a decoder that is well formed.
  pub decode_packet-Returns :
      (mode : ℕ) (dst packet : List ℕ) (d : DecoderState F)
      → IsDecoder F mode d
      → All IsByte packet
      → Returns
          (Answer F mode d (length packet == d.shape.frame_bytes) dst)
          (decode_packet F dst packet d)
  unfolding decode_packet
  decode_packet-Returns mode dst packet d w a =
      Returns-if (d.shape.mode == 0)
        (λ b. absurd (differ b (mode_of_shape mode d.shape w.of_mode).1))
        (λ _.
          Returns-if (not (length packet == d.shape.frame_bytes))
            (λ b. returned (inl (not-true _ b, refl)))
            (λ b.
              Returns-if (ltb (length dst) d.shape.frame_samples)
                (λ c. returned (inr (not-false _ b, refl, ltb→lt _ _ c)))
                (λ c.
                  Returns-bind
                    (decode_pcm-Returns F mode dst packet 1 d w (ltb-false→le _ _ c)
                      (λ _. (same_size _ _ (not-false _ b), a)))
                    λ r (p, v). returned (not-false _ b, p, v))))

  -- The same for `Conceal`, which has no packet.
  pub conceal_packet-Returns :
      (mode : ℕ) (dst : List ℕ) (d : DecoderState F)
      → IsDecoder F mode d
      → Returns (Answer F mode d true dst) (conceal_packet F dst d)
  unfolding conceal_packet
  conceal_packet-Returns mode dst d w =
      Returns-if (d.shape.mode == 0)
        (λ b. absurd (differ b (mode_of_shape mode d.shape w.of_mode).1))
        (λ _.
          Returns-if (ltb (length dst) d.shape.frame_samples)
            (λ b. returned (inr (refl, refl, ltb→lt _ _ b)))
            (λ b.
              Returns-bind
                (decode_pcm-Returns F mode dst [] 0 d w (ltb-false→le _ _ b)
                  (λ h. absurd (omega arith)))
                λ r (p, v). returned (refl, p, v)))

  -- `NewDecoder` makes the initial state.
  new_decoder_lem :
      (mode : ℕ) (s : FrameShape) (enhance : Bool)
      → frame_shape mode ≡ some s
      → new_decoder F mode enhance ≡ some (inr (initial_decoder F s (if enhance then 1 else 0)))
  unfolding new_decoder
  new_decoder_lem mode s enhance m =
      rw
        (
          known_mode mode s m,
          init_decode_lem F mode (if enhance then 1 else 0) s (zero_decoder F) m
              (zero_decoder-HasArrays F),
        )
        refl

  reset_decoder_lem :
      (mode : ℕ) (d : DecoderState F)
      → IsDecoder F mode d
      → reset_decoder F d ≡ some (inr (initial_decoder F d.shape d.enhancement))
  unfolding reset_decoder
  reset_decoder_lem mode d w =
      let (m, z) = mode_of_shape mode d.shape w.of_mode in
      rw
        (
          z,
          init_decode_lem F d.shape.mode d.enhancement d.shape d (ap frame_shape m ∙ w.of_mode)
              (IsDecoder-HasArrays w),
        )
        refl

  -- `Reset` of a decoder that is well formed, whatever its history, makes the initial state of its shape and
  -- enhancement, which is what `NewDecoder` makes from an empty state for the same mode and enhancement.
  pub reset_decoder-new_decoder :
      (mode : ℕ) (d : DecoderState F)
      → IsDecoder F mode d
      → d.enhancement < 2
      → (reset_decoder F d ≡ some (inr (initial_decoder F d.shape d.enhancement)))
        × (reset_decoder F d ≡ new_decoder F mode (d.enhancement == 1))
  reset_decoder-new_decoder mode d w h =
      let r = reset_decoder_lem mode d w in
      (
        r,
        r
            ∙ ap (λ (n : ℕ). some (inr (initial_decoder F d.shape n))) (enhance_eq d.enhancement h)
            ∙ sym (new_decoder_lem mode d.shape (d.enhancement == 1) w.of_mode),
      )
    where
      enhance_eq : (n : ℕ) → n < 2 → n ≡ (if n == 1 then 1 else 0)
      enhance_eq n h = ground arith

  -- The packet of a call is an array of bytes.
  abbrev pub HasBytes : Use → Type 0
  HasBytes (decode_call dst packet) = All IsByte packet
  HasBytes (conceal_call dst) = Unit
  HasBytes reset_call = Unit

  Answer-state :
      (mode : ℕ) (d : DecoderState F) (sized : Bool) (dst : List ℕ)
      (r : CodecError ⊎ (List ℕ × DecoderState F))
      → IsDecoder F mode d
      → Answer F mode d sized dst r
      → IsDecoder F mode (state_after F d r)
  Answer-state mode d sized dst (inl e) w a = w
  Answer-state mode d sized dst (inr r) w a = a.2

  use_decoder-Returns :
      (mode : ℕ) (u : Use) (d : DecoderState F)
      → IsDecoder F mode d
      → HasBytes u
      → Returns (IsDecoder F mode) (use_decoder F u d)
  unfolding use_decoder reset_decoder
  use_decoder-Returns mode (decode_call dst packet) d w a =
      Returns-bind (decode_packet-Returns mode dst packet d w a)
        λ r b. returned (Answer-state mode d _ dst r w b)
  use_decoder-Returns mode (conceal_call dst) d w a =
      Returns-bind (conceal_packet-Returns mode dst d w)
        λ r b. returned (Answer-state mode d _ dst r w b)
  use_decoder-Returns mode reset_call d w a =
      let (m, z) = mode_of_shape mode d.shape w.of_mode in
      Returns-bind {P = λ (r : CodecError ⊎ DecoderState F). IsDecoder F mode (state_reset F d r)}
        (Returns-if (d.shape.mode == 0) (λ _. returned w)
          (λ _.
            Returns-bind
              (subst (λ (n : ℕ). Returns (IsDecoder F mode) (init_decode F n d.enhancement d))
                (sym m)
                (init_decode-IsDecoder F mode d.enhancement d.shape d w.of_mode
                  (IsDecoder-HasArrays w)))
              λ e v. returned v))
        λ r v. returned v

  use_all-Returns :
      (mode : ℕ) (us : List Use) (d : DecoderState F)
      → IsDecoder F mode d
      → All HasBytes us
      → Returns (IsDecoder F mode) (use_all F us d)
  unfolding use_all
  use_all-Returns mode [] d w a = returned w
  use_all-Returns mode (u ∷ us) d w (a, b) =
      Returns-bind (use_decoder-Returns mode u d w a) λ e v. use_all-Returns mode us e v b

  -- A decoder without enhancement survives any use: for each mode that `NewDecoder` takes, and any sequence
  -- of `Decode`, `Conceal` and `Reset` with any bytes of any number and outputs of any size, no call panics,
  -- and the state stays well formed.
  pub use_all-IsDecoder :
      (mode : ℕ) (s : FrameShape) (us : List Use)
      → frame_shape mode ≡ some s
      → All HasBytes us
      → Returns (IsDecoder F mode) (init_decode F mode 0 (zero_decoder F) >>= use_all F us)
  use_all-IsDecoder mode s us m a =
      Returns-bind (init_decode-IsDecoder F mode 0 s (zero_decoder F) m (zero_decoder-HasArrays F))
        λ d w. use_all-Returns mode us d w a

  -- `Reset` of an encoder whose arrays have their sizes, whatever its history, makes the initial state of
  -- its shape, which is what `NewEncoder` makes from an empty state for the same mode.
  pub reset_encoder-new_encoder :
      (mode : ℕ) (e : EncoderState F)
      → frame_shape mode ≡ some e.shape
      → HasBuffers F e
      → (reset_encoder F e ≡ some (inr (initial_encoder F e.shape)))
        × (reset_encoder F e ≡ new_encoder F mode)
  unfolding reset_encoder new_encoder
  reset_encoder-new_encoder mode e h w =
      let (m, z) = mode_of_shape mode e.shape h in
      let a = init_encode_lem F e.shape.mode e.shape e (ap frame_shape m ∙ h) w in
      let b = init_encode_lem F mode e.shape (zero_encoder F) h (zero_encoder-HasBuffers F) in
      (rw (z, a) refl, rw (z, a, known_mode mode e.shape h, b) refl)
