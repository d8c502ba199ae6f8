-- ===== src/Api.antt =====
-- The package's API, src/codec.go: the decoder without enhancement, and how an encoder starts.
pub mod Safety
use i_lbc_go.Prelude.{
  ℕ, Bool, not, List, [], ◌∷◌, length, Option, some, if◌then◌else◌, ltb, ◌==◌, ◌⊎◌, inl, inr, ◌||◌,
}
use i_lbc_go.Bitstream.{◌>>=◌}
use i_lbc_go.Floats.{Floats}
use i_lbc_go.State.{
  DecoderState, init_decode, zero_decoder, EncoderState, init_encode, zero_encoder,
}
use i_lbc_go.Decoder.{decode_pcm}

-- The errors of the package.
pub data CodecError : Type 0 where
  invalid_mode uninitialized pcm_size packet_size short_buffer : CodecError

-- A use of a decoder by its owner.
pub data Use : Type 0 where
  decode_call : (dst packet : List ℕ) → Use
  conceal_call : (dst : List ℕ) → Use
  reset_call : Use

module _ (F : Floats) where
  -- `NewDecoder`.
  unfoldable pub new_decoder : ℕ → Bool → Option (CodecError ⊎ DecoderState F)
  new_decoder mode enhance =
      if not (mode == 20 || mode == 30)
      then some (inl invalid_mode)
      else (init_decode F mode (if enhance then 1 else 0) (zero_decoder F) >>= λ d. some (inr d))

  -- `Decode`: an error, or `dst` and the state. An error leaves both as they are.
  unfoldable pub decode_packet :
      List ℕ → List ℕ → DecoderState F → Option (CodecError ⊎ (List ℕ × DecoderState F))
  unfolding decode_pcm
  decode_packet dst packet d =
      if d.shape.mode == 0
      then some (inl uninitialized)
      else (if not (length packet == d.shape.frame_bytes)
          then some (inl packet_size)
          else (if ltb (length dst) d.shape.frame_samples
              then some (inl short_buffer)
              else (decode_pcm F dst packet 1 d >>= λ r. some (inr r))))

  -- `Conceal`; the packet is nil.
  unfoldable pub conceal_packet :
      List ℕ → DecoderState F → Option (CodecError ⊎ (List ℕ × DecoderState F))
  unfolding decode_pcm
  conceal_packet dst d =
      if d.shape.mode == 0
      then some (inl uninitialized)
      else (if ltb (length dst) d.shape.frame_samples
          then some (inl short_buffer)
          else (decode_pcm F dst [] 0 d >>= λ r. some (inr r)))

  -- `Reset` of a decoder.
  unfoldable pub reset_decoder : DecoderState F → Option (CodecError ⊎ DecoderState F)
  reset_decoder d =
      if d.shape.mode == 0
      then some (inl uninitialized)
      else (init_decode F d.shape.mode d.enhancement d >>= λ r. some (inr r))

  -- The state after a call.
  abbrev pub state_after : DecoderState F → CodecError ⊎ (List ℕ × DecoderState F) → DecoderState F
  state_after d (inl e) = d
  state_after d (inr r) = r.1

  abbrev pub state_reset : DecoderState F → CodecError ⊎ DecoderState F → DecoderState F
  state_reset d (inl e) = d
  state_reset d (inr e) = e

  unfoldable pub use_decoder : Use → DecoderState F → Option (DecoderState F)
  unfolding decode_packet conceal_packet reset_decoder
  use_decoder (decode_call dst packet) d =
      decode_packet dst packet d >>= λ r. some (state_after d r)
  use_decoder (conceal_call dst) d = conceal_packet dst d >>= λ r. some (state_after d r)
  use_decoder reset_call d = reset_decoder d >>= λ r. some (state_reset d r)

  -- Any number of calls.
  unfoldable pub use_all : List Use → DecoderState F → Option (DecoderState F)
  unfolding use_decoder
  use_all [] d = some d
  use_all (u ∷ us) d = use_decoder u d >>= use_all us

  -- `NewEncoder`, and `Reset` of an encoder.
  unfoldable pub new_encoder : ℕ → Option (CodecError ⊎ EncoderState F)
  new_encoder mode =
      if not (mode == 20 || mode == 30)
      then some (inl invalid_mode)
      else (init_encode F mode (zero_encoder F) >>= λ e. some (inr e))

  unfoldable pub reset_encoder : EncoderState F → Option (CodecError ⊎ EncoderState F)
  reset_encoder e =
      if e.shape.mode == 0
      then some (inl uninitialized)
      else (init_encode F e.shape.mode e >>= λ r. some (inr r))
