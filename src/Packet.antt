-- ===== src/Packet.antt =====
-- A packet from the indices of the encoder and back: the end of `encodeFrame` in src/ilbc_encode.go, from
-- `convertEncoderIndices` on, and the part of `decodeFrame` in src/ilbc_decode.go that decides whether
-- a received packet is decoded or concealed. The conversions are those of src/icbconstruct.go.
pub mod Convert
pub mod Receive
use i_lbc_go.Prelude.{
  ℕ, ◌+◌, ◌-◌, ◌&&◌, List, [], ◌∷◌, Option, none, some, if◌then◌else◌, leb, ltb, ◌==◌,
}
use i_lbc_go.Bitstream.{◌>>=◌}
use i_lbc_go.Layout.{FrameShape}
use i_lbc_go.Frame.{Indices, pack_frame, unpack_frame}

-- The body of the loop of `convertEncoderIndices`.
unfoldable pub encoder_index : ℕ → ℕ
encoder_index i = if leb 108 i && ltb i 172 then i - 64 else (if leb 236 i then i - 128 else i)

-- The body of the loop of `convertDecoderIndices`.
unfoldable pub decoder_index : ℕ → ℕ
decoder_index i =
    if leb 44 i && ltb i 108 then i + 64 else (if leb 108 i && ltb i 128 then i + 128 else i)

-- `for k = 1; k < 3; k++`; `none` is the panic on fewer than three indices.
unfoldable pub convert_second_third : (ℕ → ℕ) → List ℕ → Option (List ℕ)
convert_second_third g [] = none
convert_second_third g (a ∷ []) = none
convert_second_third g (a ∷ b ∷ []) = none
convert_second_third g (a ∷ b ∷ c ∷ rest) = some (a ∷ g b ∷ g c ∷ rest)

unfoldable pub convert_encoder_indices : List ℕ → Option (List ℕ)
unfolding convert_second_third encoder_index
convert_encoder_indices index = convert_second_third encoder_index index

unfoldable pub convert_decoder_indices : List ℕ → Option (List ℕ)
unfolding convert_second_third decoder_index
convert_decoder_indices index = convert_second_third decoder_index index

-- The end of `encodeFrame`: the packet in `bytes`.
unfoldable pub send : FrameShape → Indices → List ℕ → Option (List ℕ)
send s f bytes = do
  cs ← convert_encoder_indices f.cb_index
  pack_frame s (record f { cb_index = cs }) bytes

-- The three tests on a received packet: `mode` 1 decodes it and `mode` 0 conceals the frame.
unfoldable pub received_mode : FrameShape → ℕ → ℕ → ℕ → ℕ
received_mode s start last_bit mode =
    let mode1 = (if ltb start 1 then 0 else mode) in
    let mode2 = (if (s.mode == 30) && ltb 5 start then 0 else mode1) in
    if last_bit == 1 then 0 else mode2

-- `if mode == 1 { convertDecoderIndices(cbIndex) … }`.
unfoldable pub accepted : ℕ → Indices → Option (ℕ × Indices)
accepted mode f =
    if mode == 1
    then (convert_decoder_indices f.cb_index >>= λ cs. some (mode, record f { cb_index = cs }))
    else some (mode, f)

-- `decodeFrame` with `mode` 1, up to `dequantizeLSF`: the new `mode`, and the indices.
unfoldable pub receive : FrameShape → List ℕ → Option (ℕ × Indices)
receive s bytes = do r ← unpack_frame s bytes; accepted (received_mode s r.0.start r.1 1) r.0
