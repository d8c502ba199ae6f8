-- ===== src/Decoder/Calls.antt =====
-- The decoder on any sequence of packets and losses: src/ilbc_decode.go and src/codec.go.
use i_lbc_go.Prelude.{
  ap, le→ltb, length-map, subst, ℕ, ◌+◌, ◌-◌, ◌*◌, ◌≤◌, ◌<◌, ◌≡◌, refl, sym, ◌∙◌, arith, List, ◌++◌,
  length, replicate, map, drop, All, ltb, ltb→lt, ◌==◌,
}
use mathlib.Core.Option.{some-injective}
use i_lbc_go.Arrays.{
  Returns, returned, Returns-bind, Returns-weaken, Returns-if, blit, slice-Returns, blit-Returns,
}
use i_lbc_go.Floats.{Floats, nought}
use i_lbc_go.Bitstream.Bytes.{IsByte}
use i_lbc_go.Layout.{FrameShape}
use i_lbc_go.Frame.{Indices}
use i_lbc_go.Residual.Total.{decode-Returns}
use i_lbc_go.Residual.Received.{IsReceived, receive-Returns, IsReceived-HasLsf}
use i_lbc_go.State.{DecoderState}
use i_lbc_go.State.Decoder.{IsDecoder, IsDecoder-output, frame_shape-HasSize}
use i_lbc_go.Plc.Total.{do_the_plc-Returns}
use i_lbc_go.Lsf.Total.{check_lsf-Returns}
use i_lbc_go.Lpc.Total.{dequantize_lsf-Returns, decoder_interpolate_lsf-Returns}
use i_lbc_go.Decoder.{
  good_frame, frame_residual, decode_frame, flush_subnormal_history, flushed, pcm_sample,
  decode_pcm,
}
use i_lbc_go.Decoder.Total.{IsDecoded, lost_frame-Returns, synthesis-Returns}

-- The first `n` entries are new, the others are as they were.
abbrev pub IsWritten : ℕ → List ℕ → List ℕ → Type 0
IsWritten n xs out = (ys : List ℕ) × (length ys ≡ n) × (out ≡ ys ++ drop n xs)

blit-front :
    (n : ℕ) (xs ys : List ℕ)
    → length ys ≡ n
    → n ≤ length xs
    → Returns (IsWritten n xs) (blit xs 0 ys)
unfolding blit
blit-front n xs ys e h =
    let f : 0 + length ys ≡ n = omega arith in
    rw (le→ltb (length xs) (0 + length ys) (omega arith), f) (returned (ys, e, refl))

module _ (F : Floats) where
  good_frame-Returns :
      (mode : ℕ) (f : Indices) (d : DecoderState F)
      → IsDecoder F mode d
      → IsReceived d.shape f
      → Returns (IsDecoded F mode) (good_frame F f d)
  unfolding good_frame
  good_frame-Returns mode f d w r =
      let z = frame_shape-HasSize mode d.shape w.of_mode in
      let (k, l) = IsReceived-HasLsf mode d.shape f w.of_mode r.lsf-fit in
      Returns-bind
        (dequantize_lsf-Returns F (replicate 20 (nought F)) f.lsf d.shape.lpc_analyses k l refl)
        λ xs t.
          Returns-bind
            (check_lsf-Returns F xs 10 d.shape.lpc_analyses 20 t (omega (arith, z.analyses_le)))
            λ (xs, change) t.
              Returns-bind
                (decoder_interpolate_lsf-Returns F mode (replicate 66 (nought F))
                  (replicate 66 (nought F)) xs d w refl refl t)
                λ (synt, weight, e) (a, b, v).
                  let r =
                    subst (λ (s : FrameShape). IsReceived s f)
                      (some-injective _ _ (sym w.of_mode ∙ v.of_mode)) r in
                  let y = frame_shape-HasSize mode e.shape v.of_mode in
                  Returns-bind
                    (decode-Returns F e.shape r.sizes f r.decodable synt (replicate 240 (nought F))
                      r.valid_start.0 r.valid_start.1 a refl)
                    λ res g.
                      Returns-bind
                        (do_the_plc-Returns F mode (replicate 240 (nought F)) 0 res synt
                          (11 * (e.shape.subframes - 1)) e.last_lag e v v.lag refl g
                          (omega (arith, a, y.subframes_ge, y.subframes_le)))
                        λ c q.
                          Returns-bind
                            (slice-Returns c.residual 0 e.shape.frame_samples
                              (omega (arith, q.residual_size, y.samples_le)))
                            λ r h.
                              Returns-bind
                                (blit-Returns res 0 r (omega (arith, h, g, y.samples_le)))
                                λ xs u. returned (record {
                                  residual_size = u ∙ g;
                                  syntdenum_size = a;
                                  decoder_ok = q.decoder_ok;
                                })

  frame_residual-Returns :
      (mode : ℕ) (bytes : List ℕ) (d : DecoderState F) (received : ℕ)
      → IsDecoder F mode d
      → (0 < received → (length bytes ≡ d.shape.frame_bytes) × All IsByte bytes)
      → Returns (λ r. IsDecoded F mode r.1) (frame_residual F bytes d received)
  unfolding frame_residual
  frame_residual-Returns mode bytes d received w h =
      let lost = lost_frame-Returns F mode d w in
      Returns-if (ltb 0 received)
        (λ b.
          let (n, a) = h (ltb→lt _ _ b) in
          Returns-bind (receive-Returns mode d.shape bytes w.of_mode n a) λ r ok.
            Returns-if (r.0 == 1)
              (λ e.
                Returns-if (received == 1)
                  (λ _.
                    Returns-bind (good_frame-Returns mode r.1 d w (ok (ground arith)))
                      λ x v. returned v)
                  (λ _.
                    returned
                      (record { residual_size = refl; syntdenum_size = refl; decoder_ok = w })))
              (λ _. Returns-bind lost λ x v. returned v))
        (λ _. Returns-bind lost λ x v. returned v)

  -- For a decoder that is well formed, a block of 240 samples and, unless the frame is lost, any bytes of a
  -- packet's length: `decodeFrame` ends with no panic, and leaves a decoder that is well formed.
  pub decode_frame-Returns :
      (mode : ℕ) (decblock : List F.Float) (bytes : List ℕ) (d : DecoderState F) (received : ℕ)
      → IsDecoder F mode d
      → length decblock ≡ 240
      → (0 < received → (length bytes ≡ d.shape.frame_bytes) × All IsByte bytes)
      → Returns
          (λ r. (length r.0 ≡ 240) × IsDecoder F mode r.1)
          (decode_frame F decblock bytes d received)
  unfolding decode_frame
  decode_frame-Returns mode decblock bytes d received w e h =
      Returns-bind (frame_residual-Returns mode bytes d received w h)
        λ (m, x) v. Returns-weaken (synthesis-Returns F mode decblock m x v e) λ r (a, b, c). (a, b)

  -- Where the output has room, `Decoder.decode` ends with no panic: it writes one frame of samples and leaves
  -- the rest of the output, and the decoder well formed.
  pub decode_pcm-Returns :
      (mode : ℕ) (dst packet : List ℕ) (received : ℕ) (d : DecoderState F)
      → IsDecoder F mode d
      → d.shape.frame_samples ≤ length dst
      → (0 < received → (length packet ≡ d.shape.frame_bytes) × All IsByte packet)
      → Returns
          (λ r. IsWritten d.shape.frame_samples dst r.0 × IsDecoder F mode r.1)
          (decode_pcm F dst packet received d)
  unfolding decode_pcm flush_subnormal_history
  decode_pcm-Returns mode dst packet received d w l h =
      let z = frame_shape-HasSize mode d.shape w.of_mode in
      let v =
        IsDecoder-output (map (flushed F) d.synt_mem) (map (flushed F) d.hpomem) d.old_syntdenum
          d.last_lag d.prev_enh_pl w (length-map (flushed F) d.synt_mem ∙ w.synt_mem_size)
          (length-map (flushed F) d.hpomem ∙ w.hpomem_size) w.old_syntdenum_size w.lag in
      Returns-bind (decode_frame-Returns mode (replicate 240 (nought F)) packet _ received v refl h)
        λ (block, e) (t, k).
          let same : d.shape ≡ e.shape = some-injective _ _ (sym w.of_mode ∙ k.of_mode) in
          let n = ap (λ (s : FrameShape). s.frame_samples) same in
          Returns-bind
            (slice-Returns block 0 e.shape.frame_samples (omega (arith, t, z.samples_le, n)))
            λ samples u.
              let m : length (map (pcm_sample F) samples) ≡ d.shape.frame_samples =
                length-map _ samples ∙ u ∙ sym n in
              Returns-bind (blit-front d.shape.frame_samples dst (map (pcm_sample F) samples) m l)
                λ out q. returned (q, k)
