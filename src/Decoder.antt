-- ===== src/Decoder.antt =====
-- The decoder without enhancement: `decodeFrame` of src/ilbc_decode.go for an `enhancement` other than 1,
-- `xCorrCoef` of src/enhancer.go, src/denormal.go, and `Decode` and `Conceal` of src/codec.go.
pub mod Total
pub mod Calls
pub mod Losses
pub mod Flush
use i_lbc_go.Prelude.{
  ℕ, ◌+◌, ◌-◌, ◌*◌, ◌%◌, ◌^◌, Bool, ◌&&◌, not, List, [], ◌∷◌, ◌++◌, length, replicate, map, take,
  drop, Option, none, some, if◌then◌else◌, ltb, ◌==◌,
}
use i_lbc_go.Bitstream.{◌>>=◌}
use i_lbc_go.Arrays.{load, load_back, store, slice, blit, for}
use i_lbc_go.Floats.{plus, minus, Floats, nought}
use i_lbc_go.Layout.{FrameShape}
use i_lbc_go.Frame.{Indices}
use i_lbc_go.Packet.{receive}
use i_lbc_go.Residual.{decode}
use i_lbc_go.State.{DecoderState, one_then_zeros}
use i_lbc_go.Plc.{Concealed, do_the_plc}
use i_lbc_go.Lsf.{check_lsf}
use i_lbc_go.Lpc.{dequantize_lsf, decoder_interpolate_lsf}
use i_lbc_go.Synthesis.{synt_filter, hp_output}

-- `decresidual`, `syntdenum` and the decoder, after the branches on `mode`.
pub record Decoded (F : Floats) : Type 0 where
  pub residual : List F.Float
  pub syntdenum : List F.Float
  pub decoder : DecoderState F

module _ (F : Floats) where
  -- `xCorrCoef` of the target from `o` on and the regressor `lag` before it, in one array.
  unfoldable pub x_corr_coef : List F.Float → ℕ → ℕ → ℕ → Option F.Float
  x_corr_coef xs o lag subl = do
    (ftmp1, ftmp2) ←
        for subl 0
          (λ i s. do
            x ← load xs (o + i)
            y ← load_back xs (o + i) lag
            some (F.add s.0 (F.mul x y), F.add s.1 (F.mul y y)))
          (nought F, nought F)
    some (if F.above ftmp1 (plus 0 0) then F.div (F.mul ftmp1 ftmp1) ftmp2 else nought F)

  -- A round of the search for the lag, on `maxcc` and `lag`.
  unfoldable pub lag_step : List F.Float → ℕ → ℕ → ℕ → F.Float × ℕ → Option (F.Float × ℕ)
  unfolding x_corr_coef
  lag_step residual start len ilag (maxcc, lag) = do
    cc ← x_corr_coef residual start ilag len
    some (if F.less maxcc cc then (cc, ilag) else (maxcc, lag))

  unfoldable pub best_lag : List F.Float → ℕ → Option ℕ
  unfolding lag_step
  best_lag residual frame_samples = do
    let len = (if frame_samples == 160 then 40 else 80)
    let start = frame_samples - len
    maxcc ← x_corr_coef residual start 20 len
    (maxcc, lag) ← for 99 21 (lag_step residual start len) (maxcc, 20)
    some lag

  -- The branch of `decodeFrame` for a frame that arrived.
  unfoldable pub good_frame : Indices → DecoderState F → Option (Decoded F)
  unfolding dequantize_lsf check_lsf decoder_interpolate_lsf do_the_plc
  good_frame f d = do
    let zeros = replicate 240 (nought F)
    lsfdeq ← dequantize_lsf F (replicate 20 (nought F)) f.lsf d.shape.lpc_analyses
    (lsfdeq, change) ← check_lsf F lsfdeq 10 d.shape.lpc_analyses
    (synt, weight, d) ←
        decoder_interpolate_lsf F (replicate 66 (nought F)) (replicate 66 (nought F)) lsfdeq 10 d
    residual ← decode F d.shape f synt zeros
    c ← do_the_plc F zeros 0 residual synt (11 * (d.shape.subframes - 1)) d.last_lag d
    r ← slice c.residual 0 d.shape.frame_samples
    residual ← blit residual 0 r
    some (record { residual = residual; syntdenum = synt; decoder = c.decoder })

  -- The branch for a lost one: the filter of the concealment is that of every subframe.
  unfoldable pub lost_frame : DecoderState F → Option (Decoded F)
  unfolding do_the_plc
  lost_frame d = do
    let zeros = replicate 240 (nought F)
    c ← do_the_plc F zeros 1 zeros (one_then_zeros F) 0 d.last_lag d
    r ← slice c.residual 0 d.shape.frame_samples
    residual ← blit zeros 0 r
    l ← slice c.lpc 0 11
    synt ← for d.shape.subframes 0 (λ i synt. blit synt (i * 11) l) (replicate 66 (nought F))
    some (record { residual = residual; syntdenum = synt; decoder = c.decoder })

  -- The arrays as declared: no branch is for a `mode` above 1 that the packet does not turn into 0.
  abbrev pub untouched : DecoderState F → Decoded F
  untouched d = record {
    residual = replicate 240 (nought F);
    syntdenum = replicate 66 (nought F);
    decoder = d;
  }

  -- `decodeFrame` up to the synthesis: the new `mode`, too. `received` is the `mode` of the call; the
  -- result of `receive` is 1 where the packet keeps it.
  unfoldable pub frame_residual : List ℕ → DecoderState F → ℕ → Option (ℕ × Decoded F)
  unfolding receive good_frame lost_frame
  frame_residual bytes d received =
      if ltb 0 received
      then (receive d.shape bytes >>= λ r.
          if r.0 == 1
          then (if received == 1
              then (good_frame r.1 d >>= λ x. some (1, x))
              else some (received, untouched d))
          else (lost_frame d >>= λ x. some (0, x)))
      else (lost_frame d >>= λ x. some (0, x))

  -- The end of `decodeFrame`: `decblock` and the decoder.
  unfoldable pub synthesis : List F.Float → ℕ → Decoded F → Option (List F.Float × DecoderState F)
  unfolding best_lag synt_filter hp_output
  synthesis decblock mode x = do
    let d = x.decoder
    let n = d.shape.frame_samples
    lag ← best_lag x.residual n
    r ← slice x.residual 0 n
    out ← blit (replicate 240 (nought F)) 0 r
    (out, synt_mem) ←
        for d.shape.subframes 0 (λ i s. synt_filter F s.0 (i * 40) x.syntdenum (i * 11) 40 s.1)
          (out, d.synt_mem)
    (decblock, hpomem) ← hp_output F out n decblock d.hpomem
    l ← slice x.syntdenum 0 (d.shape.subframes * 11)
    old ← blit d.old_syntdenum 0 l
    some (
      decblock,
      record d {
        synt_mem = synt_mem;
        hpomem = hpomem;
        old_syntdenum = old;
        last_lag = lag;
        prev_enh_pl = if mode == 0 then 1 else 0;
      },
    )

  unfoldable pub decode_frame :
      List F.Float → List ℕ → DecoderState F → ℕ → Option (List F.Float × DecoderState F)
  unfolding frame_residual synthesis
  decode_frame decblock bytes d received = do
    (mode, x) ← frame_residual bytes d received
    synthesis decblock mode x

  -- The body of the loop of `flushSubnormalHistory`: a magnitude below that of the smallest normal number.
  unfoldable pub flushed : F.Float → F.Float
  flushed value =
      let magnitude = F.bits value % 2 ^ 31 in
      if not (magnitude == 0) && ltb magnitude (2 ^ 23) then nought F else value

  unfoldable pub flush_subnormal_history : List F.Float → List F.Float
  unfolding flushed
  flush_subnormal_history history = map flushed history

  -- A sample of the PCM output.
  unfoldable pub pcm_sample : F.Float → ℕ
  pcm_sample sample = F.to_int16 (
      if F.less sample (F.constant (minus 32768 0))
      then F.constant (minus 32768 0)
      else (if F.less (F.constant (plus 32767 0)) sample
          then F.constant (plus 32767 0)
          else sample))

  -- `Decoder.decode`: `dst` and the state.
  unfoldable pub decode_pcm :
      List ℕ → List ℕ → ℕ → DecoderState F → Option (List ℕ × DecoderState F)
  unfolding flush_subnormal_history decode_frame pcm_sample
  decode_pcm dst packet received d = do
    (block, d) ←
        decode_frame (replicate 240 (nought F)) packet
          (record d {
            synt_mem = flush_subnormal_history d.synt_mem;
            hpomem = flush_subnormal_history d.hpomem;
          })
          received
    samples ← slice block 0 d.shape.frame_samples
    dst ← blit dst 0 (map pcm_sample samples)
    some (dst, d)
