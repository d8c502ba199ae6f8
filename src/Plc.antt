-- ===== src/Plc.antt =====
-- The concealment of lost frames: src/docplc.go.
pub mod Search
pub mod Total
pub mod History
use i_lbc_go.Prelude.{
  ℕ, ◌+◌, ◌-◌, ◌*◌, ◌%◌, ◌^◌, Bool, List, replicate, Option, some, if◌then◌else◌, ltb, ◌==◌,
}
use i_lbc_go.Bitstream.{◌>>=◌}
use i_lbc_go.Arrays.{load, load_back, store, slice, blit, for}
use i_lbc_go.Floats.{plus, Floats, nought, unity}
use i_lbc_go.State.{DecoderState}

-- What the search for a lag keeps: `maxcc`, `gain`, `lag` and `maxPer`.
pub record Match (F : Floats) : Type 0 where
  pub cc : F.Float
  pub gain : F.Float
  pub lag : ℕ
  pub per : F.Float

-- The loop variables of the concealment, with `seed`.
pub record Mixing (F : Floats) : Type 0 where
  pub seed : ℕ
  pub randvec : List F.Float
  pub residual : List F.Float
  pub energy : F.Float

-- `pLCresidual`, `pLClpc` and the decoder.
pub record Concealed (F : Floats) : Type 0 where
  pub residual : List F.Float
  pub lpc : List F.Float
  pub decoder : DecoderState F

-- The linear congruential generator, on a `uint32`.
unfoldable pub next_seed : ℕ → ℕ
next_seed seed = (seed * 69069 + 1) % 2 ^ 32 % 2 ^ 31

module _ (F : Floats) where
  -- A round of the loop of `compCorr`, on its three sums.
  unfoldable pub corr_step :
      List F.Float
      → ℕ
      → ℕ
      → ℕ
      → ℕ
      → F.Float × F.Float × F.Float
      → Option (F.Float × F.Float × F.Float)
  corr_step buffer lag b_len s_range i (ftmp1, ftmp2, ftmp3) = do
    x ← load_back buffer (b_len + i) s_range
    y ← load_back buffer (b_len + i) (s_range + lag)
    some (F.add ftmp1 (F.mul x y), F.add ftmp2 (F.mul y y), F.add ftmp3 (F.mul x x))

  -- `compCorr`: what it puts into `cc`, `gc` and `pm`. A negative `sRange` is 0: neither has a round.
  unfoldable pub comp_corr : List F.Float → ℕ → ℕ → ℕ → Option (F.Float × F.Float × F.Float)
  unfolding corr_step
  comp_corr buffer lag b_len s_range0 = do
    let s_range = (if ltb b_len (s_range0 + lag) then b_len - lag else s_range0)
    (ftmp1, ftmp2, ftmp3) ←
        for s_range 0 (corr_step buffer lag b_len s_range) (nought F, nought F, nought F)
    some (
        if F.above ftmp2 (plus 0 0)
        then (
          F.div (F.mul ftmp1 ftmp1) ftmp2,
          F.abs (F.div ftmp1 ftmp2),
          F.div (F.abs ftmp1) (F.mul (F.sqrt ftmp2) (F.sqrt ftmp3)),
        )
        else (nought F, nought F, nought F))

  -- A candidate of the search.
  unfoldable pub better_match : List F.Float → ℕ → ℕ → Match F → Option (Match F)
  unfolding comp_corr
  better_match buffer b_len i m = do
    (cc, gain, per) ← comp_corr buffer i b_len 60
    some (if F.less m.cc cc then record { cc = cc; gain = gain; lag = i; per = per } else m)

  -- The search around the lag of the last good frame, from `inlag-3` to `inlag+3`; `inlag` is at least 3.
  unfoldable pub best_match : List F.Float → ℕ → ℕ → Option (Match F)
  unfolding better_match
  best_match buffer b_len inlag = do
    (cc, gain, per) ← comp_corr buffer (inlag - 3) b_len 60
    for 6 (inlag - 2) (better_match buffer b_len)
        (record { cc = cc; gain = gain; lag = inlag - 3; per = per })

  -- `useGain`, by the number of samples that are concealed in a row.
  unfoldable pub use_gain : ℕ → F.Float
  use_gain samples =
      if ltb 1280 samples
      then nought F
      else (if ltb 960 samples
          then F.constant (plus 5 1)
          else (if ltb 640 samples
              then F.constant (plus 7 1)
              else (if ltb 320 samples then F.constant (plus 9 1) else unity F)))

  unfoldable pub pitch_factor : F.Float → F.Float
  pitch_factor ftmp =
      if F.less (F.constant (plus 7 1)) ftmp
      then unity F
      else (if F.less (F.constant (plus 4 1)) ftmp
          then F.div (F.sub ftmp (F.constant (plus 4 1))) (F.constant (plus 29999998 8))
          else nought F)

  -- The gain of a sample at `i`.
  unfoldable pub gain_at : F.Float → ℕ → F.Float
  gain_at gain i =
      if ltb i 80
      then gain
      else (if ltb i 160
          then F.mul (F.constant (plus 95 2)) gain
          else F.mul (F.constant (plus 9 1)) gain)

  -- The sample `lag` before the one at `i`, in what is written or in the last residual.
  unfoldable pub earlier : List F.Float → List F.Float → ℕ → ℕ → ℕ → Option F.Float
  earlier previous written frame_samples i lag =
      if ltb i lag then load_back previous (frame_samples + i) lag else load_back written i lag

  -- The body of the loop over the samples.
  unfoldable pub mix_sample :
      List F.Float → ℕ → ℕ → F.Float → F.Float → ℕ → Mixing F → Option (Mixing F)
  unfolding next_seed earlier gain_at
  mix_sample previous frame_samples use_lag gain pitchfact i m = do
    let seed = next_seed m.seed
    r ← earlier previous m.randvec frame_samples i (50 + seed % 70)
    randvec ← store m.randvec i r
    v ← earlier previous m.residual frame_samples i use_lag
    let x = F.mul (gain_at gain i) (F.add (F.mul pitchfact v) (F.mul (F.sub (unity F) pitchfact) r))
    residual ← store m.residual i x
    some (record {
      seed = seed;
      randvec = randvec;
      residual = residual;
      energy = F.add m.energy (F.mul x x);
    })

  -- The loop that takes noise alone where the energy is low.
  unfoldable pub noise_sample : F.Float → List F.Float → ℕ → List F.Float → Option (List F.Float)
  noise_sample gain randvec i residual = do r ← load randvec i; store residual i (F.mul gain r)

  -- `lag` and `maxPer` of a lost frame.
  unfoldable pub lost_lag : DecoderState F → ℕ → Option (ℕ × F.Float)
  unfolding best_match
  lost_lag d inlag =
      if d.prev_pli == 1
      then some (d.prev_lag, d.per)
      else do m ← best_match d.prev_residual d.shape.frame_samples inlag; some (m.lag, m.per)

  -- The branch of `doThePLC` for a lost frame.
  unfoldable pub conceal : List F.Float → ℕ → DecoderState F → Option (Concealed F)
  unfolding lost_lag use_gain pitch_factor mix_sample noise_sample
  conceal plc_residual inlag d = do
    let count = (if ltb d.cons_pli_count 9 then d.cons_pli_count + 1 else d.cons_pli_count)
    let n = d.shape.frame_samples
    (lag, max_per) ← lost_lag d inlag
    let gain = use_gain (count * n)
    let pitchfact = pitch_factor (F.sqrt max_per)
    let use_lag = (if ltb lag 80 then 2 * lag else lag)
    m ← for n 0 (mix_sample d.prev_residual n use_lag gain pitchfact) (record {
      seed = d.seed;
      randvec = replicate 240 (nought F);
      residual = plc_residual;
      energy = nought F;
    })
    residual ←
        (if F.root_below (F.div m.energy (F.of_int n)) (plus 30 0)
          then for n 0 (noise_sample gain m.randvec) m.residual
          else some m.residual)
    some (record {
      residual = residual;
      lpc = d.prev_lpc;
      decoder = record d { cons_pli_count = count; seed = m.seed; prev_lag = lag; per = max_per };
    })

  -- The branch for a frame that arrived, and `if pLI != 0` without effect.
  unfoldable pub keep_frame :
      List F.Float → List F.Float → List F.Float → ℕ → DecoderState F → Option (Concealed F)
  keep_frame plc_residual decresidual lpc lo d = do
    r ← slice decresidual 0 d.shape.frame_samples
    residual ← blit plc_residual 0 r
    l ← slice lpc lo 11
    some (record { residual = residual; lpc = l; decoder = record d { cons_pli_count = 0 } })

  -- `doThePLC`, for the two values 0 and 1 of `pLI`; `pLClpc` has 11 entries, `lpc` starts at `lo`.
  unfoldable pub do_the_plc :
      List F.Float → ℕ → List F.Float → List F.Float → ℕ → ℕ → DecoderState F → Option (Concealed F)
  unfolding conceal keep_frame
  do_the_plc plc_residual pli decresidual lpc lo inlag d = do
    c ←
        (if pli == 1
          then conceal plc_residual inlag d
          else keep_frame plc_residual decresidual lpc lo d)
    r ← slice c.residual 0 d.shape.frame_samples
    previous ← blit c.decoder.prev_residual 0 r
    some (record c {
      decoder = record (c.decoder) { prev_pli = pli; prev_lpc = c.lpc; prev_residual = previous };
    })
