-- ===== src/State/Decoder.antt =====
-- The invariant of a decoder's state.
use i_lbc_go.Prelude.{
  ℕ, ◌*◌, ◌^◌, inl, inr, ◌⊎◌, ◌==◌, true, false, ◌≤◌, ◌<◌, ◌≡◌, refl, arith, some, List, length,
}
use i_lbc_go.Arrays.{Returns, returned}
use i_lbc_go.Floats.{Floats}
use i_lbc_go.Layout.{FrameShape, frame_shape}
use i_lbc_go.Frame.RoundTrip.{frame_shape-cases}
use i_lbc_go.State.{DecoderState, init_decode}
use i_lbc_go.State.Initial.{HasArrays, init_decode_lem}

-- A lag in samples.
abbrev pub IsLag : ℕ → Type 0
IsLag l = (20 ≤ l) × (l ≤ 120)

-- A state whose mode is `mode`: arrays of their sizes, lags in range, at most nine lost frames counted, and
-- a seed of 31 bits.
pub record IsDecoder (F : Floats) (mode : ℕ) (d : DecoderState F) : Type 0 where
  pub of_mode : frame_shape mode ≡ some d.shape
  pub synt_mem_size : length d.synt_mem ≡ 10
  pub lsfdeqold_size : length d.lsfdeqold ≡ 10
  pub lag : IsLag d.last_lag
  pub old_lag : (17 ≤ d.prev_lag) × (d.prev_lag ≤ 123)
  pub lost : d.cons_pli_count ≤ 9
  pub prev_lpc_size : length d.prev_lpc ≡ 11
  pub prev_residual_size : length d.prev_residual ≡ 240
  pub seed_bits : d.seed < 2 ^ 31
  pub old_syntdenum_size : length d.old_syntdenum ≡ 66
  pub hpomem_size : length d.hpomem ≡ 4
  pub enh_buf_size : length d.enh_buf ≡ 640
  pub enh_period_size : length d.enh_period ≡ 8

-- What the concealment has kept for the next frame is the same, but for the residual and the seed.
pub record SameHistory (F : Floats) (d e : DecoderState F) : Type 0 where
  pub shape : e.shape ≡ d.shape
  pub filter : e.prev_lpc ≡ d.prev_lpc
  pub count : e.cons_pli_count ≡ d.cons_pli_count
  pub lost : e.prev_pli ≡ d.prev_pli
  pub lag : e.prev_lag ≡ d.prev_lag
  pub per : e.per ≡ d.per

-- What the two shapes have in common.
pub record HasSize (s : FrameShape) : Type 0 where
  pub samples_ge : 160 ≤ s.frame_samples
  pub samples_le : s.frame_samples ≤ 240
  pub subframes_ge : 4 ≤ s.subframes
  pub subframes_le : s.subframes ≤ 6
  pub samples_eq : s.frame_samples ≡ s.subframes * 40
  pub analyses_le : s.lpc_analyses ≤ 2
  pub one_of : (s.frame_samples == 160) ≡ true ⊎ 200 ≤ s.frame_samples
  pub others : (s.mode == 30) ≡ false → s.subframes ≤ 4

pub frame_shape-HasSize : (mode : ℕ) (s : FrameShape) → frame_shape mode ≡ some s → HasSize s
frame_shape-HasSize mode s m = elim (frame_shape-cases mode m) [
  | inl e ↦ rw e (record {
    samples_ge = omega arith;
    samples_le = omega arith;
    subframes_ge = omega arith;
    subframes_le = omega arith;
    samples_eq = refl;
    analyses_le = omega arith;
    one_of = inr (omega arith);
    others = λ h. cc;
  })
  | inr e ↦ rw e (record {
    samples_ge = omega arith;
    samples_le = omega arith;
    subframes_ge = omega arith;
    subframes_le = omega arith;
    samples_eq = refl;
    analyses_le = omega arith;
    one_of = inl refl;
    others = λ h. omega arith;
  })
]

-- The history for the concealment is replaced.
pub IsDecoder-plc :
    {F : Floats} {mode : ℕ} {d : DecoderState F} (count seed lag pli : ℕ) (per : F.Float)
    (lpc residual : List F.Float)
    → IsDecoder F mode d
    → count ≤ 9
    → seed < 2 ^ 31
    → (17 ≤ lag) × (lag ≤ 123)
    → length lpc ≡ 11
    → length residual ≡ 240
    → IsDecoder F mode (record d {
      cons_pli_count = count;
      seed = seed;
      prev_lag = lag;
      prev_pli = pli;
      per = per;
      prev_lpc = lpc;
      prev_residual = residual;
    })
IsDecoder-plc count seed lag pli per lpc residual w a b c e f = record {
  of_mode = w.of_mode;
  synt_mem_size = w.synt_mem_size;
  lsfdeqold_size = w.lsfdeqold_size;
  lag = w.lag;
  old_lag = c;
  lost = a;
  prev_lpc_size = e;
  prev_residual_size = f;
  seed_bits = b;
  old_syntdenum_size = w.old_syntdenum_size;
  hpomem_size = w.hpomem_size;
  enh_buf_size = w.enh_buf_size;
  enh_period_size = w.enh_period_size;
}

-- The fields that the other parts of the decoder replace.
pub IsDecoder-lsf :
    {F : Floats} {mode : ℕ} {d : DecoderState F} (old : List F.Float)
    → IsDecoder F mode d
    → length old ≡ 10
    → IsDecoder F mode (record d { lsfdeqold = old })
IsDecoder-lsf old w e = record {
  of_mode = w.of_mode;
  synt_mem_size = w.synt_mem_size;
  lsfdeqold_size = e;
  lag = w.lag;
  old_lag = w.old_lag;
  lost = w.lost;
  prev_lpc_size = w.prev_lpc_size;
  prev_residual_size = w.prev_residual_size;
  seed_bits = w.seed_bits;
  old_syntdenum_size = w.old_syntdenum_size;
  hpomem_size = w.hpomem_size;
  enh_buf_size = w.enh_buf_size;
  enh_period_size = w.enh_period_size;
}

pub IsDecoder-output :
    {F : Floats} {mode : ℕ} {d : DecoderState F} (synt_mem hpomem old : List F.Float) (lag enh : ℕ)
    → IsDecoder F mode d
    → length synt_mem ≡ 10
    → length hpomem ≡ 4
    → length old ≡ 66
    → IsLag lag
    → IsDecoder F mode (record d {
      synt_mem = synt_mem;
      hpomem = hpomem;
      old_syntdenum = old;
      last_lag = lag;
      prev_enh_pl = enh;
    })
IsDecoder-output synt_mem hpomem old lag enh w a b c e = record {
  of_mode = w.of_mode;
  synt_mem_size = a;
  lsfdeqold_size = w.lsfdeqold_size;
  lag = e;
  old_lag = w.old_lag;
  lost = w.lost;
  prev_lpc_size = w.prev_lpc_size;
  prev_residual_size = w.prev_residual_size;
  seed_bits = w.seed_bits;
  old_syntdenum_size = c;
  hpomem_size = b;
  enh_buf_size = w.enh_buf_size;
  enh_period_size = w.enh_period_size;
}

module _ (F : Floats) (mode enhancement : ℕ) where
  pub init_decode-IsDecoder :
      (s : FrameShape) (d : DecoderState F)
      → frame_shape mode ≡ some s
      → HasArrays F d
      → Returns (IsDecoder F mode) (init_decode F mode enhancement d)
  init_decode-IsDecoder s d m w = rw (init_decode_lem F mode enhancement s d m w) (
      returned (record {
        of_mode = m;
        synt_mem_size = refl;
        lsfdeqold_size = refl;
        lag = (omega arith, omega arith);
        old_lag = (omega arith, omega arith);
        lost = omega arith;
        prev_lpc_size = refl;
        prev_residual_size = refl;
        seed_bits = omega arith;
        old_syntdenum_size = refl;
        hpomem_size = refl;
        enh_buf_size = refl;
        enh_period_size = refl;
      }))

pub IsDecoder-HasArrays :
    {F : Floats} {mode : ℕ} {d : DecoderState F} → IsDecoder F mode d → HasArrays F d
IsDecoder-HasArrays w = record {
  synt_mem_size = w.synt_mem_size;
  lsfdeqold_size = w.lsfdeqold_size;
  prev_lpc_size = w.prev_lpc_size;
  prev_residual_size = w.prev_residual_size;
  old_syntdenum_size = w.old_syntdenum_size;
  hpomem_size = w.hpomem_size;
  enh_buf_size = w.enh_buf_size;
  enh_period_size = w.enh_period_size;
}
