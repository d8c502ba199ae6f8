-- ===== src/State.antt =====
-- The states of both sides: `decoderState` and `encoderState` of src/constants.go, `initDecode` of
-- src/ilbc_decode.go and `initEncode` of src/ilbc_encode.go.
pub mod Initial
pub mod Decoder
use i_lbc_go.Prelude.{ℕ, ◌==◌, List, [], ◌∷◌, ◌*◌, replicate, map, Option, some}
use i_lbc_go.Bitstream.{◌>>=◌}
use i_lbc_go.Floats.{Decimal, plus, Floats, nought, unity}
use i_lbc_go.Arrays.{store, blit, for}
use i_lbc_go.Layout.{FrameShape, frame_shape}

abbrev pub lsfmean_tbl : List Decimal
lsfmean_tbl =
    plus 281738 6
    ∷ plus 445801 6
    ∷ plus 66333 5
    ∷ plus 962524 6
    ∷ plus 1251831 6
    ∷ plus 1533081 6
    ∷ plus 1850586 6
    ∷ plus 2137817 6
    ∷ plus 2481445 6
    ∷ plus 2777344 6
    ∷ []

-- `shape` has the fields that the mode fixes.
pub record DecoderState (F : Floats) : Type 0 where
  pub shape : FrameShape
  pub synt_mem : List F.Float
  pub lsfdeqold : List F.Float
  pub last_lag : ℕ
  pub prev_lag : ℕ
  pub cons_pli_count : ℕ
  pub prev_pli : ℕ
  pub prev_enh_pl : ℕ
  pub prev_lpc : List F.Float
  pub prev_residual : List F.Float
  pub per : F.Float
  pub seed : ℕ
  pub old_syntdenum : List F.Float
  pub hpomem : List F.Float
  pub enhancement : ℕ
  pub enh_buf : List F.Float
  pub enh_period : List F.Float

-- `encoderState`, in the same way.
pub record EncoderState (F : Floats) : Type 0 where
  pub shape : FrameShape
  pub ana_mem : List F.Float
  pub lsfold : List F.Float
  pub lsfdeqold : List F.Float
  pub lpc_buffer : List F.Float
  pub hpimem : List F.Float

-- A field of a state that `new` left zero: no mode, and no layout.
abbrev no_shape : FrameShape
no_shape = record {
  mode = 0;
  frame_samples = 0;
  subframes = 0;
  adaptive_subframes = 0;
  lpc_analyses = 0;
  frame_bytes = 0;
  frame_words = 0;
  short_state_samples = 0;
  ulp = record {
    lsf_bits = [];
    start_bits = [];
    startfirst_bits = [];
    scale_bits = [];
    state_bits = [];
    extra_cb_index = [];
    extra_cb_gain = [];
    cb_index = [];
    cb_gain = [];
  };
}

module _ (F : Floats) where
  -- `new(Encoder)`
  abbrev pub zero_encoder : EncoderState F
  zero_encoder = record {
    shape = no_shape;
    ana_mem = replicate 10 (nought F);
    lsfold = replicate 10 (nought F);
    lsfdeqold = replicate 10 (nought F);
    lpc_buffer = replicate 300 (nought F);
    hpimem = replicate 4 (nought F);
  }

  -- `new(Decoder)`
  abbrev pub zero_decoder : DecoderState F
  zero_decoder = record {
    shape = no_shape;
    synt_mem = replicate 10 (nought F);
    lsfdeqold = replicate 10 (nought F);
    last_lag = 0;
    prev_lag = 0;
    cons_pli_count = 0;
    prev_pli = 0;
    prev_enh_pl = 0;
    prev_lpc = replicate 11 (nought F);
    prev_residual = replicate 240 (nought F);
    per = nought F;
    seed = 0;
    old_syntdenum = replicate 66 (nought F);
    hpomem = replicate 4 (nought F);
    enhancement = 0;
    enh_buf = replicate 640 (nought F);
    enh_period = replicate 8 (nought F);
  }

  -- The coefficients of a filter that changes nothing.
  abbrev pub one_then_zeros : List F.Float
  one_then_zeros = unity F ∷ replicate 10 (nought F)

  -- `clear` of the first entries of an array.
  unfoldable pub cleared : ℕ → List F.Float → Option (List F.Float)
  unfolding blit
  cleared n xs = blit xs 0 (replicate n (nought F))

  -- `initEncode`, on the state that it is called with.
  unfoldable pub init_encode : ℕ → EncoderState F → Option (EncoderState F)
  unfolding cleared blit
  init_encode mode e = do
    s ← frame_shape mode
    ana_mem ← cleared 10 e.ana_mem
    lsfold ← blit e.lsfold 0 (map F.constant lsfmean_tbl)
    lsfdeqold ← blit e.lsfdeqold 0 (map F.constant lsfmean_tbl)
    lpc_buffer ← cleared 300 e.lpc_buffer
    hpimem ← cleared 4 e.hpimem
    some (record e {
      shape = s;
      ana_mem = ana_mem;
      lsfold = lsfold;
      lsfdeqold = lsfdeqold;
      lpc_buffer = lpc_buffer;
      hpimem = hpimem;
    })

  -- `decoder.oldSyntdenum[i*11] = float32(1)`
  unfoldable pub set_unity : ℕ → List F.Float → Option (List F.Float)
  unfolding store
  set_unity i xs = store xs (i * 11) (unity F)

  -- `decoder.enhPeriod[i] = float32(40)`
  unfoldable pub set_period : ℕ → List F.Float → Option (List F.Float)
  unfolding store
  set_period i xs = store xs i (F.constant (plus 40 0))

  -- `initDecode`, on the state that it is called with.
  unfoldable pub init_decode : ℕ → ℕ → DecoderState F → Option (DecoderState F)
  unfolding cleared blit store set_unity set_period
  init_decode mode enhancement d = do
    s ← frame_shape mode
    synt_mem ← cleared 10 d.synt_mem
    lsfdeqold ← blit d.lsfdeqold 0 (map F.constant lsfmean_tbl)
    old_syntdenum ← cleared 66 d.old_syntdenum
    old_syntdenum ← for 6 0 set_unity old_syntdenum
    prev_lpc ← (store d.prev_lpc 0 (unity F) >>= λ xs. blit xs 1 (replicate 10 (nought F)))
    prev_residual ← cleared 240 d.prev_residual
    hpomem ← cleared 4 d.hpomem
    enh_buf ← cleared 640 d.enh_buf
    enh_period ← for 8 0 set_period d.enh_period
    some (record d {
      shape = s;
      synt_mem = synt_mem;
      lsfdeqold = lsfdeqold;
      old_syntdenum = old_syntdenum;
      last_lag = 20;
      prev_lag = 120;
      per = nought F;
      cons_pli_count = 0;
      prev_pli = 0;
      prev_lpc = prev_lpc;
      prev_residual = prev_residual;
      seed = 777;
      hpomem = hpomem;
      enhancement = enhancement;
      enh_buf = enh_buf;
      enh_period = enh_period;
      prev_enh_pl = 0;
    })
