-- ===== src/State/Initial.antt =====
-- What `initDecode` and `initEncode` leave, whatever the state was before.
use i_lbc_go.Prelude.{
  ℕ, ◌≡◌, refl, sym, arith, List, ◌++◌, length, replicate, map, some, length-replicate,
}
use i_lbc_go.Arrays.{store, blit, for, blit-to_end, head_and_rest, fill_lem}
use i_lbc_go.Floats.{plus, Floats, nought, unity}
use i_lbc_go.Layout.{FrameShape, frame_shape}
use i_lbc_go.State.{
  DecoderState, EncoderState, lsfmean_tbl, cleared, set_unity, set_period, init_decode, init_encode,
  zero_decoder, zero_encoder, one_then_zeros,
}

-- The arrays of a decoder's state have the sizes of their declarations.
pub record HasArrays (F : Floats) (d : DecoderState F) : Type 0 where
  pub synt_mem_size : length d.synt_mem ≡ 10
  pub lsfdeqold_size : length d.lsfdeqold ≡ 10
  pub prev_lpc_size : length d.prev_lpc ≡ 11
  pub prev_residual_size : length d.prev_residual ≡ 240
  pub old_syntdenum_size : length d.old_syntdenum ≡ 66
  pub hpomem_size : length d.hpomem ≡ 4
  pub enh_buf_size : length d.enh_buf ≡ 640
  pub enh_period_size : length d.enh_period ≡ 8

-- The same for an encoder's.
pub record HasBuffers (F : Floats) (e : EncoderState F) : Type 0 where
  pub ana_mem_size : length e.ana_mem ≡ 10
  pub lsfold_size : length e.lsfold ≡ 10
  pub lsfdeqold_size : length e.lsfdeqold ≡ 10
  pub lpc_buffer_size : length e.lpc_buffer ≡ 300
  pub hpimem_size : length e.hpimem ≡ 4

module _ (F : Floats) where
  -- The start of a stream, as RFC 3951 has it.
  abbrev pub initial_decoder : FrameShape → ℕ → DecoderState F
  initial_decoder s enhancement = record {
    shape = s;
    synt_mem = replicate 10 (nought F);
    lsfdeqold = map F.constant lsfmean_tbl;
    last_lag = 20;
    prev_lag = 120;
    cons_pli_count = 0;
    prev_pli = 0;
    prev_enh_pl = 0;
    prev_lpc = (one_then_zeros F);
    prev_residual = replicate 240 (nought F);
    per = nought F;
    seed = 777;
    old_syntdenum =
        (one_then_zeros F)
        ++ ((one_then_zeros F)
            ++ ((one_then_zeros F)
                ++ ((one_then_zeros F) ++ ((one_then_zeros F) ++ (one_then_zeros F)))));
    hpomem = replicate 4 (nought F);
    enhancement = enhancement;
    enh_buf = replicate 640 (nought F);
    enh_period = replicate 8 (F.constant (plus 40 0));
  }

  abbrev pub initial_encoder : FrameShape → EncoderState F
  initial_encoder s = record {
    shape = s;
    ana_mem = replicate 10 (nought F);
    lsfold = map F.constant lsfmean_tbl;
    lsfdeqold = map F.constant lsfmean_tbl;
    lpc_buffer = replicate 300 (nought F);
    hpimem = replicate 4 (nought F);
  }

  pub zero_decoder-HasArrays : HasArrays F (zero_decoder F)
  zero_decoder-HasArrays = record {
    synt_mem_size = refl;
    lsfdeqold_size = refl;
    prev_lpc_size = refl;
    prev_residual_size = refl;
    old_syntdenum_size = refl;
    hpomem_size = refl;
    enh_buf_size = refl;
    enh_period_size = refl;
  }

  pub zero_encoder-HasBuffers : HasBuffers F (zero_encoder F)
  zero_encoder-HasBuffers = record {
    ana_mem_size = refl;
    lsfold_size = refl;
    lsfdeqold_size = refl;
    lpc_buffer_size = refl;
    hpimem_size = refl;
  }

  cleared_lem :
      (n : ℕ) (xs : List F.Float) → length xs ≡ n → cleared F n xs ≡ some (replicate n (nought F))
  unfolding cleared
  cleared_lem n xs h =
      blit-to_end xs 0 (replicate n (nought F)) (omega (arith, length-replicate n (nought F)))

  overwritten : (xs ys : List F.Float) → length ys ≡ length xs → blit xs 0 ys ≡ some ys
  overwritten xs ys h = blit-to_end xs 0 ys (omega arith)

  -- Nothing of the old state is left but the sizes of its arrays.
  pub init_encode_lem :
      (mode : ℕ) (s : FrameShape) (e : EncoderState F)
      → frame_shape mode ≡ some s
      → HasBuffers F e
      → init_encode F mode e ≡ some (initial_encoder s)
  unfolding init_encode
  init_encode_lem mode s e m w =
      rw
        (
          m,
          cleared_lem 10 e.ana_mem w.ana_mem_size,
          overwritten e.lsfold (map F.constant lsfmean_tbl) (sym w.lsfold_size),
          overwritten e.lsfdeqold (map F.constant lsfmean_tbl) (sym w.lsfdeqold_size),
          cleared_lem 300 e.lpc_buffer w.lpc_buffer_size,
          cleared_lem 4 e.hpimem w.hpimem_size,
        )
        refl

  -- The first entry of each of the six filters is set in an array that was cleared.
  unit_filters :
      for 6 0 (set_unity F) (replicate 66 (nought F))
      ≡ some (
          (one_then_zeros F)
          ++ ((one_then_zeros F)
              ++ ((one_then_zeros F)
                  ++ ((one_then_zeros F) ++ ((one_then_zeros F) ++ (one_then_zeros F))))))
  unfolding for set_unity store
  unit_filters = refl

  periods :
      (xs : List F.Float)
      → length xs ≡ 8
      → for 8 0 (set_period F) xs ≡ some (replicate 8 (F.constant (plus 40 0)))
  unfolding set_period
  periods xs h = fill_lem (F.constant (plus 40 0)) 8 xs h

  pub init_decode_lem :
      (mode enhancement : ℕ) (s : FrameShape) (d : DecoderState F)
      → frame_shape mode ≡ some s
      → HasArrays F d
      → init_decode F mode enhancement d ≡ some (initial_decoder s enhancement)
  unfolding init_decode
  init_decode_lem mode enhancement s d m w =
      rw
        (
          m,
          cleared_lem 10 d.synt_mem w.synt_mem_size,
          overwritten d.lsfdeqold (map F.constant lsfmean_tbl) (sym w.lsfdeqold_size),
          cleared_lem 66 d.old_syntdenum w.old_syntdenum_size,
          unit_filters,
          head_and_rest d.prev_lpc (unity F) (replicate 10 (nought F)) (sym w.prev_lpc_size),
          cleared_lem 240 d.prev_residual w.prev_residual_size,
          cleared_lem 4 d.hpomem w.hpomem_size,
          cleared_lem 640 d.enh_buf w.enh_buf_size,
          periods d.enh_period w.enh_period_size,
        )
        refl
