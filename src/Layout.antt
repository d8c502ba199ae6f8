-- ===== src/Layout.antt =====
-- src/constants.go: how many bits of each index go into which of the three sensitivity classes of a
-- packet, and what a frame duration fixes (the first part of `initEncode` and of `initDecode`).
use i_lbc_go.Prelude.{ℕ, ◌==◌, if◌then◌else◌, List, [], ◌∷◌, Option, none, some}

-- `[5]int`: the bits of an index in each class. No layout uses the last two entries.
abbrev pub Row : Type 0
Row = List ℕ

abbrev pub row : ℕ → ℕ → ℕ → Row
row a b c = a ∷ b ∷ c ∷ 0 ∷ 0 ∷ []

pub record UlpLayout : Type 0 where
  pub lsf_bits : List Row
  pub start_bits : Row
  pub startfirst_bits : Row
  pub scale_bits : Row
  pub state_bits : Row
  pub extra_cb_index : List Row
  pub extra_cb_gain : List Row
  pub cb_index : List (List Row)
  pub cb_gain : List (List Row)

abbrev pub ulp20_table : UlpLayout
ulp20_table = record {
  lsf_bits = row 6 0 0 ∷ row 7 0 0 ∷ row 7 0 0 ∷ row 0 0 0 ∷ row 0 0 0 ∷ row 0 0 0 ∷ [];
  start_bits = row 2 0 0;
  startfirst_bits = row 1 0 0;
  scale_bits = row 6 0 0;
  state_bits = row 0 1 2;
  extra_cb_index = row 6 0 1 ∷ row 0 0 7 ∷ row 0 0 7 ∷ [];
  extra_cb_gain = row 2 0 3 ∷ row 1 1 2 ∷ row 0 0 3 ∷ [];
  cb_index =
      (row 7 0 1 ∷ row 0 0 7 ∷ row 0 0 7 ∷ [])
      ∷ (row 0 0 8 ∷ row 0 0 8 ∷ row 0 0 8 ∷ [])
      ∷ (row 0 0 0 ∷ row 0 0 0 ∷ row 0 0 0 ∷ [])
      ∷ (row 0 0 0 ∷ row 0 0 0 ∷ row 0 0 0 ∷ [])
      ∷ (row 0 0 0 ∷ row 0 0 0 ∷ row 0 0 0 ∷ [])
      ∷ (row 0 0 0 ∷ row 0 0 0 ∷ row 0 0 0 ∷ [])
      ∷ [];
  cb_gain =
      (row 1 2 2 ∷ row 1 1 2 ∷ row 0 0 3 ∷ [])
      ∷ (row 1 1 3 ∷ row 0 2 2 ∷ row 0 0 3 ∷ [])
      ∷ (row 0 0 0 ∷ row 0 0 0 ∷ row 0 0 0 ∷ [])
      ∷ (row 0 0 0 ∷ row 0 0 0 ∷ row 0 0 0 ∷ [])
      ∷ (row 0 0 0 ∷ row 0 0 0 ∷ row 0 0 0 ∷ [])
      ∷ (row 0 0 0 ∷ row 0 0 0 ∷ row 0 0 0 ∷ [])
      ∷ [];
}

abbrev pub ulp30_table : UlpLayout
ulp30_table = record {
  lsf_bits = row 6 0 0 ∷ row 7 0 0 ∷ row 7 0 0 ∷ row 6 0 0 ∷ row 7 0 0 ∷ row 7 0 0 ∷ [];
  start_bits = row 3 0 0;
  startfirst_bits = row 1 0 0;
  scale_bits = row 6 0 0;
  state_bits = row 0 1 2;
  extra_cb_index = row 4 2 1 ∷ row 0 0 7 ∷ row 0 0 7 ∷ [];
  extra_cb_gain = row 1 1 3 ∷ row 1 1 2 ∷ row 0 0 3 ∷ [];
  cb_index =
      (row 6 1 1 ∷ row 0 0 7 ∷ row 0 0 7 ∷ [])
      ∷ (row 0 7 1 ∷ row 0 0 8 ∷ row 0 0 8 ∷ [])
      ∷ (row 0 7 1 ∷ row 0 0 8 ∷ row 0 0 8 ∷ [])
      ∷ (row 0 7 1 ∷ row 0 0 8 ∷ row 0 0 8 ∷ [])
      ∷ (row 0 0 0 ∷ row 0 0 0 ∷ row 0 0 0 ∷ [])
      ∷ (row 0 0 0 ∷ row 0 0 0 ∷ row 0 0 0 ∷ [])
      ∷ [];
  cb_gain =
      (row 1 2 2 ∷ row 1 2 1 ∷ row 0 0 3 ∷ [])
      ∷ (row 0 2 3 ∷ row 0 2 2 ∷ row 0 0 3 ∷ [])
      ∷ (row 0 1 4 ∷ row 0 1 3 ∷ row 0 0 3 ∷ [])
      ∷ (row 0 1 4 ∷ row 0 1 3 ∷ row 0 0 3 ∷ [])
      ∷ (row 0 0 0 ∷ row 0 0 0 ∷ row 0 0 0 ∷ [])
      ∷ (row 0 0 0 ∷ row 0 0 0 ∷ row 0 0 0 ∷ [])
      ∷ [];
}

-- The fields of an encoder or decoder state that its mode fixes.
pub record FrameShape : Type 0 where
  pub mode : ℕ
  pub frame_samples : ℕ
  pub subframes : ℕ
  pub adaptive_subframes : ℕ
  pub lpc_analyses : ℕ
  pub frame_bytes : ℕ
  pub frame_words : ℕ
  pub short_state_samples : ℕ
  pub ulp : UlpLayout

abbrev pub shape30 : FrameShape
shape30 = record {
  mode = 30;
  frame_samples = 240;
  subframes = 6;
  adaptive_subframes = 4;
  lpc_analyses = 2;
  frame_bytes = 50;
  frame_words = 25;
  short_state_samples = 58;
  ulp = ulp30_table;
}

abbrev pub shape20 : FrameShape
shape20 = record {
  mode = 20;
  frame_samples = 160;
  subframes = 4;
  adaptive_subframes = 2;
  lpc_analyses = 1;
  frame_bytes = 38;
  frame_words = 19;
  short_state_samples = 57;
  ulp = ulp20_table;
}

-- `none` is the panic of an internal mode that is neither.
unfoldable pub frame_shape : ℕ → Option FrameShape
frame_shape mode = if mode == 30 then some shape30 else if mode == 20 then some shape20 else none
