-- ===== src/Frame.antt =====
-- The payload of a packet: the last part of `encodeFrame` in src/ilbc_encode.go (the three loops over
-- the sensitivity classes and the empty-frame bit), and the first part of `decodeFrame` in
-- src/ilbc_decode.go, which reads it. The nested loops over `cbIndex[i*3+k]` run through the rows
-- of the layout in order, and so does the model. A list here is the part of the array that the loops
-- go over: the first 3 * lpcAnalyses of `lsfI`, the first shortStateSamples of `idxVec`, the first
-- 3 * adaptiveSubframes of `cbIndex` and `gainIndex`.
pub mod Fields
pub mod Actions
pub mod Encode
pub mod Decode
pub mod RoundTrip
pub mod Total
use i_lbc_go.Prelude.{
  ℕ, zero, suc, ◌+◌, ◌-◌, ◌*◌, ◌/◌, ◌%◌, ◌^◌, List, [], ◌∷◌, ◌++◌, Option, none, some, length,
  get_or, take, replicate,
}
use i_lbc_go.Bitstream.{Cursor, Bitwise, packsplit, packcombine, dopack, unpack}
use i_lbc_go.Layout.{Row, UlpLayout, FrameShape}

infixl 5 ◌>>=◌
abbrev pub ◌>>=◌ {ℓ κ} : {A : Type ℓ} {B : Type κ} → Bitwise A → (A → Bitwise B) → Bitwise B
◌>>=◌ m f c = elim (m c) [ none ↦ none | some (a, d) ↦ f a d ]

abbrev pub pure {ℓ} : {A : Type ℓ} → A → Bitwise A
pure a c = some (a, c)

-- What the two functions hold in `lsfI`, `start`, `stateFirst`, `idxForMax`, `idxVec`, `extraCbIndex`,
-- `extraGainIndex`, `cbIndex` and `gainIndex`.
pub record Indices : Type 0 where
  pub lsf : List ℕ
  pub start : ℕ
  pub state_first : ℕ
  pub idx_for_max : ℕ
  pub idx_vec : List ℕ
  pub extra_cb_index : List ℕ
  pub extra_gain_index : List ℕ
  pub cb_index : List ℕ
  pub gain_index : List ℕ

-- The rows of `for i { for k { … } }`, in order.
abbrev pub all_rows : List (List Row) → List Row
all_rows [] = []
all_rows (rs ∷ groups) = rs ++ all_rows groups

-- The rows that the loops go through.
abbrev pub lsf_rows : FrameShape → List Row
lsf_rows s = take (3 * s.lpc_analyses) s.ulp.lsf_bits

abbrev pub state_rows : FrameShape → List Row
state_rows s = replicate s.short_state_samples s.ulp.state_bits

abbrev pub cb_rows : FrameShape → List Row
cb_rows s = all_rows (take s.adaptive_subframes s.ulp.cb_index)

abbrev pub gain_rows : FrameShape → List Row
gain_rows s = all_rows (take s.adaptive_subframes s.ulp.cb_gain)

-- `packsplit` of an index, and `dopack` of its part for the class `ulp`; the rest takes its place.
unfoldable pub pack_field : ℕ → Row → ℕ → Bitwise ℕ
pack_field ulp r v c =
    let here = get_or r ulp 0 in
    let (firstpart, rest) = packsplit v here (here + get_or r (ulp + 1) 0 + get_or r (ulp + 2) 0) in
    elim (dopack firstpart here c) [ none ↦ none | some d ↦ some (rest, d) ]

unfoldable pub pack_fields : ℕ → List Row → List ℕ → Bitwise (List ℕ)
pack_fields ulp [] vs = pure vs
pack_fields ulp (r ∷ rs) [] = λ c. none
pack_fields ulp (r ∷ rs) (v ∷ vs) = do
  v' ← pack_field ulp r v
  vs' ← pack_fields ulp rs vs
  pure (v' ∷ vs')

-- The body of `for ulp = 0; ulp < 3; ulp++` in `encodeFrame`.
unfoldable pub pack_class : FrameShape → ℕ → Indices → Bitwise Indices
pack_class s ulp f = do
  lsf ← pack_fields ulp (lsf_rows s) f.lsf
  start ← pack_field ulp s.ulp.start_bits f.start
  state_first ← pack_field ulp s.ulp.startfirst_bits f.state_first
  idx_for_max ← pack_field ulp s.ulp.scale_bits f.idx_for_max
  idx_vec ← pack_fields ulp (state_rows s) f.idx_vec
  extra_cb ← pack_fields ulp s.ulp.extra_cb_index f.extra_cb_index
  extra_gain ← pack_fields ulp s.ulp.extra_cb_gain f.extra_gain_index
  cb ← pack_fields ulp (cb_rows s) f.cb_index
  gain ← pack_fields ulp (gain_rows s) f.gain_index
  pure (record {
    lsf = lsf;
    start = start;
    state_first = state_first;
    idx_for_max = idx_for_max;
    idx_vec = idx_vec;
    extra_cb_index = extra_cb;
    extra_gain_index = extra_gain;
    cb_index = cb;
    gain_index = gain;
  })

-- The three classes, and a last bit 0: the packet is not an empty frame.
unfoldable pub pack_classes : FrameShape → Indices → Bitwise (Unit {0})
pack_classes s f = do
  f ← pack_class s 0 f
  f ← pack_class s 1 f
  f ← pack_class s 2 f
  λ c. elim (dopack 0 1 c) [ none ↦ none | some d ↦ some (tt, d) ]

-- The packet that `encodeFrame` leaves in `bytes`.
unfoldable pub pack_frame : FrameShape → Indices → List ℕ → Option (List ℕ)
pack_frame s f bytes = elim (pack_classes s f (record { bytes = bytes; off = 0; pos = 0 })) [
  | none ↦ none
  | some (_, d) ↦ some d.bytes
]

-- `unpack` of the part of an index for the class `ulp`, and `packcombine` with what was read before.
unfoldable pub unpack_field : ℕ → Row → ℕ → Bitwise ℕ
unpack_field ulp r v = do
  lastpart ← unpack (get_or r ulp 0)
  pure (packcombine v lastpart (get_or r ulp 0))

unfoldable pub unpack_fields : ℕ → List Row → List ℕ → Bitwise (List ℕ)
unpack_fields ulp [] vs = pure vs
unpack_fields ulp (r ∷ rs) [] = λ c. none
unpack_fields ulp (r ∷ rs) (v ∷ vs) = do
  v' ← unpack_field ulp r v
  vs' ← unpack_fields ulp rs vs
  pure (v' ∷ vs')

-- The body of `for ulp = 0; ulp < 3; ulp++` in `decodeFrame`.
unfoldable pub unpack_class : FrameShape → ℕ → Indices → Bitwise Indices
unpack_class s ulp f = do
  lsf ← unpack_fields ulp (lsf_rows s) f.lsf
  start ← unpack_field ulp s.ulp.start_bits f.start
  state_first ← unpack_field ulp s.ulp.startfirst_bits f.state_first
  idx_for_max ← unpack_field ulp s.ulp.scale_bits f.idx_for_max
  idx_vec ← unpack_fields ulp (state_rows s) f.idx_vec
  extra_cb ← unpack_fields ulp s.ulp.extra_cb_index f.extra_cb_index
  extra_gain ← unpack_fields ulp s.ulp.extra_cb_gain f.extra_gain_index
  cb ← unpack_fields ulp (cb_rows s) f.cb_index
  gain ← unpack_fields ulp (gain_rows s) f.gain_index
  pure (record {
    lsf = lsf;
    start = start;
    state_first = state_first;
    idx_for_max = idx_for_max;
    idx_vec = idx_vec;
    extra_cb_index = extra_cb;
    extra_gain_index = extra_gain;
    cb_index = cb;
    gain_index = gain;
  })

-- All indices 0, before the first class is read.
abbrev pub no_indices : FrameShape → Indices
no_indices s = record {
  lsf = replicate (3 * s.lpc_analyses) 0;
  start = 0;
  state_first = 0;
  idx_for_max = 0;
  idx_vec = replicate s.short_state_samples 0;
  extra_cb_index = replicate 3 0;
  extra_gain_index = replicate 3 0;
  cb_index = replicate (s.adaptive_subframes * 3) 0;
  gain_index = replicate (s.adaptive_subframes * 3) 0;
}

-- The three classes, and the last bit.
unfoldable pub unpack_classes : FrameShape → Bitwise (Indices × ℕ)
unpack_classes s = do
  f ← unpack_class s 0 (no_indices s)
  f ← unpack_class s 1 f
  f ← unpack_class s 2 f
  last_bit ← unpack 1
  pure (f, last_bit)

unfoldable pub unpack_frame : FrameShape → List ℕ → Option (Indices × ℕ)
unpack_frame s bytes = elim (unpack_classes s (record { bytes = bytes; off = 0; pos = 0 })) [
  | none ↦ none
  | some (r, _) ↦ some r
]
