-- ===== src/Frame/Encode.antt =====
-- What the packer of src/ilbc_encode.go writes: the parts of all indices, class by class.
use i_lbc_go.Prelude.{
  ℕ, ◌+◌, ◌^◌, ◌<◌, ◌≡◌, arith, List, [], ◌∷◌, ◌++◌, some, none, get_or, All, inl,
}
use i_lbc_go.Layout.{Row, FrameShape}
use i_lbc_go.Bitstream.{Cursor, dopack}
use i_lbc_go.Bitstream.Bits.{bits, length-bits}
use i_lbc_go.Bitstream.Write.{dopack_appends}
use i_lbc_go.Frame.{Indices, lsf_rows, state_rows, cb_rows, gain_rows}
use i_lbc_go.Frame.{pack_field, pack_fields, pack_class, pack_classes}
use i_lbc_go.Frame.Fields.{
  here, after, IsRow, part, left, packsplit_lem, part-lt, Fit, parts, lefts,
}
use i_lbc_go.Frame.Fields.{Fit-lefts_1, Fit-lefts_2, left_fits_1, left_fits_2}
use i_lbc_go.Frame.Actions.{Packs, Packs-pure, Packs-bind, Packs-map}

pack_field_run :
    (u : ℕ) (r : Row) (v : ℕ) (c d : Cursor)
    → dopack (part u r v) (here u r) c ≡ some d
    → pack_field u r v c ≡ some (left u r v, d)
unfolding pack_field
pack_field_run u r v c d e =
    let p = packsplit_lem v (here u r) (get_or r (u + 1) 0) (get_or r (u + 2) 0) in
    rw (p, e, pack_field) (rw p)

pub pack_field-Packs :
    (size u : ℕ) (r : Row) (v : ℕ)
    → v < 2 ^ (here u r + after u r)
    → Packs size (pack_field u r v) (left u r v) (bits (here u r) (part u r v))
pack_field-Packs size u r v small = record {
  run = λ c ws o room.
      let (d, e, w) =
        dopack_appends size (here u r) (part u r v) c ws o (part-lt u r v small)
          (omega (arith, length-bits (here u r) (part u r v))) in
      (d, pack_field_run u r v c d e, inl w);
}

pub pack_fields-Packs :
    (size u : ℕ) (rs : List Row) (vs : List ℕ)
    → Fit u rs vs
    → Packs size (pack_fields u rs vs) (lefts u rs vs) (parts u rs vs)
unfolding pack_fields
pack_fields-Packs size u [] vs f = Packs-pure vs
pack_fields-Packs size u (r ∷ rs) [] f = absurd f
pack_fields-Packs size u (r ∷ rs) (v ∷ vs) f =
    Packs-bind _ (pack_field-Packs size u r v f.0)
      (Packs-map (λ vs'. left u r v ∷ vs') (pack_fields-Packs size u rs vs f.1))

-- Every index fits the bits of its row that are left at the class `u`.
pub record InRange (s : FrameShape) (u : ℕ) (f : Indices) : Type 0 where
  pub lsf-fit : Fit u (lsf_rows s) f.lsf
  pub start-fit : f.start < 2 ^ (here u s.ulp.start_bits + after u s.ulp.start_bits)
  pub state_first-fit :
      f.state_first < 2 ^ (here u s.ulp.startfirst_bits + after u s.ulp.startfirst_bits)
  pub idx_for_max-fit : f.idx_for_max < 2 ^ (here u s.ulp.scale_bits + after u s.ulp.scale_bits)
  pub idx_vec-fit : Fit u (state_rows s) f.idx_vec
  pub extra_cb_index-fit : Fit u s.ulp.extra_cb_index f.extra_cb_index
  pub extra_gain_index-fit : Fit u s.ulp.extra_cb_gain f.extra_gain_index
  pub cb_index-fit : Fit u (cb_rows s) f.cb_index
  pub gain_index-fit : Fit u (gain_rows s) f.gain_index

-- The digits of the class `u`, and what is left of the indices after it.
abbrev pub class_bits : FrameShape → ℕ → Indices → List ℕ
class_bits s u f =
    parts u (lsf_rows s) f.lsf
    ++ (bits (here u s.ulp.start_bits) (part u s.ulp.start_bits f.start)
        ++ (bits (here u s.ulp.startfirst_bits) (part u s.ulp.startfirst_bits f.state_first)
            ++ (bits (here u s.ulp.scale_bits) (part u s.ulp.scale_bits f.idx_for_max)
                ++ (parts u (state_rows s) f.idx_vec
                    ++ (parts u s.ulp.extra_cb_index f.extra_cb_index
                        ++ (parts u s.ulp.extra_cb_gain f.extra_gain_index
                            ++ (parts u (cb_rows s) f.cb_index
                                ++ parts u (gain_rows s) f.gain_index)))))))

abbrev pub class_left : FrameShape → ℕ → Indices → Indices
class_left s u f = record {
  lsf = lefts u (lsf_rows s) f.lsf;
  start = left u s.ulp.start_bits f.start;
  state_first = left u s.ulp.startfirst_bits f.state_first;
  idx_for_max = left u s.ulp.scale_bits f.idx_for_max;
  idx_vec = lefts u (state_rows s) f.idx_vec;
  extra_cb_index = lefts u s.ulp.extra_cb_index f.extra_cb_index;
  extra_gain_index = lefts u s.ulp.extra_cb_gain f.extra_gain_index;
  cb_index = lefts u (cb_rows s) f.cb_index;
  gain_index = lefts u (gain_rows s) f.gain_index;
}

pub pack_class-Packs :
    (size : ℕ) (s : FrameShape) (u : ℕ) (f : Indices)
    → InRange s u f
    → Packs size (pack_class s u f) (class_left s u f) (class_bits s u f)
unfolding pack_class
pack_class-Packs size s u f r =
    Packs-bind _ (pack_fields-Packs size u (lsf_rows s) f.lsf r.lsf-fit) (
      Packs-bind _ (pack_field-Packs size u s.ulp.start_bits f.start r.start-fit) (
        Packs-bind _ (pack_field-Packs size u s.ulp.startfirst_bits f.state_first r.state_first-fit)
          (Packs-bind _ (pack_field-Packs size u s.ulp.scale_bits f.idx_for_max r.idx_for_max-fit) (
            Packs-bind _ (pack_fields-Packs size u (state_rows s) f.idx_vec r.idx_vec-fit) (
              Packs-bind _
                (pack_fields-Packs size u s.ulp.extra_cb_index f.extra_cb_index
                  r.extra_cb_index-fit)
                (Packs-bind _
                  (pack_fields-Packs size u s.ulp.extra_cb_gain f.extra_gain_index
                    r.extra_gain_index-fit)
                  (Packs-bind _ (pack_fields-Packs size u (cb_rows s) f.cb_index r.cb_index-fit) (
                    Packs-map _
                      (pack_fields-Packs size u (gain_rows s) f.gain_index r.gain_index-fit)))))))))

-- The rows use three classes only.
pub record IsShape (s : FrameShape) : Type 0 where
  pub lsf-rows : All IsRow (lsf_rows s)
  pub start-row : IsRow s.ulp.start_bits
  pub startfirst-row : IsRow s.ulp.startfirst_bits
  pub scale-row : IsRow s.ulp.scale_bits
  pub state-rows : All IsRow (state_rows s)
  pub extra_cb_index-rows : All IsRow s.ulp.extra_cb_index
  pub extra_cb_gain-rows : All IsRow s.ulp.extra_cb_gain
  pub cb-rows : All IsRow (cb_rows s)
  pub gain-rows : All IsRow (gain_rows s)

pub InRange-1 :
    (s : FrameShape) (f : Indices) → IsShape s → InRange s 0 f → InRange s 1 (class_left s 0 f)
InRange-1 s f i r = record {
  lsf-fit = Fit-lefts_1 (lsf_rows s) f.lsf i.lsf-rows r.lsf-fit;
  start-fit = left_fits_1 s.ulp.start_bits f.start i.start-row;
  state_first-fit = left_fits_1 s.ulp.startfirst_bits f.state_first i.startfirst-row;
  idx_for_max-fit = left_fits_1 s.ulp.scale_bits f.idx_for_max i.scale-row;
  idx_vec-fit = Fit-lefts_1 (state_rows s) f.idx_vec i.state-rows r.idx_vec-fit;
  extra_cb_index-fit =
      Fit-lefts_1 s.ulp.extra_cb_index f.extra_cb_index i.extra_cb_index-rows r.extra_cb_index-fit;
  extra_gain_index-fit =
      Fit-lefts_1 s.ulp.extra_cb_gain f.extra_gain_index i.extra_cb_gain-rows
        r.extra_gain_index-fit;
  cb_index-fit = Fit-lefts_1 (cb_rows s) f.cb_index i.cb-rows r.cb_index-fit;
  gain_index-fit = Fit-lefts_1 (gain_rows s) f.gain_index i.gain-rows r.gain_index-fit;
}

pub InRange-2 :
    (s : FrameShape) (f : Indices) → IsShape s → InRange s 1 f → InRange s 2 (class_left s 1 f)
InRange-2 s f i r = record {
  lsf-fit = Fit-lefts_2 (lsf_rows s) f.lsf i.lsf-rows r.lsf-fit;
  start-fit = left_fits_2 s.ulp.start_bits f.start i.start-row;
  state_first-fit = left_fits_2 s.ulp.startfirst_bits f.state_first i.startfirst-row;
  idx_for_max-fit = left_fits_2 s.ulp.scale_bits f.idx_for_max i.scale-row;
  idx_vec-fit = Fit-lefts_2 (state_rows s) f.idx_vec i.state-rows r.idx_vec-fit;
  extra_cb_index-fit =
      Fit-lefts_2 s.ulp.extra_cb_index f.extra_cb_index i.extra_cb_index-rows r.extra_cb_index-fit;
  extra_gain_index-fit =
      Fit-lefts_2 s.ulp.extra_cb_gain f.extra_gain_index i.extra_cb_gain-rows
        r.extra_gain_index-fit;
  cb_index-fit = Fit-lefts_2 (cb_rows s) f.cb_index i.cb-rows r.cb_index-fit;
  gain_index-fit = Fit-lefts_2 (gain_rows s) f.gain_index i.gain-rows r.gain_index-fit;
}

-- The digits of a packet.
abbrev pub frame_bits : FrameShape → Indices → List ℕ
frame_bits s f =
    class_bits s 0 f
    ++ (class_bits s 1 (class_left s 0 f)
        ++ (class_bits s 2 (class_left s 1 (class_left s 0 f)) ++ bits 1 0))

last_bit-Packs :
    (size : ℕ)
    → Packs size
        (λ c. elim (dopack 0 1 c) [ none ↦ none | some d ↦ some (tt {0}, d) ])
        tt
        (bits 1 0)
last_bit-Packs size = record {
  run = λ c ws o room.
      let (d, e, w) =
        dopack_appends size 1 0 c ws o (omega arith) (omega (arith, length-bits 1 0)) in
      (d, rw e, inl w);
}

pub pack_classes-Packs :
    (size : ℕ) (s : FrameShape) (f : Indices)
    → IsShape s
    → InRange s 0 f
    → Packs size (pack_classes s f) tt (frame_bits s f)
unfolding pack_classes
pack_classes-Packs size s f i r =
    let r1 = InRange-1 s f i r in
    let r2 = InRange-2 s (class_left s 0 f) i r1 in
    Packs-bind _ (pack_class-Packs size s 0 f r) (
      Packs-bind _ (pack_class-Packs size s 1 (class_left s 0 f) r1) (
        Packs-bind _ (pack_class-Packs size s 2 (class_left s 1 (class_left s 0 f)) r2)
          (last_bit-Packs size)))
