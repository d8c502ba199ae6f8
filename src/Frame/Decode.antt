-- ===== src/Frame/Decode.antt =====
-- What the parser of src/ilbc_decode.go reads: the parts of all indices, class by class.
use i_lbc_go.Prelude.{ℕ, ◌+◌, ◌*◌, ◌^◌, ◌<◌, ◌≡◌, arith, List, [], ◌∷◌, length}
use i_lbc_go.Layout.{Row, FrameShape}
use i_lbc_go.Bitstream.{unpack, packcombine}
use i_lbc_go.Bitstream.Bits.{bits}
use i_lbc_go.Bitstream.Read.{unpack_reads}
use i_lbc_go.Frame.{Indices, lsf_rows, state_rows, cb_rows, gain_rows, no_indices}
use i_lbc_go.Frame.{unpack_field, unpack_fields, unpack_class, unpack_classes}
use i_lbc_go.Frame.Fields.{here, after, part, absorb, part-lt, Fit, parts, absorbs}
use i_lbc_go.Frame.Actions.{Reads, Reads-pure, Reads-bind, Reads-map}
use i_lbc_go.Frame.Encode.{
  InRange, class_bits, class_left, frame_bits, IsShape, InRange-1, InRange-2,
}

unpack-Reads : (n v : ℕ) → v < 2 ^ n → Reads (unpack n) v (bits n v)
unpack-Reads n v small = record { run = λ c rest u. unpack_reads n v c rest u small }

pub unpack_field-Reads :
    (u : ℕ) (r : Row) (g v : ℕ)
    → v < 2 ^ (here u r + after u r)
    → Reads (unpack_field u r g) (absorb u r g v) (bits (here u r) (part u r v))
unfolding unpack_field packcombine
unpack_field-Reads u r g v small =
    Reads-map (λ lastpart. g * 2 ^ here u r + lastpart)
      (unpack-Reads (here u r) (part u r v) (part-lt u r v small))

pub unpack_fields-Reads :
    (u : ℕ) (rs : List Row) (gs vs : List ℕ)
    → length gs ≡ length rs
    → Fit u rs vs
    → Reads (unpack_fields u rs gs) (absorbs u rs gs vs) (parts u rs vs)
unfolding unpack_fields
unpack_fields-Reads u [] gs vs e f = Reads-pure gs
unpack_fields-Reads u (r ∷ rs) [] vs e f = absurd (omega arith)
unpack_fields-Reads u (r ∷ rs) (g ∷ gs) [] e f = absurd f
unpack_fields-Reads u (r ∷ rs) (g ∷ gs) (v ∷ vs) e f =
    Reads-bind _ (unpack_field-Reads u r g v f.0)
      (Reads-map (λ vs'. absorb u r g v ∷ vs') (unpack_fields-Reads u rs gs vs (omega arith) f.1))

-- There is a number for each row, read so far.
pub record Sized (s : FrameShape) (g : Indices) : Type 0 where
  pub lsf-size : length g.lsf ≡ length (lsf_rows s)
  pub idx_vec-size : length g.idx_vec ≡ length (state_rows s)
  pub extra_cb_index-size : length g.extra_cb_index ≡ length s.ulp.extra_cb_index
  pub extra_gain_index-size : length g.extra_gain_index ≡ length s.ulp.extra_cb_gain
  pub cb_index-size : length g.cb_index ≡ length (cb_rows s)
  pub gain_index-size : length g.gain_index ≡ length (gain_rows s)

abbrev pub class_absorb : FrameShape → ℕ → Indices → Indices → Indices
class_absorb s u g f = record {
  lsf = absorbs u (lsf_rows s) g.lsf f.lsf;
  start = absorb u s.ulp.start_bits g.start f.start;
  state_first = absorb u s.ulp.startfirst_bits g.state_first f.state_first;
  idx_for_max = absorb u s.ulp.scale_bits g.idx_for_max f.idx_for_max;
  idx_vec = absorbs u (state_rows s) g.idx_vec f.idx_vec;
  extra_cb_index = absorbs u s.ulp.extra_cb_index g.extra_cb_index f.extra_cb_index;
  extra_gain_index = absorbs u s.ulp.extra_cb_gain g.extra_gain_index f.extra_gain_index;
  cb_index = absorbs u (cb_rows s) g.cb_index f.cb_index;
  gain_index = absorbs u (gain_rows s) g.gain_index f.gain_index;
}

pub unpack_class-Reads :
    (s : FrameShape) (u : ℕ) (g f : Indices)
    → Sized s g
    → InRange s u f
    → Reads (unpack_class s u g) (class_absorb s u g f) (class_bits s u f)
unfolding unpack_class
unpack_class-Reads s u g f z r =
    Reads-bind _ (unpack_fields-Reads u (lsf_rows s) g.lsf f.lsf z.lsf-size r.lsf-fit) (
      Reads-bind _ (unpack_field-Reads u s.ulp.start_bits g.start f.start r.start-fit) (
        Reads-bind _
          (unpack_field-Reads u s.ulp.startfirst_bits g.state_first f.state_first r.state_first-fit)
          (Reads-bind _
            (unpack_field-Reads u s.ulp.scale_bits g.idx_for_max f.idx_for_max r.idx_for_max-fit)
            (Reads-bind _
              (unpack_fields-Reads u (state_rows s) g.idx_vec f.idx_vec z.idx_vec-size
                r.idx_vec-fit)
              (Reads-bind _
                (unpack_fields-Reads u s.ulp.extra_cb_index g.extra_cb_index f.extra_cb_index
                  z.extra_cb_index-size r.extra_cb_index-fit)
                (Reads-bind _
                  (unpack_fields-Reads u s.ulp.extra_cb_gain g.extra_gain_index f.extra_gain_index
                    z.extra_gain_index-size r.extra_gain_index-fit)
                  (Reads-bind _
                    (unpack_fields-Reads u (cb_rows s) g.cb_index f.cb_index z.cb_index-size
                      r.cb_index-fit)
                    (Reads-map _ (
                      unpack_fields-Reads u (gain_rows s) g.gain_index f.gain_index
                        z.gain_index-size r.gain_index-fit)))))))))

length-absorbs :
    (u : ℕ) (rs : List Row) (gs vs : List ℕ)
    → length gs ≡ length rs
    → Fit u rs vs
    → length (absorbs u rs gs vs) ≡ length rs
length-absorbs u [] gs vs e f = e
length-absorbs u (r ∷ rs) [] vs e f = e
length-absorbs u (r ∷ rs) (g ∷ gs) [] e f = absurd f
length-absorbs u (r ∷ rs) (g ∷ gs) (v ∷ vs) e f =
    omega (arith, length-absorbs u rs gs vs (omega arith) f.1)

class_absorb-Sized :
    (s : FrameShape) (u : ℕ) (g f : Indices)
    → Sized s g
    → InRange s u f
    → Sized s (class_absorb s u g f)
class_absorb-Sized s u g f z r = record {
  lsf-size = length-absorbs u (lsf_rows s) g.lsf f.lsf z.lsf-size r.lsf-fit;
  idx_vec-size = length-absorbs u (state_rows s) g.idx_vec f.idx_vec z.idx_vec-size r.idx_vec-fit;
  extra_cb_index-size =
      length-absorbs u s.ulp.extra_cb_index g.extra_cb_index f.extra_cb_index z.extra_cb_index-size
        r.extra_cb_index-fit;
  extra_gain_index-size =
      length-absorbs u s.ulp.extra_cb_gain g.extra_gain_index f.extra_gain_index
        z.extra_gain_index-size r.extra_gain_index-fit;
  cb_index-size = length-absorbs u (cb_rows s) g.cb_index f.cb_index z.cb_index-size r.cb_index-fit;
  gain_index-size =
      length-absorbs u (gain_rows s) g.gain_index f.gain_index z.gain_index-size r.gain_index-fit;
}

-- What the parser has put together after the three classes.
abbrev pub all_absorbed : FrameShape → Indices → Indices
all_absorbed s f =
    class_absorb s 2 (class_absorb s 1 (class_absorb s 0 (no_indices s) f) (class_left s 0 f))
      (class_left s 1 (class_left s 0 f))

pub unpack_classes-Reads :
    (s : FrameShape) (f : Indices)
    → IsShape s
    → Sized s (no_indices s)
    → InRange s 0 f
    → Reads (unpack_classes s) (all_absorbed s f, 0) (frame_bits s f)
unfolding unpack_classes
unpack_classes-Reads s f i z r =
    let r1 = InRange-1 s f i r in
    let r2 = InRange-2 s (class_left s 0 f) i r1 in
    let z1 = class_absorb-Sized s 0 (no_indices s) f z r in
    let z2 = class_absorb-Sized s 1 (class_absorb s 0 (no_indices s) f) (class_left s 0 f) z1 r1 in
    Reads-bind _ (unpack_class-Reads s 0 (no_indices s) f z r) (
      Reads-bind _
        (unpack_class-Reads s 1 (class_absorb s 0 (no_indices s) f) (class_left s 0 f) z1 r1)
        (Reads-bind _
          (unpack_class-Reads s 2
            (class_absorb s 1 (class_absorb s 0 (no_indices s) f) (class_left s 0 f))
            (class_left s 1 (class_left s 0 f)) z2 r2)
          (Reads-map _ (unpack-Reads 1 0 (omega arith)))))
