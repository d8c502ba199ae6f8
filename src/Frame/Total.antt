-- ===== src/Frame/Total.antt =====
-- The parser of src/ilbc_decode.go on any packet of the right length, whoever wrote it.
use i_lbc_go.Prelude.{
  ℕ, zero, suc, ◌+◌, ◌*◌, ◌^◌, ◌≤◌, ◌<◌, ◌≡◌, refl, ap, ◌∙◌, subst, arith, List, [], ◌∷◌, some,
  length, length-append, All, replicate, length-replicate, joined_lt,
}
use i_lbc_go.Layout.{Row, FrameShape, frame_shape}
use i_lbc_go.Bitstream.{Cursor, Bitwise, unpack, packcombine}
use i_lbc_go.Bitstream.Bits.{bits, length-bits}
use i_lbc_go.Bitstream.Bytes.{IsByte, all_bits, length-all_bits}
use i_lbc_go.Bitstream.Read.{Unread, unpack_takes}
use i_lbc_go.Frame.{◌>>=◌, pure, Indices, lsf_rows, state_rows, cb_rows, gain_rows, no_indices}
use i_lbc_go.Frame.{unpack_field, unpack_fields, unpack_class, unpack_classes, unpack_frame}
use i_lbc_go.Frame.Fields.{here, after, Fit, total}
use i_lbc_go.Frame.Encode.{InRange}
use i_lbc_go.Frame.RoundTrip.{class_total, IsLayout, Unread-start, frame_shape-IsLayout}

-- `m` returns a value with `P` from any `n` digits.
record Takes {ℓ} {A : Type ℓ} (m : Bitwise A) (P : A → Type 0) (n : ℕ) : Type ℓ where
  run :
      (c : Cursor) (stream : List ℕ)
      → Unread c stream
      → n ≤ length stream
      → (a : A) × (d : Cursor) × (rest : List ℕ) × (m c ≡ some (a, d))
        × P a
        × Unread d rest
        × (length rest + n ≡ length stream)

module _ {ℓ κ} {A : Type ℓ} {B : Type κ} where
  bind_of_run :
      (m : Bitwise A) (f : A → Bitwise B) {a : A} (c : Cursor) {d : Cursor}
      → m c ≡ some (a, d)
      → (m >>= f) c ≡ f a d
  bind_of_run m f c e = rw (e, ◌>>=◌)

  Takes-bind :
      {m : Bitwise A} (f : A → Bitwise B) {P : A → Type 0} {Q : B → Type 0} {n k : ℕ}
      → Takes m P n
      → ((a : A) → P a → Takes (f a) Q k)
      → Takes (m >>= f) Q (n + k)
  Takes-bind {m} f {n = n} {k = k} p q = record {
    run = λ c stream u enough.
        let (a, d, rest, e, pa, u', l) = p.run c stream u (omega arith) in
        let (b, d', rest', e', qb, u'', l') = (q a pa).run d rest u' (omega arith) in
        (b, d', rest', bind_of_run m f c e ∙ e', qb, u'', omega arith);
  }

  Takes-map :
      {m : Bitwise A} (g : A → B) {P : A → Type 0} {Q : B → Type 0} {n : ℕ}
      → Takes m P n
      → ((a : A) → P a → Q (g a))
      → Takes (m >>= λ x. pure (g x)) Q n
  Takes-map {m} g p q = record {
    run = λ c stream u enough.
        let (a, d, rest, e, pa, u', l) = p.run c stream u enough in
        (g a, d, rest, bind_of_run m (λ x. pure (g x)) c e, q a pa, u', l);
  }

unpack-Takes : (n : ℕ) → Takes (unpack n) (λ v. v < 2 ^ n) n
unpack-Takes n = record {
  run = λ c stream u enough.
      let (v, d, rest, e, small, s, u') = unpack_takes n c stream u enough in
      (
        v,
        d,
        rest,
        e ∙ ap (λ (t : ℕ). some (t, d)) (omega arith),
        small,
        u',
        omega (arith, ap length s, length-append (bits n v) rest, length-bits n v),
      );
}

unpack_field-Takes :
    (u : ℕ) (r : Row) (k g : ℕ)
    → g < 2 ^ k
    → Takes (unpack_field u r g) (λ v. v < 2 ^ (k + here u r)) (here u r)
unfolding unpack_field packcombine
unpack_field-Takes u r k g small =
    Takes-map (λ lastpart. g * 2 ^ here u r + lastpart) (unpack-Takes (here u r))
      (λ lastpart h. joined_lt g lastpart k (here u r) small h)

-- Each number is below the power of two of its row's width so far.
abbrev Below : (Row → ℕ) → List Row → List ℕ → Type 0
Below w [] [] = Unit {0}
Below w [] (v ∷ vs) = ⊥
Below w (r ∷ rs) [] = ⊥
Below w (r ∷ rs) (v ∷ vs) = (v < 2 ^ w r) × Below w rs vs

abbrev wider : ℕ → (Row → ℕ) → Row → ℕ
wider u w r = w r + here u r

unpack_fields-Takes :
    (u : ℕ) (w : Row → ℕ) (rs : List Row) (gs : List ℕ)
    → Below w rs gs
    → Takes (unpack_fields u rs gs) (Below (wider u w) rs) (total u rs)
unfolding unpack_fields
unpack_fields-Takes u w [] [] b = record {
  run = λ c stream s enough. ([], c, stream, refl, tt, s, omega arith);
}
unpack_fields-Takes u w [] (g ∷ gs) b = absurd b
unpack_fields-Takes u w (r ∷ rs) [] b = absurd b
unpack_fields-Takes u w (r ∷ rs) (g ∷ gs) b =
    Takes-bind _ (unpack_field-Takes u r (w r) g b.0) (λ v small.
      Takes-map (λ vs. v ∷ vs) (unpack_fields-Takes u w rs gs b.1) (λ vs below. (small, below)))

record Bounded (s : FrameShape) (w : Row → ℕ) (f : Indices) : Type 0 where
  lsf-below : Below w (lsf_rows s) f.lsf
  start-below : f.start < 2 ^ w s.ulp.start_bits
  state_first-below : f.state_first < 2 ^ w s.ulp.startfirst_bits
  idx_for_max-below : f.idx_for_max < 2 ^ w s.ulp.scale_bits
  idx_vec-below : Below w (state_rows s) f.idx_vec
  extra_cb_index-below : Below w s.ulp.extra_cb_index f.extra_cb_index
  extra_gain_index-below : Below w s.ulp.extra_cb_gain f.extra_gain_index
  cb_index-below : Below w (cb_rows s) f.cb_index
  gain_index-below : Below w (gain_rows s) f.gain_index

unpack_class-Takes :
    (s : FrameShape) (u : ℕ) (w : Row → ℕ) (g : Indices)
    → Bounded s w g
    → Takes (unpack_class s u g) (Bounded s (wider u w)) (class_total s u)
unfolding unpack_class
unpack_class-Takes s u w g b =
    Takes-bind _ (unpack_fields-Takes u w (lsf_rows s) g.lsf b.lsf-below) λ x1 b1.
      Takes-bind _
        (unpack_field-Takes u s.ulp.start_bits (w s.ulp.start_bits) g.start b.start-below)
        λ x2 b2.
          Takes-bind _
            (unpack_field-Takes u s.ulp.startfirst_bits (w s.ulp.startfirst_bits) g.state_first
              b.state_first-below)
            λ x3 b3.
              Takes-bind _
                (unpack_field-Takes u s.ulp.scale_bits (w s.ulp.scale_bits) g.idx_for_max
                  b.idx_for_max-below)
                λ x4 b4.
                  Takes-bind _ (unpack_fields-Takes u w (state_rows s) g.idx_vec b.idx_vec-below)
                    λ x5 b5.
                      Takes-bind _
                        (unpack_fields-Takes u w s.ulp.extra_cb_index g.extra_cb_index
                          b.extra_cb_index-below)
                        λ x6 b6.
                          Takes-bind _
                            (unpack_fields-Takes u w s.ulp.extra_cb_gain g.extra_gain_index
                              b.extra_gain_index-below)
                            λ x7 b7.
                              Takes-bind _
                                (unpack_fields-Takes u w (cb_rows s) g.cb_index b.cb_index-below)
                                λ x8 b8.
                                  Takes-map _
                                    (unpack_fields-Takes u w (gain_rows s) g.gain_index
                                      b.gain_index-below)
                                    λ x9 b9. record {
                                      lsf-below = b1;
                                      start-below = b2;
                                      state_first-below = b3;
                                      idx_for_max-below = b4;
                                      idx_vec-below = b5;
                                      extra_cb_index-below = b6;
                                      extra_gain_index-below = b7;
                                      cb_index-below = b8;
                                      gain_index-below = b9;
                                    }

abbrev unread : Row → ℕ
unread r = 0

zeros-Below : (n : ℕ) (rs : List Row) → n ≡ length rs → Below unread rs (replicate n 0)
zeros-Below zero [] e = tt
zeros-Below (suc n) [] e = absurd (omega arith)
zeros-Below zero (r ∷ rs) e = absurd (omega arith)
zeros-Below (suc n) (r ∷ rs) e = (omega arith, zeros-Below n rs (omega arith))

no_indices-Bounded : (s : FrameShape) → IsLayout s → Bounded s unread (no_indices s)
no_indices-Bounded s l = record {
  lsf-below =
      zeros-Below (3 * s.lpc_analyses) (lsf_rows s)
        (omega (arith, l.sizes.lsf-size, length-replicate {0} {A = ℕ} (3 * s.lpc_analyses) 0));
  start-below = omega arith;
  state_first-below = omega arith;
  idx_for_max-below = omega arith;
  idx_vec-below =
      zeros-Below s.short_state_samples (state_rows s)
        (omega (arith, l.sizes.idx_vec-size, length-replicate {0} {A = ℕ} s.short_state_samples 0));
  extra_cb_index-below = zeros-Below 3 s.ulp.extra_cb_index l.sizes.extra_cb_index-size;
  extra_gain_index-below = zeros-Below 3 s.ulp.extra_cb_gain l.sizes.extra_gain_index-size;
  cb_index-below = zeros-Below (s.adaptive_subframes * 3) (cb_rows s) (
      omega
        (arith, l.sizes.cb_index-size, length-replicate {0} {A = ℕ} (s.adaptive_subframes * 3) 0));
  gain_index-below = zeros-Below (s.adaptive_subframes * 3) (gain_rows s) (
      omega (
        arith,
        l.sizes.gain_index-size,
        length-replicate {0} {A = ℕ} (s.adaptive_subframes * 3) 0,
      ));
}

-- The bits of a row that the three classes read.
abbrev all_read : Row → ℕ
all_read = wider 2 (wider 1 (wider 0 unread))

whole_field : (r : Row) (v : ℕ) → v < 2 ^ all_read r → v < 2 ^ (here 0 r + after 0 r)
whole_field r v h =
    let e : all_read r ≡ here 0 r + after 0 r = omega arith in subst (λ t. v < 2 ^ t) e h

Below-Fit : (rs : List Row) (vs : List ℕ) → Below all_read rs vs → Fit 0 rs vs
Below-Fit [] [] b = tt
Below-Fit [] (v ∷ vs) b = b
Below-Fit (r ∷ rs) [] b = b
Below-Fit (r ∷ rs) (v ∷ vs) b = (whole_field r v b.0, Below-Fit rs vs b.1)

Bounded-InRange : (s : FrameShape) (f : Indices) → Bounded s all_read f → InRange s 0 f
Bounded-InRange s f b = record {
  lsf-fit = Below-Fit (lsf_rows s) f.lsf b.lsf-below;
  start-fit = whole_field s.ulp.start_bits f.start b.start-below;
  state_first-fit = whole_field s.ulp.startfirst_bits f.state_first b.state_first-below;
  idx_for_max-fit = whole_field s.ulp.scale_bits f.idx_for_max b.idx_for_max-below;
  idx_vec-fit = Below-Fit (state_rows s) f.idx_vec b.idx_vec-below;
  extra_cb_index-fit = Below-Fit s.ulp.extra_cb_index f.extra_cb_index b.extra_cb_index-below;
  extra_gain_index-fit = Below-Fit s.ulp.extra_cb_gain f.extra_gain_index b.extra_gain_index-below;
  cb_index-fit = Below-Fit (cb_rows s) f.cb_index b.cb_index-below;
  gain_index-fit = Below-Fit (gain_rows s) f.gain_index b.gain_index-below;
}

abbrev Parsed : FrameShape → Indices × ℕ → Type 0
Parsed s (f, last_bit) = InRange s 0 f × (last_bit < 2)

unpack_classes-Takes :
    (s : FrameShape)
    → IsLayout s
    → Takes
        (unpack_classes s)
        (Parsed s)
        (class_total s 0 + (class_total s 1 + (class_total s 2 + 1)))
unfolding unpack_classes
unpack_classes-Takes s l =
    Takes-bind _ (unpack_class-Takes s 0 unread (no_indices s) (no_indices-Bounded s l)) λ f1 b1.
      Takes-bind _ (unpack_class-Takes s 1 (wider 0 unread) f1 b1) λ f2 b2.
        Takes-bind _ (unpack_class-Takes s 2 (wider 1 (wider 0 unread)) f2 b2)
          λ f3 b3. Takes-map _ (unpack-Takes 1) λ last_bit small. (Bounded-InRange s f3 b3, small)

-- In each mode, on every array of bytes of a packet's length the parser ends with no panic; each index
-- that it returns is below 2 to the number of bits that its row has, and the last bit is 0 or 1.
pub unpack_frame_total :
    (mode : ℕ) (s : FrameShape) (packet : List ℕ)
    → frame_shape mode ≡ some s
    → length packet ≡ s.frame_bytes
    → All IsByte packet
    → (f : Indices) × (last_bit : ℕ) × (unpack_frame s packet ≡ some (f, last_bit))
      × InRange s 0 f
      × (last_bit < 2)
unfolding unpack_frame
unpack_frame_total mode s packet m e a =
    let (l, some_bytes) = frame_shape-IsLayout mode s m in
    let ((f, last_bit), d, rest, run, ok, u, n) =
      (unpack_classes-Takes s l).run _ (all_bits packet) (Unread-start packet (omega arith) a)
        (omega (arith, length-all_bits packet, l.fills)) in
    (f, last_bit, rw (run, unpack_frame), ok.0, ok.1)
