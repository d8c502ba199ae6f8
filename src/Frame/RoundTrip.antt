-- ===== src/Frame/RoundTrip.antt =====
-- The packet as a whole: `decodeFrame` in src/ilbc_decode.go reads back what `encodeFrame` in
-- src/ilbc_encode.go wrote.
use i_lbc_go.Prelude.{
  ℕ, suc, ◌+◌, ◌-◌, ◌*◌, Bool-cases, ◌==◌, ◌^◌, ◌≤◌, ◌<◌, ◌≡◌, refl, sym, ap, ◌∙◌, subst, arith,
  List, [], ◌∷◌, ◌++◌, some, none, length, length-append, append-nil, All, All-append, replicate,
  length-replicate, ◌⊎◌, inl, inr,
}
use mathlib.Core.Option.{some-injective}
use i_lbc_go.Layout.{Row, FrameShape, shape20, shape30, frame_shape}
use i_lbc_go.Bitstream.{Cursor}
use i_lbc_go.Bitstream.Bits.{bits, length-bits}
use i_lbc_go.Bitstream.Bytes.{IsByte, all_bits, all_bits-append, length-all_bits}
use i_lbc_go.Bitstream.Write.{Open, Written}
use i_lbc_go.Bitstream.Read.{Unread}
use i_lbc_go.Frame.{Indices, lsf_rows, state_rows, cb_rows, gain_rows, no_indices}
use i_lbc_go.Frame.{pack_frame, unpack_frame}
use i_lbc_go.Frame.Fields.{
  here, part, Fit, absorbs, lefts, total, length-parts, absorbs-All, absorb_all, IsRow,
}
use i_lbc_go.Frame.Encode.{
  InRange, class_bits, class_left, frame_bits, IsShape, InRange-1, InRange-2, pack_classes-Packs,
}
use i_lbc_go.Frame.Decode.{Sized, all_absorbed, unpack_classes-Reads}

abbrev pub class_total : FrameShape → ℕ → ℕ
class_total s u =
    total u (lsf_rows s)
    + (here u s.ulp.start_bits
        + (here u s.ulp.startfirst_bits
            + (here u s.ulp.scale_bits
                + (total u (state_rows s)
                    + (total u s.ulp.extra_cb_index
                        + (total u s.ulp.extra_cb_gain
                            + (total u (cb_rows s) + total u (gain_rows s))))))))

length-class_bits :
    (s : FrameShape) (u : ℕ) (f : Indices)
    → InRange s u f
    → length (class_bits s u f) ≡ class_total s u
length-class_bits s u f r = simp length-append (
    omega (
      arith,
      length-parts u (lsf_rows s) f.lsf r.lsf-fit,
      length-bits (here u s.ulp.start_bits) (part u s.ulp.start_bits f.start),
      length-bits (here u s.ulp.startfirst_bits) (part u s.ulp.startfirst_bits f.state_first),
      length-bits (here u s.ulp.scale_bits) (part u s.ulp.scale_bits f.idx_for_max),
      length-parts u (state_rows s) f.idx_vec r.idx_vec-fit,
      length-parts u s.ulp.extra_cb_index f.extra_cb_index r.extra_cb_index-fit,
      length-parts u s.ulp.extra_cb_gain f.extra_gain_index r.extra_gain_index-fit,
      length-parts u (cb_rows s) f.cb_index r.cb_index-fit,
      length-parts u (gain_rows s) f.gain_index r.gain_index-fit,
    ))

length-frame_bits :
    (s : FrameShape) (f : Indices)
    → IsShape s
    → InRange s 0 f
    → length (frame_bits s f) ≡ class_total s 0 + (class_total s 1 + (class_total s 2 + 1))
length-frame_bits s f i r =
    let f1 = class_left s 0 f in
    let r1 = InRange-1 s f i r in
    let f2 = class_left s 1 f1 in
    let r2 = InRange-2 s f1 i r1 in
    omega (
      arith,
      length-append (class_bits s 0 f) (class_bits s 1 f1 ++ (class_bits s 2 f2 ++ bits 1 0)),
      length-append (class_bits s 1 f1) (class_bits s 2 f2 ++ bits 1 0),
      length-append (class_bits s 2 f2) (bits 1 0),
      length-class_bits s 0 f r,
      length-class_bits s 1 f1 r1,
      length-class_bits s 2 f2 r2,
      length-bits 1 0,
    )

-- The layout of a mode: its rows use three classes, and with the last bit they fill the packet.
pub record IsLayout (s : FrameShape) : Type 0 where
  pub rows : IsShape s
  pub sizes : Sized s (no_indices s)
  pub fills : class_total s 0 + (class_total s 1 + (class_total s 2 + 1)) ≡ 8 * s.frame_bytes

pub shape20-IsLayout : IsLayout shape20
shape20-IsLayout = omega arith

pub shape30-IsLayout : IsLayout shape30
shape30-IsLayout = omega arith

-- A cursor behind as many digits as the array has stands at its end.
full_bytes :
    (done later : List ℕ) (h p : ℕ)
    → p ≤ 8
    → h < 2 ^ p
    → All IsByte done
    → 8 * length done + p ≡ 8 * (length done + suc (length later))
    → (all_bits (done ++ (h * 2 ^ (8 - p) ∷ later)) ≡ all_bits done ++ bits p h)
      × All IsByte (done ++ (h * 2 ^ (8 - p) ∷ later))
full_bytes done (y ∷ later) h p full high a e = absurd (omega arith)
full_bytes done [] h p full high a e =
    let at_end : p ≡ 8 = omega arith in
    let one : h * 2 ^ (8 - 8) ≡ h = omega arith in
    rw (at_end, one)
      (
        all_bits-append done (h ∷ []) ∙ ap (◌++◌ (all_bits done)) (append-nil (bits 8 h)),
        All-append IsByte done (h ∷ []) a ((rw at_end at high), tt),
      )

length-written :
    (done : List ℕ) (p h : ℕ) → length (all_bits done ++ bits p h) ≡ 8 * length done + p
length-written done p h =
    omega (arith, length-append (all_bits done) (bits p h), length-all_bits done, length-bits p h)

Written-full :
    (size : ℕ) (c : Cursor) (ws : List ℕ)
    → Written size c ws
    → length ws ≡ 8 * size
    → (length c.bytes ≡ size) × (all_bits c.bytes ≡ ws) × All IsByte c.bytes
Written-full size c ws w e =
    let (b, a) =
      full_bytes w.done w.later w.high w.p w.p-le w.high-lt w.done-IsByte
        (omega (arith, ap length w.ws-eq, w.size-eq, length-written w.done w.p w.high)) in
    rw w.cursor-eq (
      omega (arith, w.size-eq, length-append w.done (w.high * 2 ^ (8 - w.p) ∷ w.later)),
      b ∙ sym w.ws-eq,
      a,
    )

Open-full :
    (size : ℕ) (c : Cursor) (ws : List ℕ)
    → 0 < size
    → Open size c ws
    → length ws ≡ 8 * size
    → (length c.bytes ≡ size) × (all_bits c.bytes ≡ ws) × All IsByte c.bytes
Open-full size c ws h (inl w) e = Written-full size c ws w e
Open-full size c ws h (inr (b, later, e', s, z)) e = absurd (omega (arith, ap length z))

pub Unread-start :
    (bytes : List ℕ)
    → 0 < length bytes
    → All IsByte bytes
    → Unread (record { bytes = bytes; off = 0; pos = 0 }) (all_bits bytes)
Unread-start [] h a = elim h [ ]
Unread-start (b ∷ later) h a = record {
  done = [];
  byte = b;
  later = later;
  p = 0;
  cursor-eq = refl;
  p-le = omega arith;
  bytes = a;
  stream-eq = refl;
}

all_absorbed_lem :
    (s : FrameShape) (f : Indices) → IsLayout s → InRange s 0 f → all_absorbed s f ≡ f
all_absorbed_lem s f l r = λ i. record {
  lsf = list (3 * s.lpc_analyses) (lsf_rows s) f.lsf l.sizes.lsf-size l.rows.lsf-rows r.lsf-fit i;
  start = absorb_all s.ulp.start_bits f.start l.rows.start-row i;
  state_first = absorb_all s.ulp.startfirst_bits f.state_first l.rows.startfirst-row i;
  idx_for_max = absorb_all s.ulp.scale_bits f.idx_for_max l.rows.scale-row i;
  idx_vec =
      list s.short_state_samples (state_rows s) f.idx_vec l.sizes.idx_vec-size l.rows.state-rows
        r.idx_vec-fit i;
  extra_cb_index =
      list 3 s.ulp.extra_cb_index f.extra_cb_index l.sizes.extra_cb_index-size
        l.rows.extra_cb_index-rows r.extra_cb_index-fit i;
  extra_gain_index =
      list 3 s.ulp.extra_cb_gain f.extra_gain_index l.sizes.extra_gain_index-size
        l.rows.extra_cb_gain-rows r.extra_gain_index-fit i;
  cb_index =
      list (s.adaptive_subframes * 3) (cb_rows s) f.cb_index l.sizes.cb_index-size l.rows.cb-rows
        r.cb_index-fit i;
  gain_index =
      list (s.adaptive_subframes * 3) (gain_rows s) f.gain_index l.sizes.gain_index-size
        l.rows.gain-rows r.gain_index-fit i;
}
  where
    list :
        (n : ℕ) (rs : List Row) (vs : List ℕ)
        → length (replicate {A = ℕ} n 0) ≡ length rs
        → All IsRow rs
        → Fit 0 rs vs
        → absorbs 2 rs
            (absorbs 1 rs (absorbs 0 rs (replicate n 0) vs) (lefts 0 rs vs))
            (lefts 1 rs (lefts 0 rs vs))
          ≡ vs
    list n rs vs e a q =
        let n' : n ≡ length rs = omega (arith, length-replicate {0} {A = ℕ} n 0) in
        rw n' (absorbs-All rs vs a q)

-- The packer's cursor at the start of an array.
Open-start :
    (size : ℕ) (bytes : List ℕ)
    → 0 < size
    → length bytes ≡ size
    → Open size (record { bytes = bytes; off = 0; pos = 0 }) []
Open-start size [] h e = absurd (omega arith)
Open-start size (b ∷ later) h e = inr (b, later, refl, e, refl)

-- For a layout and indices in range, and for a buffer of a packet's length with any content,
-- `pack_frame` ends with no panic, its result is an array of bytes of the packet's length whose digits
-- are exactly the parts of the indices and a last bit 0.
pub pack_frame_lem :
    (s : FrameShape) (f : Indices) (buffer : List ℕ)
    → IsLayout s
    → InRange s 0 f
    → 0 < s.frame_bytes
    → length buffer ≡ s.frame_bytes
    → (packet : List ℕ) × (pack_frame s f buffer ≡ some packet)
      × (length packet ≡ s.frame_bytes)
      × (all_bits packet ≡ frame_bits s f)
      × All IsByte packet
unfolding pack_frame
pack_frame_lem s f buffer l r some_bytes e =
    let (d, run, o) =
      (pack_classes-Packs s.frame_bytes s f l.rows r).run
        (record { bytes = buffer; off = 0; pos = 0 }) []
        (Open-start s.frame_bytes buffer some_bytes e)
        (omega (arith, length-frame_bits s f l.rows r, l.fills)) in
    let (n, b, a) =
      Open-full s.frame_bytes d (frame_bits s f) some_bytes o
        (omega (arith, length-frame_bits s f l.rows r, l.fills)) in
    (d.bytes, rw (run, pack_frame), n, b, a)

unpack_frame_lem :
    (s : FrameShape) (f : Indices) (packet : List ℕ)
    → IsLayout s
    → InRange s 0 f
    → 0 < length packet
    → All IsByte packet
    → all_bits packet ≡ frame_bits s f
    → unpack_frame s packet ≡ some (f, 0)
unfolding unpack_frame
unpack_frame_lem s f packet l r some_bytes a e =
    let start : Unread (record { bytes = packet; off = 0; pos = 0 }) (frame_bits s f ++ []) =
      subst (Unread _) (e ∙ sym (append-nil (frame_bits s f))) (Unread-start packet some_bytes a) in
    let (d, run, u) = (unpack_classes-Reads s f l.rows l.sizes r).run _ [] start in
    rw (run, unpack_frame, all_absorbed_lem s f l r)

-- The shapes that a mode can have.
pub frame_shape-cases :
    (mode : ℕ) {s : FrameShape} → frame_shape mode ≡ some s → (s ≡ shape30) ⊎ (s ≡ shape20)
unfolding frame_shape
frame_shape-cases mode e = elim (Bool-cases (mode == 30)) [
  | inl y ↦ inl (sym (some-injective _ _ (rw y at e)))
  | inr n ↦ elim (Bool-cases (mode == 20)) [
    | inl y ↦ inr (sym (some-injective _ _ (rw (n, y) at e)))
    | inr n' ↦ absurd (none-ne (rw (n, n') at e))
  ]
]
  where
    none-ne : {x : FrameShape} → none ≡ some x → ⊥
    none-ne h = cc

pub frame_shape-IsLayout :
    (mode : ℕ) (s : FrameShape) → frame_shape mode ≡ some s → IsLayout s × (0 < s.frame_bytes)
frame_shape-IsLayout mode s e = elim (frame_shape-cases mode e) [
  | inl h ↦ rw h (shape30-IsLayout, omega arith)
  | inr h ↦ rw h (shape20-IsLayout, omega arith)
]

-- In each mode, whatever the caller's buffer holds: indices in range are packed with no panic into a
-- packet of the mode's length, and the decoder reads exactly those indices and the last bit 0 from it.
pub unpack_frame-pack_frame :
    (mode : ℕ) (s : FrameShape) (f : Indices) (buffer : List ℕ)
    → frame_shape mode ≡ some s
    → InRange s 0 f
    → length buffer ≡ s.frame_bytes
    → (packet : List ℕ) × (pack_frame s f buffer ≡ some packet)
      × (length packet ≡ s.frame_bytes)
      × All IsByte packet
      × (unpack_frame s packet ≡ some (f, 0))
unpack_frame-pack_frame mode s f buffer m r e =
    let (l, some_bytes) = frame_shape-IsLayout mode s m in
    let (packet, run, n, b, a) = pack_frame_lem s f buffer l r some_bytes e in
    (packet, run, n, a, unpack_frame_lem s f packet l r (omega arith) a b)
