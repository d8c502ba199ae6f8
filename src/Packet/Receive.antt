-- ===== src/Packet/Receive.antt =====
-- Sending the indices of a frame and receiving them; which packets are concealed.
use i_lbc_go.Prelude.{
  ℕ, suc, ◌≤◌, ◌<◌, ◌≡◌, refl, ap, arith, List, [], ◌∷◌, some, ◌⊎◌, inl, inr, ◌↔◌, length, All,
}
use i_lbc_go.Bitstream.Bytes.{IsByte}
use i_lbc_go.Frame.Fields.{Fit}
use i_lbc_go.Layout.{Row, FrameShape, frame_shape, shape20, shape30}
use i_lbc_go.Frame.{Indices, unpack_frame, cb_rows}
use i_lbc_go.Frame.Encode.{InRange}
use i_lbc_go.Frame.RoundTrip.{unpack_frame-pack_frame, frame_shape-cases}
use i_lbc_go.Frame.Total.{unpack_frame_total}
use i_lbc_go.Packet.{
  send, receive, received_mode, accepted, convert_encoder_indices, convert_decoder_indices,
}
use i_lbc_go.Packet.Convert.{Reachable, SecondThird, convert_back}

-- A start state that the decoder accepts: subframe 1 to 5 at 30 ms, 1 to 3 at 20 ms.
abbrev pub IsStart : FrameShape → ℕ → Type 0
IsStart s n = (1 ≤ n) × (n < s.subframes)

mode_of_30 :
    (start last_bit : ℕ)
    → last_bit < 2
    → (received_mode shape30 start last_bit 1 ≡ 1) ↔ (IsStart shape30 start × (last_bit ≡ 0))
unfolding received_mode
mode_of_30 start last_bit b = (λ e. ground arith, λ h. ground arith)

mode_of_20 :
    (start last_bit : ℕ)
    → start < 4
    → last_bit < 2
    → (received_mode shape20 start last_bit 1 ≡ 1) ↔ (IsStart shape20 start × (last_bit ≡ 0))
unfolding received_mode
mode_of_20 start last_bit h b = (λ e. ground arith, λ h. ground arith)

-- With indices that fit the layout of the mode, the three tests keep `mode` 1 exactly if the frame is not
-- marked empty and its start position is 1 to 3 at 20 ms, or 1 to 5 at 30 ms.
pub received_mode_lem :
    (mode : ℕ) (s : FrameShape) (f : Indices) (last_bit : ℕ)
    → frame_shape mode ≡ some s
    → InRange s 0 f
    → last_bit < 2
    → (received_mode s f.start last_bit 1 ≡ 1) ↔ (IsStart s f.start × (last_bit ≡ 0))
received_mode_lem mode s f last_bit m r b = elim (frame_shape-cases mode m) [
  | inl e ↦ rw e (mode_of_30 f.start last_bit b)
  | inr e ↦ rw e (mode_of_20 f.start last_bit (rw e at r.start-fit) b)
]

accepted_good :
    (f : Indices) {cs : List ℕ}
    → convert_decoder_indices f.cb_index ≡ some cs
    → accepted 1 f ≡ some (1, record f { cb_index = cs })
unfolding accepted
accepted_good f e = rw e

accepted_bad : (f : Indices) → accepted 0 f ≡ some (0, f)
unfolding accepted
accepted_bad f = refl

-- In each mode: the indices of a frame with a valid start position, whose second and third codebook
-- index can be chosen, and which fit the layout once those are converted, are sent with no panic in a
-- packet of the mode's length, and the decoder takes that packet for a good one and reads exactly the
-- indices that the encoder had.
pub receive-send :
    (mode : ℕ) (s : FrameShape) (f : Indices) (cs buffer : List ℕ)
    → frame_shape mode ≡ some s
    → convert_encoder_indices f.cb_index ≡ some cs
    → SecondThird Reachable f.cb_index
    → InRange s 0 (record f { cb_index = cs })
    → IsStart s f.start
    → length buffer ≡ s.frame_bytes
    → (packet : List ℕ) × (send s f buffer ≡ some packet)
      × (length packet ≡ s.frame_bytes)
      × (receive s packet ≡ some (1, f))
unfolding send receive
receive-send mode s f cs buffer m e c r st n =
    let f' : Indices = record f { cb_index = cs } in
    let (packet, p, l, a, q) = unpack_frame-pack_frame mode s f' buffer m r n in
    let good = (received_mode_lem mode s f' 0 m r (omega arith)).1 (st, refl) in
    (packet, rw (e, p), l, rw (q, good) (accepted_good f' (convert_back f.cb_index c e)))

received_mode_cases :
    (s : FrameShape) (start last_bit : ℕ)
    → (received_mode s start last_bit 1 ≡ 1) ⊎ (received_mode s start last_bit 1 ≡ 0)
unfolding received_mode
received_mode_cases s start last_bit = ground arith

three : (vs : List ℕ) → 3 ≤ length vs → (cs : List ℕ) × (convert_decoder_indices vs ≡ some cs)
unfolding convert_decoder_indices
three [] h = absurd (omega arith)
three (a ∷ []) h = absurd (omega arith)
three (a ∷ b ∷ []) h = absurd (omega arith)
three (a ∷ b ∷ c ∷ vs) h = (_, refl)

Fit-length : (rs : List Row) (vs : List ℕ) → Fit 0 rs vs → length vs ≡ length rs
Fit-length [] [] f = refl
Fit-length [] (v ∷ vs) f = absurd f
Fit-length (r ∷ rs) [] f = absurd f
Fit-length (r ∷ rs) (v ∷ vs) f = ap suc (Fit-length rs vs f.1)

three_rows : (s : FrameShape) → (s ≡ shape30) ⊎ (s ≡ shape20) → 3 ≤ length (cb_rows s)
three_rows s (inl e) = rw e (omega arith)
three_rows s (inr e) = rw e (omega arith)

-- A frame has indices for a second and a third stage.
converts :
    (mode : ℕ) (s : FrameShape) (f : Indices)
    → frame_shape mode ≡ some s
    → InRange s 0 f
    → (cs : List ℕ) × (convert_decoder_indices f.cb_index ≡ some cs)
converts mode s f m r = three f.cb_index (
    omega (
      arith,
      Fit-length (cb_rows s) f.cb_index r.cb_index-fit,
      three_rows s (frame_shape-cases mode m),
    ))

-- In each mode, on every array of bytes of a packet's length `receive` ends with no panic. The `mode`
-- is 1, and the codebook indices are converted, if the packet's last bit is 0 and its start position
-- is valid; else the `mode` is 0.
pub receive_total :
    (mode : ℕ) (s : FrameShape) (packet : List ℕ)
    → frame_shape mode ≡ some s
    → length packet ≡ s.frame_bytes
    → All IsByte packet
    → (f : Indices) × (last_bit : ℕ) × (cs : List ℕ) × (unpack_frame s packet ≡ some (f, last_bit))
      × (convert_decoder_indices f.cb_index ≡ some cs)
      × (IsStart s f.start × (last_bit ≡ 0)
          → receive s packet ≡ some (1, record f { cb_index = cs }))
      × (¬ (IsStart s f.start × (last_bit ≡ 0)) → receive s packet ≡ some (0, f))
unfolding receive
receive_total mode s packet m n a =
    let (f, last_bit, e, r, b) = unpack_frame_total mode s packet m n a in
    let (cs, c) = converts mode s f m r in
    let good = received_mode_lem mode s f last_bit m r b in
    (
      f,
      last_bit,
      cs,
      e,
      c,
      λ h. rw (e, good.1 h) (accepted_good f c),
      λ h. elim (received_mode_cases s f.start last_bit) [
        | inl one ↦ absurd (h (good.0 one))
        | inr zero_mode ↦ rw (e, zero_mode) (accepted_bad f)
      ],
    )
