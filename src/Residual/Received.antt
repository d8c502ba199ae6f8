-- ===== src/Residual/Received.antt =====
-- The indices of every packet that the decoder accepts can be decoded.
use i_lbc_go.Prelude.{
  ℕ, zero, suc, ◌<◌, ◌≡◌, refl, sym, ◌∙◌, ap, subst, arith, Bool-cases, ◌&&◌, ltb, ◌==◌, List, [],
  ◌∷◌, length, drop, All, some, get_elem?, ◌⊎◌, inl, inr,
}
use mathlib.Core.Option.{some-injective}
use i_lbc_go.Arrays.{Returns, returned, Returns-some, Sized}
use i_lbc_go.Floats.{Floats}
use i_lbc_go.Layout.{Row, row, FrameShape, frame_shape, shape20, shape30}
use i_lbc_go.Bitstream.Bytes.{IsByte}
use i_lbc_go.Frame.{lsf_rows, Indices}
use i_lbc_go.Frame.Fields.{Fit}
use i_lbc_go.Frame.Encode.{InRange}
use i_lbc_go.Frame.RoundTrip.{frame_shape-cases}
use i_lbc_go.Frame.Total.{unpack_frame_total}
use i_lbc_go.Packet.{receive}
use i_lbc_go.Packet.Receive.{IsStart, receive_total}
use i_lbc_go.Lpc.Total.{HasLsf}
use i_lbc_go.Residual.{decode}
use i_lbc_go.Residual.Phases.{IsDecodable}
use i_lbc_go.Residual.Total.{IsShape, decode-Returns}
use i_lbc_go.Residual.Fields.{Fit-load, InRange-IsDecodable}

IsStart-cases :
    (s : FrameShape) (start last_bit : ℕ)
    → (IsStart s start × (last_bit ≡ 0)) ⊎ ¬ (IsStart s start × (last_bit ≡ 0))
IsStart-cases s start last_bit =
    elim (Bool-cases ((ltb 0 start && ltb start s.subframes) && (last_bit == 0))) [
      | inl e ↦ inl (ground arith)
      | inr e ↦ inr (λ h. ground arith)
    ]

-- What holds of the indices that are decoded.
pub record IsReceived (s : FrameShape) (f : Indices) : Type 0 where
  pub decodable : IsDecodable s.adaptive_subframes s.short_state_samples f
  pub sizes : IsShape s
  pub valid_start : IsStart s f.start
  pub lsf-fit : Fit 0 (lsf_rows s) f.lsf

pub receive-Returns :
    (mode : ℕ) (s : FrameShape) (packet : List ℕ)
    → frame_shape mode ≡ some s
    → length packet ≡ s.frame_bytes
    → All IsByte packet
    → Returns (λ r. r.0 ≡ 1 → IsReceived s r.1) (receive s packet)
receive-Returns mode s packet m n a =
    let (g, last_bit, u, r, _) = unpack_frame_total mode s packet m n a in
    let (h, last', cs, u', c, good, bad) = receive_total mode s packet m n a in
    let same : (g, last_bit) ≡ (h, last') = some-injective _ _ (sym u ∙ u') in
    let r' = subst (λ (i : Indices). InRange s 0 i) (ap (λ p. p.0) same) r in
    let (x, y) = InRange-IsDecodable mode s h cs m r' c in
    elim (IsStart-cases s h.start last') [
      | inl k ↦ rw (good k) (
          returned
            (λ _. record { decodable = x; sizes = y; valid_start = k.0; lsf-fit = r'.lsf-fit }))
      | inr k ↦ rw (bad k) (returned (λ e. absurd (omega (arith, e))))
    ]

-- In each mode, for every array of bytes of a packet's length: when `decodeFrame` keeps mode 1, the indices
-- that it then has let `decode` end with no panic, with a residual of 240 samples.
pub receive-decode :
    (F : Floats) (mode : ℕ) (s : FrameShape) (packet : List ℕ) (f : Indices)
    (syntdenum residual : List F.Float)
    → frame_shape mode ≡ some s
    → length packet ≡ s.frame_bytes
    → All IsByte packet
    → receive s packet ≡ some (1, f)
    → length syntdenum ≡ 66
    → length residual ≡ 240
    → Returns (Sized 240) (decode F s f syntdenum residual)
receive-decode F mode s packet f syntdenum residual m n a e d l =
    let (r, q, ok) = Returns-some (receive-Returns mode s packet m n a) in
    let same : r ≡ (1, f) = some-injective _ _ (sym q ∙ e) in
    let v = subst (λ (i : ℕ × Indices). IsReceived s i.1) same (ok (ap (λ p. p.0) same)) in
    decode-Returns F s v.sizes f v.decodable syntdenum residual v.valid_start.0 v.valid_start.1 d l

Fit-drop : (n : ℕ) (rs : List Row) (vs : List ℕ) → Fit 0 rs vs → Fit 0 (drop n rs) (drop n vs)
Fit-drop zero rs vs f = f
Fit-drop (suc n) [] [] f = f
Fit-drop (suc n) [] (v ∷ vs) f = absurd f
Fit-drop (suc n) (r ∷ rs) [] f = absurd f
Fit-drop (suc n) (r ∷ rs) (v ∷ vs) f = Fit-drop n rs vs f.1

-- Three rows of six, seven and seven bits.
Fit-HasLsf :
    (rs : List Row) (vs : List ℕ)
    → Fit 0 rs vs
    → get_elem? rs 0 ≡ some (row 6 0 0)
    → get_elem? rs 1 ≡ some (row 7 0 0)
    → get_elem? rs 2 ≡ some (row 7 0 0)
    → HasLsf vs
Fit-HasLsf rs vs f a b c = record {
  lsf_0 = Fit-load rs vs 0 (row 6 0 0) f a;
  lsf_1 = Fit-load rs vs 1 (row 7 0 0) f b;
  lsf_2 = Fit-load rs vs 2 (row 7 0 0) f c;
}

-- The indices of both analyses.
pub IsReceived-HasLsf :
    (mode : ℕ) (s : FrameShape) (f : Indices)
    → frame_shape mode ≡ some s
    → Fit 0 (lsf_rows s) f.lsf
    → HasLsf f.lsf × (1 < s.lpc_analyses → HasLsf (drop 3 f.lsf))
IsReceived-HasLsf mode s f m r = elim (frame_shape-cases mode m) [
  | inl e ↦ rw e (
    Fit-HasLsf (lsf_rows shape30) f.lsf (rw e at r) refl refl refl,
    λ _.
        Fit-HasLsf (drop 3 (lsf_rows shape30)) (drop 3 f.lsf)
          (Fit-drop 3 (lsf_rows shape30) f.lsf (rw e at r)) refl refl refl,
  )
  | inr e ↦
      rw e
        (Fit-HasLsf (lsf_rows shape20) f.lsf (rw e at r) refl refl refl, λ h. absurd (omega arith))
]
