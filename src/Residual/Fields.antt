-- ===== src/Residual/Fields.antt =====
-- Indices that fit the layout of a packet can be decoded.
use i_lbc_go.Prelude.{
  ℕ, zero, suc, ◌+◌, ◌-◌, ◌*◌, ◌/◌, ◌^◌, ◌≤◌, ◌<◌, ◌≡◌, refl, ap, subst, arith, Bool, true,
  Bool-cases, leb, leb→le, ◌&&◌, List, [], ◌∷◌, length, All, some, get_elem?, inl, inr,
}
use mathlib.Core.Option.{some-injective}
use i_lbc_go.Arrays.{load, Returns, returned, Returns-weaken, load-All}
use i_lbc_go.Layout.{Row, row, FrameShape, frame_shape, shape20, shape30}
use i_lbc_go.Frame.{gain_rows, cb_rows, state_rows, Indices}
use i_lbc_go.Frame.Fields.{here, after, Fit}
use i_lbc_go.Frame.Encode.{InRange}
use i_lbc_go.Frame.RoundTrip.{frame_shape-cases}
use i_lbc_go.Packet.{decoder_index, convert_decoder_indices}
use i_lbc_go.Codebook.{base_size}
use i_lbc_go.Codebook.Vector.{IsCode}
use i_lbc_go.Codebook.Construct.{HasCodes, HasGains}
use i_lbc_go.Residual.Phases.{IsDecodable}
use i_lbc_go.Residual.Total.{IsShape}

-- The values of a field, by the bits of its row.
abbrev pub size : Row → ℕ
size r = 2 ^ (here 0 r + after 0 r)

pub Fit-load :
    (rs : List Row) (vs : List ℕ) (i : ℕ) (r : Row)
    → Fit 0 rs vs
    → get_elem? rs i ≡ some r
    → Returns (λ v. v < size r) (load vs i)
unfolding load
Fit-load [] vs i r f e = cc
Fit-load (x ∷ rs) [] i r f e = absurd f
Fit-load (x ∷ rs) (v ∷ vs) zero r f e =
    returned (subst (λ (y : Row). v < size y) (some-injective _ _ e) f.0)
Fit-load (x ∷ rs) (v ∷ vs) (suc i) r f e = Fit-load rs vs i r f.1 e

-- Whether all rows have values up to a bound only.
abbrev within : ℕ → List Row → Bool
within n [] = true
within n (r ∷ rs) = leb (size r) n && within n rs

Fit-All :
    (n : ℕ) (rs : List Row) (vs : List ℕ)
    → Fit 0 rs vs
    → within n rs ≡ true
    → All (λ (v : ℕ). v < n) vs
Fit-All n [] [] f e = tt
Fit-All n [] (v ∷ vs) f e = absurd f
Fit-All n (r ∷ rs) [] f e = absurd f
Fit-All n (r ∷ rs) (v ∷ vs) f e = elim (Bool-cases (leb (size r) n)) [
  | inl b ↦ (omega (arith, f.0, leb→le (size r) n b), Fit-All n rs vs f.1 (rw b at e))
  | inr b ↦ cc
]

Fit-length : (rs : List Row) (vs : List ℕ) → Fit 0 rs vs → length vs ≡ length rs
Fit-length [] [] f = refl
Fit-length [] (v ∷ vs) f = absurd f
Fit-length (r ∷ rs) [] f = absurd f
Fit-length (r ∷ rs) (v ∷ vs) f = ap suc (Fit-length rs vs f.1)

-- The conversion keeps the indices below 256, and their number.
decoder_index-lt : (i : ℕ) → i < 256 → decoder_index i < 256
unfolding decoder_index
decoder_index-lt i h = ground arith

convert-All :
    (vs : List ℕ) (cs : List ℕ)
    → convert_decoder_indices vs ≡ some cs
    → All (λ (v : ℕ). v < 256) vs
    → All (λ (v : ℕ). v < 256) cs × (length cs ≡ length vs)
unfolding convert_decoder_indices
convert-All [] cs e a = cc
convert-All (x ∷ []) cs e a = cc
convert-All (x ∷ y ∷ []) cs e a = cc
convert-All (x ∷ y ∷ z ∷ vs) cs e (p, (q, (r, a))) =
    subst (λ (us : List ℕ). All (λ (v : ℕ). v < 256) us × (length us ≡ suc (suc (suc (length vs)))))
      (some-injective _ _ e) ((p, (decoder_index-lt y q, (decoder_index-lt z r, a))), refl)

-- Three indices that are below a bound make codes.
All-HasCodes :
    (n l_mem veclen : ℕ) (vs : List ℕ) (ci : ℕ)
    → All (λ (v : ℕ). v < n) vs
    → ci + 3 ≤ length vs
    → ((v : ℕ) → v < n → IsCode l_mem veclen v)
    → HasCodes l_mem veclen vs ci
All-HasCodes n l_mem veclen vs ci a h code k b =
    Returns-weaken (load-All (λ (v : ℕ). v < n) vs (ci + k) a (omega arith)) code

IsCode-40 : (v : ℕ) → v < 256 → IsCode 147 40 v
IsCode-40 v h = record {
  size_ge = omega arith;
  size_le = omega arith;
  mem_ge = omega arith;
  mem_le = omega arith;
  index_le = omega arith;
}

base_85 :
    (diff v : ℕ) → diff ≤ 23 → 22 ≤ diff → v < 128 → v ≤ base_size 85 diff + (86 - diff) + diff / 2
base_85 diff v a b h = ground arith

extra-IsCode :
    (diff len : ℕ) → diff + len ≡ 80 → 57 ≤ len → len ≤ 58 → (v : ℕ) → v < 128 → IsCode 85 diff v
extra-IsCode diff len e a b v h = record {
  size_ge = omega (arith, e, b);
  size_le = omega (arith, e, a);
  mem_ge = omega (arith, e, a);
  mem_le = omega (arith);
  index_le = base_85 diff v (omega (arith, e, a)) (omega (arith, e, b)) h;
}

-- Three rows of five, four and three bits make gains.
Fit-HasGains :
    (rs : List Row) (vs : List ℕ) (k : ℕ) (a b c : Row)
    → Fit 0 rs vs
    → get_elem? rs k ≡ some a
    → get_elem? rs (k + 1) ≡ some b
    → get_elem? rs (k + 2) ≡ some c
    → size a ≡ 32
    → size b ≡ 16
    → size c ≡ 8
    → HasGains vs k
Fit-HasGains rs vs k a b c f x y z p q r = record {
  gain_0 = Returns-weaken (Fit-load rs vs k a f x) λ v h. omega (arith, h, p);
  gain_1 = Returns-weaken (Fit-load rs vs (k + 1) b f y) λ v h. omega (arith, h, q);
  gain_2 = Returns-weaken (Fit-load rs vs (k + 2) c f z) λ v h. omega (arith, h, r);
}

gains_20 : (vs : List ℕ) → Fit 0 (gain_rows shape20) vs → (k : ℕ) → k < 2 → HasGains vs (k * 3)
gains_20 vs f zero h =
    Fit-HasGains (gain_rows shape20) vs 0 (row 1 2 2) (row 1 1 2) (row 0 0 3) f refl refl refl refl
      refl refl
gains_20 vs f (suc zero) h =
    Fit-HasGains (gain_rows shape20) vs 3 (row 1 1 3) (row 0 2 2) (row 0 0 3) f refl refl refl refl
      refl refl
gains_20 vs f (suc (suc k)) h = absurd (omega arith)

gains_30 : (vs : List ℕ) → Fit 0 (gain_rows shape30) vs → (k : ℕ) → k < 4 → HasGains vs (k * 3)
gains_30 vs f zero h =
    Fit-HasGains (gain_rows shape30) vs 0 (row 1 2 2) (row 1 2 1) (row 0 0 3) f refl refl refl refl
      refl refl
gains_30 vs f (suc zero) h =
    Fit-HasGains (gain_rows shape30) vs 3 (row 0 2 3) (row 0 2 2) (row 0 0 3) f refl refl refl refl
      refl refl
gains_30 vs f (suc (suc zero)) h =
    Fit-HasGains (gain_rows shape30) vs 6 (row 0 1 4) (row 0 1 3) (row 0 0 3) f refl refl refl refl
      refl refl
gains_30 vs f (suc (suc (suc zero))) h =
    Fit-HasGains (gain_rows shape30) vs 9 (row 0 1 4) (row 0 1 3) (row 0 0 3) f refl refl refl refl
      refl refl
gains_30 vs f (suc (suc (suc (suc k)))) h = absurd (omega arith)

IsDecodable-20 :
    (f : Indices) (cs : List ℕ)
    → InRange shape20 0 f
    → convert_decoder_indices f.cb_index ≡ some cs
    → IsDecodable 2 57 (record f { cb_index = cs })
IsDecodable-20 f cs r c =
    let (a, l) =
      convert-All f.cb_index cs c (Fit-All 256 (cb_rows shape20) f.cb_index r.cb_index-fit refl) in
    let m = Fit-length (cb_rows shape20) f.cb_index r.cb_index-fit in
    let x = Fit-All 128 shape20.ulp.extra_cb_index f.extra_cb_index r.extra_cb_index-fit refl in
    let n = Fit-length shape20.ulp.extra_cb_index f.extra_cb_index r.extra_cb_index-fit in
    record {
      scale = r.idx_for_max-fit;
      levels = Fit-All 8 (state_rows shape20) f.idx_vec r.idx_vec-fit refl;
      levels_size = omega (arith, Fit-length (state_rows shape20) f.idx_vec r.idx_vec-fit);
      first = r.state_first-fit;
      extra_codes = λ diff e.
          All-HasCodes 128 85 diff f.extra_cb_index 0 x (omega (arith, n))
            (extra-IsCode diff 57 e (omega arith) (omega arith));
      extra_gains =
          Fit-HasGains shape20.ulp.extra_cb_gain f.extra_gain_index 0 (row 2 0 3) (row 1 1 2)
            (row 0 0 3) r.extra_gain_index-fit refl refl refl refl refl refl;
      codes = λ k h. All-HasCodes 256 147 40 cs (k * 3) a (omega (arith, h, l, m)) IsCode-40;
      gains = gains_20 f.gain_index r.gain_index-fit;
    }

IsDecodable-30 :
    (f : Indices) (cs : List ℕ)
    → InRange shape30 0 f
    → convert_decoder_indices f.cb_index ≡ some cs
    → IsDecodable 4 58 (record f { cb_index = cs })
IsDecodable-30 f cs r c =
    let (a, l) =
      convert-All f.cb_index cs c (Fit-All 256 (cb_rows shape30) f.cb_index r.cb_index-fit refl) in
    let m = Fit-length (cb_rows shape30) f.cb_index r.cb_index-fit in
    let x = Fit-All 128 shape30.ulp.extra_cb_index f.extra_cb_index r.extra_cb_index-fit refl in
    let n = Fit-length shape30.ulp.extra_cb_index f.extra_cb_index r.extra_cb_index-fit in
    record {
      scale = r.idx_for_max-fit;
      levels = Fit-All 8 (state_rows shape30) f.idx_vec r.idx_vec-fit refl;
      levels_size = omega (arith, Fit-length (state_rows shape30) f.idx_vec r.idx_vec-fit);
      first = r.state_first-fit;
      extra_codes = λ diff e.
          All-HasCodes 128 85 diff f.extra_cb_index 0 x (omega (arith, n))
            (extra-IsCode diff 58 e (omega arith) (omega arith));
      extra_gains =
          Fit-HasGains shape30.ulp.extra_cb_gain f.extra_gain_index 0 (row 1 1 3) (row 1 1 2)
            (row 0 0 3) r.extra_gain_index-fit refl refl refl refl refl refl;
      codes = λ k h. All-HasCodes 256 147 40 cs (k * 3) a (omega (arith, h, l, m)) IsCode-40;
      gains = gains_30 f.gain_index r.gain_index-fit;
    }

-- The indices of a frame, once converted, can be decoded.
pub InRange-IsDecodable :
    (mode : ℕ) (s : FrameShape) (f : Indices) (cs : List ℕ)
    → frame_shape mode ≡ some s
    → InRange s 0 f
    → convert_decoder_indices f.cb_index ≡ some cs
    → IsDecodable s.adaptive_subframes s.short_state_samples (record f { cb_index = cs })
      × IsShape s
InRange-IsDecodable mode s f cs m r c = elim (frame_shape-cases mode m) [
  | inl e ↦ rw e (
    IsDecodable-30 f cs (rw e at r) c,
    record {
      subframes_eq = refl;
      adaptive_le = omega arith;
      state_ge = omega arith;
      state_le = omega arith;
    },
  )
  | inr e ↦ rw e (
    IsDecodable-20 f cs (rw e at r) c,
    record {
      subframes_eq = refl;
      adaptive_le = omega arith;
      state_ge = omega arith;
      state_le = omega arith;
    },
  )
]
