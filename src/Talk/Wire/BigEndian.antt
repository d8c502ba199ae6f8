-- ===== src/Talk/Wire/BigEndian.antt =====
-- The big-endian numbers of encoding/binary that cmd/talk/protocol.go uses.
use i_lbc_go.Prelude.{
  ℕ, zero, suc, ◌+◌, ◌*◌, ◌/◌, ◌%◌, ◌^◌, ◌<◌, ◌≡◌, refl, sym, ap, ◌∙◌, arith, List, [], ◌∷◌, length,
  All,
}
use i_lbc_go.Bitstream.Bytes.{IsByte}
use i_lbc_go.Talk.Wire.{put_uint, uint}
use native.Mathlib.Nat.{
  pow-suc, mod-lt, mod-eq_of_lt, div-add-mod', div-lt_iff_lt-mul, add-mul-div_right, div-eq_of_lt,
}

pub pow_pos : (n : ℕ) → 0 < 256 ^ n
pow_pos zero = omega arith
pow_pos (suc n) = omega (arith, pow-suc 256 n, pow_pos n)

base_suc : (n : ℕ) → 256 ^ suc n ≡ 256 * 256 ^ n
base_suc n = omega (arith, pow-suc 256 n)

-- The bytes depend on the low part of the number only.
put_uint_low : (n h l : ℕ) → put_uint n (h * 256 ^ n + l) ≡ put_uint n l
unfolding put_uint
put_uint_low zero h l = refl
put_uint_low (suc n) h l =
    let e : h * 256 ^ suc n + l ≡ l + h * 256 * 256 ^ n = rw (base_suc n) (omega arith) in
    let f : l + h * 256 * 256 ^ n ≡ h * 256 * 256 ^ n + l = omega arith in
    let top : (l + h * 256 * 256 ^ n) / 256 ^ n % 256 ≡ l / 256 ^ n % 256 =
      omega (arith, add-mul-div_right l (h * 256) (pow_pos n)) in
    rw (e, top) (ap (◌∷◌ (l / 256 ^ n % 256)) (ap (put_uint n) f ∙ put_uint_low n (h * 256) l))

-- What is written is read back.
pub uint-put_uint : (n v acc : ℕ) → v < 256 ^ n → uint acc (put_uint n v) ≡ acc * 256 ^ n + v
unfolding uint put_uint
uint-put_uint zero v acc h = omega arith
uint-put_uint (suc n) v acc h =
    let top : v / 256 ^ n < 256 = (div-lt_iff_lt-mul (pow_pos n)).1 (rw (base_suc n) at h) in
    let byte : v / 256 ^ n % 256 ≡ v / 256 ^ n = mod-eq_of_lt top in
    let low : put_uint n v ≡ put_uint n (v % 256 ^ n) =
      ap (put_uint n) (sym (div-add-mod' v (256 ^ n)))
      ∙ put_uint_low n (v / 256 ^ n) (v % 256 ^ n) in
    rw (byte, low, uint-put_uint n (v % 256 ^ n) (acc * 256 + v / 256 ^ n) (mod-lt v (pow_pos n)))
      (omega (arith, div-add-mod' v (256 ^ n), ap (λ (t : ℕ). acc * t) (base_suc n)))

uint-acc : (bs : List ℕ) (acc : ℕ) → uint acc bs ≡ acc * 256 ^ length bs + uint 0 bs
unfolding uint
uint-acc [] acc = omega arith
uint-acc (b ∷ bs) acc =
    rw (uint-acc bs (acc * 256 + b), uint-acc bs (0 * 256 + b))
      (omega (arith, ap (λ (t : ℕ). acc * t) (base_suc (length bs))))

pub uint-lt : (bs : List ℕ) → All IsByte bs → uint 0 bs < 256 ^ length bs
unfolding uint
uint-lt [] a = omega arith
uint-lt (b ∷ bs) a =
    rw (uint-acc bs (0 * 256 + b), base_suc (length bs)) (grind (arith, uint-lt bs a.1))

-- What is read is written back.
pub put_uint-uint : (bs : List ℕ) → All IsByte bs → put_uint (length bs) (uint 0 bs) ≡ bs
unfolding uint put_uint
put_uint-uint [] a = refl
put_uint-uint (b ∷ bs) a =
    let n = length bs in
    let e : uint (0 * 256 + b) bs ≡ b * 256 ^ n + uint 0 bs =
      uint-acc bs (0 * 256 + b) ∙ omega arith in
    let f : (b * 256 ^ n + uint 0 bs) / 256 ^ n % 256 ≡ b =
      let s : b * 256 ^ n + uint 0 bs ≡ uint 0 bs + b * 256 ^ n = omega arith in
      rw s (
        omega (
          arith,
          add-mul-div_right (uint 0 bs) b (pow_pos n),
          div-eq_of_lt (uint-lt bs a.1),
          a.0,
        )) in
    rw (e, f, put_uint_low n b (uint 0 bs)) (ap (◌∷◌ b) (put_uint-uint bs a.1))
