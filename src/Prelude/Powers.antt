-- ===== src/Prelude/Powers.antt =====
-- Powers of two, shifts as `/ 2 ^ n` and `* 2 ^ n`, and `bit_or` of numbers with no common digit.
use Prim.Native.Nat.{ℕ, zero, suc, ◌+◌, ◌*◌, ◌/◌, ◌%◌, ◌^◌, ◌≤◌, ◌<◌, max}
use Prim.Native.Nat.{bit_or, bit_or-bitwise, digits}
use mathlib.Core.Path.{◌≡◌, refl, ◌∙◌, ap}
use native.Mathlib.Omega.{arith}
use native.Mathlib.Nat.{pow-suc, mul_comm, div-div-eq-div-mul, add-mul-div_right}
use native.Mathlib.Nat.{div-add-mod', mod-lt, div-lt_iff_lt-mul, mod-eq_of_lt, div-eq_of_lt}
use native.Mathlib.Nat.{add-mul-mod_self_right}

pub two_pow_suc : (n : ℕ) → 2 ^ suc n ≡ 2 * 2 ^ n
two_pow_suc n = rw (pow-suc 2 n) (omega arith)

pub two_pow_pos : (n : ℕ) → 0 < 2 ^ n
two_pow_pos zero = omega arith
two_pow_pos (suc n) = omega (arith, two_pow_suc n, two_pow_pos n)

pub two_pow_add : (m n : ℕ) → 2 ^ (m + n) ≡ 2 ^ m * 2 ^ n
two_pow_add zero n = let e : zero + n ≡ n = omega arith in rw e (omega arith)
two_pow_add (suc m) n =
    let e : suc m + n ≡ suc (m + n) = omega arith in
    rw (e, two_pow_suc (m + n), two_pow_suc m, two_pow_add m n) (omega arith)

-- A shift in two steps.
pub shift_shift : (v m n : ℕ) → v / 2 ^ n / 2 ^ m ≡ v / 2 ^ (m + n)
shift_shift v m n =
    div-div-eq-div-mul v (2 ^ n) (2 ^ m)
    ∙ ap (λ (k : ℕ). v / k) (mul_comm (2 ^ n) (2 ^ m) ∙ rw (two_pow_add m n))

-- A number is its high part and its low part.
pub split_at : (v n : ℕ) → v ≡ v / 2 ^ n * 2 ^ n + v % 2 ^ n
split_at v n = omega (arith, div-add-mod' v (2 ^ n))

pub low_lt : (v n : ℕ) → v % 2 ^ n < 2 ^ n
low_lt v n = mod-lt v (two_pow_pos n)

pub high_lt : (v m n : ℕ) → v < 2 ^ (m + n) → v / 2 ^ n < 2 ^ m
high_lt v m n h = (div-lt_iff_lt-mul (two_pow_pos n)).1 (rw (← two_pow_add m n) h)

-- The two parts of a number that was put together from them.
pub joined_high : (h l n : ℕ) → l < 2 ^ n → (h * 2 ^ n + l) / 2 ^ n ≡ h
joined_high h l n b =
    ap (λ (k : ℕ). k / 2 ^ n) (omega arith)
    ∙ add-mul-div_right l h (two_pow_pos n)
    ∙ omega (arith, div-eq_of_lt b)

pub joined_low : (h l n : ℕ) → l < 2 ^ n → (h * 2 ^ n + l) % 2 ^ n ≡ l
joined_low h l n b =
    ap (λ (k : ℕ). k % 2 ^ n) (omega arith) ∙ add-mul-mod_self_right l h (2 ^ n) ∙ mod-eq_of_lt b

pub joined_lt : (h l m n : ℕ) → h < 2 ^ m → l < 2 ^ n → h * 2 ^ n + l < 2 ^ (m + n)
joined_lt h l m n p q = rw (two_pow_add m n) (grind arith)

-- `bit_or` by its lowest digit, the fuel of the library's definition dropped.
or_fuel : (n m a b : ℕ) → a ≤ n → a ≤ m → digits (λ y. y) max n a b ≡ digits (λ y. y) max m a b
or_fuel zero zero a b p q = refl
or_fuel zero (suc m) zero b p q = refl
or_fuel zero (suc m) (suc a) b p q = absurd (omega arith)
or_fuel (suc n) zero zero b p q = refl
or_fuel (suc n) zero (suc a) b p q = absurd (omega arith)
or_fuel (suc n) (suc m) zero b p q = refl
or_fuel (suc n) (suc m) (suc a) b p q =
    rw (or_fuel n m (suc a / 2) (b / 2) (omega arith) (omega arith))

or_lowest : (a b : ℕ) → bit_or a b ≡ bit_or (a / 2) (b / 2) * 2 + max (a % 2) (b % 2)
or_lowest zero b = simp bit_or-bitwise (omega arith)
or_lowest (suc a) b =
    simp bit_or-bitwise
      (omega (arith, or_fuel a (suc a / 2) (suc a / 2) (b / 2) (omega arith) (omega arith)))

or-zero_fuel : (n a : ℕ) → a ≤ n → bit_or a 0 ≡ a
or-zero_fuel n zero h = refl
or-zero_fuel zero (suc a) h = absurd (omega arith)
or-zero_fuel (suc n) (suc a) h =
    omega (arith, or_lowest (suc a) 0, or-zero_fuel n (suc a / 2) (omega arith))

-- A field written with `|` below the digits in use is added.
pub or_joined : (n h l : ℕ) → l < 2 ^ n → bit_or (h * 2 ^ n) l ≡ h * 2 ^ n + l
or_joined zero h l b =
    let e : h * 2 ^ 0 ≡ h = omega arith in
    let z : l ≡ 0 = omega arith in rw (e, z, or-zero_fuel h h (omega arith)) (omega arith)
or_joined (suc n) h l b =
    let e : h * 2 ^ suc n ≡ h * 2 ^ n * 2 = rw (two_pow_suc n) (omega arith) in
    let half : h * 2 ^ n * 2 / 2 ≡ h * 2 ^ n = omega arith in
    let or_half : bit_or (h * 2 ^ n * 2 / 2) (l / 2) ≡ h * 2 ^ n + l / 2 =
      rw half (or_joined n h (l / 2) (omega (arith, two_pow_suc n))) in
    rw e (omega (arith, or_lowest (h * 2 ^ n * 2) l, or_half))
