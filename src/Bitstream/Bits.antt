-- ===== src/Bitstream/Bits.antt =====
-- The digits of a number as a list, most significant first: what a bit field looks like on the wire.
use i_lbc_go.Prelude.{ℕ, zero, suc, ◌+◌, ◌*◌, ◌/◌, ◌%◌, ◌^◌, ◌<◌, ◌≡◌, refl, sym, ap, ◌∙◌, arith}
use i_lbc_go.Prelude.{List, [], ◌∷◌, ◌++◌, length}
use i_lbc_go.Prelude.{two_pow_suc, two_pow_pos, shift_shift, split_at, low_lt, high_lt}
use i_lbc_go.Prelude.{joined_high}
use native.Mathlib.Nat.{add-mul-div_right}

unfoldable pub bits : ℕ → ℕ → List ℕ
bits zero v = []
bits (suc n) v = v / 2 ^ n % 2 ∷ bits n v

pub length-bits : (n v : ℕ) → length (bits n v) ≡ n
unfolding bits
length-bits zero v = refl
length-bits (suc n) v = ap suc (length-bits n v)

-- A field in two pieces.
pub bits_append : (m n v : ℕ) → bits (m + n) v ≡ bits m (v / 2 ^ n) ++ bits n v
unfolding bits
bits_append zero n v = let e : zero + n ≡ n = omega arith in rw e
bits_append (suc m) n v =
    let e : suc m + n ≡ suc (m + n) = omega arith in
    rw (e, shift_shift v m n) (ap (◌∷◌ (v / 2 ^ (m + n) % 2)) (bits_append m n v))

-- Digits above the field do not show.
pub bits_joined : (n h l : ℕ) → bits n (h * 2 ^ n + l) ≡ bits n l
unfolding bits
bits_joined zero h l = refl
bits_joined (suc n) h l =
    let e : h * 2 ^ suc n + l ≡ l + 2 * h * 2 ^ n = rw (two_pow_suc n) (omega arith) in
    let f : l + 2 * h * 2 ^ n ≡ 2 * h * 2 ^ n + l = omega arith in
    let top : (l + 2 * h * 2 ^ n) / 2 ^ n % 2 ≡ l / 2 ^ n % 2 =
      omega (arith, add-mul-div_right l (2 * h) (two_pow_pos n)) in
    rw (e, top) (ap (◌∷◌ (l / 2 ^ n % 2)) (ap (bits n) f ∙ bits_joined n (2 * h) l))

pub bits_low : (n v : ℕ) → bits n (v % 2 ^ n) ≡ bits n v
bits_low n v = sym (ap (bits n) (split_at v n) ∙ bits_joined n (v / 2 ^ n) (v % 2 ^ n))

-- A field determines its number.
pub bits_injective : (n v w : ℕ) → v < 2 ^ n → w < 2 ^ n → bits n v ≡ bits n w → v ≡ w
unfolding bits
bits_injective zero v w p q e = omega arith
bits_injective (suc n) v w p q e =
    let first : v / 2 ^ n % 2 ≡ w / 2 ^ n % 2 = cc in
    let rest : bits n v ≡ bits n w = cc in
    let high : v / 2 ^ n ≡ w / 2 ^ n = omega (arith, high_lt v 1 n p', high_lt w 1 n q') in
    let low : v % 2 ^ n ≡ w % 2 ^ n =
      bits_injective n (v % 2 ^ n) (w % 2 ^ n) (low_lt v n) (low_lt w n)
        (bits_low n v ∙ rest ∙ sym (bits_low n w)) in
    split_at v n ∙ rw (high, low) (sym (split_at w n))
  where
    p' : v < 2 ^ (1 + n)
    p' = let f : 1 + n ≡ suc n = omega arith in rw f p

    q' : w < 2 ^ (1 + n)
    q' = let f : 1 + n ≡ suc n = omega arith in rw f q

-- Digits put behind `h`, read back as one field.
pub bits_of_joined : (p n h v : ℕ) → v < 2 ^ n → bits (p + n) (h * 2 ^ n + v) ≡ bits p h ++ bits n v
bits_of_joined p n h v small =
    bits_append p n (h * 2 ^ n + v) ∙ rw (joined_high h v n small, bits_joined n h v)
