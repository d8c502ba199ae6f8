-- ===== src/Bitstream/Read/Round.antt =====
-- One round of the loop of `unpack`, in src/packing.go: what it takes from the current byte.
use i_lbc_go.Prelude.{ℕ, ◌+◌, ◌-◌, ◌*◌, ◌/◌, ◌%◌, ◌^◌, ◌≤◌, ◌<◌, ◌≡◌, sym, ap, ◌∙◌, arith}
use i_lbc_go.Prelude.{List, [], ◌∷◌, ◌++◌, length, length-append, append_assoc}
use i_lbc_go.Prelude.{some, inl, inr, le-or-lt, le→leb, lt→leb, lt→ltb, le→ltb}
use i_lbc_go.Prelude.{two_pow_add, two_pow_pos, split_at, low_lt, joined_lt}
use i_lbc_go.Prelude.{joined_low}
use i_lbc_go.Bitstream.Bits.{}
use i_lbc_go.Bitstream.Bytes.{at_byte, get_elem?-middle}
use i_lbc_go.Bitstream.{next_byte, unpack_round}
use native.Mathlib.Nat.{mul-div-mul_right, mul-div_cancel}

-- `byte << pos & 255` drops the digits that are used.
shifted_byte : (b p : ℕ) → p ≤ 8 → b * 2 ^ p % 256 ≡ b % 2 ^ (8 - p) * 2 ^ p
shifted_byte b p full =
    let k = 8 - p in
    let low = b % 2 ^ k in
    let whole : k + p ≡ 8 = omega arith in
    let e8 : 2 ^ k * 2 ^ p ≡ 2 ^ 8 = sym (two_pow_add k p) ∙ ap (λ (t : ℕ). 2 ^ t) whole in
    let parts : b * 2 ^ p ≡ b / 2 ^ k * 2 ^ 8 + low * 2 ^ p =
      omega (arith, ap (λ (t : ℕ). t * 2 ^ p) (split_at b k), ap (λ (t : ℕ). b / 2 ^ k * t) e8) in
    let fits : low * 2 ^ p < 2 ^ 8 =
      let z : low * 2 ^ p + 0 ≡ low * 2 ^ p = omega arith in
      rw (whole, z) at (joined_lt low 0 k p (low_lt b k) (two_pow_pos p)) in
    ap (λ (t : ℕ). t % 256) parts ∙ joined_low (b / 2 ^ k) (low * 2 ^ p) 8 fits

-- The `n` digits behind the first `p` of a byte.
field_of_byte :
    (b p n : ℕ) → p + n ≤ 8 → b * 2 ^ p % 256 / 2 ^ (8 - n) ≡ b % 2 ^ (8 - p) / 2 ^ (8 - (p + n))
field_of_byte b p n fits =
    let m = 8 - (p + n) in
    let width : 8 - n ≡ m + p = omega arith in
    rw (shifted_byte b p (omega arith), width, two_pow_add m p)
      (mul-div-mul_right (b % 2 ^ (8 - p)) (2 ^ m) (two_pow_pos p))

-- All the digits behind the first `p` of a byte, at the top of a field of `n` digits.
top_of_field :
    (b p n : ℕ)
    → p ≤ 8
    → 8 - p < n
    → n < 8
    → b * 2 ^ p % 256 / 2 ^ (8 - n) ≡ b % 2 ^ (8 - p) * 2 ^ (n - (8 - p))
top_of_field b p n full more small =
    let q = n - (8 - p) in
    let r = 8 - n in
    let width : 2 ^ p ≡ 2 ^ q * 2 ^ r =
      let e : p ≡ q + r = omega arith in ap (λ (t : ℕ). 2 ^ t) e ∙ two_pow_add q r in
    let regroup : b % 2 ^ (8 - p) * 2 ^ p ≡ b % 2 ^ (8 - p) * 2 ^ q * 2 ^ r =
      omega (arith, ap (λ (t : ℕ). b % 2 ^ (8 - p) * t) width) in
    ap (λ (t : ℕ). t / 2 ^ r) (shifted_byte b p full ∙ regroup)
    ∙ mul-div_cancel (b % 2 ^ (8 - p) * 2 ^ q) (two_pow_pos r)

top_of_wide_field :
    (b p n : ℕ)
    → p ≤ 8
    → 8 ≤ n
    → b * 2 ^ p % 256 * 2 ^ (n - 8) ≡ b % 2 ^ (8 - p) * 2 ^ (n - (8 - p))
top_of_wide_field b p n full wide =
    let width : 2 ^ (n - (8 - p)) ≡ 2 ^ p * 2 ^ (n - 8) =
      let e : n - (8 - p) ≡ p + (n - 8) = omega arith in
      ap (λ (t : ℕ). 2 ^ t) e ∙ two_pow_add p (n - 8) in
    rw (shifted_byte b p full, width) (omega arith)

next_stays :
    (done later : List ℕ) (b p : ℕ)
    → p < 8
    → next_byte (at_byte done b later p) ≡ at_byte done b later p
unfolding next_byte
next_stays done later b p below = ground arith

next_moves :
    (done later : List ℕ) (b y : ℕ)
    → next_byte (at_byte done b (y ∷ later) 8) ≡ at_byte (done ++ (b ∷ [])) y later 0
unfolding next_byte
next_moves done later b y =
    let a : done ++ (b ∷ y ∷ later) ≡ (done ++ (b ∷ [])) ++ (y ∷ later) =
      sym (append_assoc done (b ∷ []) (y ∷ later)) in
    let l : length done + 1 ≡ length (done ++ (b ∷ [])) =
      omega (arith, length-append done (b ∷ [])) in
    rw (a, l)

pub round_within :
    (done later : List ℕ) (b p n index : ℕ)
    → p < 8
    → n ≤ 8 - p
    → unpack_round index n (at_byte done b later p)
      ≡ some (index + b % 2 ^ (8 - p) / 2 ^ (8 - (p + n)), 0, at_byte done b later (p + n))
unfolding unpack_round
round_within done later b p n index below fits = rw (
  next_stays done later b p below,
  get_elem?-middle done later b,
  le→leb n (8 - p) fits,
  field_of_byte b p n (omega arith),
)

pub round_across :
    (done later : List ℕ) (b p n index : ℕ)
    → p < 8
    → 8 - p < n
    → unpack_round index n (at_byte done b later p)
      ≡ some (index + b % 2 ^ (8 - p) * 2 ^ (n - (8 - p)), n - (8 - p), at_byte done b later 8)
unfolding unpack_round
round_across done later b p n index below more = elim (le-or-lt 8 n) [
  | inl wide ↦ rw (
    next_stays done later b p below,
    get_elem?-middle done later b,
    lt→leb n (8 - p) more,
    le→ltb n 8 wide,
    top_of_wide_field b p n (omega arith) wide,
  )
  | inr small ↦ rw (
    next_stays done later b p below,
    get_elem?-middle done later b,
    lt→leb n (8 - p) more,
    lt→ltb n 8 small,
    top_of_field b p n (omega arith) more small,
  )
]

pub round_full :
    (done later : List ℕ) (b y n index : ℕ)
    → unpack_round index n (at_byte done b (y ∷ later) 8)
      ≡ unpack_round index n (at_byte (done ++ (b ∷ [])) y later 0)
unfolding unpack_round
round_full done later b y n index =
    rw (next_moves done later b y, next_stays (done ++ (b ∷ [])) later y 0 (omega arith))
