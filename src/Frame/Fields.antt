-- ===== src/Frame/Fields.antt =====
-- One index and its row: the part for each class, what is left for the later classes, and how the
-- parts are put together again (`packsplit` and `packcombine` in src/packing.go).
use i_lbc_go.Prelude.{
  ℕ, zero, suc, ◌+◌, ◌-◌, ◌*◌, ◌/◌, ◌%◌, ◌^◌, ◌<◌, ◌≡◌, refl, ap, arith, List, [], ◌∷◌, ◌++◌,
  get_or, length, replicate, split_at, low_lt, high_lt, two_pow_add, length-append, All,
}
use i_lbc_go.Layout.{Row}
use i_lbc_go.Bitstream.{packsplit}
use i_lbc_go.Bitstream.Bits.{bits, length-bits}
use mathlib.Core.Path.{ap₂}

-- The bits of a row for the class `u`, and for the classes after it.
abbrev pub here : ℕ → Row → ℕ
here u r = get_or r u 0

abbrev pub after : ℕ → Row → ℕ
after u r = get_or r (u + 1) 0 + get_or r (u + 2) 0

-- A row uses the three classes that the loops go through.
abbrev pub IsRow : Row → Type 0
IsRow r = (get_or r 3 0 ≡ 0) × (get_or r 4 0 ≡ 0)

abbrev pub width : Row → ℕ
width r = here 0 r + after 0 r

abbrev pub part : ℕ → Row → ℕ → ℕ
part u r v = v / 2 ^ after u r

abbrev pub left : ℕ → Row → ℕ → ℕ
left u r v = v % 2 ^ after u r

abbrev pub absorb : ℕ → Row → ℕ → ℕ → ℕ
absorb u r g v = g * 2 ^ here u r + part u r v

-- What is left of `v` before the class `u`.
abbrev pub before : ℕ → Row → ℕ → ℕ
before zero r v = v
before (suc zero) r v = left 0 r v
before (suc (suc u)) r v = left 1 r (left 0 r v)

-- `packsplit` is a division by a power of two.
pub packsplit_lem : (v a b c : ℕ) → packsplit v a (a + b + c) ≡ (v / 2 ^ (b + c), v % 2 ^ (b + c))
unfolding packsplit
packsplit_lem v a b c =
    let e : a + b + c - a ≡ b + c = omega arith in
    let m : v - v / 2 ^ (b + c) * 2 ^ (b + c) ≡ v % 2 ^ (b + c) =
      omega (arith, split_at v (b + c)) in
    rw (e, m)

pub part-lt : (u : ℕ) (r : Row) (v : ℕ) → v < 2 ^ (here u r + after u r) → part u r v < 2 ^ here u r
part-lt u r v h = high_lt v (here u r) (after u r) h

-- In every class what is left fits the bits of the row that are left.
pub left_fits_1 : (r : Row) (v : ℕ) → IsRow r → left 0 r v < 2 ^ (here 1 r + after 1 r)
left_fits_1 r v h =
    let e : here 1 r + after 1 r ≡ after 0 r = omega (arith, h.0) in rw e (low_lt v (after 0 r))

pub left_fits_2 : (r : Row) (v : ℕ) → IsRow r → left 1 r v < 2 ^ (here 2 r + after 2 r)
left_fits_2 r v h =
    let e : here 2 r + after 2 r ≡ after 1 r = omega (arith, h.0, h.1) in
    rw e (low_lt v (after 1 r))

-- The three parts make up the index.
pub absorb_all :
    (r : Row) (v : ℕ)
    → IsRow r
    → absorb 2 r (absorb 1 r (absorb 0 r 0 v) (left 0 r v)) (left 1 r (left 0 r v)) ≡ v
absorb_all r v h =
    let e1 : after 1 r ≡ get_or r 2 0 = omega (arith, h.0) in
    let e2 : after 2 r ≡ 0 = omega (arith, h.0, h.1) in
    let w = v % 2 ^ after 0 r in
    let one : w % 2 ^ get_or r 2 0 / 2 ^ 0 ≡ w % 2 ^ get_or r 2 0 = omega arith in
    rw (e1, e2, one)
      (omega (
        arith,
        split_at v (after 0 r),
        split_at w (get_or r 2 0),
        ap (λ (t : ℕ). v / 2 ^ after 0 r * t) (two_pow_add (get_or r 1 0) (get_or r 2 0)),
      ))

-- Lists of indices, each with its row.
abbrev pub parts : ℕ → List Row → List ℕ → List ℕ
parts u [] vs = []
parts u (r ∷ rs) [] = []
parts u (r ∷ rs) (v ∷ vs) = bits (here u r) (part u r v) ++ parts u rs vs

abbrev pub lefts : ℕ → List Row → List ℕ → List ℕ
lefts u [] vs = vs
lefts u (r ∷ rs) [] = []
lefts u (r ∷ rs) (v ∷ vs) = left u r v ∷ lefts u rs vs

abbrev pub absorbs : ℕ → List Row → List ℕ → List ℕ → List ℕ
absorbs u [] gs vs = gs
absorbs u (r ∷ rs) [] vs = []
absorbs u (r ∷ rs) (g ∷ gs) [] = g ∷ gs
absorbs u (r ∷ rs) (g ∷ gs) (v ∷ vs) = absorb u r g v ∷ absorbs u rs gs vs

-- There is one index for each row, and it fits the bits that are left at the class `u`.
abbrev pub Fit : ℕ → List Row → List ℕ → Type 0
Fit u [] [] = Unit {0}
Fit u [] (v ∷ vs) = ⊥
Fit u (r ∷ rs) [] = ⊥
Fit u (r ∷ rs) (v ∷ vs) = (v < 2 ^ (here u r + after u r)) × Fit u rs vs

-- The bits of a class.
abbrev pub total : ℕ → List Row → ℕ
total u [] = 0
total u (r ∷ rs) = here u r + total u rs

pub Fit-lefts_1 :
    (rs : List Row) (vs : List ℕ) → All IsRow rs → Fit 0 rs vs → Fit 1 rs (lefts 0 rs vs)
Fit-lefts_1 [] [] h f = tt
Fit-lefts_1 [] (v ∷ vs) h f = f
Fit-lefts_1 (r ∷ rs) [] h f = f
Fit-lefts_1 (r ∷ rs) (v ∷ vs) h f = (left_fits_1 r v h.0, Fit-lefts_1 rs vs h.1 f.1)

pub Fit-lefts_2 :
    (rs : List Row) (vs : List ℕ) → All IsRow rs → Fit 1 rs vs → Fit 2 rs (lefts 1 rs vs)
Fit-lefts_2 [] [] h f = tt
Fit-lefts_2 [] (v ∷ vs) h f = f
Fit-lefts_2 (r ∷ rs) [] h f = f
Fit-lefts_2 (r ∷ rs) (v ∷ vs) h f = (left_fits_2 r v h.0, Fit-lefts_2 rs vs h.1 f.1)

pub length-parts :
    (u : ℕ) (rs : List Row) (vs : List ℕ) → Fit u rs vs → length (parts u rs vs) ≡ total u rs
length-parts u [] vs f = refl
length-parts u (r ∷ rs) [] f = absurd f
length-parts u (r ∷ rs) (v ∷ vs) f = omega (
  arith,
  length-append (bits (here u r) (part u r v)) (parts u rs vs),
  length-bits (here u r) (part u r v),
  length-parts u rs vs f.1,
)

pub absorbs-All :
    (rs : List Row) (vs : List ℕ)
    → All IsRow rs
    → Fit 0 rs vs
    → absorbs 2 rs
        (absorbs 1 rs (absorbs 0 rs (replicate (length rs) 0) vs) (lefts 0 rs vs))
        (lefts 1 rs (lefts 0 rs vs))
      ≡ vs
absorbs-All [] [] h f = refl
absorbs-All [] (v ∷ vs) h f = absurd f
absorbs-All (r ∷ rs) [] h f = absurd f
absorbs-All (r ∷ rs) (v ∷ vs) h f = ap₂ ◌∷◌ (absorb_all r v h.0) (absorbs-All rs vs h.1 f.1)
