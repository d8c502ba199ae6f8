-- ===== src/Bitstream/Write/Round.antt =====
-- One round of the loop of `dopack`, in src/packing.go: what it does to the current byte.
use i_lbc_go.Prelude.{ℕ, ◌+◌, ◌-◌, ◌*◌, ◌/◌, ◌%◌, ◌^◌, ◌≤◌, ◌<◌, ◌≡◌, sym, arith}
use i_lbc_go.Prelude.{List, [], ◌∷◌, ◌++◌, length, length-append, append_assoc}
use i_lbc_go.Prelude.{some, le→leb, lt→leb, lt→ltb}
use i_lbc_go.Prelude.{two_pow_add, two_pow_pos, split_at, high_lt, or_joined, joined_lt}
use i_lbc_go.Bitstream.Bytes.{at_byte, get_elem?-middle, set-middle}
use i_lbc_go.Bitstream.{store_byte, or_byte, next_cleared, dopack_round}
use Prim.Native.Nat.{bit_or}
use native.Mathlib.Nat.{pow-le-pow_right, mod-eq_of_lt}

pub store_middle :
    (done later : List ℕ) (b v p : ℕ)
    → store_byte v (at_byte done b later p) ≡ some (at_byte done v later p)
unfolding store_byte
store_middle done later b v p =
    let inside : length done < length (done ++ (b ∷ later)) =
      omega (arith, length-append done (b ∷ later)) in
    rw (lt→ltb _ _ inside, set-middle done later b v)

or_middle :
    (done later : List ℕ) (b v p : ℕ)
    → or_byte v (at_byte done b later p) ≡ some (at_byte done (bit_or b v) later p)
unfolding or_byte
or_middle done later b v p =
    rw (get_elem?-middle done later b, store_middle done later b (bit_or b v) p)

narrow_byte : (k w : ℕ) → k ≤ 8 → w < 2 ^ k → w % 256 ≡ w
narrow_byte k w fits small =
    let most : 2 ^ k ≤ 2 ^ 8 = pow-le-pow_right (omega arith) {j = 8} fits in
    mod-eq_of_lt (omega arith)

-- A field of `k` digits joins the `p` digits `h` in a byte.
field_joins :
    (p k h v : ℕ)
    → p + k ≤ 8
    → v < 2 ^ k
    → bit_or (h * 2 ^ (8 - p)) (v * 2 ^ (8 - (p + k)) % 256) ≡ (h * 2 ^ k + v) * 2 ^ (8 - (p + k))
field_joins p k h v fits small =
    let r = 8 - (p + k) in
    let width : 8 - p ≡ k + r = omega arith in
    let low : v * 2 ^ r < 2 ^ (k + r) =
      let z : v * 2 ^ r + 0 ≡ v * 2 ^ r = omega arith in
      rw z at (joined_lt v 0 k r small (two_pow_pos r)) in
    let byte : v * 2 ^ r % 256 ≡ v * 2 ^ r = narrow_byte (k + r) (v * 2 ^ r) (omega arith) low in
    rw (width, byte, or_joined (k + r) h (v * 2 ^ r) low, two_pow_add k r) (omega arith)

-- Before the end of a byte the cursor stays.
next_within :
    (done later : List ℕ) (b p : ℕ)
    → p < 8
    → next_cleared (at_byte done b later p) ≡ some (at_byte done b later p)
unfolding next_cleared
next_within done later b p below = ground arith

next_full :
    (done later : List ℕ) (b y : ℕ)
    → next_cleared (at_byte done b (y ∷ later) 8) ≡ some (at_byte (done ++ (b ∷ [])) 0 later 0)
unfolding next_cleared
next_full done later b y =
    let a : done ++ (b ∷ y ∷ later) ≡ (done ++ (b ∷ [])) ++ (y ∷ later) =
      sym (append_assoc done (b ∷ []) (y ∷ later)) in
    let l : length done + 1 ≡ length (done ++ (b ∷ [])) =
      omega (arith, length-append done (b ∷ [])) in
    rw (a, l) (store_middle (done ++ (b ∷ [])) later y 0 0)

pub round_within :
    (done later : List ℕ) (p n h v : ℕ)
    → p < 8
    → n ≤ 8 - p
    → v < 2 ^ n
    → dopack_round v n (at_byte done (h * 2 ^ (8 - p)) later p)
      ≡ some (v, 0, at_byte done ((h * 2 ^ n + v) * 2 ^ (8 - (p + n))) later (p + n))
unfolding dopack_round
round_within done later p n h v below fits small =
    let shift : 8 - p - n ≡ 8 - (p + n) = omega arith in
    rw (
      next_within done later (h * 2 ^ (8 - p)) p below,
      le→leb n (8 - p) fits,
      shift,
      or_middle done later (h * 2 ^ (8 - p)) (v * 2 ^ (8 - (p + n)) % 256) p,
      field_joins p n h v (omega arith) small,
    )

pub round_across :
    (done later : List ℕ) (p n h v : ℕ)
    → p < 8
    → 8 - p < n
    → v < 2 ^ n
    → dopack_round v n (at_byte done (h * 2 ^ (8 - p)) later p)
      ≡ some (
        v % 2 ^ (n - (8 - p)),
        n - (8 - p),
        at_byte done (h * 2 ^ (8 - p) + v / 2 ^ (n - (8 - p))) later 8,
      )
unfolding dopack_round
round_across done later p n h v below more small =
    let k = 8 - p in
    let r = n - k in
    let width : n ≡ k + r = omega arith in
    let top : v / 2 ^ r < 2 ^ k = high_lt v k r (rw width at small) in
    let joins : bit_or (h * 2 ^ (8 - p)) (v / 2 ^ r % 256) ≡ h * 2 ^ k + v / 2 ^ r =
      rw (narrow_byte k (v / 2 ^ r) (omega arith) top) (or_joined k h (v / 2 ^ r) top) in
    let rest : v - v / 2 ^ r * 2 ^ r ≡ v % 2 ^ r = omega (arith, split_at v r) in
    rw (
      next_within done later (h * 2 ^ (8 - p)) p below,
      lt→leb n (8 - p) more,
      or_middle done later (h * 2 ^ (8 - p)) (v / 2 ^ r % 256) p,
      joins,
      rest,
    )

-- At a full byte a round begins with the next byte, cleared.
pub round_full :
    (done later : List ℕ) (n b y v : ℕ)
    → dopack_round v n (at_byte done b (y ∷ later) 8)
      ≡ dopack_round v n (at_byte (done ++ (b ∷ [])) 0 later 0)
unfolding dopack_round
round_full done later n b y v =
    rw (next_full done later b y, next_within (done ++ (b ∷ [])) later 0 0 (omega arith))
