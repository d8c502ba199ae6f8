-- ===== src/Bitstream/Write.antt =====
-- What `dopack` of src/packing.go writes: the digits of the field, behind those that the packet holds.
mod Round
mod Loop
use i_lbc_go.Prelude.{
  ℕ, zero, suc, ◌+◌, ◌-◌, ◌*◌, ◌/◌, ◌%◌, ◌^◌, ◌≤◌, ◌<◌, ◌≡◌, refl, sym, ap, ◌∙◌, arith,
}
use i_lbc_go.Prelude.{
  List, [], ◌∷◌, ◌++◌, length, length-append, append_assoc, append-nil, All, All-append,
}
use i_lbc_go.Prelude.{Option, some, ◌⊎◌, inl, inr, set, get_elem?, le-or-lt, le→leb, lt→leb, lt→ltb}
use i_lbc_go.Prelude.{two_pow_add, two_pow_pos, split_at, low_lt, high_lt, or_joined, joined_lt}
use i_lbc_go.Prelude.{joined_high, joined_low}
use i_lbc_go.Bitstream.Bits.{bits, length-bits, bits_append, bits_low, bits_of_joined}
use i_lbc_go.Bitstream.Bytes.{
  IsByte, all_bits, all_bits-append, length-all_bits, at_byte, get_elem?-middle, set-middle,
}
use i_lbc_go.Bitstream.{
  Cursor, store_byte, or_byte, next_cleared, dopack_round, dopack_loop, dopack,
}
use i_lbc_go.Prelude.{false, ◌==◌, subst}
use Prim.Native.Nat.{bit_or}
use native.Mathlib.Nat.{pow-le-pow_right, mod-eq_of_lt}
use Round.{store_middle}
use Loop.{loop_writes}
pub use Loop.{Written}

-- A cursor that `dopack` can start from, with the digits `ws` written: at the start of an array of any
-- content, or behind what was written before.
abbrev pub Open : ℕ → Cursor → List ℕ → Type 0
Open size c ws =
    Written size c ws
    ⊎ ((b : ℕ) × (later : List ℕ) × (c ≡ at_byte [] b later 0)
        × (suc (length later) ≡ size)
        × (ws ≡ []))

-- The reset at the start of a byte changes nothing in a cursor that stands behind written digits.
dopack_written :
    (n v : ℕ) (done later : List ℕ) (h p : ℕ)
    → h < 2 ^ p
    → dopack v n (at_byte done (h * 2 ^ (8 - p)) later p)
      ≡ dopack_loop n v n (at_byte done (h * 2 ^ (8 - p)) later p)
unfolding dopack
dopack_written n v done later h zero high =
    let z : h * 2 ^ (8 - 0) ≡ 0 = omega arith in rw (z, store_middle done later 0 0 0)
dopack_written n v done later h (suc p) high = let z : (suc p == 0) ≡ false = ground arith in rw z

pub dopack_fresh :
    (n v b : ℕ) (later : List ℕ)
    → dopack v n (at_byte [] b later 0) ≡ dopack v n (at_byte [] 0 later 0)
unfolding dopack
dopack_fresh n v b later = refl

no_digits : all_bits [] ++ bits 0 0 ≡ []
unfolding bits
no_digits = refl

Written-subst :
    {size size' : ℕ} (d : Cursor) {ws ws' : List ℕ}
    → size ≡ size'
    → ws ≡ ws'
    → Written size d ws
    → Written size' d ws'
Written-subst {size} d {ws' = ws'} e f w =
    subst (λ s. Written s d ws') e (subst (Written size d) f w)

whole : {size : ℕ} (later : List ℕ) → suc (length later) ≡ size → 0 + suc (length later) ≡ size
whole later s = omega arith

-- `dopack` of a number below 2 ^ n appends its n digits to those written, as long as the array has room.
pub dopack_appends :
    (size n v : ℕ) (c : Cursor) (ws : List ℕ)
    → Open size c ws
    → v < 2 ^ n
    → length ws + n ≤ 8 * size
    → (d : Cursor) × (dopack v n c ≡ some d) × Written size d (ws ++ bits n v)
dopack_appends size n v c ws (inl w) small room =
    let (d, e, w') =
      loop_writes n n v w.done w.later w.high w.p (omega arith) w.p-le small w.high-lt
        (omega (
          arith,
          ap length w.ws-eq,
          w.size-eq,
          length-append (all_bits w.done) (bits w.p w.high),
          length-all_bits w.done,
          length-bits w.p w.high,
        ))
        w.done-IsByte in
    (
      d,
      rw (w.cursor-eq) (dopack_written n v w.done w.later w.high w.p w.high-lt ∙ e),
      Written-subst d w.size-eq (ap (λ (t : List ℕ). t ++ bits n v) (sym w.ws-eq)) w',
    )
dopack_appends size n v c ws (inr (b, later, e, s, z)) small room =
    let (d, e', w) =
      loop_writes n n v [] later 0 0 (omega arith) (omega arith) small (omega arith)
        (omega (arith, ap length z)) tt in
    (
      d,
      rw e (dopack_fresh n v b later ∙ dopack_written n v [] later 0 0 (omega arith) ∙ e'),
      Written-subst d (whole later s) (ap (λ (t : List ℕ). t ++ bits n v) (no_digits ∙ sym z)) w,
    )
