-- ===== src/Bitstream/Read.antt =====
-- What `unpack` of src/packing.go reads: the number whose digits come next in the packet.
mod Round
mod Loop
use i_lbc_go.Prelude.{
  ℕ, zero, suc, ◌+◌, ◌-◌, ◌*◌, ◌/◌, ◌%◌, ◌^◌, ◌≤◌, ◌<◌, ◌≡◌, refl, sym, ap, ◌∙◌, arith,
}
use i_lbc_go.Prelude.{
  List, [], ◌∷◌, ◌++◌, length, length-append, append_assoc, append-nil, All, All-append,
}
use i_lbc_go.Prelude.{
  Option, some, ◌⊎◌, inl, inr, get_elem?, le-or-lt, le→leb, lt→leb, lt→ltb, le→ltb,
}
use i_lbc_go.Prelude.{two_pow_add, two_pow_pos, split_at, low_lt, high_lt, joined_lt}
use i_lbc_go.Prelude.{joined_high, joined_low, subst, append-injective}
use i_lbc_go.Bitstream.Bits.{
  bits, length-bits, bits_injective, bits_append, bits_low, bits_joined, bits_of_joined,
}
use i_lbc_go.Bitstream.Bytes.{IsByte, all_bits, length-all_bits, at_byte, get_elem?-middle}
use i_lbc_go.Bitstream.{Cursor, next_byte, unpack_round, unpack_loop, unpack}
use native.Mathlib.Nat.{pow-le-pow_right, mod-eq_of_lt, mul-div-mul_right, mul-div_cancel}
use Loop.{ahead, Gets, loop_reads}
pub use Loop.{Unread}

length-ahead : (p b : ℕ) (later : List ℕ) → length (ahead p b later) ≡ 8 - p + 8 * length later
length-ahead p b later = omega (
  arith,
  length-append (bits (8 - p) b) (all_bits later),
  length-bits (8 - p) b,
  length-all_bits later,
)

-- `unpack` of n bits returns a number below 2 ^ n whose n digits come next, and moves behind them, as
-- long as there are so many.
pub unpack_takes :
    (n : ℕ) (c : Cursor) (stream : List ℕ)
    → Unread c stream
    → n ≤ length stream
    → Gets (unpack n c) 0 n stream
unfolding unpack
unpack_takes n c stream u enough =
    rw (u.cursor-eq, u.stream-eq)
      (loop_reads n n 0 u.done u.later u.byte u.p (omega arith) u.p-le u.bytes
        (omega (arith, ap length u.stream-eq, length-ahead u.p u.byte u.later, u.p-le)))

-- A field that stands next in the packet is read back.
pub unpack_reads :
    (n v : ℕ) (c : Cursor) (rest : List ℕ)
    → Unread c (bits n v ++ rest)
    → v < 2 ^ n
    → (d : Cursor) × (unpack n c ≡ some (v, d)) × Unread d rest
unpack_reads n v c rest u small =
    let (w, d, rest', e, small', s, u') =
      unpack_takes n c (bits n v ++ rest) u
        (omega (arith, length-append (bits n v) rest, length-bits n v)) in
    let (same, left) =
      append-injective (bits n v) (bits n w) rest rest' (length-bits n v ∙ sym (length-bits n w))
        s in
    let value : w ≡ v = bits_injective n w v small' small (sym same) in
    (d, e ∙ ap (λ (t : ℕ). some (t, d)) (omega arith), subst (Unread d) (sym left) u')
