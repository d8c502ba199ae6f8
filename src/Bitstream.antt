-- ===== src/Bitstream.antt =====
-- src/packing.go: the bit fields of a packet, written and read through a cursor into a byte array.
-- A Go `int` here is a field value or a bit count, which is never negative, so it is a ℕ; a byte is
-- a ℕ below 256. `none` is a panic by an index out of range. `pos` is at most 8 throughout.
pub mod Bits
pub mod Bytes
pub mod Write
pub mod Read
use i_lbc_go.Prelude.{
  ℕ, zero, suc, ◌+◌, ◌-◌, ◌*◌, ◌/◌, ◌%◌, ◌^◌, Bool, true, false, List, Option, none, some, leb, ltb,
  ◌==◌, if◌then◌else◌, length, get_elem?, set,
}
use Prim.Native.Nat.{bit_or}

-- `*bitstream` as a slice that starts at `off` of the packet's array, and `*pos`, the number of bits
-- of the current byte that are used.
pub record Cursor : Type 0 where
  pub bytes : List ℕ
  pub off : ℕ
  pub pos : ℕ

-- What a routine does to the cursor, with its result; `none` is a panic.
abbrev pub Bitwise {ℓ} : Type ℓ → Type ℓ
Bitwise A = Cursor → Option (A × Cursor)

infixl 5 ◌>>=◌
abbrev pub ◌>>=◌ {ℓ κ} : {A : Type ℓ} {B : Type κ} → Option A → (A → Option B) → Option B
none >>= f = none
some a >>= f = f a

-- `*index >> bitnoRest`, and what is left of `*index`.
unfoldable pub packsplit : ℕ → ℕ → ℕ → ℕ × ℕ
packsplit index bitno_firstpart bitno_total =
    let bitno_rest = bitno_total - bitno_firstpart in
    let firstpart = index / 2 ^ bitno_rest in (firstpart, index - firstpart * 2 ^ bitno_rest)

unfoldable pub packcombine : ℕ → ℕ → ℕ → ℕ
packcombine index rest bitno_rest = index * 2 ^ bitno_rest + rest

-- `*bitstream.at(0).at(0) = v`
pub store_byte : ℕ → Cursor → Option Cursor
store_byte v c =
    if ltb c.off (length c.bytes) then some (record c { bytes = set c.bytes c.off v }) else none

-- `*bitstream.at(0).at(0) |= v`
pub or_byte : ℕ → Cursor → Option Cursor
or_byte v c = do b ← get_elem? c.bytes c.off; store_byte (bit_or b v) c

-- A full byte: the next one, cleared.
pub next_cleared : Cursor → Option Cursor
next_cleared c = if c.pos == 8 then store_byte 0 (record c { off = c.off + 1; pos = 0 }) else some c

-- One round of the loop of `dopack`: what is left of `index` and `bitno`, and the cursor.
pub dopack_round : ℕ → ℕ → Cursor → Option (ℕ × ℕ × Cursor)
dopack_round index bitno c = do
  c ← next_cleared c
  let pos_left = 8 - c.pos
  if leb bitno pos_left
      then (do
        c ← or_byte (index * 2 ^ (pos_left - bitno) % 256) c
        some (index, 0, record c { pos = c.pos + bitno }))
      else (do
        c ← or_byte (index / 2 ^ (bitno - pos_left) % 256) c
        some (
          index - index / 2 ^ (bitno - pos_left) * 2 ^ (bitno - pos_left),
          bitno - pos_left,
          record c { pos = 8 },
        ))

-- `for bitno > 0`, with fuel; `none` stands for no fuel left too.
pub dopack_loop : ℕ → ℕ → ℕ → Cursor → Option Cursor
dopack_loop zero index zero c = some c
dopack_loop zero index (suc bitno) c = none
dopack_loop (suc fuel) index zero c = some c
dopack_loop (suc fuel) index (suc bitno) c =
    dopack_round index (suc bitno) c >>= λ (index', bitno', c'). dopack_loop fuel index' bitno' c'

-- A round takes at least one bit, so `bitno` rounds are enough.
unfoldable pub dopack : ℕ → ℕ → Cursor → Option Cursor
unfolding dopack_loop dopack_round next_cleared or_byte store_byte
dopack index bitno c = do
  c ← (if c.pos == 0 then store_byte 0 c else some c)
  dopack_loop bitno index bitno c

-- A full byte: the next one.
pub next_byte : Cursor → Cursor
next_byte c = if c.pos == 8 then record c { off = c.off + 1; pos = 0 } else c

-- One round of the loop of `unpack`: the new `*index`, what is left of `bitno`, and the cursor.
pub unpack_round : ℕ → ℕ → Cursor → Option (ℕ × ℕ × Cursor)
unpack_round index bitno c = do
  let c = next_byte c
  let bits_left = 8 - c.pos
  b ← get_elem? c.bytes c.off
  some (
      if leb bitno bits_left
      then (index + b * 2 ^ c.pos % 256 / 2 ^ (8 - bitno), 0, record c { pos = c.pos + bitno })
      else (
        (if ltb bitno 8
            then index + b * 2 ^ c.pos % 256 / 2 ^ (8 - bitno)
            else index + b * 2 ^ c.pos % 256 * 2 ^ (bitno - 8)),
        bitno - bits_left,
        record c { pos = 8 },
      ))

pub unpack_loop : ℕ → ℕ → ℕ → Bitwise ℕ
unpack_loop zero index zero c = some (index, c)
unpack_loop zero index (suc bitno) c = none
unpack_loop (suc fuel) index zero c = some (index, c)
unpack_loop (suc fuel) index (suc bitno) c =
    unpack_round index (suc bitno) c >>= λ (index', bitno', c'). unpack_loop fuel index' bitno' c'

unfoldable pub unpack : ℕ → Bitwise ℕ
unfolding unpack_loop unpack_round next_byte
unpack bitno c = unpack_loop bitno 0 bitno c
