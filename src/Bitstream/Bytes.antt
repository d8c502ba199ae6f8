-- ===== src/Bitstream/Bytes.antt =====
-- A packet as an array of bytes, the digits of such an array, and a cursor inside it.
use i_lbc_go.Prelude.{ℕ, ◌*◌, ◌<◌, ◌≡◌, refl, sym, ap, ◌∙◌, arith}
use i_lbc_go.Prelude.{
  List, [], ◌∷◌, ◌++◌, length, length-append, append_assoc, some, set, get_elem?,
}
use i_lbc_go.Bitstream.Bits.{bits, length-bits}
use i_lbc_go.Bitstream.{Cursor}

abbrev pub IsByte : ℕ → Type 0
IsByte b = b < 256

-- The digits of an array of bytes.
abbrev pub all_bits : List ℕ → List ℕ
all_bits [] = []
all_bits (b ∷ bs) = bits 8 b ++ all_bits bs

pub all_bits-append : (xs ys : List ℕ) → all_bits (xs ++ ys) ≡ all_bits xs ++ all_bits ys
all_bits-append [] ys = refl
all_bits-append (x ∷ xs) ys =
    ap (◌++◌ (bits 8 x)) (all_bits-append xs ys) ∙ sym (append_assoc (bits 8 x) _ _)

pub length-all_bits : (xs : List ℕ) → length (all_bits xs) ≡ 8 * length xs
length-all_bits [] = refl
length-all_bits (x ∷ xs) =
    omega (arith, length-append (bits 8 x) (all_bits xs), length-bits 8 x, length-all_bits xs)

pub get_elem?-middle : (xs ys : List ℕ) (y : ℕ) → get_elem? (xs ++ (y ∷ ys)) (length xs) ≡ some y
get_elem?-middle [] ys y = refl
get_elem?-middle (x ∷ xs) ys y = get_elem?-middle xs ys y

pub set-middle : (xs ys : List ℕ) (y v : ℕ) → set (xs ++ (y ∷ ys)) (length xs) v ≡ xs ++ (v ∷ ys)
set-middle [] ys y v = refl
set-middle (x ∷ xs) ys y v = ap (◌∷◌ x) (set-middle xs ys y v)

-- The cursor at a byte `b` between the bytes before it and the bytes after it.
abbrev pub at_byte : List ℕ → ℕ → List ℕ → ℕ → Cursor
at_byte done b later p = record { bytes = done ++ (b ∷ later); off = length done; pos = p }
