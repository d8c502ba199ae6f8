-- ===== src/Bitstream/Read/Loop.antt =====
-- The loop of `unpack`, in src/packing.go, by induction on its rounds.
use i_lbc_go.Prelude.{
  ℕ, zero, suc, ◌+◌, ◌-◌, ◌*◌, ◌/◌, ◌%◌, ◌^◌, ◌≤◌, ◌<◌, ◌≡◌, refl, sym, ap, ◌∙◌, arith,
}
use i_lbc_go.Prelude.{List, [], ◌∷◌, ◌++◌, length, append_assoc, All}
use i_lbc_go.Prelude.{Option, some, inl, inr, le-or-lt}
use i_lbc_go.Prelude.{two_pow_add, split_at, low_lt, high_lt, joined_lt}
use i_lbc_go.Prelude.{subst}
use i_lbc_go.Bitstream.Bits.{bits, bits_append, bits_low, bits_joined, bits_of_joined}
use i_lbc_go.Bitstream.Bytes.{IsByte, all_bits, at_byte}
use i_lbc_go.Bitstream.{Cursor, unpack_round, unpack_loop}
use i_lbc_go.Bitstream.Read.Round.{round_within, round_across, round_full}

-- The digits behind the first `p` of the byte `b` and of the bytes after it.
abbrev pub ahead : ℕ → ℕ → List ℕ → List ℕ
ahead p b later = bits (8 - p) b ++ all_bits later

-- The cursor stands in front of the digits `stream`.
pub record Unread (c : Cursor) (stream : List ℕ) : Type 0 where
  pub done : List ℕ
  pub byte : ℕ
  pub later : List ℕ
  pub p : ℕ
  pub cursor-eq : c ≡ at_byte done byte later p
  pub p-le : p ≤ 8
  pub bytes : All IsByte (byte ∷ later)
  pub stream-eq : stream ≡ ahead p byte later

-- `m` adds the number `v` of the next `n` digits to `index`, and leaves the rest of the stream.
abbrev pub Gets : Option (ℕ × Cursor) → ℕ → ℕ → List ℕ → Type 0
Gets m index n stream =
    (v : ℕ) × (d : Cursor) × (rest : List ℕ) × (m ≡ some (index + v, d))
    × (v < 2 ^ n)
    × (stream ≡ bits n v ++ rest)
    × Unread d rest

abbrev pub LoopReads : ℕ → Type 0
LoopReads f =
    (n index : ℕ) (done later : List ℕ) (b p : ℕ)
    → n ≤ f
    → p ≤ 8
    → All IsByte (b ∷ later)
    → p + n ≤ 8 * suc (length later)
    → Gets (unpack_loop f index n (at_byte done b later p)) index n (ahead p b later)

unpack_loop-zero : (f index : ℕ) (c : Cursor) → unpack_loop f index 0 c ≡ some (index, c)
unfolding unpack_loop
unpack_loop-zero zero index c = refl
unpack_loop-zero (suc f) index c = refl

unpack_loop-suc :
    (f index n : ℕ) (c d : Cursor) (index' n' : ℕ)
    → 0 < n
    → unpack_round index n c ≡ some (index', n', d)
    → unpack_loop (suc f) index n c ≡ unpack_loop f index' n' d
unfolding unpack_loop
unpack_loop-suc f index zero c d index' n' h e = absurd (omega arith)
unpack_loop-suc f index (suc n) c d index' n' h e = rw e

within_lt : (b p n : ℕ) → p + n ≤ 8 → b % 2 ^ (8 - p) < 2 ^ (n + (8 - (p + n)))
within_lt b p n fits =
    let width : 8 - p ≡ n + (8 - (p + n)) = omega arith in
    subst (λ (t : ℕ). b % 2 ^ (8 - p) < 2 ^ t) width (low_lt b (8 - p))

-- The digits of a byte from `p` on, in a field of `n` digits and the rest.
ahead_within :
    (b p n : ℕ)
    → p + n ≤ 8
    → bits (8 - p) b ≡ bits n (b % 2 ^ (8 - p) / 2 ^ (8 - (p + n))) ++ bits (8 - (p + n)) b
ahead_within b p n fits =
    let m = 8 - (p + n) in
    let k = 8 - p in
    let width : k ≡ n + m = omega arith in
    let low : bits m (b % 2 ^ k) ≡ bits m b =
      let e : b ≡ b / 2 ^ k * 2 ^ n * 2 ^ m + b % 2 ^ k =
        let w : 2 ^ k ≡ 2 ^ n * 2 ^ m = ap (λ (t : ℕ). 2 ^ t) width ∙ two_pow_add n m in
        omega (arith, split_at b k, ap (λ (t : ℕ). b / 2 ^ k * t) w) in
      sym (ap (bits m) e ∙ bits_joined m (b / 2 ^ k * 2 ^ n) (b % 2 ^ k)) in
    sym (bits_low k b)
    ∙ ap (λ (t : ℕ). bits t (b % 2 ^ k)) width
    ∙ bits_append n m (b % 2 ^ k)
    ∙ rw low

joined_lt' : (n r k h l : ℕ) → n ≡ k + r → h < 2 ^ k → l < 2 ^ r → h * 2 ^ r + l < 2 ^ n
joined_lt' n r k h l e p q = rw e (joined_lt h l k r p q)

across_stream :
    (n b p v : ℕ) (later rest : List ℕ)
    → p ≤ 8
    → 8 - p ≤ n
    → v < 2 ^ (n - (8 - p))
    → ahead 8 b later ≡ bits (n - (8 - p)) v ++ rest
    → ahead p b later ≡ bits n (b % 2 ^ (8 - p) * 2 ^ (n - (8 - p)) + v) ++ rest
across_stream n b p v later rest full more small s =
    let k = 8 - p in
    let r = n - k in
    let width : n ≡ k + r = omega arith in
    let field : bits n (b % 2 ^ k * 2 ^ r + v) ≡ bits k b ++ bits r v =
      ap (λ (t : ℕ). bits t (b % 2 ^ k * 2 ^ r + v)) width
      ∙ bits_of_joined k r (b % 2 ^ k) v small
      ∙ ap (λ (t : List ℕ). t ++ bits r v) (bits_low k b) in
    let none_left : ahead 8 b later ≡ all_bits later = unfold bits in refl in
    rw (field, append_assoc (bits k b) (bits r v) rest, ← s, none_left)

loop_below :
    (f : ℕ)
    → LoopReads f
    → (n index : ℕ) (done later : List ℕ) (b p : ℕ) → 0 < n
    → n ≤ suc f
    → p < 8
    → All IsByte (b ∷ later)
    → p + n ≤ 8 * suc (length later)
    → Gets (unpack_loop (suc f) index n (at_byte done b later p)) index n (ahead p b later)
loop_below f ih n index done later b p some_bits fuel below bytes room = elim (le-or-lt n (8 - p)) [
  | inl fits ↦ (
    b % 2 ^ (8 - p) / 2 ^ (8 - (p + n)),
    at_byte done b later (p + n),
    ahead (p + n) b later,
    unpack_loop-suc f index n _ _ _ 0 some_bits (round_within done later b p n index below fits)
        ∙ unpack_loop-zero f _ _,
    high_lt _ n (8 - (p + n)) (within_lt b p n (omega arith)),
    ap (λ (t : List ℕ). t ++ all_bits later) (ahead_within b p n (omega arith))
        ∙ append_assoc (bits n (b % 2 ^ (8 - p) / 2 ^ (8 - (p + n)))) (bits (8 - (p + n)) b)
            (all_bits later),
    record {
      done = done;
      byte = b;
      later = later;
      p = p + n;
      cursor-eq = refl;
      p-le = omega arith;
      bytes = bytes;
      stream-eq = refl;
    },
  )
  | inr more ↦
      let r = n - (8 - p) in
      let top = b % 2 ^ (8 - p) in
      let (v, d, rest, e, small, s, u) =
        ih r (index + top * 2 ^ r) done later b 8 (omega arith) (omega arith) bytes (omega arith) in
      (
        top * 2 ^ r + v,
        d,
        rest,
        unpack_loop-suc f index n _ _ _ r some_bits (round_across done later b p n index below more)
            ∙ e
            ∙ ap (λ (t : ℕ). some (t, d)) (omega arith),
        joined_lt' n r (8 - p) top v (omega arith) (low_lt b (8 - p)) small,
        across_stream n b p v later rest (omega arith) (omega arith) small s,
        u,
      )
]

loop_full :
    (f n index : ℕ) (done later : List ℕ) (b y : ℕ)
    → unpack_loop (suc f) index (suc n) (at_byte done b (y ∷ later) 8)
      ≡ unpack_loop (suc f) index (suc n) (at_byte (done ++ (b ∷ [])) y later 0)
unfolding unpack_loop
loop_full f n index done later b y = rw (round_full done later b y (suc n) index)

loop_at_end :
    (f : ℕ)
    → LoopReads f
    → (n index : ℕ) (done later : List ℕ) (b : ℕ) → n ≤ f
    → All IsByte (b ∷ later)
    → 8 + suc n ≤ 8 * suc (length later)
    → Gets
        (unpack_loop (suc f) index (suc n) (at_byte done b later 8))
        index
        (suc n)
        (ahead 8 b later)
loop_at_end f ih n index done [] b fuel bytes room = absurd (omega arith)
loop_at_end f ih n index done (y ∷ later) b fuel bytes room =
    let (v, d, rest, e, small, s, u) =
      loop_below f ih (suc n) index (done ++ (b ∷ [])) later y 0 (omega arith) (omega arith)
        (omega arith) bytes.1 (omega arith) in
    let next : ahead 8 b (y ∷ later) ≡ ahead 0 y later = unfold bits in refl in
    (v, d, rest, loop_full f n index done later b y ∙ e, small, next ∙ s, u)

pub loop_reads : (f : ℕ) → LoopReads f
loop_reads f zero index done later b p fuel full bytes room = (
  0,
  at_byte done b later p,
  ahead p b later,
  unpack_loop-zero f index _ ∙ ap (λ (t : ℕ). some (t, at_byte done b later p)) (omega arith),
  omega arith,
  (unfold bits in refl),
  record {
    done = done;
    byte = b;
    later = later;
    p = p;
    cursor-eq = refl;
    p-le = full;
    bytes = bytes;
    stream-eq = refl;
  },
)
loop_reads zero (suc n) index done later b p fuel full bytes room = absurd (omega arith)
loop_reads (suc f) (suc n) index done later b p fuel full bytes room = elim (le-or-lt 8 p) [
  | inl at_end ↦
      let e : p ≡ 8 = omega arith in
      rw e (loop_at_end f (loop_reads f) n index done later b (omega arith) bytes (omega arith))
  | inr below ↦
      loop_below f (loop_reads f) (suc n) index done later b p (omega arith) fuel below bytes room
]
