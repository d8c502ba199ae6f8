-- ===== src/Bitstream/Write/Loop.antt =====
-- The loop of `dopack`, in src/packing.go, by induction on its rounds.
use i_lbc_go.Prelude.{
  ℕ, zero, suc, ◌+◌, ◌-◌, ◌*◌, ◌/◌, ◌%◌, ◌^◌, ◌≤◌, ◌<◌, ◌≡◌, refl, ap, ◌∙◌, arith,
}
use i_lbc_go.Prelude.{
  List, [], ◌∷◌, ◌++◌, length, length-append, append_assoc, append-nil, All, All-append,
}
use i_lbc_go.Prelude.{Option, some, inl, inr, le-or-lt}
use i_lbc_go.Prelude.{low_lt, high_lt, joined_lt}
use i_lbc_go.Bitstream.Bits.{bits, bits_append, bits_low, bits_of_joined}
use i_lbc_go.Bitstream.Bytes.{IsByte, all_bits, all_bits-append, at_byte}
use i_lbc_go.Bitstream.{Cursor, dopack_round, dopack_loop}
use i_lbc_go.Bitstream.Write.Round.{round_within, round_across, round_full}

-- The cursor stands behind the written digits `ws`: those of the bytes before it, and the first `p`
-- digits of a byte that is zero from there on. `size` is the length of the array.
pub record Written (size : ℕ) (c : Cursor) (ws : List ℕ) : Type 0 where
  pub done : List ℕ
  pub high : ℕ
  pub later : List ℕ
  pub p : ℕ
  pub cursor-eq : c ≡ at_byte done (high * 2 ^ (8 - p)) later p
  pub p-le : p ≤ 8
  pub high-lt : high < 2 ^ p
  pub size-eq : length done + suc (length later) ≡ size
  pub done-IsByte : All IsByte done
  pub ws-eq : ws ≡ all_bits done ++ bits p high

-- `m` ends, with the digits `ws` written.
abbrev pub Ends : ℕ → Option Cursor → List ℕ → Type 0
Ends size m ws = (d : Cursor) × (m ≡ some d) × Written size d ws

-- A field that runs over the end of a byte: what fills the byte, and what is left.
across_lt :
    (n v h p : ℕ)
    → p ≤ 8
    → 8 - p ≤ n
    → v < 2 ^ n
    → h < 2 ^ p
    → h * 2 ^ (8 - p) + v / 2 ^ (n - (8 - p)) < 2 ^ 8
across_lt n v h p full more small high =
    let k = 8 - p in
    let r = n - k in
    let width : n ≡ k + r = omega arith in
    let whole : p + k ≡ 8 = omega arith in
    let top : v / 2 ^ r < 2 ^ k = high_lt v k r (rw width at small) in
    rw whole at (joined_lt h (v / 2 ^ r) p k high top)

across_bits :
    (ds : List ℕ) (n v h p : ℕ)
    → p ≤ 8
    → 8 - p ≤ n
    → v < 2 ^ n
    → (ds ++ bits 8 (h * 2 ^ (8 - p) + v / 2 ^ (n - (8 - p))))
        ++ bits (n - (8 - p)) (v % 2 ^ (n - (8 - p)))
      ≡ (ds ++ bits p h) ++ bits n v
across_bits ds n v h p full more small =
    let k = 8 - p in
    let r = n - k in
    let width : n ≡ k + r = omega arith in
    let whole : p + k ≡ 8 = omega arith in
    let top : v / 2 ^ r < 2 ^ k = high_lt v k r (rw width at small) in
    let first : bits 8 (h * 2 ^ k + v / 2 ^ r) ≡ bits p h ++ bits k (v / 2 ^ r) =
      rw whole at (bits_of_joined p k h (v / 2 ^ r) top) in
    let field : bits n v ≡ bits k (v / 2 ^ r) ++ bits r v =
      ap (λ (t : ℕ). bits t v) width ∙ bits_append k r v in
    rw (first, field, bits_low r v) (simp append_assoc)

abbrev pub LoopWrites : ℕ → Type 0
LoopWrites f =
    (n v : ℕ) (done later : List ℕ) (h p : ℕ)
    → n ≤ f
    → p ≤ 8
    → v < 2 ^ n
    → h < 2 ^ p
    → p + n ≤ 8 * suc (length later)
    → All IsByte done
    → Ends (length done + suc (length later))
        (dopack_loop f v n (at_byte done (h * 2 ^ (8 - p)) later p))
        ((all_bits done ++ bits p h) ++ bits n v)

dopack_loop-zero : (f v : ℕ) (c : Cursor) → dopack_loop f v 0 c ≡ some c
unfolding dopack_loop
dopack_loop-zero zero v c = refl
dopack_loop-zero (suc f) v c = refl

dopack_loop-suc :
    (f v n : ℕ) (c d : Cursor) (v' n' : ℕ)
    → 0 < n
    → dopack_round v n c ≡ some (v', n', d)
    → dopack_loop (suc f) v n c ≡ dopack_loop f v' n' d
unfolding dopack_loop
dopack_loop-suc f v zero c d v' n' h e = absurd (omega arith)
dopack_loop-suc f v (suc n) c d v' n' h e = rw e

loop_below :
    (f : ℕ)
    → LoopWrites f
    → (n v : ℕ) (done later : List ℕ) (h p : ℕ) → 0 < n
    → n ≤ suc f
    → p < 8
    → v < 2 ^ n
    → h < 2 ^ p
    → p + n ≤ 8 * suc (length later)
    → All IsByte done
    → Ends
        (length done + suc (length later))
        (dopack_loop (suc f) v n (at_byte done (h * 2 ^ (8 - p)) later p))
        ((all_bits done ++ bits p h) ++ bits n v)
loop_below f ih n v done later h p some_bits fuel below small high room bytes =
    elim (le-or-lt n (8 - p)) [
      | inl fits ↦ (
        at_byte done ((h * 2 ^ n + v) * 2 ^ (8 - (p + n))) later (p + n),
        dopack_loop-suc f v n _ _ v 0 some_bits (round_within done later p n h v below fits small)
            ∙ dopack_loop-zero f v _,
        record {
          done = done;
          high = h * 2 ^ n + v;
          later = later;
          p = p + n;
          cursor-eq = refl;
          p-le = omega arith;
          high-lt = joined_lt h v p n high small;
          size-eq = refl;
          done-IsByte = bytes;
          ws-eq =
              rw (bits_of_joined p n h v small)
                (append_assoc (all_bits done) (bits p h) (bits n v));
        },
      )
      | inr more ↦
          let r = n - (8 - p) in
          let high' : h * 2 ^ (8 - p) + v / 2 ^ r < 2 ^ 8 =
            across_lt n v h p (omega arith) (omega arith) small high in
          let (d, e, w) =
            ih r (v % 2 ^ r) done later (h * 2 ^ (8 - p) + v / 2 ^ r) 8 (omega arith) (omega arith)
              (low_lt v r) high' (omega arith) bytes in
          let one : (h * 2 ^ (8 - p) + v / 2 ^ r) * 2 ^ (8 - 8) ≡ h * 2 ^ (8 - p) + v / 2 ^ r =
            omega arith in
          (
            d,
            dopack_loop-suc f v n _ _ (v % 2 ^ r) r some_bits
                  (round_across done later p n h v below more small)
                ∙ (rw one at e),
            (rw (across_bits (all_bits done) n v h p (omega arith) (omega arith) small) at w),
          )
    ]

-- At the end of a byte the loop goes on at the start of the next one.
loop_full :
    (f n v : ℕ) (done later : List ℕ) (b y : ℕ)
    → dopack_loop (suc f) v (suc n) (at_byte done b (y ∷ later) 8)
      ≡ dopack_loop (suc f) v (suc n) (at_byte (done ++ (b ∷ [])) 0 later 0)
unfolding dopack_loop
loop_full f n v done later b y = rw (round_full done later (suc n) b y v)

loop_at_end :
    (f : ℕ)
    → LoopWrites f
    → (n v : ℕ) (done later : List ℕ) (h : ℕ) → n ≤ f
    → v < 2 ^ suc n
    → h < 2 ^ 8
    → 8 + suc n ≤ 8 * suc (length later)
    → All IsByte done
    → Ends
        (length done + suc (length later))
        (dopack_loop (suc f) v (suc n) (at_byte done h later 8))
        ((all_bits done ++ bits 8 h) ++ bits (suc n) v)
loop_at_end f ih n v done [] h fuel small high room bytes = absurd (omega arith)
loop_at_end f ih n v done (y ∷ later) h fuel small high room bytes =
    let (d, e, w) =
      loop_below f ih (suc n) v (done ++ (h ∷ [])) later 0 0 (omega arith) (omega arith)
        (omega arith) small (omega arith) (omega arith)
        (All-append IsByte done (h ∷ []) bytes (high, tt)) in
    let size : length (done ++ (h ∷ [])) + suc (length later)
        ≡ length done + suc (suc (length later)) =
      omega (arith, length-append done (h ∷ [])) in
    let digits : all_bits (done ++ (h ∷ [])) ++ bits 0 0 ≡ all_bits done ++ bits 8 h =
      rw (all_bits-append done (h ∷ [])) (unfold bits in simp append-nil) in
    (d, loop_full f n v done later h y ∙ e, rw (size, digits) at w)

pub loop_writes : (f : ℕ) → LoopWrites f
loop_writes f zero v done later h p fuel full small high room bytes = (
  at_byte done (h * 2 ^ (8 - p)) later p,
  dopack_loop-zero f v _,
  record {
    done = done;
    high = h;
    later = later;
    p = p;
    cursor-eq = refl;
    p-le = full;
    high-lt = high;
    size-eq = refl;
    done-IsByte = bytes;
    ws-eq = unfold bits in append-nil _;
  },
)
loop_writes zero (suc n) v done later h p fuel full small high room bytes = absurd (omega arith)
loop_writes (suc f) (suc n) v done later h p fuel full small high room bytes = elim (le-or-lt 8 p) [
  | inl at_end ↦
      let e : p ≡ 8 = omega arith in
      let one : h * 2 ^ (8 - 8) ≡ h = omega arith in
      rw (e, one)
        (loop_at_end f (loop_writes f) n v done later h (omega arith) small (rw e at high)
          (omega arith) bytes)
  | inr below ↦
      loop_below f (loop_writes f) (suc n) v done later h p (omega arith) fuel below small high room
        bytes
]
