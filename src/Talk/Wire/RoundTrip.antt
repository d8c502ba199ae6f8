-- ===== src/Talk/Wire/RoundTrip.antt =====
-- A datagram is written, and read back as the packet that it was written from (cmd/talk/protocol.go).
use i_lbc_go.Prelude.{
  ℕ, zero, suc, ◌+◌, ◌^◌, ◌≤◌, ◌<◌, ◌≡◌, ◌≢◌, refl, sym, ap, ◌∙◌, arith, List, [], ◌∷◌, ◌++◌,
  length, take, drop, replicate, some, none, ◌==◌, if◌then◌else◌, ltb, le→ltb, ◌||◌, not,
  append_assoc, subst, append-nil, take-append, length-drop, length-append, Bool-cases, inl, inr,
  false,
}
use i_lbc_go.Talk.Wire.{Packet, put_uint, uint, copy_at, marshal, parse_packet, magic}
use i_lbc_go.Talk.Wire.BigEndian.{uint-put_uint}

abbrev pub header : Packet → List ℕ
header p = magic ++ (1 ∷ p.kind ∷ 0 ∷ 0 ∷ [] ++ (put_uint 8 p.session ++ put_uint 4 p.seq))

-- `marshal` writes the header over the first 20 bytes, and for an audio packet the audio behind it.
pub marshal_lem :
    (p : Packet) (dst : List ℕ)
    → 20 ≤ length dst
    → marshal p dst ≡ (
        if p.kind == 3
        then some (58, header p ++ copy_at 0 (drop 20 dst) p.audio)
        else some (20, header p ++ drop 20 dst))
unfolding marshal
marshal_lem p
      (x0 ∷ x1 ∷ x2 ∷ x3 ∷ x4 ∷ x5 ∷ x6 ∷ x7 ∷ x8 ∷ x9 ∷ y0 ∷ y1 ∷ y2 ∷ y3 ∷ y4 ∷ y5 ∷ y6 ∷ y7 ∷ y8
        ∷ y9 ∷ rest)
      h =
    rw (le→ltb _ _ h)
marshal_lem p _ h = absurd (omega arith)

-- `parsePacket` on a well-formed header and whatever follows it.
abbrev datagram : ℕ → List ℕ → List ℕ → List ℕ → List ℕ
datagram kind s8 q4 tail = magic ++ (1 ∷ kind ∷ 0 ∷ 0 ∷ [] ++ (s8 ++ (q4 ++ tail)))

parse_lem :
    (kind : ℕ) (s8 q4 tail : List ℕ)
    → length s8 ≡ 8
    → length q4 ≡ 4
    → parse_packet (datagram kind s8 q4 tail) ≡ (
        if ltb kind 1 || ltb 4 kind
        then none
        else (if not (20 + length tail == (if kind == 3 then 58 else 20))
            then none
            else (if uint 0 s8 == 0
                then none
                else some (record {
                  kind = kind;
                  session = uint 0 s8;
                  seq = uint 0 q4;
                  audio = copy_at 0 (replicate 38 0) tail;
                }))))
unfolding parse_packet
parse_lem kind (x0 ∷ x1 ∷ x2 ∷ x3 ∷ x4 ∷ x5 ∷ x6 ∷ x7 ∷ []) (y0 ∷ y1 ∷ y2 ∷ y3 ∷ []) tail h k =
    let e : 20 + length tail
        ≡ length (
            datagram kind (x0 ∷ x1 ∷ x2 ∷ x3 ∷ x4 ∷ x5 ∷ x6 ∷ x7 ∷ []) (y0 ∷ y1 ∷ y2 ∷ y3 ∷ [])
              tail) =
      omega arith in
    rw (
      e,
      le→ltb
          (length (
            datagram kind (x0 ∷ x1 ∷ x2 ∷ x3 ∷ x4 ∷ x5 ∷ x6 ∷ x7 ∷ []) (y0 ∷ y1 ∷ y2 ∷ y3 ∷ [])
              tail))
          20 (omega arith),
    )
parse_lem kind _ _ tail h k = absurd (omega arith)

-- A packet that the call sends: its session is not 0, and only audio carries a frame.
pub record IsPacket (p : Packet) : Type 0 where
  pub kind_ge : 1 ≤ p.kind
  pub kind_le : p.kind ≤ 4
  pub session_pos : 0 < p.session
  pub session_lt : p.session < 2 ^ 64
  pub seq_lt : p.seq < 2 ^ 32
  pub audio_size : length p.audio ≡ 38
  pub silent : p.kind ≢ 3 → p.audio ≡ replicate 38 0

length-put_uint : (n v : ℕ) → length (put_uint n v) ≡ n
unfolding put_uint
length-put_uint zero v = refl
length-put_uint (suc n) v = ap suc (length-put_uint n v)

copy_exact : (dst src : List ℕ) → length dst ≡ length src → copy_at 0 dst src ≡ src
copy_exact [] [] h = refl
copy_exact [] (b ∷ src) h = absurd (omega arith)
copy_exact (d ∷ dst) [] h = absurd (omega arith)
copy_exact (d ∷ dst) (b ∷ src) h = ap (◌∷◌ b) (copy_exact dst src (omega arith))

take_exact : (n : ℕ) (xs ys : List ℕ) → length xs ≡ n → take n (xs ++ ys) ≡ xs
take_exact n xs ys h = subst (λ (k : ℕ). take k (xs ++ ys) ≡ xs) h (take-append xs ys)

is_audio : (k : ℕ) → (k == 3) ≡ false → k ≢ 3
is_audio k h = ground arith

parse-header :
    (p : Packet) (tail : List ℕ)
    → IsPacket p
    → 20 + length tail ≡ (if p.kind == 3 then 58 else 20)
    → copy_at 0 (replicate 38 0) tail ≡ p.audio
    → parse_packet (header p ++ tail) ≡ some p
parse-header p tail v h a =
    let split : header p ++ tail ≡ datagram p.kind (put_uint 8 p.session) (put_uint 4 p.seq) tail =
      ap (λ (t : List ℕ). magic ++ (1 ∷ p.kind ∷ 0 ∷ 0 ∷ [] ++ t))
        (append_assoc (put_uint 8 p.session) (put_uint 4 p.seq) tail) in
    let session : uint 0 (put_uint 8 p.session) ≡ p.session =
      uint-put_uint 8 p.session 0 v.session_lt ∙ omega arith in
    let seq : uint 0 (put_uint 4 p.seq) ≡ p.seq = uint-put_uint 4 p.seq 0 v.seq_lt ∙ omega arith in
    rw
      (
        split,
        parse_lem p.kind (put_uint 8 p.session) (put_uint 4 p.seq) tail
            (length-put_uint 8 p.session) (length-put_uint 4 p.seq),
        session,
        seq,
        a,
        h,
      )
      (ground arith)

header_size : (p : Packet) → length (header p) ≡ 20
header_size p = omega (
  arith,
  length-append (put_uint 8 p.session) (put_uint 4 p.seq),
  length-put_uint 8 p.session,
  length-put_uint 4 p.seq,
)

-- The bytes that `send` hands to the socket: `data[:n]` of what `marshal` wrote into a full datagram.
abbrev pub Sent : Packet → List ℕ → List ℕ → Type 0
Sent p dst content =
    (n : ℕ) × (out : List ℕ) × (marshal p dst ≡ some (n, out)) × (content ≡ take n out)

-- For each packet that the call can send, whatever the buffer of a full datagram held before: `marshal`
-- ends with no panic, and `parsePacket` reads the packet back from the bytes that it says it used.
pub parse_packet-marshal :
    (p : Packet) (dst : List ℕ)
    → IsPacket p
    → length dst ≡ 58
    → (content : List ℕ) × Sent p dst content × (parse_packet content ≡ some p)
parse_packet-marshal p dst v h = elim (Bool-cases (p.kind == 3)) [
  | inl audio ↦
      let full : copy_at 0 (drop 20 dst) p.audio ≡ p.audio =
        copy_exact (drop 20 dst) p.audio (omega (arith, length-drop 20 dst, v.audio_size)) in
      let size : take 58 (header p ++ p.audio) ≡ header p ++ p.audio =
        ap (take 58) (sym (append-nil (header p ++ p.audio)))
        ∙ take_exact 58 (header p ++ p.audio) []
            (omega (arith, length-append (header p) p.audio, header_size p, v.audio_size)) in
      (
        header p ++ p.audio,
        (58, header p ++ p.audio, marshal_lem p dst (omega arith) ∙ rw (audio, full), sym size),
        parse-header p p.audio v (rw audio (omega (arith, v.audio_size)))
            (copy_exact (replicate 38 0) p.audio (omega (arith, v.audio_size))),
      )
  | inr other ↦
      let size : take 20 (header p ++ drop 20 dst) ≡ header p =
        take_exact 20 (header p) (drop 20 dst) (header_size p) in
      (
        header p,
        (20, header p ++ drop 20 dst, marshal_lem p dst (omega arith) ∙ rw other, sym size),
        (rw (append-nil (header p)) at
            (parse-header p [] v (rw other refl) (sym (v.silent (is_audio p.kind other))))),
      )
]
