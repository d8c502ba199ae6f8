-- ===== src/Talk/Wire.antt =====
-- The datagrams of the call: `packet.marshal` and `parsePacket` of cmd/talk/protocol.go. A byte is a ℕ
-- below 256, and a `uint64` or `uint32` a ℕ below 2 ^ 64 or 2 ^ 32.
pub mod BigEndian
pub mod RoundTrip
use i_lbc_go.Prelude.{
  ℕ, zero, suc, ◌+◌, ◌*◌, ◌/◌, ◌%◌, ◌^◌, Bool, true, false, ◌||◌, not, List, [], ◌∷◌, ◌++◌, Option,
  none, some, if◌then◌else◌, ltb, leb, ◌==◌, length, get_or, set, take, drop, replicate,
}

abbrev pub frame_bytes : ℕ
frame_bytes = 38

abbrev pub header_bytes : ℕ
header_bytes = 20

abbrev pub max_datagram : ℕ
max_datagram = 58

abbrev pub kind_hello : ℕ
kind_hello = 1

abbrev pub kind_accept : ℕ
kind_accept = 2

abbrev pub kind_audio : ℕ
kind_audio = 3

abbrev pub kind_bye : ℕ
kind_bye = 4

pub record Packet : Type 0 where
  pub kind : ℕ
  pub session : ℕ
  pub seq : ℕ
  pub audio : List ℕ

-- `packet{}`
abbrev pub no_packet : Packet
no_packet = record { kind = 0; session = 0; seq = 0; audio = replicate 38 0 }

-- `binary.BigEndian.PutUint64` and `PutUint32`: `n` bytes, the most significant one first.
unfoldable pub put_uint : ℕ → ℕ → List ℕ
put_uint zero v = []
put_uint (suc n) v = v / 256 ^ n % 256 ∷ put_uint n v

-- `binary.BigEndian.Uint64` and `Uint32`, over what was read before.
unfoldable pub uint : ℕ → List ℕ → ℕ
uint acc [] = acc
uint acc (b ∷ bs) = uint (acc * 256 + b) bs

-- `copy(dst[i:], src)`, for `i` in range: as many bytes as there are in both.
abbrev pub copy_at : ℕ → List ℕ → List ℕ → List ℕ
copy_at zero dst [] = dst
copy_at zero [] (b ∷ src) = []
copy_at zero (d ∷ dst) (b ∷ src) = b ∷ copy_at zero dst src
copy_at (suc i) [] src = []
copy_at (suc i) (d ∷ dst) src = d ∷ copy_at i dst src

-- The bytes of "ILBT".
abbrev pub magic : List ℕ
magic = b'I' ∷ b'L' ∷ b'B' ∷ b'T' ∷ []

-- `marshal`: the number of bytes used, and the new `dst`; `none` is the panic on a `dst` that is too
-- short for a header.
unfoldable pub marshal : Packet → List ℕ → Option (ℕ × List ℕ)
unfolding put_uint
marshal p dst =
    let d0 = copy_at 0 dst (replicate header_bytes 0) in
    let d1 = copy_at 0 d0 magic in
    let d2 = set (set d1 4 1) 5 p.kind in
    let d3 = copy_at 8 d2 (put_uint 8 p.session) in
    let d4 = copy_at 16 d3 (put_uint 4 p.seq) in
    if ltb (length dst) header_bytes
    then none
    else (if p.kind == kind_audio
        then some (max_datagram, copy_at header_bytes d4 p.audio)
        else some (header_bytes, d4))

-- `string(data[:4]) != "ILBT" || data[4] != 1 || data[6] != 0 || data[7] != 0`
abbrev pub bad_header : List ℕ → Bool
bad_header content =
    not (get_or content 0 0 == b'I')
    || (not (get_or content 1 0 == b'L')
        || (not (get_or content 2 0 == b'B')
            || (not (get_or content 3 0 == b'T')
                || (not (get_or content 4 0 == 1)
                    || (not (get_or content 6 0 == 0) || not (get_or content 7 0 == 0))))))

-- `parsePacket`; `none` is its `false`, with which no caller reads the packet.
unfoldable pub parse_packet : List ℕ → Option Packet
unfolding uint
parse_packet content =
    let kind = get_or content 5 0 in
    let expected = (if kind == kind_audio then max_datagram else header_bytes) in
    let session = uint 0 (take 8 (drop 8 content)) in
    let seq = uint 0 (take 4 (drop 16 content)) in
    if ltb (length content) header_bytes || bad_header content
    then none
    else (if ltb kind kind_hello || ltb kind_bye kind
        then none
        else (if not (length content == expected)
            then none
            else (if session == 0
                then none
                else some (record {
                  kind = kind;
                  session = session;
                  seq = seq;
                  audio = copy_at 0 (replicate frame_bytes 0) (drop header_bytes content);
                }))))
