-- ===== src/Talk/Jitter.antt =====
-- The reorder window of the playout: `jitterBuffer` of cmd/talk/protocol.go. Sequence numbers are
-- `uint32`: a ℕ below 2 ^ 32, with the wrap-around written out. The arrays have 64 entries.
pub mod Window
pub mod Playout
pub mod Late
use i_lbc_go.Prelude.{
  ℕ, ◌+◌, ◌-◌, ◌%◌, ◌^◌, Bool, true, false, ◌&&◌, List, if◌then◌else◌, ltb, leb, ◌==◌, get_or, set,
  replicate,
}
use i_lbc_go.Talk.Wire.{Packet, no_packet}

pub record JitterBuffer : Type 0 where
  pub slots : List Packet
  pub valid : List Bool
  pub next : ℕ
  pub started : Bool
  pub wait : ℕ

-- `jitterBuffer{}`
abbrev pub no_buffer : JitterBuffer
no_buffer = record {
  slots = replicate 64 no_packet;
  valid = replicate 64 false;
  next = 0;
  started = false;
  wait = 0;
}

-- `p.seq - j.next` as a `uint32`.
abbrev pub distance : ℕ → ℕ → ℕ
distance seq next = (seq + 4294967296 - next) % 4294967296

-- `if !j.valid[i] { j.slots[i], j.valid[i] = p, true }`, and the first of the tests.
unfoldable pub place : Packet → JitterBuffer → JitterBuffer
place p j =
    if get_or j.valid (p.seq % 64) false
    then j
    else record j { slots = set j.slots (p.seq % 64) p; valid = set j.valid (p.seq % 64) true }

-- `insert` on a started buffer. The `int32` of a distance from 2 ^ 31 on is negative.
unfoldable pub insert_started : Packet → JitterBuffer → JitterBuffer
unfolding place
insert_started p j =
    let delta = distance p.seq j.next in
    if leb 2147483648 delta
    then j
    else (if leb 64 delta
        then place p (record j { valid = replicate 64 false; next = p.seq; wait = 3 })
        else place p j)

unfoldable pub insert : Packet → JitterBuffer → JitterBuffer
unfolding insert_started
insert p j =
    insert_started p (if j.started then j else record j { next = p.seq; started = true; wait = 3 })

-- `take`: the packet, `received`, `active`, and the new buffer.
pub record Taken : Type 0 where
  pub packet : Packet
  pub received : Bool
  pub active : Bool
  pub buffer : JitterBuffer

-- `take` on a started buffer with no wait.
unfoldable pub take_next : JitterBuffer → Taken
take_next j =
    let i = j.next % 64 in
    let p = get_or j.slots i no_packet in
    record {
      packet = p;
      received = get_or j.valid i false && p.seq == j.next;
      active = true;
      buffer = record j { valid = set j.valid i false; next = (j.next + 1) % 4294967296 };
    }

unfoldable pub take : JitterBuffer → Taken
unfolding take_next
take j =
    if j.started
    then (if ltb 0 j.wait
        then record {
          packet = no_packet;
          received = false;
          active = false;
          buffer = record j { wait = j.wait - 1 };
        }
        else take_next j)
    else record { packet = no_packet; received = false; active = false; buffer = j }
