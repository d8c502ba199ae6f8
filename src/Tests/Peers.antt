-- ===== src/Tests/Peers.antt =====
-- Two peers on a network (cmd/talk/network.go). Addresses are equal here if their bytes are.
use i_lbc_go.Prelude.{
  ℕ, ◌≡◌, refl, arith, true, false, ◌&&◌, ◌==◌, List, [], ◌∷◌, none, some, replicate,
}
use i_lbc_go.Talk.Wire.{Packet}
use i_lbc_go.Talk.Wire.RoundTrip.{IsPacket}
use i_lbc_go.Talk.Network.{
  UdpAddr, Peer, timeout, datagram, Round, Receiver, continues, send_message, same_bytes, waiting,
  connected, handshake_rounds, receive_round, receive_rounds,
}
use i_lbc_go.Talk.Network.Agreement.{IsOpen, handshake-agrees}
use i_lbc_go.Talk.Network.Incoming.{IsQueue, state_of, receive_rounds-IsQueue, receive_round-audio}

abbrev server : UdpAddr
server = record { ip = 10 ∷ 0 ∷ 0 ∷ 1 ∷ []; port = 9000; zone = [] }

abbrev caller : UdpAddr
caller = record { ip = 10 ∷ 0 ∷ 0 ∷ 2 ∷ []; port = 40000; zone = [] }

same_bytes_self : (xs : List ℕ) → same_bytes xs xs ≡ true
same_bytes_self [] = refl
same_bytes_self (x ∷ xs) = rw (same_bytes_self xs) (same_byte x)
  where
    same_byte : (n : ℕ) → (n == n && true) ≡ true
    same_byte n = ground arith

abbrev quiet : Round
quiet = record {
  has_ended = false;
  sends = true;
  replies = true;
  sets_deadline = true;
  read = timeout;
  now = 5;
  arrival = 6;
}

quiet-IsOpen : IsOpen quiet
quiet-IsOpen = record { going = refl; sending = refl; replying = refl; deadline = refl }

handshake-agrees_example :
    (hello accept : List ℕ) × (handshake_rounds same_bytes
        (some server)
        (record { address = some server; session = 77 })
        (quiet ∷ [])
        []
      ≡ waiting ((hello, some server) ∷ []))
    × (handshake_rounds same_bytes none
          (record { address = none; session = 0 })
          (record quiet { read = datagram hello caller } ∷ [])
          []
        ≡ connected (record { address = some caller; session = 77 }) ((accept, some caller) ∷ []))
    × (handshake_rounds same_bytes
          (some server)
          (record { address = some server; session = 77 })
          (record quiet { read = datagram accept server } ∷ [])
          []
        ≡ connected (record { address = some server; session = 77 }) ((hello, some server) ∷ []))
handshake-agrees_example =
    handshake-agrees same_bytes same_bytes_self 77 server caller quiet quiet quiet (omega arith)
      (omega arith) quiet-IsOpen quiet-IsOpen quiet-IsOpen refl

abbrev called : Peer
called = record { address = some caller; session = 77 }

abbrev fresh : Receiver
fresh = record { incoming = []; last_audio = 3; sent = [] }

abbrev audio : Packet
audio = record { kind = 3; session = 77; seq = 12; audio = replicate 38 1 }

receive_rounds-IsQueue_example :
    IsQueue called (state_of (receive_rounds same_bytes called (quiet ∷ quiet ∷ []) fresh))
receive_rounds-IsQueue_example =
    receive_rounds-IsQueue same_bytes called (quiet ∷ quiet ∷ []) fresh
      (record { size_le = omega arith; ours = tt })

audio-IsPacket : IsPacket audio
audio-IsPacket = record {
  kind_ge = omega arith;
  kind_le = omega arith;
  session_pos = omega arith;
  session_lt = omega arith;
  seq_lt = omega arith;
  audio_size = refl;
  silent = λ h. absurd (h refl);
}

receive_round-audio_example :
    (content : List ℕ) × (send_message true
        (record { address = some server; session = 77 })
        audio
        []
      ≡ some ((content, some server) ∷ []))
    × (receive_round same_bytes called (record quiet { read = datagram content caller }) fresh
        ≡ continues (record { incoming = audio ∷ []; last_audio = 6; sent = [] }))
receive_round-audio_example =
    receive_round-audio same_bytes (record { address = some server; session = 77 }) called server
      audio caller quiet fresh refl audio-IsPacket refl refl refl refl refl (omega arith)
