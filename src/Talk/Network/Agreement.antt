-- ===== src/Talk/Network/Agreement.antt =====
-- The two ends of a handshake (cmd/talk/network.go).
use i_lbc_go.Prelude.{
  ℕ, ◌^◌, ◌≤◌, ◌<◌, ◌≡◌, refl, sym, ap, ◌∙◌, arith, Bool, true, false, ◌&&◌, ◌==◌, List, [], ◌∷◌,
  ◌++◌, Option, none, some, replicate, take, if◌then◌else◌,
}
use i_lbc_go.Talk.Wire.{Packet, parse_packet, kind_hello, kind_accept}
use i_lbc_go.Talk.Wire.RoundTrip.{IsPacket, parse_packet-marshal}
use i_lbc_go.Talk.Network.{
  UdpAddr, Peer, timeout, datagram, Round, Datagram, message_of, transmit, is_nil, send_message,
  same_bytes, waiting, connected, Handshake, failed, same_address, answer, accepted_caller,
  after_send, after_hello, handshake_round, handshake_rounds, cancelled, io_error,
}

-- A packet goes to the peer, whose address is known, in a datagram from which it is parsed, with the
-- session of the call.
pub send_message_lem :
    (p : Peer) (to : UdpAddr) (m : Packet) (sent : List Datagram)
    → p.address ≡ some to
    → IsPacket (record m { session = p.session })
    → (content : List ℕ) × (send_message true p m sent ≡ some (sent ++ ((content, p.address) ∷ [])))
      × (parse_packet content ≡ some (record m { session = p.session }))
unfolding send_message
send_message_lem p to m sent known v =
    let (content, (n, out, e, t), q) =
      parse_packet-marshal (record m { session = p.session }) (replicate 58 0) v refl in
    (
      content,
      ap (transmit true p sent) e
          ∙ ap
              (λ (a : Option UdpAddr).
                if is_nil a then none else some (sent ++ ((take n out, p.address) ∷ [])))
              known
          ∙ ap (λ (bs : List ℕ). some (sent ++ ((bs, p.address) ∷ []))) (sym t),
      q,
    )

-- A pass in which nothing fails.
pub record IsOpen (r : Round) : Type 0 where
  pub going : r.has_ended ≡ false
  pub sending : r.sends ≡ true
  pub replying : r.replies ≡ true
  pub deadline : r.sets_deadline ≡ true

-- After the last pass of a list.
abbrev last_round : Handshake → Handshake
last_round h = elim h [
  | waiting after ↦ waiting after
  | failed e after ↦ failed e after
  | connected q after ↦ connected q after
]

same_bytes_refl : (xs : List ℕ) → same_bytes xs xs ≡ true
same_bytes_refl [] = refl
same_bytes_refl (x ∷ xs) = rw (same_bytes_refl xs) (same_byte x)
  where
    same_byte : (n : ℕ) → (n == n && true) ≡ true
    same_byte n = ground arith

message-IsPacket :
    (kind session : ℕ)
    → 1 ≤ kind
    → kind ≤ 2
    → 0 < session
    → session < 2 ^ 64
    → IsPacket (record (message_of kind) { session = session })
message-IsPacket kind session a b c d = record {
  kind_ge = a;
  kind_le = omega arith;
  session_pos = c;
  session_lt = d;
  seq_lt = omega arith;
  audio_size = refl;
  silent = λ h. refl;
}

module _ (ip_equal : List ℕ → List ℕ → Bool)
    (ip_equal_refl : (ip : List ℕ) → ip_equal ip ip ≡ true) where
  pub same_address_refl : (a : UdpAddr) → same_address ip_equal (some a) (some a) ≡ true
  same_address_refl a = rw (same_bytes_refl a.zone, ip_equal_refl a.ip) (same_port a.port)
    where
      same_port : (n : ℕ) → (n == n && true) ≡ true
      same_port n = ground arith

  hello_round :
      (p : Peer) (server : UdpAddr) (r : Round) (sent after : List Datagram)
      → IsOpen r
      → send_message true p (message_of kind_hello) sent ≡ some after
      → handshake_round ip_equal (some server) p r sent
        ≡ after_hello ip_equal (some server) p r after r.read
  unfolding handshake_round
  hello_round p server r sent after o e =
      ap
        (λ (t : Bool).
          if t
          then failed cancelled sent
          else after_send ip_equal (some server) p r sent
              (send_message r.sends p (message_of kind_hello) sent))
        o.going
      ∙ ap
          (λ (t : Bool).
            after_send ip_equal (some server) p r sent
              (send_message t p (message_of kind_hello) sent))
          o.sending
      ∙ ap (after_send ip_equal (some server) p r sent) e
      ∙ ap
          (λ (t : Bool).
            if t
            then after_hello ip_equal (some server) p r after r.read
            else failed io_error after)
          o.deadline

  server_round :
      (p : Peer) (r : Round) (sent : List Datagram)
      → IsOpen r
      → handshake_round ip_equal none p r sent ≡ after_hello ip_equal none p r sent r.read
  unfolding handshake_round
  server_round p r sent o =
      ap
        (λ (t : Bool).
          if t then failed cancelled sent else after_send ip_equal none p r sent (some sent))
        o.going
      ∙ ap
          (λ (t : Bool).
            if t then after_hello ip_equal none p r sent r.read else failed io_error sent)
          o.deadline

  server_answer :
      (r : Round) (from : UdpAddr) (session : ℕ) (after : List Datagram)
      → IsOpen r
      → send_message true
          (record { address = some from; session = session })
          (message_of kind_accept)
          []
        ≡ some after
      → answer ip_equal none
          (record { address = none; session = 0 })
          r
          from
          (some (record (message_of kind_hello) { session = session }))
          []
        ≡ connected (record { address = some from; session = session }) after
  unfolding answer
  server_answer r from session after o e =
      ap
        (λ (t : Bool).
          accepted_caller (record { address = some from; session = session }) []
            (send_message t (record { address = some from; session = session })
              (message_of kind_accept) []))
        o.replying
      ∙ ap (accepted_caller (record { address = some from; session = session }) []) e

  caller_answer :
      (p : Peer) (r : Round) (server : UdpAddr) (sent : List Datagram)
      → answer ip_equal
          (some server)
          p
          r
          server
          (some (record (message_of kind_accept) { session = p.session }))
          sent
        ≡ connected p sent
  unfolding answer
  caller_answer p r server sent =
      ap
        (λ (t : Bool).
          if t && (p.session == p.session && true) then connected p sent else waiting sent)
        (same_address_refl server)
      ∙ ap (λ (t : Bool). if t then connected p sent else waiting sent) (same_session p.session)
    where
      same_session : (n : ℕ) → (n == n && true) ≡ true
      same_session n = ground arith

  -- Where `IP.Equal` holds of an address and itself, and nothing fails: a hello that a caller sends and
  -- whose answer is late lets a server that it reaches return the caller's address and session; the
  -- server's accept, once the caller reads it from the server, lets it return with the same session.
  pub handshake-agrees :
      (session : ℕ) (server caller : UdpAddr) (late serving reading : Round)
      → 0 < session
      → session < 2 ^ 64
      → IsOpen late
      → IsOpen serving
      → IsOpen reading
      → late.read ≡ timeout
      → (hello accept : List ℕ) × (handshake_rounds ip_equal
            (some server)
            (record { address = some server; session = session })
            (late ∷ [])
            []
          ≡ waiting ((hello, some server) ∷ []))
        × (handshake_rounds ip_equal none
              (record { address = none; session = 0 })
              (record serving { read = datagram hello caller } ∷ [])
              []
            ≡ connected
                (record { address = some caller; session = session })
                ((accept, some caller) ∷ []))
        × (handshake_rounds ip_equal
              (some server)
              (record { address = some server; session = session })
              (record reading { read = datagram accept server } ∷ [])
              []
            ≡ connected
                (record { address = some server; session = session })
                ((hello, some server) ∷ []))
  handshake-agrees session server caller late serving reading a b o1 o2 o3 t =
      let p : Peer = record { address = some server; session = session } in
      let q : Peer = record { address = some caller; session = session } in
      let (hello, s1, e1) =
        send_message_lem p server (message_of kind_hello) [] refl
          (message-IsPacket 1 session (omega arith) (omega arith) a b) in
      let (accept, s2, e2) =
        send_message_lem q caller (message_of kind_accept) [] refl
          (message-IsPacket 2 session (omega arith) (omega arith) a b) in
      let open2 : IsOpen (record serving { read = datagram hello caller }) = record {
        going = o2.going;
        sending = o2.sending;
        replying = o2.replying;
        deadline = o2.deadline;
      } in
      let open3 : IsOpen (record reading { read = datagram accept server }) = record {
        going = o3.going;
        sending = o3.sending;
        replying = o3.replying;
        deadline = o3.deadline;
      } in
      let called =
        hello_round p server late [] ((hello, some server) ∷ []) o1 s1
        ∙ ap (after_hello ip_equal (some server) p late ((hello, some server) ∷ [])) t in
      let served =
        server_round (record { address = none; session = 0 })
          (record serving { read = datagram hello caller }) [] open2
        ∙ ap
            (λ (m : Option Packet).
              answer ip_equal none (record { address = none; session = 0 })
                (record serving { read = datagram hello caller }) caller m [])
            e1
        ∙ server_answer (record serving { read = datagram hello caller }) caller session
            ((accept, some caller) ∷ []) open2 s2 in
      let accepted =
        hello_round p server (record reading { read = datagram accept server }) []
          ((hello, some server) ∷ []) open3 s1
        ∙ ap
            (λ (m : Option Packet).
              answer ip_equal (some server) p (record reading { read = datagram accept server })
                server m ((hello, some server) ∷ []))
            e2
        ∙ caller_answer p (record reading { read = datagram accept server }) server
            ((hello, some server) ∷ []) in
      (hello, accept, ap last_round called, ap last_round served, ap last_round accepted)
