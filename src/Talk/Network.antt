-- ===== src/Talk/Network.antt =====
-- The peer of a call: `send`, `handshake` and `receive` of cmd/talk/network.go. Each loop goes over a list
-- of rounds: what the context, the clock and the socket answer in a pass of its body. `ip_equal` is
-- `IP.Equal` of Go's package net.
pub mod Agreement
pub mod Incoming
use i_lbc_go.Prelude.{
  ℕ, zero, suc, ◌+◌, ◌-◌, ◌%◌, Bool, true, false, ◌&&◌, ◌||◌, not, List, [], ◌∷◌, ◌++◌, Option,
  none, some, if◌then◌else◌, ltb, ◌==◌, take, replicate,
}
use Prim.Native.Nat.{bit_or}
use i_lbc_go.Talk.Wire.{
  Packet, no_packet, marshal, parse_packet, kind_hello, kind_accept, kind_audio, kind_bye,
  max_datagram,
}
use i_lbc_go.Talk.Audio.{offer}

pub record UdpAddr : Type 0 where
  pub ip : List ℕ
  pub port : ℕ
  pub zone : List ℕ

-- `address` is nil in a server that nobody called yet.
pub record Peer : Type 0 where
  pub address : Option UdpAddr
  pub session : ℕ

-- `ctx.Err()`, an error of the socket, the end of the 10 seconds, and `errPeerLeft`.
pub data CallError : Type 0 where
  cancelled io_error timed_out peer_left : CallError

-- `ReadFromUDP`.
pub data Read : Type 0 where
  timeout : Read
  broken : Read
  datagram : (content : List ℕ) (from : UdpAddr) → Read

-- One pass: whether the context has ended, whether the first and a second `send` succeed and the
-- deadline is set, what is read, and the time at its start and at the arrival, in nanoseconds.
pub record Round : Type 0 where
  pub has_ended : Bool
  pub sends : Bool
  pub replies : Bool
  pub sets_deadline : Bool
  pub read : Read
  pub now : ℕ
  pub arrival : ℕ

-- A datagram on its way.
abbrev pub Datagram : Type 0
Datagram = List ℕ × Option UdpAddr

-- `packet{kind: kind}`
abbrev pub message_of : ℕ → Packet
message_of kind = record no_packet { kind = kind }

abbrev pub is_nil {ℓ} : {A : Type ℓ} → Option A → Bool
is_nil none = true
is_nil (some a) = false

-- The two calls of the socket in `send`, after `marshal`: `succeeds` is its answer. A write to a nil
-- address is an error.
abbrev pub transmit : Bool → Peer → List Datagram → Option (ℕ × List ℕ) → Option (List Datagram)
transmit succeeds p sent none = none
transmit true p sent (some (n, content)) =
    if is_nil p.address then none else some (sent ++ ((take n content, p.address) ∷ []))
transmit false p sent (some (n, content)) = none

-- `send`: what was sent with it; `none` is an error.
unfoldable pub send_message : Bool → Peer → Packet → List Datagram → Option (List Datagram)
send_message succeeds p m sent =
    transmit succeeds p sent (marshal (record m { session = p.session }) (replicate max_datagram 0))

-- `p` before the loop of `handshake`: a caller takes 8 random bytes, the number `id`, for its session;
-- `none` is an error of the random source.
abbrev pub new_peer : Option UdpAddr → Option ℕ → Option Peer
new_peer none id = some (record { address = none; session = 0 })
new_peer (some remote) none = none
new_peer (some remote) (some id) = some (record { address = some remote; session = bit_or id 1 })

abbrev pub same_bytes : List ℕ → List ℕ → Bool
same_bytes [] [] = true
same_bytes [] (y ∷ ys) = false
same_bytes (x ∷ xs) [] = false
same_bytes (x ∷ xs) (y ∷ ys) = x == y && same_bytes xs ys

-- `handshake` waits for another datagram, has failed, or returns the peer.
pub data Handshake : Type 0 where
  waiting : (sent : List Datagram) → Handshake
  failed : (e : CallError) (sent : List Datagram) → Handshake
  connected : (p : Peer) (sent : List Datagram) → Handshake

-- What `receive` keeps: the channel, the time of the last audio, and what was sent.
pub record Receiver : Type 0 where
  pub incoming : List Packet
  pub last_audio : ℕ
  pub sent : List Datagram

pub data Received : Type 0 where
  continues : (s : Receiver) → Received
  returns : (e : CallError) (s : Receiver) → Received

-- The server's reply to the first caller: sent, or an error.
abbrev pub accepted_caller : Peer → List Datagram → Option (List Datagram) → Handshake
accepted_caller p sent none = failed io_error sent
accepted_caller p sent (some after) = connected p after

abbrev pub accept_caller : Round → Peer → List Datagram → Handshake
accept_caller r p sent =
    accepted_caller p sent (send_message r.replies p (message_of kind_accept) sent)

abbrev pub hello_answered : Receiver → Option (List Datagram) → Received
hello_answered s none = returns io_error s
hello_answered s (some after) = continues (record s { sent = after })

-- The capacity of the channel that `runCall` makes for `receive`.
abbrev pub incoming_size : ℕ
incoming_size = 64

module _ (ip_equal : List ℕ → List ℕ → Bool) where
  abbrev pub same_address : Option UdpAddr → Option UdpAddr → Bool
  same_address none b = false
  same_address (some a) none = false
  same_address (some a) (some b) =
      a.port == b.port && (same_bytes a.zone b.zone && ip_equal a.ip b.ip)

  -- What `handshake` does with a datagram.
  unfoldable pub answer :
      Option UdpAddr → Peer → Round → UdpAddr → Option Packet → List Datagram → Handshake
  answer remote p r from none sent = waiting sent
  answer remote p r from (some m) sent =
      if is_nil remote && m.kind == kind_hello
      then accept_caller r (record { address = some from; session = m.session }) sent
      else (if same_address (some from) remote && (m.session == p.session && m.kind == kind_accept)
          then connected p sent
          else waiting sent)

  -- A caller says hello in each round.
  abbrev pub say_hello : Option UdpAddr → Peer → Round → List Datagram → Option (List Datagram)
  say_hello none p r sent = some sent
  say_hello (some remote) p r sent = send_message r.sends p (message_of kind_hello) sent

  abbrev pub after_hello : Option UdpAddr → Peer → Round → List Datagram → Read → Handshake
  after_hello remote p r sent timeout = waiting sent
  after_hello remote p r sent broken = failed io_error sent
  after_hello remote p r sent (datagram content from) =
      answer remote p r from (parse_packet content) sent

  -- From the deadline on, after what `say_hello` sent.
  abbrev pub after_send :
      Option UdpAddr → Peer → Round → List Datagram → Option (List Datagram) → Handshake
  after_send remote p r sent none = failed io_error sent
  after_send remote p r sent (some after) =
      if r.sets_deadline then after_hello remote p r after r.read else failed io_error after

  -- The body of the loop of `handshake`.
  unfoldable pub handshake_round : Option UdpAddr → Peer → Round → List Datagram → Handshake
  unfolding answer send_message
  handshake_round remote p r sent =
      if r.has_ended
      then failed cancelled sent
      else after_send remote p r sent (say_hello remote p r sent)

  -- The loop of `handshake`, as far as the rounds go.
  abbrev pub handshake_rounds : Option UdpAddr → Peer → List Round → List Datagram → Handshake
  handshake_rounds remote p [] sent = waiting sent
  handshake_rounds remote p (r ∷ rounds) sent = elim (handshake_round remote p r sent) [
    | waiting after ↦ handshake_rounds remote p rounds after
    | failed e after ↦ failed e after
    | connected q after ↦ connected q after
  ]

  abbrev pub started : Option UdpAddr → List Round → Option Peer → Handshake
  started remote rounds none = failed io_error []
  started remote rounds (some p) = handshake_rounds remote p rounds []

  abbrev pub handshake : Option UdpAddr → Option ℕ → List Round → Handshake
  handshake remote id rounds = started remote rounds (new_peer remote id)

  -- What `receive` does with a packet of the peer.
  unfoldable pub deliver : Peer → Round → Packet → Receiver → Received
  unfolding send_message
  deliver p r m s =
      if m.kind == kind_hello
      then hello_answered s (send_message r.replies p (message_of kind_accept) s.sent)
      else (if m.kind == kind_bye
          then returns peer_left s
          else (if m.kind == kind_audio
              then continues
                  (record s { last_audio = r.arrival; incoming = offer incoming_size m s.incoming })
              else continues s))

  unfoldable pub filter_peer : Peer → Round → UdpAddr → Option Packet → Receiver → Received
  unfolding deliver
  filter_peer p r from none s = continues s
  filter_peer p r from (some m) s =
      if not (same_address (some from) p.address) || not (m.session == p.session)
      then continues s
      else deliver p r m s

  abbrev pub after_read : Peer → Round → Receiver → Read → Received
  after_read p r s timeout = continues s
  after_read p r s broken = returns io_error s
  after_read p r s (datagram content from) = filter_peer p r from (parse_packet content) s

  -- The body of the loop of `receive`.
  unfoldable pub receive_round : Peer → Round → Receiver → Received
  unfolding filter_peer
  receive_round p r s =
      if r.has_ended
      then returns cancelled s
      else (if ltb 10000000000 (r.now - s.last_audio)
          then returns timed_out s
          else (if r.sets_deadline then after_read p r s r.read else returns io_error s))

  abbrev pub receive_rounds : Peer → List Round → Receiver → Received
  receive_rounds p [] s = continues s
  receive_rounds p (r ∷ rounds) s = elim (receive_round p r s) [
    | continues t ↦ receive_rounds p rounds t
    | returns e t ↦ returns e t
  ]
