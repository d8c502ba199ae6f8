-- ===== src/Talk/Network/Incoming.antt =====
-- The packets that the call receives (cmd/talk/network.go).
use i_lbc_go.Prelude.{
  ℕ, ◌+◌, ◌-◌, ◌≤◌, ◌<◌, ◌≡◌, refl, ap, ◌∙◌, arith, Bool, true, false, ◌||◌, not, ltb, ltb→lt, ◌==◌,
  List, [], ◌∷◌, length, length-append, All, All-append, Option, none, some, inl, inr, Bool-cases,
  if◌then◌else◌,
}
use i_lbc_go.Talk.Wire.{Packet, parse_packet, kind_accept}
use i_lbc_go.Talk.Wire.RoundTrip.{IsPacket}
use i_lbc_go.Talk.Audio.{offer}
use i_lbc_go.Talk.Network.{
  UdpAddr, Peer, Read, timeout, broken, datagram, Round, Datagram, Receiver, Received, continues,
  returns, message_of, send_message, same_address, hello_answered, deliver, filter_peer, after_read,
  receive_round, receive_rounds, cancelled, timed_out, io_error, peer_left,
}
use i_lbc_go.Talk.Network.Agreement.{send_message_lem}

-- An audio packet of the call.
abbrev pub IsOurs : Peer → Packet → Type 0
IsOurs p m = (m.session ≡ p.session) × (m.kind ≡ 3)

pub record IsQueue (p : Peer) (s : Receiver) : Type 0 where
  pub size_le : length s.incoming ≤ 64
  pub ours : All (IsOurs p) s.incoming

-- What `receive` has when it goes on or returns.
abbrev pub state_of : Received → Receiver
state_of (continues s) = s
state_of (returns e s) = s

either :
    {A : Type 0} (P : A → Type 0) (b : Bool) {x y : A}
    → (b ≡ true → P x)
    → (b ≡ false → P y)
    → P (if b then x else y)
either P true h i = h refl
either P false h i = i refl

offer-IsQueue :
    (p : Peer) (m : Packet) (s : Receiver) (arrival : ℕ)
    → IsOurs p m
    → IsQueue p s
    → IsQueue p (record s { last_audio = arrival; incoming = offer 64 m s.incoming })
offer-IsQueue p m s arrival o q = elim (Bool-cases (ltb (length s.incoming) 64)) [
  | inl e ↦ rw e (record {
    size_le = room (ltb→lt _ _ e) (length-append s.incoming (m ∷ []));
    ours = All-append (IsOurs p) s.incoming (m ∷ []) q.ours (o, tt);
  })
  | inr e ↦ rw e (record { size_le = q.size_le; ours = q.ours })
]
  where
    room : {k n : ℕ} → k < 64 → n ≡ k + 1 → n ≤ 64
    room a b = omega arith

hello-IsQueue :
    (p : Peer) (s : Receiver) (o : Option (List Datagram))
    → IsQueue p s
    → IsQueue p (state_of (hello_answered s o))
hello-IsQueue p s none q = q
hello-IsQueue p s (some after) q = record { size_le = q.size_le; ours = q.ours }

deliver-IsQueue :
    (ip_equal : List ℕ → List ℕ → Bool) (p : Peer) (r : Round) (m : Packet) (s : Receiver)
    → m.session ≡ p.session
    → IsQueue p s
    → IsQueue p (state_of (deliver ip_equal p r m s))
unfolding deliver
deliver-IsQueue ip_equal p r m s e q =
    either (λ (t : Received). IsQueue p (state_of t)) (m.kind == 1)
      (λ h. hello-IsQueue p s (send_message r.replies p (message_of kind_accept) s.sent) q)
      (λ h.
        either (λ (t : Received). IsQueue p (state_of t)) (m.kind == 4) (λ i. q)
          (λ i.
            either (λ (t : Received). IsQueue p (state_of t)) (m.kind == 3)
              (λ k. offer-IsQueue p m s r.arrival (e, is_3 k) q) (λ k. q)))
  where
    is_3 : {n : ℕ} → (n == 3) ≡ true → n ≡ 3
    is_3 h = ground arith

filter_peer-IsQueue :
    (ip_equal : List ℕ → List ℕ → Bool) (p : Peer) (r : Round) (from : UdpAddr) (o : Option Packet)
    (s : Receiver)
    → IsQueue p s
    → IsQueue p (state_of (filter_peer ip_equal p r from o s))
unfolding filter_peer
filter_peer-IsQueue ip_equal p r from none s q = q
filter_peer-IsQueue ip_equal p r from (some m) s q =
    either (λ (t : Received). IsQueue p (state_of t))
      (not (same_address ip_equal (some from) p.address) || not (m.session == p.session)) (λ h. q)
      (λ h. deliver-IsQueue ip_equal p r m s (same_session _ h) q)
  where
    same_session : (b : Bool) {n k : ℕ} → (b || not (n == k)) ≡ false → n ≡ k
    same_session true h = cc
    same_session false h = ground arith

after_read-IsQueue :
    (ip_equal : List ℕ → List ℕ → Bool) (p : Peer) (r : Round) (s : Receiver) (read : Read)
    → IsQueue p s
    → IsQueue p (state_of (after_read ip_equal p r s read))
after_read-IsQueue ip_equal p r s timeout q = q
after_read-IsQueue ip_equal p r s broken q = q
after_read-IsQueue ip_equal p r s (datagram content from) q =
    filter_peer-IsQueue ip_equal p r from (parse_packet content) s q

receive_round-IsQueue :
    (ip_equal : List ℕ → List ℕ → Bool) (p : Peer) (r : Round) (s : Receiver)
    → IsQueue p s
    → IsQueue p (state_of (receive_round ip_equal p r s))
unfolding receive_round
receive_round-IsQueue ip_equal p r s q =
    either (λ (t : Received). IsQueue p (state_of t)) r.has_ended (λ h. q)
      (λ h.
        either (λ (t : Received). IsQueue p (state_of t)) (ltb 10000000000 (r.now - s.last_audio))
          (λ i. q)
          (λ i.
            either (λ (t : Received). IsQueue p (state_of t)) r.sets_deadline
              (λ k. after_read-IsQueue ip_equal p r s r.read q) (λ k. q)))

-- After any sequence of rounds, whatever datagrams arrive from whom, and also when `receive` has returned:
-- at most 64 packets wait for the playout, and all of them are audio packets of the call's session.
pub receive_rounds-IsQueue :
    (ip_equal : List ℕ → List ℕ → Bool) (p : Peer) (rounds : List Round) (s : Receiver)
    → IsQueue p s
    → IsQueue p (state_of (receive_rounds ip_equal p rounds s))
receive_rounds-IsQueue ip_equal p [] s q = q
receive_rounds-IsQueue ip_equal p (r ∷ rounds) s q =
    next (receive_round ip_equal p r s) (λ u k. receive_rounds-IsQueue ip_equal p rounds u k)
      (receive_round-IsQueue ip_equal p r s q)
  where
    next :
        (t : Received)
        → ((u : Receiver) → IsQueue p u → IsQueue p (state_of (receive_rounds ip_equal p rounds u)))
        → IsQueue p (state_of t)
        → IsQueue p (
            state_of (elim t [
              | continues u ↦ receive_rounds ip_equal p rounds u
              | returns e u ↦ returns e u
            ]))
    next (continues u) go k = go u k
    next (returns e u) go k = k

filter_peer-audio :
    (ip_equal : List ℕ → List ℕ → Bool) (q : Peer) (r : Round) (from : UdpAddr) (m : Packet)
    (s : Receiver)
    → same_address ip_equal (some from) q.address ≡ true
    → m.session ≡ q.session
    → m.kind ≡ 3
    → filter_peer ip_equal q r from (some m) s
      ≡ continues (record s { last_audio = r.arrival; incoming = offer 64 m s.incoming })
unfolding filter_peer deliver
filter_peer-audio ip_equal q r from m s a e k =
    ap (λ (t : Bool). if t then continues s else deliver ip_equal q r m s) (passes _ a e)
    ∙ ap
        (λ (n : ℕ).
          if n == 1
          then hello_answered s (send_message r.replies q (message_of kind_accept) s.sent)
          else (if n == 4
              then returns peer_left s
              else (if n == 3
                  then continues
                      (record s { last_audio = r.arrival; incoming = offer 64 m s.incoming })
                  else continues s)))
        k
  where
    passes : (b : Bool) {n l : ℕ} → b ≡ true → n ≡ l → (not b || not (n == l)) ≡ false
    passes true a e = ground arith
    passes false a e = cc

-- An audio packet that one end sends to an address, read within 10 seconds of the last one at the other end of the
-- session from the address of the peer, with nothing failing, is put behind the packets that wait
-- for the playout unless 64 wait, and counts as a sign of life.
pub receive_round-audio :
    (ip_equal : List ℕ → List ℕ → Bool) (p q : Peer) (to : UdpAddr) (m : Packet) (from : UdpAddr)
    (r : Round) (s : Receiver)
    → p.address ≡ some to
    → IsPacket (record m { session = p.session })
    → m.kind ≡ 3
    → p.session ≡ q.session
    → same_address ip_equal (some from) q.address ≡ true
    → r.has_ended ≡ false
    → r.sets_deadline ≡ true
    → r.now - s.last_audio ≤ 10000000000
    → (content : List ℕ) × (send_message true p m [] ≡ some ((content, p.address) ∷ []))
      × (receive_round ip_equal q (record r { read = datagram content from }) s
          ≡ continues (record s {
            last_audio = r.arrival;
            incoming = offer 64 (record m { session = p.session }) s.incoming;
          }))
unfolding receive_round
receive_round-audio ip_equal p q to m from r s known v k e a going deadline alive =
    let (content, sent, parsed) = send_message_lem p to m [] known v in
    let d : Round = record r { read = datagram content from } in
    (
      content,
      sent,
      ap
            (λ (t : Bool).
              if t
              then returns cancelled s
              else (if ltb 10000000000 (r.now - s.last_audio)
                  then returns timed_out s
                  else (if r.sets_deadline
                      then after_read ip_equal q d s d.read
                      else returns io_error s)))
            going
          ∙ ap
              (λ (t : Bool).
                if t
                then returns timed_out s
                else (if r.sets_deadline
                    then after_read ip_equal q d s d.read
                    else returns io_error s))
              (in_time _ alive)
          ∙ ap (λ (t : Bool). if t then after_read ip_equal q d s d.read else returns io_error s)
              deadline
          ∙ ap (λ (o : Option Packet). filter_peer ip_equal q d from o s) parsed
          ∙ filter_peer-audio ip_equal q d from (record m { session = p.session }) s a e k,
    )
  where
    in_time : (n : ℕ) → n ≤ 10000000000 → ltb 10000000000 n ≡ false
    in_time n h = ground arith
