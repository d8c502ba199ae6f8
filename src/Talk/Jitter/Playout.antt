-- ===== src/Talk/Jitter/Playout.antt =====
-- What the reorder window of cmd/talk/protocol.go plays: every packet that it holds, at the step of its
-- number.
use i_lbc_go.Prelude.{
  ℕ, zero, suc, ◌+◌, ◌%◌, ◌<◌, ◌≡◌, ◌≢◌, refl, sym, ap, ◌∙◌, subst, arith, get_or, set, Bool, true,
  false, ◌&&◌, ◌==◌, ltb, leb, Bool-cases, inl, inr, get_or-set_self, get_or-set_ne,
}
use i_lbc_go.Talk.Wire.{Packet, no_packet}
use i_lbc_go.Talk.Jitter.{
  JitterBuffer, no_buffer, distance, place, insert_started, insert, Taken, take_next, take,
}
use i_lbc_go.Talk.Jitter.Window.{
  IsValid, no_buffer-IsValid, insert-IsValid, take-IsValid, insert-started, take-waiting, take-now,
  place-IsValid,
}

-- One event at the playout: a packet arrives, or 20 ms are to be played.
pub data Step : JitterBuffer → JitterBuffer → Type 0 where
  arrives : (p : Packet) (j : JitterBuffer) → p.seq < 4294967296 → Step j (insert p j)
  plays : (j : JitterBuffer) → Step j (take j).buffer

-- The buffers of a call, after any sequence of events.
pub data Reached : JitterBuffer → Type 0 where
  empty : Reached no_buffer
  then : (j k : JitterBuffer) → Reached j → Step j k → Reached k

-- After every sequence of arrivals and steps of the playout, each packet in the buffer stands in the slot
-- of its number, is to be played within the next 64 steps, and none waits before the first arrival.
pub Reached-IsValid : (j : JitterBuffer) → Reached j → IsValid j
Reached-IsValid _ empty = no_buffer-IsValid
Reached-IsValid _ (then _ _ r (arrives p j small)) = insert-IsValid p j (Reached-IsValid j r) small
Reached-IsValid _ (then _ _ r (plays j)) = take-IsValid j (Reached-IsValid j r)

-- In the slot of the next number of a valid buffer there is only the packet with that number.
held_now :
    (j : JitterBuffer)
    → IsValid j
    → get_or j.valid (j.next % 64) false ≡ true
    → (get_or j.slots (j.next % 64) no_packet).seq ≡ j.next
held_now j v h =
    let (slot, small, near) = v.held (j.next % 64) h in omega (arith, slot, small, near, v.next_lt)

received_iff : (b : Bool) (m n : ℕ) → (b ≡ true → m ≡ n) → (b && m == n) ≡ b
received_iff b m n h = elim (Bool-cases b) [
  | inl t ↦ rw (t, h t) (ground arith)
  | inr f ↦ rw f refl
]

-- On a valid buffer that is started and has waited, `take` is active and goes on to the next number; it
-- receives a packet exactly if the slot of the number is in use, and then the packet has that number.
pub take_lem :
    (j : JitterBuffer)
    → IsValid j
    → j.started ≡ true
    → j.wait ≡ 0
    → ((take j).active ≡ true)
      × ((take j).buffer.next ≡ (j.next + 1) % 4294967296)
      × ((take j).received ≡ get_or j.valid (j.next % 64) false)
      × ((take j).received ≡ true → (take j).packet.seq ≡ j.next)
unfolding take_next
take_lem j v st w =
    let e : (take j).received ≡ get_or j.valid (j.next % 64) false =
      ap (λ (t : Taken). t.received) (take-now j st (no_wait w))
      ∙ received_iff (get_or j.valid (j.next % 64) false)
          (get_or j.slots (j.next % 64) no_packet).seq j.next (held_now j v) in
    (
      ap (λ (t : Taken). t.active) (take-now j st (no_wait w)),
      ap (λ (t : Taken). t.buffer.next) (take-now j st (no_wait w)),
      e,
      λ h. ap (λ (t : Taken). t.packet.seq) (take-now j st (no_wait w)) ∙ held_now j v (sym e ∙ h),
    )
  where
    no_wait : {n : ℕ} → n ≡ 0 → ltb 0 n ≡ false
    no_wait h = ground arith

-- The buffer after so many steps of the playout.
abbrev pub after : ℕ → JitterBuffer → JitterBuffer
after zero j = j
after (suc n) j = after n (take j).buffer

after_add : (m n : ℕ) (j : JitterBuffer) → after (m + n) j ≡ after n (after m j)
after_add zero n j = let e : 0 + n ≡ n = omega arith in ap (λ (k : ℕ). after k j) e
after_add (suc m) n j =
    let e : suc m + n ≡ suc (m + n) = omega arith in
    ap (λ (k : ℕ). after k j) e ∙ after_add m n (take j).buffer

-- `p` waits in a started buffer, `d` steps before it is played.
record Awaits (p : Packet) (d : ℕ) (j : JitterBuffer) : Type 0 where
  started : j.started ≡ true
  waited : j.wait ≡ 0
  valid : get_or j.valid (p.seq % 64) false ≡ true
  slot : get_or j.slots (p.seq % 64) no_packet ≡ p
  near : distance p.seq j.next ≡ d

-- A step of the playout that returns a packet.
abbrev pub Plays : Packet → JitterBuffer → Type 0
Plays p j = ((take j).active ≡ true) × ((take j).received ≡ true) × ((take j).packet ≡ p)

no_wait : {n : ℕ} → n ≡ 0 → ltb 0 n ≡ false
no_wait h = ground arith

at_last : (seq next : ℕ) → seq < 4294967296 → next < 4294967296 → distance seq next ≡ 0 → seq ≡ next
at_last seq next a b h = omega arith

one_on :
    (seq next d : ℕ)
    → seq < 4294967296
    → next < 4294967296
    → d < 63
    → distance seq next ≡ suc d
    → (next % 64 ≢ seq % 64) × (distance seq ((next + 1) % 4294967296) ≡ d)
one_on seq next d a b c h = (λ e. absurd (omega arith), omega arith)

Awaits-take :
    (p : Packet) (d : ℕ) (j : JitterBuffer)
    → IsValid j
    → p.seq < 4294967296
    → d < 63
    → Awaits p (suc d) j
    → Awaits p d (take j).buffer
unfolding take_next
Awaits-take p d j v small h a =
    let (ne, step) = one_on p.seq j.next d small v.next_lt h a.near in
    subst (λ (t : Taken). Awaits p d t.buffer) (sym (take-now j a.started (no_wait a.waited)))
      (record {
        started = a.started;
        waited = a.waited;
        valid = get_or-set_ne j.valid (j.next % 64) (p.seq % 64) false false ne ∙ a.valid;
        slot = a.slot;
        near = step;
      })

Awaits-Plays :
    (p : Packet) (d : ℕ) (j : JitterBuffer)
    → IsValid j
    → p.seq < 4294967296
    → d < 64
    → Awaits p d j
    → Plays p (after d j)
unfolding take_next
Awaits-Plays p zero j v small h a =
    let e = at_last p.seq j.next small v.next_lt a.near in
    let now = take-now j a.started (no_wait a.waited) in
    let full : get_or j.valid (j.next % 64) false ≡ true =
      subst (λ (n : ℕ). get_or j.valid (n % 64) false ≡ true) e a.valid in
    let (active, next, received, same) = take_lem j v a.started a.waited in
    (
      active,
      received ∙ full,
      ap (λ (t : Taken). t.packet) now
          ∙ ap (λ (n : ℕ). get_or j.slots (n % 64) no_packet) (sym e)
          ∙ a.slot,
    )
Awaits-Plays p (suc d) j v small h a =
    Awaits-Plays p d (take j).buffer (take-IsValid j v) small (omega arith)
      (Awaits-take p d j v small (omega arith) a)

-- The wait runs down, and nothing else changes.
after_wait :
    (w : ℕ) (j : JitterBuffer) → j.started ≡ true → j.wait ≡ w → after w j ≡ record j { wait = 0 }
after_wait zero j st e = ap (λ (w : ℕ). record j { wait = w }) e
after_wait (suc w) j st e =
    let one : (take j).buffer ≡ record j { wait = w } =
      take-waiting j st (waits e) ∙ ap (λ (n : ℕ). record j { wait = n }) (omega arith) in
    ap (after w) one ∙ after_wait w (record j { wait = w }) st refl
  where
    waits : {n : ℕ} → n ≡ suc w → ltb 0 n ≡ true
    waits h = ground arith

insert_started-near :
    (p : Packet) (j : JitterBuffer) → distance p.seq j.next < 64 → insert_started p j ≡ place p j
unfolding insert_started
insert_started-near p j h = rw (far_off _ h, not_64 _ h) refl
  where
    far_off : (d : ℕ) → d < 64 → leb 2147483648 d ≡ false
    far_off d h = ground arith

    not_64 : (d : ℕ) → d < 64 → leb 64 d ≡ false
    not_64 d h = ground arith

place-free :
    (p : Packet) (j : JitterBuffer)
    → get_or j.valid (p.seq % 64) false ≡ false
    → place p j
      ≡ record j { slots = set j.slots (p.seq % 64) p; valid = set j.valid (p.seq % 64) true }
unfolding place
place-free p j h = simp h refl

-- A packet that arrives at a started valid buffer less than 64 numbers ahead, where its slot is free, is
-- played: if no other packet arrives, `take` returns it, as received, after as many steps as the wait
-- that is left and its distance say.
pub take-insert :
    (p : Packet) (j : JitterBuffer)
    → IsValid j
    → j.started ≡ true
    → p.seq < 4294967296
    → distance p.seq j.next < 64
    → get_or j.valid (p.seq % 64) false ≡ false
    → Plays p (after (j.wait + distance p.seq j.next) (insert p j))
take-insert p j v st small near free =
    let k : JitterBuffer = record j {
      slots = set j.slots (p.seq % 64) p;
      valid = set j.valid (p.seq % 64) true;
      wait = 0;
    } in
    let placed = insert-started p j st ∙ insert_started-near p j near ∙ place-free p j free in
    let ready : after j.wait (insert p j) ≡ k =
      ap (after j.wait) placed ∙ after_wait j.wait (record k { wait = j.wait }) st refl in
    let w : IsValid (record k { wait = j.wait }) =
      subst (λ (i : JitterBuffer). IsValid i) (place-free p j free)
        (place-IsValid p j v st small near) in
    subst (λ (i : JitterBuffer). Plays p i)
      (sym (
        after_add j.wait (distance p.seq j.next) (insert p j)
        ∙ ap (after (distance p.seq j.next)) ready))
      (Awaits-Plays p (distance p.seq j.next) k
        (record {
          slots_size = w.slots_size;
          valid_size = w.valid_size;
          next_lt = w.next_lt;
          wait_le = omega arith;
          idle = w.idle;
          held = w.held;
        })
        small near
        (record {
          started = st;
          waited = refl;
          valid = get_or-set_self j.valid (p.seq % 64) true false (omega (arith, v.valid_size));
          slot = get_or-set_self j.slots (p.seq % 64) p no_packet (omega (arith, v.slots_size));
          near = refl;
        }))
