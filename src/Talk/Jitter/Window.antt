-- ===== src/Talk/Jitter/Window.antt =====
-- What the reorder window of cmd/talk/protocol.go holds: only packets that are to be played within the
-- next 64 steps, each in the slot of its number.
use i_lbc_go.Prelude.{
  ℕ, ◌+◌, ◌-◌, ◌%◌, ◌≤◌, ◌<◌, ◌≡◌, ◌≢◌, refl, sym, ap, ◌∙◌, subst, arith, List, length, get_or, set,
  replicate, Bool, true, false, if◌then◌else◌, ltb, leb, Bool-cases, inl, inr, length-set,
  get_or-set_self, get_or-set_ne, get_or-replicate,
}
use i_lbc_go.Talk.Wire.{Packet, no_packet}
use native.Mathlib.Decide.{ℕ_discrete}
use i_lbc_go.Talk.Jitter.{
  JitterBuffer, no_buffer, distance, place, insert_started, insert, Taken, take_next, take,
}

-- A packet that waits in slot `i` while `next` is the number to be played.
abbrev pub IsHeld : ℕ → ℕ → Packet → Type 0
IsHeld next i q = (q.seq % 64 ≡ i) × (q.seq < 4294967296) × (distance q.seq next < 64)

pub record IsValid (j : JitterBuffer) : Type 0 where
  pub slots_size : length j.slots ≡ 64
  pub valid_size : length j.valid ≡ 64
  pub next_lt : j.next < 4294967296
  pub wait_le : j.wait ≤ 3
  pub idle : j.started ≡ false → (i : ℕ) → get_or j.valid i false ≡ false
  pub held : (i : ℕ) → get_or j.valid i false ≡ true → IsHeld j.next i (get_or j.slots i no_packet)

pub no_buffer-IsValid : IsValid no_buffer
no_buffer-IsValid = record {
  slots_size = refl;
  valid_size = refl;
  next_lt = omega arith;
  wait_le = omega arith;
  idle = λ e i. get_or-replicate 64 i false;
  held = λ i h. absurd (no_true (sym (get_or-replicate 64 i false) ∙ h));
}
  where
    no_true : false ≡ true → ⊥
    no_true h = cc

place-IsHeld :
    (p : Packet) (j : JitterBuffer)
    → IsValid j
    → p.seq < 4294967296
    → distance p.seq j.next < 64
    → (i : ℕ) → get_or (set j.valid (p.seq % 64) true) i false ≡ true
    → IsHeld j.next i (get_or (set j.slots (p.seq % 64) p) i no_packet)
place-IsHeld p j v small near i h = elim (ℕ_discrete (p.seq % 64) i) [
  | yes e ↦
      rw (← e, get_or-set_self j.slots (p.seq % 64) p no_packet (omega (arith, v.slots_size)))
        (refl, small, near)
  | no ne ↦
      rw (get_or-set_ne j.slots (p.seq % 64) i p no_packet ne)
        (v.held i (sym (get_or-set_ne j.valid (p.seq % 64) i true false ne) ∙ h))
]

pub place-IsValid :
    (p : Packet) (j : JitterBuffer)
    → IsValid j
    → j.started ≡ true
    → p.seq < 4294967296
    → distance p.seq j.next < 64
    → IsValid (place p j)
unfolding place
place-IsValid p j v st small near = elim (Bool-cases (get_or j.valid (p.seq % 64) false)) [
  | inl full ↦ rw full v
  | inr free ↦ rw free (record {
    slots_size = length-set j.slots (p.seq % 64) p ∙ v.slots_size;
    valid_size = length-set j.valid (p.seq % 64) true ∙ v.valid_size;
    next_lt = v.next_lt;
    wait_le = v.wait_le;
    idle = λ e i. absurd (started_now st e);
    held = place-IsHeld p j v small near;
  })
]
  where
    started_now : {b : Bool} → b ≡ true → b ≡ false → ⊥
    started_now a b = cc

-- A buffer whose slots are all free, started at the number of a packet.
restart-IsValid :
    (p : Packet) (j : JitterBuffer) (v : List Bool)
    → IsValid j
    → p.seq < 4294967296
    → length v ≡ 64
    → ((i : ℕ) → get_or v i false ≡ false)
    → IsValid (record j { valid = v; next = p.seq; started = true; wait = 3 })
restart-IsValid p j v w small n free = record {
  slots_size = w.slots_size;
  valid_size = n;
  next_lt = small;
  wait_le = omega arith;
  idle = λ e i. free i;
  held = λ i h. absurd (not_both h (free i));
}
  where
    not_both : {b : Bool} → b ≡ true → b ≡ false → ⊥
    not_both a b = cc

distance_self : (n : ℕ) → n < 4294967296 → distance n n < 64
distance_self n h = omega arith

insert_started-IsValid :
    (p : Packet) (j : JitterBuffer)
    → IsValid j
    → j.started ≡ true
    → p.seq < 4294967296
    → IsValid (insert_started p j)
unfolding insert_started
insert_started-IsValid p j v st small = elim (Bool-cases (leb 2147483648 (distance p.seq j.next))) [
  | inl late ↦ rw late v
  | inr near ↦ elim (Bool-cases (leb 64 (distance p.seq j.next))) [
    | inl jump ↦
        let w =
          restart-IsValid p j (replicate 64 false) v small refl
            (λ i. get_or-replicate 64 i false) in
        rw (near, jump)
          (place-IsValid p (record j { valid = replicate 64 false; next = p.seq; wait = 3 })
            (subst
              (λ (b : Bool).
                IsValid
                  (record j { valid = replicate 64 false; next = p.seq; started = b; wait = 3 }))
              (sym st) w)
            st small (distance_self p.seq small))
    | inr inside ↦ rw (near, inside) (place-IsValid p j v st small (not_leb _ inside))
  ]
]
  where
    not_leb : (d : ℕ) → leb 64 d ≡ false → d < 64
    not_leb d h = ground arith

-- `insert` on a started buffer, and on one that is not.
pub insert-started :
    (p : Packet) (j : JitterBuffer) → j.started ≡ true → insert p j ≡ insert_started p j
unfolding insert
insert-started p j st =
    ap
      (λ (b : Bool).
        insert_started p (if b then j else record j { next = p.seq; started = true; wait = 3 }))
      st

pub insert-idle :
    (p : Packet) (j : JitterBuffer)
    → j.started ≡ false
    → insert p j ≡ insert_started p (record j { next = p.seq; started = true; wait = 3 })
unfolding insert
insert-idle p j st =
    ap
      (λ (b : Bool).
        insert_started p (if b then j else record j { next = p.seq; started = true; wait = 3 }))
      st

-- `insert` of any packet keeps the invariant.
pub insert-IsValid :
    (p : Packet) (j : JitterBuffer) → IsValid j → p.seq < 4294967296 → IsValid (insert p j)
insert-IsValid p j v small = elim (Bool-cases j.started) [
  | inl st ↦
      subst (λ (k : JitterBuffer). IsValid k) (sym (insert-started p j st))
        (insert_started-IsValid p j v st small)
  | inr idle ↦
      subst (λ (k : JitterBuffer). IsValid k) (sym (insert-idle p j idle))
        (insert_started-IsValid p (record j { next = p.seq; started = true; wait = 3 })
          (restart-IsValid p j j.valid v small v.valid_size (v.idle idle)) refl small)
]

-- One number on, a packet of another slot is one step nearer.
distance_next :
    (seq next : ℕ)
    → seq < 4294967296
    → next < 4294967296
    → distance seq next < 64
    → next % 64 ≢ seq % 64
    → distance seq ((next + 1) % 4294967296) + 1 ≡ distance seq next
distance_next seq next a b c ne = omega arith

next-IsHeld :
    (j : JitterBuffer)
    → IsValid j
    → (i : ℕ) → get_or (set j.valid (j.next % 64) false) i false ≡ true
    → IsHeld ((j.next + 1) % 4294967296) i (get_or j.slots i no_packet)
next-IsHeld j v i h = elim (ℕ_discrete (j.next % 64) i) [
  | yes e ↦ absurd (
      not_free (get_or-set_self j.valid (j.next % 64) false false (omega (arith, v.valid_size)))
        (subst (λ (k : ℕ). get_or (set j.valid (j.next % 64) false) k false ≡ true) (sym e) h))
  | no ne ↦
      let (slot, small, near) =
        v.held i (sym (get_or-set_ne j.valid (j.next % 64) i false false ne) ∙ h) in
      (
        slot,
        small,
        omega (
          arith,
          distance_next (get_or j.slots i no_packet).seq j.next small v.next_lt near
              (λ e. ne (e ∙ slot)),
        ),
      )
]
  where
    not_free : {b : Bool} → b ≡ false → b ≡ true → ⊥
    not_free a b = cc

take_next-IsValid : (j : JitterBuffer) → IsValid j → j.started ≡ true → IsValid (take_next j).buffer
unfolding take_next
take_next-IsValid j v st = record {
  slots_size = v.slots_size;
  valid_size = length-set j.valid (j.next % 64) false ∙ v.valid_size;
  next_lt = omega arith;
  wait_le = v.wait_le;
  idle = λ e i. absurd (started_now st e);
  held = next-IsHeld j v;
}
  where
    started_now : {b : Bool} → b ≡ true → b ≡ false → ⊥
    started_now a b = cc

-- What `take` leaves: nothing changes before the first packet, a wait runs down, and then one number
-- after the other is played.
pub take-idle : (j : JitterBuffer) → j.started ≡ false → (take j).buffer ≡ j
unfolding take
take-idle j st = simp st refl

pub take-waiting :
    (j : JitterBuffer)
    → j.started ≡ true
    → ltb 0 j.wait ≡ true
    → (take j).buffer ≡ record j { wait = j.wait - 1 }
unfolding take
take-waiting j st w = simp (st, w) refl

pub take-now : (j : JitterBuffer) → j.started ≡ true → ltb 0 j.wait ≡ false → take j ≡ take_next j
unfolding take
take-now j st w = simp (st, w) refl

-- `take` keeps the invariant.
pub take-IsValid : (j : JitterBuffer) → IsValid j → IsValid (take j).buffer
take-IsValid j v = elim (Bool-cases j.started) [
  | inr idle ↦ subst (λ (k : JitterBuffer). IsValid k) (sym (take-idle j idle)) v
  | inl st ↦ elim (Bool-cases (ltb 0 j.wait)) [
    | inr now ↦
        subst (λ (t : Taken). IsValid t.buffer) (sym (take-now j st now)) (take_next-IsValid j v st)
    | inl waits ↦
        subst (λ (k : JitterBuffer). IsValid k) (sym (take-waiting j st waits))
          (record {
            slots_size = v.slots_size;
            valid_size = v.valid_size;
            next_lt = v.next_lt;
            wait_le = omega (arith, v.wait_le);
            idle = λ e i. v.idle e i;
            held = v.held;
          })
  ]
]
