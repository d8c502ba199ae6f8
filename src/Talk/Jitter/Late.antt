-- ===== src/Talk/Jitter/Late.antt =====
-- What the reorder window of cmd/talk/protocol.go does with a packet whose step has passed.
use i_lbc_go.Prelude.{ℕ, ◌+◌, ◌%◌, ◌≡◌, true}
use i_lbc_go.Talk.Jitter.{JitterBuffer}
use i_lbc_go.Talk.Jitter.Window.{IsValid}

-- A started buffer that has waited, whose next number is `n` steps after `seq`.
record Passed (seq n : ℕ) (j : JitterBuffer) : Type 0 where
  valid : IsValid j
  started : j.started ≡ true
  waited : j.wait ≡ 0
  behind : j.next ≡ (seq + n) % 4294967296
