-- ===== src/Arrays/Loop.antt =====
-- Counted loops that may panic, and their invariants.
use i_lbc_go.Prelude.{ℕ, zero, suc, ◌+◌, ◌≤◌, ◌<◌, ◌≡◌, subst, arith, Option, some}
use i_lbc_go.Bitstream.{◌>>=◌}
use i_lbc_go.Arrays.Access.{Returns, returned}

-- `for k := i; k < i+n; k++ { s = body(k, s) }`
unfoldable pub for {ℓ} : {S : Type ℓ} → ℕ → ℕ → (ℕ → S → Option S) → S → Option S
for zero i body s = some s
for (suc n) i body s = body i s >>= for n (i + 1) body

pub Returns-bind {ℓ κ ℓ' κ'} :
    {A : Type ℓ} {B : Type κ} {P : A → Type ℓ'} {Q : B → Type κ'} {o : Option A} {f : A → Option B}
    → Returns P o
    → ((a : A) → P a → Returns Q (f a))
    → Returns Q (o >>= f)
Returns-bind (returned p) k = k _ p

-- An invariant of the rounds.
pub for-Returns {ℓ κ} :
    {S : Type ℓ} (P : S → Type κ) (n i : ℕ) (body : ℕ → S → Option S) (s : S)
    → P s
    → ((k : ℕ) (t : S) → i ≤ k → k < i + n → P t → Returns P (body k t))
    → Returns P (for n i body s)
unfolding for
for-Returns P zero i body s p keep = returned p
for-Returns P (suc n) i body s p keep =
    Returns-bind (keep i s (omega arith) (omega arith) p)
      λ t q. for-Returns P n (i + 1) body t q (λ k u a b. keep k u (omega arith) (omega arith))

-- One that speaks of the round.
pub for-Returns_at {ℓ κ} :
    {S : Type ℓ} (P : ℕ → S → Type κ) (n i stop : ℕ) (body : ℕ → S → Option S) (s : S)
    → i + n ≡ stop
    → P i s
    → ((k : ℕ) (t : S) → i ≤ k → k < stop → P k t → Returns (P (k + 1)) (body k t))
    → Returns (P stop) (for n i body s)
unfolding for
for-Returns_at P zero i stop body s e p keep =
    let e' : i ≡ stop = omega arith in returned (subst (λ (k : ℕ). P k s) e' p)
for-Returns_at P (suc n) i stop body s e p keep =
    Returns-bind (keep i s (omega arith) (omega arith) p) λ t q.
      for-Returns_at P n (i + 1) stop body t (omega arith) q (λ k u a b. keep k u (omega arith) b)
