-- ===== src/Arrays/Access.antt =====
-- Reads and writes with their bounds.
use i_lbc_go.Prelude.{
  ℕ, ◌+◌, ◌-◌, ◌≤◌, ◌<◌, ◌≡◌, refl, sym, ◌∙◌, subst, arith, Bool, true, false, List, ◌++◌, Option,
  none, some, if◌then◌else◌, ltb, lt→ltb, le→ltb, length, get_elem?, get_elem?-lt, set, length-set,
  take, drop, length-take, length-drop, length-append, All, All-set, All-get_elem?,
}
use mathlib.Core.Option.{some-injective}

module _ {ℓ} {A : Type ℓ} where
  -- `*p.at(i)`
  unfoldable pub load : List A → ℕ → Option A
  load xs i = get_elem? xs i

  -- `*p.at(i - k)`
  unfoldable pub load_back : List A → ℕ → ℕ → Option A
  load_back xs i k = if ltb i k then none else get_elem? xs (i - k)

  -- `*p.at(i) = v`
  unfoldable pub store : List A → ℕ → A → Option (List A)
  store xs i v = if ltb i (length xs) then some (set xs i v) else none

  -- `*p.at(i - k) = v`
  unfoldable pub store_back : List A → ℕ → ℕ → A → Option (List A)
  unfolding store
  store_back xs i k v = if ltb i k then none else store xs (i - k) v

  -- `p.add(i).slice(n)`
  unfoldable pub slice : List A → ℕ → ℕ → Option (List A)
  slice xs i n = if ltb (length xs) (i + n) then none else some (take n (drop i xs))

  -- `p.add(i - k).slice(n)`
  unfoldable pub slice_back : List A → ℕ → ℕ → ℕ → Option (List A)
  unfolding slice
  slice_back xs i k n = if ltb i k then none else slice xs (i - k) n

  -- `copy(p.add(i).slice(n), ys)`, for `ys` of the same size `n`.
  unfoldable pub blit : List A → ℕ → List A → Option (List A)
  blit xs i ys =
      if ltb (length xs) (i + length ys)
      then none
      else some (take i xs ++ (ys ++ drop (i + length ys) xs))

-- `a - b` as the length of a slice, which panics if it is negative.
unfoldable pub minus_length : ℕ → ℕ → Option ℕ
minus_length a b = if ltb a b then none else some (a - b)

-- The call ends, with a value of which `P` holds.
pub data Returns {ℓ κ} {A : Type ℓ} (P : A → Type κ) : Option A → Type (ℓ ⊔ κ) where
  returned : {a : A} → P a → Returns P (some a)

-- Both branches of a test end so.
pub Returns-if {ℓ κ} :
    {A : Type ℓ} {P : A → Type κ} {yes no : Option A} (test : Bool)
    → (test ≡ true → Returns P yes)
    → (test ≡ false → Returns P no)
    → Returns P (if test then yes else no)
Returns-if false then_case else_case = else_case refl
Returns-if true then_case else_case = then_case refl

pub Returns-weaken {ℓ κ κ'} :
    {A : Type ℓ} {P : A → Type κ} {Q : A → Type κ'} {call : Option A}
    → Returns P call
    → ((a : A) → P a → Q a)
    → Returns Q call
Returns-weaken (returned p) weaker = returned (weaker _ p)

pub Returns-some {ℓ κ} :
    {A : Type ℓ} {P : A → Type κ} {call : Option A}
    → Returns P call
    → (a : A) × (call ≡ some a) × P a
Returns-some (returned p) = (_, refl, p)

pub Returns-itself {ℓ κ} :
    {A : Type ℓ} {P : A → Type κ} {call : Option A}
    → Returns P call
    → Returns (λ a. call ≡ some a) call
Returns-itself (returned p) = returned refl

-- Two results on the same call.
pub Returns-and {ℓ κ κ'} :
    {A : Type ℓ} {P : A → Type κ} {Q : A → Type κ'} {call : Option A}
    → Returns P call
    → Returns Q call
    → Returns (λ a. P a × Q a) call
Returns-and {P = P} {Q = Q} {call = call} r s =
    let (a, e, p) = Returns-some r in
    let (b, f, q) = Returns-some s in
    subst (Returns (λ a. P a × Q a)) (sym e)
      (returned (p, subst Q (some-injective _ _ (sym f ∙ e)) q))

-- Nothing is said of the value.
abbrev pub Any {ℓ} : {A : Type ℓ} → A → Type 0
Any a = Unit

-- An array of a size.
abbrev pub Sized {ℓ} : {A : Type ℓ} → ℕ → List A → Type 0
Sized n xs = length xs ≡ n

module _ {ℓ} {A : Type ℓ} where
  pub load-Returns : (xs : List A) (i : ℕ) → i < length xs → Returns Any (load xs i)
  unfolding load
  load-Returns xs i h = let (x, e) = get_elem?-lt xs i h in rw e (returned tt)

  pub load-Found :
      (xs : List A) (i : ℕ) → i < length xs → Returns (λ x. load xs i ≡ some x) (load xs i)
  unfolding load
  load-Found xs i h = let (x, e) = get_elem?-lt xs i h in rw e (returned refl)

  pub load_back-Returns :
      (xs : List A) (i k : ℕ) → k ≤ i → i < length xs + k → Returns Any (load_back xs i k)
  unfolding load_back
  load_back-Returns xs i k h j =
      let (x, e) = get_elem?-lt xs (i - k) (omega arith) in rw (le→ltb i k h, e) (returned tt)

  pub store-Returns :
      (xs : List A) (i : ℕ) (v : A) → i < length xs → Returns (Sized (length xs)) (store xs i v)
  unfolding store
  store-Returns xs i v h = rw (lt→ltb _ _ h) (returned (length-set xs i v))

  pub store_back-Returns :
      (xs : List A) (i k : ℕ) (v : A)
      → k ≤ i
      → i < length xs + k
      → Returns (Sized (length xs)) (store_back xs i k v)
  unfolding store_back
  store_back-Returns xs i k v h j = rw (le→ltb i k h) (store-Returns xs (i - k) v (omega arith))

  pub slice-Returns : (xs : List A) (i n : ℕ) → i + n ≤ length xs → Returns (Sized n) (slice xs i n)
  unfolding slice
  slice-Returns xs i n h =
      rw (le→ltb _ _ h) (returned (omega (arith, length-take n (drop i xs), length-drop i xs)))

  pub slice_back-Returns :
      (xs : List A) (i k n : ℕ)
      → k ≤ i
      → i + n ≤ length xs + k
      → Returns (Sized n) (slice_back xs i k n)
  unfolding slice_back
  slice_back-Returns xs i k n h j = rw (le→ltb i k h) (slice-Returns xs (i - k) n (omega arith))

  pub blit-Returns :
      (xs : List A) (i : ℕ) (ys : List A)
      → i + length ys ≤ length xs
      → Returns (Sized (length xs)) (blit xs i ys)
  unfolding blit
  blit-Returns xs i ys h = rw (le→ltb _ _ h) (
      returned (
        omega (
          arith,
          length-append (take i xs) (ys ++ drop (i + length ys) xs),
          length-append ys (drop (i + length ys) xs),
          length-take i xs,
          length-drop (i + length ys) xs,
        )))

pub minus_length-Returns : (a b : ℕ) → b ≤ a → Returns (λ n. n ≡ a - b) (minus_length a b)
unfolding minus_length
minus_length-Returns a b h = rw (le→ltb a b h) (returned refl)

-- A property of all entries.
module _ {ℓ κ} {A : Type ℓ} (P : A → Type κ) where
  pub load-All : (xs : List A) (i : ℕ) → All P xs → i < length xs → Returns P (load xs i)
  unfolding load
  load-All xs i a h = let (x, e) = get_elem?-lt xs i h in rw e (returned (All-get_elem? P xs i a e))

  pub load_back-All :
      (xs : List A) (i k : ℕ) → All P xs → k ≤ i → i < length xs + k → Returns P (load_back xs i k)
  unfolding load_back
  load_back-All xs i k a h j =
      let (x, e) = get_elem?-lt xs (i - k) (omega arith) in
      rw (le→ltb i k h, e) (returned (All-get_elem? P xs (i - k) a e))

  pub store-All :
      (xs : List A) (i : ℕ) (v : A)
      → All P xs
      → P v
      → i < length xs
      → Returns (λ ys. (length ys ≡ length xs) × All P ys) (store xs i v)
  unfolding store
  store-All xs i v a p h = rw (lt→ltb _ _ h) (returned (length-set xs i v, All-set P xs i v a p))
