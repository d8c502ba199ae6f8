-- ===== src/Frame/Actions.antt =====
-- What an action of the packer writes, and what an action of the parser reads: a rule for each way in
-- which the actions are built.
use i_lbc_go.Prelude.{
  ℕ, ◌+◌, ◌*◌, ◌≤◌, ◌≡◌, refl, sym, ◌∙◌, subst, arith, List, [], ◌++◌, some, length, length-append,
  append_assoc, append-nil,
}
use i_lbc_go.Bitstream.{Cursor, Bitwise}
use i_lbc_go.Bitstream.Write.{Open}
use i_lbc_go.Bitstream.Read.{Unread}
use i_lbc_go.Frame.{◌>>=◌, pure}

-- `m` returns `a` and appends the digits `bs`, wherever there is room for them in `size` bytes.
pub record Packs {ℓ} {A : Type ℓ} (size : ℕ) (m : Bitwise A) (a : A) (bs : List ℕ) : Type ℓ where
  pub run :
      (c : Cursor) (ws : List ℕ)
      → Open size c ws
      → length ws + length bs ≤ 8 * size
      → (d : Cursor) × (m c ≡ some (a, d)) × Open size d (ws ++ bs)

-- `m` returns `a` from the digits `bs`, whatever follows them.
pub record Reads {ℓ} {A : Type ℓ} (m : Bitwise A) (a : A) (bs : List ℕ) : Type ℓ where
  pub run :
      (c : Cursor) (rest : List ℕ)
      → Unread c (bs ++ rest)
      → (d : Cursor) × (m c ≡ some (a, d)) × Unread d rest

module _ {ℓ} {A : Type ℓ} where
  pub Packs-pure : {size : ℕ} (a : A) → Packs size (pure a) a []
  Packs-pure {size} a = record {
    run = λ c ws o room. (c, refl, subst (Open size c) (sym (append-nil ws)) o);
  }

  pub Reads-pure : (a : A) → Reads (pure a) a []
  Reads-pure a = record { run = λ c rest u. (c, refl, u) }

module _ {ℓ κ} {A : Type ℓ} {B : Type κ} where
  bind_of_run :
      (m : Bitwise A) (f : A → Bitwise B) {a : A} (c : Cursor) {d : Cursor}
      → m c ≡ some (a, d)
      → (m >>= f) c ≡ f a d
  bind_of_run m f c e = rw (e, ◌>>=◌)

  pub Packs-bind :
      {size : ℕ} {m : Bitwise A} (f : A → Bitwise B) {a : A} {b : B} {bs bs' : List ℕ}
      → Packs size m a bs
      → Packs size (f a) b bs'
      → Packs size (m >>= f) b (bs ++ bs')
  Packs-bind {size} {m} f {bs = bs} {bs' = bs'} p q = record {
    run = λ c ws o room.
        let (d, e, o') = p.run c ws o (omega (arith, length-append bs bs')) in
        let (d', e', o'') =
          q.run d (ws ++ bs) o' (omega (arith, length-append bs bs', length-append ws bs)) in
        (d', bind_of_run m f c e ∙ e', subst (Open size d') (append_assoc ws bs bs') o'');
  }

  pub Reads-bind :
      {m : Bitwise A} (f : A → Bitwise B) {a : A} {b : B} {bs bs' : List ℕ}
      → Reads m a bs
      → Reads (f a) b bs'
      → Reads (m >>= f) b (bs ++ bs')
  Reads-bind {m} f {bs = bs} {bs' = bs'} p q = record {
    run = λ c rest u.
        let (d, e, u') = p.run c (bs' ++ rest) (subst (Unread c) (append_assoc bs bs' rest) u) in
        let (d', e', u'') = q.run d rest u' in (d', bind_of_run m f c e ∙ e', u'');
  }

module _ {ℓ κ} {A : Type ℓ} {B : Type κ} where
  -- The last step of a block.
  pub Packs-map :
      {size : ℕ} {m : Bitwise A} (g : A → B) {a : A} {bs : List ℕ}
      → Packs size m a bs
      → Packs size (m >>= λ x. pure (g x)) (g a) bs
  Packs-map {size} {m} g {a} {bs} p =
      subst (Packs size (m >>= λ x. pure (g x)) (g a)) (append-nil bs)
        (Packs-bind (λ x. pure (g x)) p (Packs-pure (g a)))

  pub Reads-map :
      {m : Bitwise A} (g : A → B) {a : A} {bs : List ℕ}
      → Reads m a bs
      → Reads (m >>= λ x. pure (g x)) (g a) bs
  Reads-map {m} g {a} {bs} p =
      subst (Reads (m >>= λ x. pure (g x)) (g a)) (append-nil bs)
        (Reads-bind (λ x. pure (g x)) p (Reads-pure (g a)))
