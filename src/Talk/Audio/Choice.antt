-- ===== src/Talk/Audio/Choice.antt =====
-- A round of the second loop of `process` (cmd/talk/audio.go): it goes on, or returns on an underrun.
use i_lbc_go.Prelude.{
  ℕ, zero, suc, ◌+◌, ◌/◌, ◌%◌, ◌≡◌, refl, sym, subst, List, [], ◌∷◌, Option, some, none,
  Option-cases, get_or, replicate, Bool, ◌==◌, if◌then◌else◌, Bool-cases, inl, inr,
}
use i_lbc_go.Talk.Audio.{PcmFrame, AudioBridge, next_frame, frame_to_play, play_bytes}

-- Both outcomes of the choice of a frame, with what is played after it.
unfoldable pub choice : ℕ → AudioBridge → Option AudioBridge → List ℕ × AudioBridge
choice m b none = (replicate (suc (suc m)) 0, b)
choice m b (some c) =
    let v = get_or c.output.samples c.output_at 0 in
    let (rest, d) = play_bytes m (record c { output_at = c.output_at + 1 }) in
    (v % 256 ∷ v / 256 % 256 ∷ rest, d)

elim-choice :
    (m : ℕ) (b : AudioBridge) (o : Option AudioBridge)
    → (elim o [
      | none ↦ (replicate (suc (suc m)) 0, b)
      | some c ↦
          let v = get_or c.output.samples c.output_at 0 in
          let (rest, d) = play_bytes m (record c { output_at = c.output_at + 1 }) in
          (v % 256 ∷ v / 256 % 256 ∷ rest, d)
    ])
      ≡ choice m b o
unfolding choice
elim-choice m b none = refl
elim-choice m b (some c) = refl

pub play_bytes-choice :
    (m : ℕ) (b : AudioBridge) → play_bytes (suc (suc m)) b ≡ choice m b (frame_to_play b)
unfolding play_bytes
play_bytes-choice m b = elim-choice m b (frame_to_play b)

-- What does not depend on the playback side holds after playing too.
module _ (P : AudioBridge → Type 0)
    (other : (b : AudioBridge) (queue : List PcmFrame) (f : PcmFrame) (i : ℕ)
      → P b
      → P (record b { playback = queue; output = f; output_at = i })) where
  Kept : Option AudioBridge → Type 0
  Kept none = Unit
  Kept (some c) = P c

  next_frame-Kept : (queue : List PcmFrame) (b : AudioBridge) → P b → Kept (next_frame queue b)
  unfolding Kept
  next_frame-Kept [] b p = tt
  next_frame-Kept (f ∷ queue) b p = other b queue f 0 p

  frame_to_play-Kept : (b : AudioBridge) → P b → Kept (frame_to_play b)
  unfolding frame_to_play Kept
  frame_to_play-Kept b p = elim (Bool-cases (b.output_at == 160)) [
    | inl e ↦
        subst (λ (t : Bool). Kept (if t then next_frame b.playback b else some b)) (sym e)
          (next_frame-Kept b.playback b p)
    | inr e ↦ subst (λ (t : Bool). Kept (if t then next_frame b.playback b else some b)) (sym e) p
  ]

  pub play_bytes-keeps : (m : ℕ) (b : AudioBridge) → P b → P (play_bytes m b).1
  unfolding play_bytes choice Kept
  play_bytes-keeps zero b p = p
  play_bytes-keeps (suc zero) b p = p
  play_bytes-keeps (suc (suc m)) b p =
      subst (λ (r : List ℕ × AudioBridge). P r.1) (sym (play_bytes-choice m b))
        (elim (Option-cases (frame_to_play b)) [
          | inl e ↦ subst (λ (o : Option AudioBridge). P (choice m b o).1) (sym e) p
          | inr (c, e) ↦
              subst (λ (o : Option AudioBridge). P (choice m b o).1) (sym e)
                (play_bytes-keeps m (record c { output_at = c.output_at + 1 })
                  (other c c.playback c.output (c.output_at + 1)
                    (subst Kept e (frame_to_play-Kept b p))))
        ])
