-- ===== src/Talk/Audio/Playback.antt =====
-- What `process` of cmd/talk/audio.go plays: the samples of the queued frames, one after the other, and
-- silence once there are none.
use i_lbc_go.Prelude.{
  ℕ, zero, suc, ◌+◌, ◌*◌, ◌/◌, ◌%◌, ◌≤◌, ◌<◌, ◌≡◌, refl, sym, ap, ◌∙◌, subst, arith, List, [], ◌∷◌,
  ◌++◌, length, get_or, take, drop, replicate, Bool, true, false, ◌==◌, if◌then◌else◌, Bool-cases,
  Option, some, none, inl, inr, All, Option-cases,
}
use i_lbc_go.Talk.Audio.Choice.{choice, play_bytes-choice}
use i_lbc_go.Talk.Audio.{PcmFrame, AudioBridge, next_frame, frame_to_play, play_bytes}

-- The samples of frames.
abbrev pub samples_of : List PcmFrame → List ℕ
samples_of [] = []
samples_of (f ∷ queue) = f.samples ++ samples_of queue

-- What is still to be played.
abbrev pub queued : AudioBridge → List ℕ
queued b = drop b.output_at b.output.samples ++ samples_of b.playback

-- Samples as the device reads them: 16 bits, the low byte first.
abbrev pub little_endian : List ℕ → List ℕ
little_endian [] = []
little_endian (v ∷ vs) = v % 256 ∷ v / 256 % 256 ∷ little_endian vs

abbrev pub IsFrame : PcmFrame → Type 0
IsFrame f = length f.samples ≡ 160

pub record IsPlayable (b : AudioBridge) : Type 0 where
  pub output_size : length b.output.samples ≡ 160
  pub output_le : b.output_at ≤ 160
  pub queue_sizes : All IsFrame b.playback

drop_all : {A : Type 0} (n : ℕ) (xs : List A) → length xs ≤ n → drop n xs ≡ []
drop_all zero [] h = refl
drop_all zero (x ∷ xs) h = absurd (omega arith)
drop_all (suc n) [] h = refl
drop_all (suc n) (x ∷ xs) h = drop_all n xs (omega arith)

drop_one : (n : ℕ) (xs : List ℕ) → n < length xs → drop n xs ≡ get_or xs n 0 ∷ drop (n + 1) xs
drop_one n [] h = absurd (omega arith)
drop_one zero (x ∷ xs) h = refl
drop_one (suc n) (x ∷ xs) h =
    let e : suc n + 1 ≡ suc (n + 1) = omega arith in
    drop_one n xs (omega arith) ∙ ap (λ (k : ℕ). get_or xs n 0 ∷ drop k (x ∷ xs)) (sym e)

-- With a sample to play there is one at the offset.
record Ready (b c : AudioBridge) : Type 0 where
  same : queued c ≡ queued b
  playable : IsPlayable c
  sample : c.output_at < 160

-- What the choice of a frame means for what is queued.
ToPlay : AudioBridge → Option AudioBridge → Type 0
ToPlay b none = queued b ≡ []
ToPlay b (some c) = Ready b c

next_frame-ToPlay :
    (queue : List PcmFrame) (b : AudioBridge)
    → drop b.output_at b.output.samples ≡ []
    → b.playback ≡ queue
    → All IsFrame queue
    → ToPlay b (next_frame queue b)
unfolding ToPlay
next_frame-ToPlay [] b done e v =
    ap (λ (vs : List ℕ). vs ++ samples_of b.playback) done
    ∙ ap (λ (q : List PcmFrame). samples_of q) e
next_frame-ToPlay (f ∷ queue) b done e v = record {
  same = sym (
      ap (λ (vs : List ℕ). vs ++ samples_of b.playback) done
      ∙ ap (λ (q : List PcmFrame). samples_of q) e);
  playable = record { output_size = v.0; output_le = omega arith; queue_sizes = v.1 };
  sample = omega arith;
}

frame_to_play-ToPlay : (b : AudioBridge) → IsPlayable b → ToPlay b (frame_to_play b)
unfolding frame_to_play ToPlay
frame_to_play-ToPlay b v = elim (Bool-cases (b.output_at == 160)) [
  | inr inside ↦
      subst (λ (t : Bool). ToPlay b (if t then next_frame b.playback b else some b)) (sym inside)
        (record { same = refl; playable = v; sample = not_160 inside v.output_le })
  | inl ended ↦
      subst (λ (t : Bool). ToPlay b (if t then next_frame b.playback b else some b)) (sym ended)
        (next_frame-ToPlay b.playback b
          (drop_all b.output_at b.output.samples (omega (arith, is_160 ended, v.output_size))) refl
          v.queue_sizes)
]
  where
    not_160 : {n : ℕ} → (n == 160) ≡ false → n ≤ 160 → n < 160
    not_160 h k = ground arith

    is_160 : {n : ℕ} → (n == 160) ≡ true → n ≡ 160
    is_160 h = ground arith

-- What comes out for so many samples, and what it leaves.
pub record Played (n : ℕ) (b : AudioBridge) (r : List ℕ × AudioBridge) : Type 0 where
  pub heard : r.0 ≡ little_endian (take n (queued b ++ replicate n 0))
  pub left : queued r.1 ≡ drop n (queued b)
  pub playable : IsPlayable r.1

silent_bytes : (n m : ℕ) → m ≡ 2 * n → replicate m 0 ≡ little_endian (take n (replicate n 0))
silent_bytes zero zero h = refl
silent_bytes zero (suc m) h = absurd (omega arith)
silent_bytes (suc n) zero h = absurd (omega arith)
silent_bytes (suc n) (suc zero) h = absurd (omega arith)
silent_bytes (suc n) (suc (suc m)) h =
    ap (λ (bs : List ℕ). 0 ∷ 0 ∷ bs) (silent_bytes n m (omega arith))

-- It does not matter how much silence follows.
take_pad :
    (n j k : ℕ) (xs : List ℕ)
    → n ≤ j
    → n ≤ k
    → take n (xs ++ replicate j 0) ≡ take n (xs ++ replicate k 0)
take_pad zero j k xs h i = refl
take_pad (suc n) zero k xs h i = absurd (omega arith)
take_pad (suc n) (suc j) zero xs h i = absurd (omega arith)
take_pad (suc n) (suc j) (suc k) [] h i = ap (◌∷◌ 0) (take_pad n j k [] (omega arith) (omega arith))
take_pad (suc n) (suc j) (suc k) (x ∷ xs) h i =
    ap (◌∷◌ x) (take_pad n (suc j) (suc k) xs (omega arith) (omega arith))

choice-none :
    (n m : ℕ) (b : AudioBridge)
    → IsPlayable b
    → m ≡ 2 * suc n
    → queued b ≡ []
    → Played (suc n) b (replicate m 0, b)
choice-none n m b v h e = record {
  heard =
      silent_bytes (suc n) m h
      ∙ ap (λ (vs : List ℕ). little_endian (take (suc n) (vs ++ replicate (suc n) 0))) (sym e);
  left = e ∙ sym (ap (drop (suc n)) e);
  playable = v;
}

-- The next sample is the first one queued.
Ready-queued :
    (b c : AudioBridge)
    → Ready b c
    → queued b
      ≡ get_or c.output.samples c.output_at 0 ∷ queued (record c { output_at = c.output_at + 1 })
Ready-queued b c r =
    sym r.same
    ∙ ap (λ (vs : List ℕ). vs ++ samples_of c.playback)
        (drop_one c.output_at c.output.samples (omega (arith, r.sample, r.playable.output_size)))

Ready-next : (b c : AudioBridge) → Ready b c → IsPlayable (record c { output_at = c.output_at + 1 })
Ready-next b c r = record {
  output_size = r.playable.output_size;
  output_le = omega (arith, r.sample);
  queue_sizes = r.playable.queue_sizes;
}

choice-some :
    (n : ℕ) (b c : AudioBridge) (r : List ℕ × AudioBridge)
    → Ready b c
    → Played n (record c { output_at = c.output_at + 1 }) r
    → Played (suc n) b (
      get_or c.output.samples c.output_at 0 % 256
          ∷ get_or c.output.samples c.output_at 0 / 256 % 256
          ∷ r.0,
      r.1,
    )
choice-some n b c r y p =
    let d : AudioBridge = record c { output_at = c.output_at + 1 } in
    let v : ℕ = get_or c.output.samples c.output_at 0 in
    let q = Ready-queued b c y in
    record {
      heard =
          ap (λ (bs : List ℕ). v % 256 ∷ v / 256 % 256 ∷ bs)
            (p.heard
              ∙ ap little_endian (take_pad n n (suc n) (queued d) (omega arith) (omega arith)))
          ∙ ap (λ (vs : List ℕ). little_endian (take (suc n) (vs ++ replicate (suc n) 0))) (sym q);
      left = p.left ∙ sym (ap (drop (suc n)) q);
      playable = p.playable;
    }

pub play_bytes-Played :
    (n m : ℕ) (b : AudioBridge) → IsPlayable b → m ≡ 2 * n → Played n b (play_bytes m b)
unfolding play_bytes choice ToPlay
play_bytes-Played zero zero b v h = record { heard = refl; left = refl; playable = v }
play_bytes-Played zero (suc m) b v h = absurd (omega arith)
play_bytes-Played (suc n) zero b v h = absurd (omega arith)
play_bytes-Played (suc n) (suc zero) b v h = absurd (omega arith)
play_bytes-Played (suc n) (suc (suc m)) b v h =
    subst (Played (suc n) b) (sym (play_bytes-choice m b)) (elim (Option-cases (frame_to_play b)) [
      | inl e ↦
          subst (λ (o : Option AudioBridge). Played (suc n) b (choice m b o)) (sym e)
            (choice-none n (suc (suc m)) b v h (subst (ToPlay b) e (frame_to_play-ToPlay b v)))
      | inr (c, e) ↦
          let r : Ready b c = subst (ToPlay b) e (frame_to_play-ToPlay b v) in
          subst (λ (o : Option AudioBridge). Played (suc n) b (choice m b o)) (sym e)
            (choice-some n b c (play_bytes m (record c { output_at = c.output_at + 1 })) r (
              play_bytes-Played n m (record c { output_at = c.output_at + 1 }) (Ready-next b c r)
                (omega arith)))
    ])
