-- ===== src/Tests/Sound.antt =====
-- The PCM of a call (cmd/talk/audio.go).
use i_lbc_go.Prelude.{◌≡◌, refl, arith, [], ◌∷◌, ◌++◌, take, drop, replicate}
use i_lbc_go.Talk.Audio.{PcmFrame, AudioBridge, offer, capture_bytes, process}
use i_lbc_go.Talk.Audio.Playback.{IsPlayable, queued, little_endian}
use i_lbc_go.Talk.Audio.Capture.{completed, capture_bytes-completed}
use i_lbc_go.Talk.Audio.Process.{IsCapturing, process_plays, process-IsCapturing}

abbrev loud : PcmFrame
loud = record { seq = 0; samples = replicate 160 770 }

-- Two samples of the frame are still to be played, and 158 of the next one are captured.
abbrev busy : AudioBridge
busy = record {
  captured = loud ∷ [];
  playback = [];
  capture = record { seq = 4294967295; samples = replicate 160 5 };
  output = loud;
  input_at = 158;
  output_at = 158;
}

busy-IsPlayable : IsPlayable busy
busy-IsPlayable = record { output_size = refl; output_le = omega arith; queue_sizes = tt }

busy-IsCapturing : IsCapturing busy
busy-IsCapturing = record {
  capture_size = refl;
  input_lt = omega arith;
  seq_lt = omega arith;
  captured_le = omega arith;
  captured_sizes = (refl, tt);
}

-- An underrun after two samples.
process_run : (process (replicate 8 9) (1 ∷ 2 ∷ 3 ∷ []) busy).0 ≡ 2 ∷ 3 ∷ 2 ∷ 3 ∷ 0 ∷ 0 ∷ 0 ∷ 0 ∷ []
unfolding process
process_run = refl

process_captures : (process [] (1 ∷ 2 ∷ 3 ∷ []) busy).1.input_at ≡ 159
unfolding process
process_captures = refl

process_plays_example :
    ((process (replicate 8 9) (1 ∷ 2 ∷ []) busy).0
      ≡ little_endian (take 4 (queued busy ++ replicate 4 0)))
    × (queued (process (replicate 8 9) (1 ∷ 2 ∷ []) busy).1 ≡ drop 4 (queued busy))
    × IsPlayable (process (replicate 8 9) (1 ∷ 2 ∷ []) busy).1
process_plays_example = process_plays 4 (replicate 8 9) (1 ∷ 2 ∷ []) busy busy-IsPlayable refl

process-IsCapturing_example :
    IsPlayable (process (replicate 8 9) (1 ∷ 2 ∷ []) busy).1
    × IsCapturing (process (replicate 8 9) (1 ∷ 2 ∷ []) busy).1
process-IsCapturing_example =
    process-IsCapturing 4 (replicate 8 9) (1 ∷ 2 ∷ []) busy busy-IsPlayable busy-IsCapturing refl

capture_bytes-completed_example :
    capture_bytes (little_endian (513 ∷ 1027 ∷ [])) busy ≡ record busy {
      captured = offer 4 (completed busy (513 ∷ 1027 ∷ [])) busy.captured;
      capture = record { seq = 0; samples = take 158 (replicate 160 5) ++ (513 ∷ 1027 ∷ []) };
      input_at = 0;
    }
capture_bytes-completed_example =
    capture_bytes-completed (513 ∷ []) 1027 busy refl (omega arith) (omega arith) refl
