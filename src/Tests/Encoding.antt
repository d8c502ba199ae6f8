-- ===== src/Tests/Encoding.antt =====
-- Parts of the encoder (src/frameclassify.go, src/statesearchw.go), over whole numbers in place of floats.
use i_lbc_go.Prelude.{ℕ, ◌<◌, ◌≡◌, refl, arith, List, [], ◌∷◌, length, replicate, All, some, inr}
use i_lbc_go.Arrays.{Returns, load, load_back}
use i_lbc_go.Tests.Whole.{Whole, Whole-IsTotal}
use i_lbc_go.Layout.{frame_shape, shape20}
use i_lbc_go.Packet.Receive.{IsStart}
use i_lbc_go.StartState.Construct.{IsLevel}
use i_lbc_go.State.{EncoderState}
use i_lbc_go.State.Initial.{HasBuffers, initial_encoder}
use i_lbc_go.Api.{reset_encoder, new_encoder}
use i_lbc_go.Api.Safety.{reset_encoder-new_encoder}
use i_lbc_go.StateSearch.{sort_sq, ascend, nearer, state_search_w}
use i_lbc_go.StateSearch.Levels.{sort_sq-Returns, state_search_w-Returns}
use i_lbc_go.Classify.{frame_classify}
use i_lbc_go.Classify.Range.{frame_classify-IsStart}

is_20 : frame_shape 20 ≡ some shape20
unfolding frame_shape
is_20 = refl

abbrev levels : List ℕ
levels = 1000000 ∷ 2000000 ∷ 4000000 ∷ 9000000 ∷ []

-- Between the second and the third entry, and above all.
sort_sq_run : sort_sq Whole 2600000 levels 4 ≡ some (2000000, 1)
unfolding sort_sq ascend nearer load load_back
sort_sq_run = refl

sort_sq_above : sort_sq Whole 20000000 levels 4 ≡ some (9000000, 3)
unfolding sort_sq ascend nearer load load_back
sort_sq_above = refl

sort_sq-Returns_example : Returns (λ r. r.1 < 4) (sort_sq Whole 2600000 levels 4)
sort_sq-Returns_example = sort_sq-Returns Whole 2600000 levels 2 Whole-IsTotal (omega arith)

state_search_w-Returns_example :
    Returns
      (λ r. (r.0 < 64) × (length r.1 ≡ 80) × All IsLevel r.1)
      (state_search_w Whole 57
        (replicate 160 7000000)
        40
        (replicate 66 1000000)
        11
        (replicate 66 1000000)
        11
        (replicate 80 0)
        57
        1)
state_search_w-Returns_example =
    state_search_w-Returns Whole 57 (replicate 160 7000000) 40 (replicate 66 1000000) 11
      (replicate 66 1000000) 11 (replicate 80 0) 57 1 Whole-IsTotal (omega arith) (omega arith)
      (omega arith) refl (omega arith) (omega arith) (omega arith)

frame_classify-IsStart_example :
    Returns (IsStart shape20) (frame_classify Whole shape20 (replicate 160 7000000))
frame_classify-IsStart_example =
    frame_classify-IsStart Whole (replicate 160 7000000) 20 shape20 is_20 (omega arith)

abbrev used_encoder : EncoderState Whole
used_encoder = record {
  shape = shape20;
  ana_mem = replicate 10 5;
  lsfold = replicate 10 1000000;
  lsfdeqold = replicate 10 1000000;
  lpc_buffer = replicate 300 9000000;
  hpimem = replicate 4 7;
}

used_encoder-HasBuffers : HasBuffers Whole used_encoder
used_encoder-HasBuffers = record {
  ana_mem_size = refl;
  lsfold_size = refl;
  lsfdeqold_size = refl;
  lpc_buffer_size = refl;
  hpimem_size = refl;
}

reset_encoder-new_encoder_example :
    (reset_encoder Whole used_encoder ≡ some (inr (initial_encoder Whole shape20)))
    × (reset_encoder Whole used_encoder ≡ new_encoder Whole 20)
reset_encoder-new_encoder_example =
    reset_encoder-new_encoder Whole 20 used_encoder is_20 used_encoder-HasBuffers
