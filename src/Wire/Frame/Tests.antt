-- ===== src/Wire/Frame/Tests.antt =====
-- Runs of framing.rs, and the theorems at such inputs.
use proscenium.Common.{◌≡◌, refl, [], ◌∷◌, ◌++◌, arith}
use proscenium.Wire.Frame.{broken, err, read_failed, read_frame, read_frames}
use proscenium.Wire.Frame.Stream.{
  on_stream, write_frames, read_frames-write_frames, read_frames_fuel,
}

short_read : read_frame (on_stream (0 ∷ 0 ∷ 0 ∷ 3 ∷ 1 ∷ []) broken) ≡ err (read_failed broken)
unfolding read_frame
short_read = refl

read_frames-write_frames_example :
    read_frames 3 (on_stream (write_frames ((65 ∷ []) ∷ (66 ∷ 67 ∷ []) ∷ []) ++ []) broken)
    ≡ (65 ∷ []) ∷ (66 ∷ 67 ∷ []) ∷ []
read_frames-write_frames_example =
    read_frames-write_frames 3 ((65 ∷ []) ∷ (66 ∷ 67 ∷ []) ∷ []) [] broken (omega arith)
      (omega arith)

read_frames_fuel_example :
    read_frames 7 (on_stream (0 ∷ 0 ∷ 0 ∷ 1 ∷ 8 ∷ []) broken)
    ≡ read_frames 6 (on_stream (0 ∷ 0 ∷ 0 ∷ 1 ∷ 8 ∷ []) broken)
read_frames_fuel_example =
    read_frames_fuel 6 (on_stream (0 ∷ 0 ∷ 0 ∷ 1 ∷ 8 ∷ []) broken) (omega arith)
