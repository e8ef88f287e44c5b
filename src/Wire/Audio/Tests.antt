-- ===== src/Wire/Audio/Tests.antt =====
-- The tests of audio/transport.rs, and the theorems at such inputs.
use proscenium.Common.{◌≡◌, refl, some, [], ◌∷◌, ◌++◌, arith}
use proscenium.Wire.Frame.{closed_stream, ok, err, frame_too_short}
use proscenium.Wire.Frame.Stream.{on_stream}
use proscenium.Wire.Audio.{
  tag_normal, encode_audio_frame, decode_audio_frame, write_audio_frame, read_audio_frame,
}
use proscenium.Wire.Audio.RoundTrip.{decode-encode, read-write}

decode_too_short_fails : decode_audio_frame (0 ∷ 0 ∷ 0 ∷ 0 ∷ []) ≡ err (frame_too_short 4)
unfolding decode_audio_frame
decode_too_short_fails = refl

decode-encode_example :
    decode_audio_frame (encode_audio_frame (42, 960, tag_normal, 1 ∷ 2 ∷ []))
    ≡ ok (42, 960, tag_normal, 1 ∷ 2 ∷ [])
decode-encode_example = decode-encode 42 960 tag_normal (1 ∷ 2 ∷ []) (omega arith) (omega arith)

read-write_example :
    read_audio_frame
      (on_stream (write_audio_frame (42, 960, tag_normal, 1 ∷ 2 ∷ []) ++ (7 ∷ [])) closed_stream)
    ≡ ok (some (42, 960, tag_normal, 1 ∷ 2 ∷ []), on_stream (7 ∷ []) closed_stream)
read-write_example =
    read-write 42 960 tag_normal (1 ∷ 2 ∷ []) (7 ∷ []) closed_stream (omega arith) (omega arith)
      (omega arith)
