-- ===== src/Wire/Audio.antt =====
-- src-tauri/src/audio/transport.rs: audio frames and their header.
pub mod RoundTrip
mod Tests
use proscenium.Common.{
  ℕ, ◌+◌, ◌%◌, ◌^◌, Option, none, some, List, [], ◌∷◌, ◌++◌, ltb, if◌then◌else◌, length, take, drop,
  u32_bytes, u16_bytes, from_be,
}
use proscenium.Wire.Frame.{
  Ending, closed_stream, broken, RecvStream, Result, ok, err, ◌>>=◌, read_failed, frame_too_short,
  read_exact,
}

abbrev pub header_size : ℕ
header_size = 9

abbrev pub tag_normal : ℕ
tag_normal = 0x00

abbrev pub tag_checkpoint : ℕ
tag_checkpoint = 0x01

-- Sequence number, timestamp, tag and payload.
abbrev pub AudioFrame : Type 0
AudioFrame = ℕ × ℕ × ℕ × List ℕ

pub encode_audio_frame : AudioFrame → List ℕ
encode_audio_frame (seq, timestamp, tag, payload) =
    u32_bytes seq ++ (u32_bytes timestamp ++ (tag ∷ payload))

-- The byte at an index that the length check has made sure of.
abbrev first_or_zero : List ℕ → ℕ
first_or_zero [] = 0
first_or_zero (b ∷ bs) = b

pub decode_audio_frame : List ℕ → Result AudioFrame
decode_audio_frame buf =
    if ltb (length buf) header_size
    then err (frame_too_short (length buf))
    else ok (
      from_be 0 (take 4 buf),
      from_be 0 (take 4 (drop 4 buf)),
      first_or_zero (drop 8 buf),
      drop header_size buf,
    )

-- The length goes out as a `u16`.
pub write_audio_frame : AudioFrame → List ℕ
write_audio_frame frame =
    let encoded = encode_audio_frame frame in u16_bytes (length encoded % 2 ^ 16) ++ encoded

-- The part behind the length prefix.
pub read_audio_body : List ℕ → RecvStream → Result (Option AudioFrame × RecvStream)
read_audio_body len_buf s =
    let len = from_be 0 len_buf in
    if ltb len header_size
    then err (frame_too_short len)
    else do (buf, s') ← read_exact len s; frame ← decode_audio_frame buf; ok (some frame, s')

-- `none` is a clean close.
pub read_audio_frame : RecvStream → Result (Option AudioFrame × RecvStream)
read_audio_frame s = elim (read_exact 2 s) [
  | ok (len_buf, s') ↦ read_audio_body len_buf s'
  | err (read_failed closed_stream) ↦ ok (none, s)
  | err e ↦ err e
]
