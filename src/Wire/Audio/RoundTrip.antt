-- ===== src/Wire/Audio/RoundTrip.antt =====
-- Audio frames that fit their length prefix are read back as they were written.
use proscenium.Common.{
  ℕ, ◌+◌, ◌%◌, ◌^◌, ◌≤◌, ◌<◌, ◌≡◌, refl, some, List, ◌++◌, arith, length, u16_bytes,
  from_be-u32_bytes, from_be-u16_bytes, split_exact-append,
}
use proscenium.Wire.Frame.{Ending, ok, err, frame_too_short}
use proscenium.Wire.Frame.Stream.{on_stream}
use proscenium.Wire.Audio.{
  header_size, encode_audio_frame, decode_audio_frame, write_audio_frame, read_audio_body,
  read_audio_frame,
}

length-encode_audio_frame :
    (seq timestamp tag : ℕ) (payload : List ℕ)
    → length (encode_audio_frame (seq, timestamp, tag, payload)) ≡ length payload + header_size
unfolding encode_audio_frame
length-encode_audio_frame seq timestamp tag payload = omega arith

-- The header and the payload come back, for `u32` counters.
pub decode-encode :
    (seq timestamp tag : ℕ) (payload : List ℕ)
    → seq < 2 ^ 32
    → timestamp < 2 ^ 32
    → decode_audio_frame (encode_audio_frame (seq, timestamp, tag, payload))
      ≡ ok (seq, timestamp, tag, payload)
unfolding decode_audio_frame encode_audio_frame
decode-encode seq timestamp tag payload hs ht =
    ground (arith, from_be-u32_bytes seq, from_be-u32_bytes timestamp)

-- An audio frame with 32-bit counters, whose header and payload together fit 16 bits, is read
-- back from the stream as it was written, and the rest of the stream stays.
pub read-write :
    (seq timestamp tag : ℕ) (payload rest : List ℕ) (ending : Ending)
    → seq < 2 ^ 32
    → timestamp < 2 ^ 32
    → length payload + header_size < 2 ^ 16
    → read_audio_frame (on_stream (write_audio_frame (seq, timestamp, tag, payload) ++ rest) ending)
      ≡ ok (some (seq, timestamp, tag, payload), on_stream rest ending)
unfolding read_audio_frame write_audio_frame read_audio_body
read-write seq timestamp tag payload rest ending hs ht hl =
    let body = encode_audio_frame (seq, timestamp, tag, payload) in
    let n = length body % 2 ^ 16 in
    ground (
      arith,
      length-encode_audio_frame seq timestamp tag payload,
      split_exact-append 2 (u16_bytes n) (body ++ rest) refl,
      from_be-u16_bytes n,
      split_exact-append n body rest,
      decode-encode seq timestamp tag payload hs ht,
    )

-- A frame whose length wraps to less than a header is refused.
pub read-write_wrapped :
    (seq timestamp tag : ℕ) (payload rest : List ℕ) (ending : Ending)
    → 2 ^ 16 ≤ length payload + header_size
    → length payload < 2 ^ 16
    → read_audio_frame (on_stream (write_audio_frame (seq, timestamp, tag, payload) ++ rest) ending)
      ≡ err (frame_too_short ((length payload + header_size) % 2 ^ 16))
unfolding read_audio_frame write_audio_frame read_audio_body
read-write_wrapped seq timestamp tag payload rest ending lo hi =
    let body = encode_audio_frame (seq, timestamp, tag, payload) in
    let n = length body % 2 ^ 16 in
    ground (
      arith,
      length-encode_audio_frame seq timestamp tag payload,
      split_exact-append 2 (u16_bytes n) (body ++ rest) refl,
      from_be-u16_bytes n,
    )
