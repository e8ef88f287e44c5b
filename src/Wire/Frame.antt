-- ===== src/Wire/Frame.antt =====
-- src-tauri/src/framing.rs, and the loop of sync/client.rs that reads frames until the end marker.
pub mod Stream
mod Tests
use proscenium.Common.{
  ℕ, zero, suc, ◌+◌, ◌%◌, ◌^◌, Bool, Option, none, some, List, [], ◌∷◌, ◌++◌, ltb, ◌==◌,
  if◌then◌else◌, length, u32_bytes, from_be, split_exact,
}

-- How `read_exact` fails: the stream was closed, or another error of the transport.
pub data Ending : Type 0 where
  closed_stream broken : Ending

pub record RecvStream : Type 0 where
  pub bytes : List ℕ
  pub ending : Ending

pub data AppError : Type 0 where
  read_failed : Ending → AppError
  frame_too_large : ℕ → AppError
  frame_too_short : ℕ → AppError

pub data Result (A : Type 0) : Type 0 where
  ok : A → Result A
  err : AppError → Result A

infixl 5 ◌>>=◌
abbrev pub ◌>>=◌ : {A B : Type 0} → Result A → (A → Result B) → Result B
ok a >>= f = f a
err e >>= f = err e

-- `RecvStream::read_exact` of the transport.
abbrev pub read_exact : ℕ → RecvStream → Result (List ℕ × RecvStream)
read_exact n s = elim (split_exact n s.bytes) [
  | none ↦ err (read_failed s.ending)
  | some (now, later) ↦ ok (now, record s { bytes = later })
]

abbrev pub max_frame_size : ℕ
max_frame_size = 10000000

-- The bytes that `write_frame` puts on the stream. `as u32` keeps the low 32 bits.
pub write_frame : List ℕ → List ℕ
write_frame payload = u32_bytes (length payload % 2 ^ 32) ++ payload

-- `none` is the end marker.
pub read_frame : RecvStream → Result (Option (List ℕ) × RecvStream)
read_frame s = do
  (len_buf, s₁) ← read_exact 4 s
  let len = from_be 0 len_buf
  if len == 0
      then ok (none, s₁)
      else if ltb max_frame_size len
      then err (frame_too_large len)
      else do (buf, s₂) ← read_exact len s₁; ok (some buf, s₂)

-- The frames up to the end marker or the first error, which the client only logs.
pub read_frames : ℕ → RecvStream → List (List ℕ)
read_frames zero s = []
read_frames (suc fuel) s = elim (read_frame s) [
  | err e ↦ []
  | ok (none, s') ↦ []
  | ok (some frame, s') ↦ frame ∷ read_frames fuel s'
]
