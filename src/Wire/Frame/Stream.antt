-- ===== src/Wire/Frame/Stream.antt =====
-- What framing.rs writes it reads back, frame by frame and as a whole stream.
use proscenium.Common.{
  ℕ, zero, suc, ◌%◌, ◌^◌, ◌≤◌, ◌<◌, ◌≡◌, refl, ap, ◌⊎◌, inl, inr, Option, none, some, take, drop,
  length-drop, List, [], ◌∷◌, ◌++◌, arith, length, All, append_assoc, u32_bytes, from_be,
  from_be-u32_bytes, split_exact, split_exact-append,
}
use proscenium.Wire.Frame.{
  Ending, RecvStream, AppError, Result, ok, err, frame_too_large, max_frame_size, write_frame,
  read_frame, read_frames,
}

abbrev pub on_stream : List ℕ → Ending → RecvStream
on_stream bytes ending = record { bytes = bytes; ending = ending }

-- What the loops of `handle_sync` send: the frames, then the end marker.
abbrev pub write_frames : List (List ℕ) → List ℕ
write_frames [] = write_frame []
write_frames (f ∷ fs) = write_frame f ++ write_frames fs

split_header :
    (n : ℕ) (rest : List ℕ) → split_exact 4 (u32_bytes n ++ rest) ≡ some (u32_bytes n, rest)
split_header n rest = split_exact-append 4 (u32_bytes n) rest refl

-- A frame that is not empty and within the size limit is read back as it was written, and the
-- rest of the stream stays.
read_frame-write_frame :
    (payload rest : List ℕ) (ending : Ending)
    → 0 < length payload
    → length payload ≤ max_frame_size
    → read_frame (on_stream (write_frame payload ++ rest) ending)
      ≡ ok (some payload, on_stream rest ending)
unfolding read_frame write_frame
read_frame-write_frame payload rest ending lo hi =
    let n = length payload % 2 ^ 32 in
    ground (
      arith,
      split_header n (payload ++ rest),
      from_be-u32_bytes n,
      split_exact-append n payload rest,
    )

pub read_frame_end :
    (rest : List ℕ) (ending : Ending)
    → read_frame (on_stream (write_frame [] ++ rest) ending) ≡ ok (none, on_stream rest ending)
unfolding read_frame write_frame
read_frame_end rest ending = ground (arith, split_header 0 rest)

-- A frame above the limit is refused by the reader.
pub read_frame_too_large :
    (payload rest : List ℕ) (ending : Ending)
    → max_frame_size < length payload
    → length payload < 2 ^ 32
    → read_frame (on_stream (write_frame payload ++ rest) ending)
      ≡ err (frame_too_large (length payload))
unfolding read_frame write_frame
read_frame_too_large payload rest ending lo hi =
    let n = length payload % 2 ^ 32 in
    ground (arith, split_header n (payload ++ rest), from_be-u32_bytes n)

abbrev pub IsSendable : List ℕ → Type 0
IsSendable f = (0 < length f) × (length f ≤ max_frame_size)

-- The client's loop over a stream gets exactly the frames that the server wrote before the end
-- marker, if each is not empty and within the size limit and the fuel exceeds their number.
pub read_frames-write_frames :
    (fuel : ℕ) (fs : List (List ℕ)) (rest : List ℕ) (ending : Ending)
    → All IsSendable fs
    → length fs < fuel
    → read_frames fuel (on_stream (write_frames fs ++ rest) ending) ≡ fs
unfolding read_frames
read_frames-write_frames zero fs rest ending s h = absurd (omega arith)
read_frames-write_frames (suc fuel) [] rest ending s h =
    rw (read_frame_end rest ending, read_frames)
read_frames-write_frames (suc fuel) (f ∷ fs) rest ending s h =
    rw
      (
        append_assoc (write_frame f) (write_frames fs) rest,
        read_frame-write_frame f (write_frames fs ++ rest) ending s.0.0 s.0.1,
        read_frames,
      )
      (ap (◌∷◌ f) (read_frames-write_frames fuel fs rest ending s.1 (omega arith)))

-- A read that succeeds leaves fewer bytes.
read_frame_shorter :
    (s t : RecvStream) {frame : List ℕ}
    → read_frame s ≡ ok (some frame, t)
    → length t.bytes < length s.bytes
unfolding read_frame
read_frame_shorter s t e =
    let n = from_be 0 (take 4 s.bytes) in
    ground (arith, length-drop 4 s.bytes, length-drop n (drop 4 s.bytes))

-- The three ways in which a read of a frame ends.
abbrev Outcome : Result (Option (List ℕ) × RecvStream) → Type 0
Outcome r =
    ((e : AppError) × (r ≡ err e))
    ⊎ ((t : RecvStream) × (r ≡ ok (none, t)))
    ⊎ ((frame : List ℕ) × (t : RecvStream) × (r ≡ ok (some frame, t)))

outcome : (r : Result (Option (List ℕ) × RecvStream)) → Outcome r
outcome (err e) = inl (e, refl)
outcome (ok (none, t)) = inr (inl (t, refl))
outcome (ok (some frame, t)) = inr (inr (frame, t, refl))

-- On any stream, fuel above the number of its bytes is enough for the client's loop: one more
-- unit changes nothing.
pub read_frames_fuel :
    (fuel : ℕ) (s : RecvStream)
    → length s.bytes < fuel
    → read_frames (suc fuel) s ≡ read_frames fuel s
unfolding read_frames
read_frames_fuel zero s h = absurd (omega arith)
read_frames_fuel (suc fuel) s h = elim (outcome (read_frame s)) [
  | inl (e, failed) ↦ rw (failed, read_frames)
  | inr (inl (t, ended)) ↦ rw (ended, read_frames)
  | inr (inr (frame, t, more)) ↦
      rw (more, read_frames)
        (ap (◌∷◌ frame) (read_frames_fuel fuel t (omega (arith, read_frame_shorter s t more))))
]
