-- ===== src/Stage/Auth/Honest.antt =====
-- What stage/auth.rs guarantees on an honest path: the listener is never alarmed.
use proscenium.Common.{
  ℕ, ◌+◌, ◌%◌, ◌^◌, ◌≡◌, refl, ◌⊎◌, inl, inr, Bool, true, false, Option, some, List, [], ◌∷◌, ◌++◌,
  arith, length, length-append, Bool-cases, le→ltb_false, bytes_eq_refl, ◌==◌, take-append,
  drop-append, append_assoc, All,
}
use proscenium.Wire.Audio.{tag_checkpoint}
use proscenium.Stage.Auth.{
  Crypto, HostAuthState, ListenerAuthState, AuthResult, accepted, unverified, verified_ok,
  checkpoint_interval, decode_checkpoint_payload, next_hash, process, verify_first,
  verify_checkpoint, verify_frame, receive_frame, new_listener,
}

-- Neither an alarm nor a malformed frame.
abbrev pub is_fine : Option AuthResult → Bool
is_fine (some accepted) = true
is_fine (some unverified) = true
is_fine (some verified_ok) = true
is_fine _ = false

-- A checkpoint payload comes apart as it was put together.
pub decode-checkpoint :
    (hash sig opus : List ℕ)
    → length hash ≡ 32
    → length sig ≡ 64
    → decode_checkpoint_payload (hash ++ (sig ++ opus)) ≡ some (hash, sig, opus)
unfolding decode_checkpoint_payload
decode-checkpoint hash sig opus hl sl =
    let enough =
      le→ltb_false (length (hash ++ (sig ++ opus))) 96
        (omega (arith, length-append hash (sig ++ opus), length-append sig opus)) in
    let whole = drop-append 96 (hash ++ sig) opus (omega (arith, length-append hash sig)) in
    rw (
      enough,
      decode_checkpoint_payload,
      ← append_assoc hash sig opus,
      whole,
      append_assoc hash sig opus,
      take-append 32 hash (sig ++ opus) hl,
      drop-append 32 hash (sig ++ opus) hl,
      take-append 64 sig opus sl,
    )

module _ (c : Crypto) (hash_length : (m : List ℕ) → length (c.sha256 m) ≡ 32)
    (sign_length : (k : ℕ) (m : List ℕ) → length (c.sign k m) ≡ 64)
    (signed : (k : ℕ) (m : List ℕ) → c.verify (c.public_of k) m (c.sign k m) ≡ true) where
  -- The listener trusts the host's key, is not alarmed, and holds the host's chain once verified.
  pub record InStep (h : HostAuthState) (l : ListenerAuthState) : Type 0 where
    pub key : l.host_pubkey ≡ c.public_of h.signing_key
    pub calm : l.compromised ≡ false
    pub chain : (l.verified ≡ false) ⊎ (l.chain_hash ≡ h.chain_hash)

  abbrev Fine : HostAuthState → Option AuthResult × ListenerAuthState → Type 0
  Fine h out = (is_fine out.0 ≡ true) × InStep h out.1

  -- The host's state behind a frame.
  abbrev behind : List ℕ → HostAuthState → HostAuthState
  behind opus h = record h {
    chain_hash = next_hash c h.chain_hash opus;
    sequence = (h.sequence + 1) % 2 ^ 64;
  }

  normal-Fine :
      (opus : List ℕ) (h : HostAuthState) (l : ListenerAuthState)
      → InStep h l
      → Fine (behind opus h) (receive_frame c (0, opus) l)
  unfolding receive_frame verify_frame verify_first verify_checkpoint
  normal-Fine opus h l v = ground arith

  checkpoint-Fine :
      (opus : List ℕ) (h : HostAuthState) (l : ListenerAuthState)
      → InStep h l
      → let hash = next_hash c h.chain_hash opus in
        Fine
          (behind opus h)
          (receive_frame c (tag_checkpoint, hash ++ (c.sign h.signing_key hash ++ opus)) l)
  unfolding receive_frame verify_frame verify_first verify_checkpoint
  checkpoint-Fine opus h l v =
      let hash = next_hash c h.chain_hash opus in
      let sig = c.sign h.signing_key hash in
      ground (
        arith,
        decode-checkpoint hash sig opus (hash_length _) (sign_length h.signing_key hash),
        signed h.signing_key hash,
        bytes_eq_refl hash,
      )

  -- A frame that arrives as the host made it raises no alarm, and the two stay in step.
  pub process-InStep :
      (opus : List ℕ) (h : HostAuthState) (l : ListenerAuthState)
      → InStep h l
      → let (frame, h') = process c opus h in Fine h' (receive_frame c frame l)
  unfolding process
  process-InStep opus h l v =
      elim (Bool-cases ((h.sequence + 1) % 2 ^ 64 % checkpoint_interval == 0)) [
        | inl due ↦ rw (due, process) (checkpoint-Fine opus h l v)
        | inr not_due ↦ rw (not_due, process) (normal-Fine opus h l v)
      ]

  -- The host's frames, each received in turn.
  pub stream : List (List ℕ) → HostAuthState → ListenerAuthState → List (Option AuthResult)
  stream [] h l = []
  stream (opus ∷ rest) h l =
      let (frame, h') = process c opus h in
      let (r, l') = receive_frame c frame l in r ∷ stream rest h' l'

  -- The listener is not alarmed, trusts the host's key and, once it is verified, holds the host's
  -- chain. Then every frame that the host produces and the listener receives in order is
  -- accepted, unverified or verified, never an alarm or malformed. Hashes have 32 bytes,
  -- signatures 64, and the host's signatures verify.
  pub stream_fine :
      (frames : List (List ℕ)) (h : HostAuthState) (l : ListenerAuthState)
      → InStep h l
      → All (λ r. is_fine r ≡ true) (stream frames h l)
  unfolding stream
  stream_fine [] h l v = tt
  stream_fine (opus ∷ rest) h l v =
      let (fine, next) = process-InStep opus h l v in
      (fine, stream_fine rest (process c opus h).1 (receive_frame c (process c opus h).0 l).1 next)

  -- A new listener is in step with a host in any state.
  pub new_listener-InStep :
      (h : HostAuthState) → InStep h (new_listener (c.public_of h.signing_key))
  unfolding new_listener
  new_listener-InStep h = record { key = refl; calm = refl; chain = inl refl }
