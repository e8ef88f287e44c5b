-- ===== src/Stage/Auth.antt =====
-- src-tauri/src/stage/auth.rs: the hash chain that authenticates the mixed audio, and the lines of
-- stage/pipeline.rs that split a received frame. Hashes, signatures and frames are lists of bytes.
pub mod Honest
pub mod Tamper
mod Tests
use proscenium.Common.{
  ℕ, zero, suc, ◌+◌, ◌%◌, ◌^◌, Bool, true, false, Option, none, some, List, [], ◌∷◌, ◌++◌, ltb,
  ◌==◌, if◌then◌else◌, length, take, drop, bytes_eq,
}
use proscenium.Wire.Audio.{tag_normal, tag_checkpoint}

-- SHA-256, and the Ed25519 operations of iroh's keys. A key is a number.
pub record Crypto : Type 0 where
  pub sha256 : List ℕ → List ℕ
  pub public_of : ℕ → ℕ
  pub sign : ℕ → List ℕ → List ℕ
  pub verify : ℕ → List ℕ → List ℕ → Bool

abbrev pub checkpoint_interval : ℕ
checkpoint_interval = 50

abbrev pub checkpoint_extra : ℕ
checkpoint_extra = 96

pub record HostAuthState : Type 0 where
  pub chain_hash : List ℕ
  pub sequence : ℕ
  pub signing_key : ℕ

pub data AuthResult : Type 0 where
  accepted unverified verified_ok tamper_detected invalid_signature : AuthResult

pub record ListenerAuthState : Type 0 where
  pub chain_hash : List ℕ
  pub verified : Bool
  pub compromised : Bool
  pub host_pubkey : ℕ

abbrev pub zeros : ℕ → List ℕ
zeros zero = []
zeros (suc n) = 0 ∷ zeros n

pub new_host : ℕ → HostAuthState
new_host key = record { chain_hash = zeros 32; sequence = 0; signing_key = key }

pub new_listener : ℕ → ListenerAuthState
new_listener key = record {
  chain_hash = zeros 32;
  verified = false;
  compromised = false;
  host_pubkey = key;
}

-- The hash and the signature of a checkpoint payload, and the audio behind them.
pub decode_checkpoint_payload : List ℕ → Option (List ℕ × List ℕ × List ℕ)
decode_checkpoint_payload payload =
    if ltb (length payload) checkpoint_extra
    then none
    else some (take 32 payload, take 64 (drop 32 payload), drop 96 payload)

module _ (c : Crypto) where
  open c use {sha256, public_of, sign, verify}

  abbrev pub next_hash : List ℕ → List ℕ → List ℕ
  next_hash chain opus = sha256 (chain ++ opus)

  -- Tag and wire payload of the next frame.
  pub process : List ℕ → HostAuthState → (ℕ × List ℕ) × HostAuthState
  process opus s =
      let hash = next_hash s.chain_hash opus in
      let seq = (s.sequence + 1) % 2 ^ 64 in
      let s' = record s { chain_hash = hash; sequence = seq } in
      if seq % checkpoint_interval == 0
      then ((tag_checkpoint, hash ++ (sign s.signing_key hash ++ opus)), s')
      else ((tag_normal, opus), s')

  -- The signature test of a checkpoint whose hash is accepted.
  abbrev pub settle : List ℕ → List ℕ → ListenerAuthState → AuthResult × ListenerAuthState
  settle hash sig s =
      if verify s.host_pubkey hash sig
      then (verified_ok, s)
      else (invalid_signature, record s { compromised = true })

  -- A listener that has not seen a checkpoint yet.
  pub verify_first : Option (List ℕ × List ℕ) → ListenerAuthState → AuthResult × ListenerAuthState
  verify_first none s = (unverified, s)
  verify_first (some (hash, sig)) s =
      if verify s.host_pubkey hash sig
      then (verified_ok, record s { chain_hash = hash; verified = true })
      else (invalid_signature, record s { compromised = true })

  -- The checkpoint test, behind the extension of the chain.
  pub verify_checkpoint :
      ℕ → Option (List ℕ × List ℕ) → ListenerAuthState → AuthResult × ListenerAuthState
  verify_checkpoint tag none s = (accepted, s)
  verify_checkpoint tag (some (hash, sig)) s =
      if tag == tag_normal
      then (accepted, s)
      else if bytes_eq s.chain_hash hash
      then settle hash sig s
      else (tamper_detected, record s { compromised = true })

  pub verify_frame :
      List ℕ → ℕ → Option (List ℕ × List ℕ) → ListenerAuthState → AuthResult × ListenerAuthState
  verify_frame opus tag checkpoint s =
      if s.compromised
      then (tamper_detected, s)
      else if s.verified
      then verify_checkpoint tag checkpoint (record s { chain_hash = next_hash s.chain_hash opus })
      else verify_first checkpoint s

  -- What `run_listener_once` does with tag and payload; `none` is its `continue`.
  pub receive_frame : ℕ × List ℕ → ListenerAuthState → Option AuthResult × ListenerAuthState
  receive_frame (tag, payload) s =
      if tag == tag_checkpoint
      then elim (decode_checkpoint_payload payload) [
        | none ↦ (none, s)
        | some (hash, sig, opus) ↦
            let (r, s') = verify_frame opus tag (some (hash, sig)) s in (some r, s')
      ]
      else let (r, s') = verify_frame payload tag none s in (some r, s')
