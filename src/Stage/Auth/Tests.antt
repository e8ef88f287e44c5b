-- ===== src/Stage/Auth/Tests.antt =====
-- Runs of stage/auth.rs over a toy hash and signature, and the theorems at such inputs.
use proscenium.Common.{
  ℕ, ◌+◌, ◌≡◌, refl, ◌⊎◌, Bool, true, false, some, List, [], ◌∷◌, ◌++◌, length, ◌==◌, ==_refl, All,
}
use proscenium.Wire.Audio.{tag_checkpoint}
use proscenium.Stage.Auth.{
  Crypto, HostAuthState, ListenerAuthState, tamper_detected, zeros, next_hash, receive_frame,
  verify_frame, verify_checkpoint, decode_checkpoint_payload, new_listener,
}
use proscenium.Stage.Auth.Honest.{is_fine, stream, stream_fine, new_listener-InStep}
use proscenium.Stage.Auth.Tamper.{
  Collision, IsVerified, hash_all, feed, tamper_alarm, lost_frame_alarm,
}

abbrev sum : List ℕ → ℕ
sum [] = 0
sum (x ∷ xs) = x + sum xs

abbrev first_is : ℕ → List ℕ → Bool
first_is k [] = false
first_is k (b ∷ bs) = b == k

abbrev toy : Crypto
toy = record {
  sha256 = λ m. (sum m + 1) ∷ zeros 31;
  public_of = λ k. k;
  sign = λ k m. k ∷ zeros 63;
  verify = λ k m sig. first_is k sig;
}

toy-hash_length : (m : List ℕ) → length (toy.sha256 m) ≡ 32
toy-hash_length m = refl

toy-sign_length : (k : ℕ) (m : List ℕ) → length (toy.sign k m) ≡ 64
toy-sign_length k m = refl

toy-signed : (k : ℕ) (m : List ℕ) → toy.verify (toy.public_of k) m (toy.sign k m) ≡ true
toy-signed k m = ==_refl k

-- A host whose next frame but one is a checkpoint.
abbrev host : HostAuthState
host = record { chain_hash = zeros 32; sequence = 48; signing_key = 5 }

-- A listener that has verified the host's chain.
abbrev trusting : ListenerAuthState
trusting = record { chain_hash = zeros 32; verified = true; compromised = false; host_pubkey = 5 }

abbrev trusting-IsVerified : IsVerified (zeros 32) trusting
trusting-IsVerified = record { verified = refl; calm = refl; chain = refl }

stream_fine_example :
    All
      (λ r. is_fine r ≡ true)
      (stream toy toy-hash_length toy-sign_length toy-signed
        ((1 ∷ []) ∷ (2 ∷ []) ∷ (3 ∷ []) ∷ [])
        host
        (new_listener 5))
stream_fine_example =
    stream_fine toy toy-hash_length toy-sign_length toy-signed ((1 ∷ []) ∷ (2 ∷ []) ∷ (3 ∷ []) ∷ [])
      host (new_listener 5)
      (new_listener-InStep toy toy-hash_length toy-sign_length toy-signed host)

abbrev sent : List (List ℕ)
sent = (7 ∷ []) ∷ (4 ∷ []) ∷ []

abbrev changed : List (List ℕ)
changed = (8 ∷ []) ∷ (4 ∷ []) ∷ []

-- The relay changes the frame before the checkpoint.
tamper_alarm_example :
    let hash = hash_all toy (zeros 32) sent in
    ((sent ≡ changed)
      ⊎ ((receive_frame toy
            (tag_checkpoint, hash ++ (toy.sign 5 hash ++ (4 ∷ [])))
            (feed toy ((8 ∷ []) ∷ []) trusting)).0
          ≡ some tamper_detected))
    ⊎ Collision toy
tamper_alarm_example =
    tamper_alarm toy toy-hash_length toy-sign_length ((7 ∷ []) ∷ []) ((8 ∷ []) ∷ []) (4 ∷ [])
      (4 ∷ []) (zeros 32) 5 trusting trusting-IsVerified refl refl

tampered_run :
    let hash = hash_all toy (zeros 32) sent in
    (receive_frame toy
      (tag_checkpoint, hash ++ (toy.sign 5 hash ++ (4 ∷ [])))
      (feed toy ((8 ∷ []) ∷ []) trusting)).0
    ≡ some tamper_detected
unfolding feed receive_frame verify_frame verify_checkpoint decode_checkpoint_payload
tampered_run = refl

lost_frame_alarm_example :
    let hash = hash_all toy (zeros 32) ((7 ∷ []) ∷ (6 ∷ []) ∷ (4 ∷ []) ∷ []) in
    ((receive_frame toy
        (tag_checkpoint, hash ++ (toy.sign 5 hash ++ (4 ∷ [])))
        (feed toy ((6 ∷ []) ∷ []) trusting)).0
      ≡ some tamper_detected)
    ⊎ ((next_hash toy (zeros 32) (7 ∷ []) ≡ zeros 32) ⊎ Collision toy)
lost_frame_alarm_example =
    lost_frame_alarm toy toy-hash_length toy-sign_length (7 ∷ []) ((6 ∷ []) ∷ []) (4 ∷ [])
      (zeros 32) 5 trusting trusting-IsVerified refl
