-- ===== src/Identity/Requests.antt =====
-- What is signed for one receiver: registrations with a server
-- (crates/proscenium-types/src/registration.rs), challenges between devices and follow requests
-- (crates/proscenium-types/src/protocol.rs).
use proscenium.Common.{ℕ, ◌≡◌, refl, Option, some, List, [], ◌∷◌, ◌++◌}
use proscenium.Identity.{
  Keys, Result, Visibility, SigningKeyDelegation, ok, invalid_key, verification_failed, name,
  number, optional, visible, ◌>>=◌, or_err, ensure, hex_to_signature, sign_bytes, verify_bytes,
}
use proscenium.Identity.Honest.{Laws, hex_to_signature-sign_bytes, verify_bytes-sign_bytes}

record RegistrationPayload : Type 0 where
  master_pubkey : ℕ
  transport_node_id : ℕ
  server_url : ℕ
  timestamp : ℕ
  visibility : Visibility
  action : Option ℕ

record RegistrationRequest : Type 0 where
  payload : RegistrationPayload
  signature : List ℕ
  delegation : SigningKeyDelegation

record FollowRequest : Type 0 where
  requester : ℕ
  timestamp : ℕ
  signature : List ℕ
  delegation : SigningKeyDelegation

-- `proscenium-device-sync-v1:` in ASCII.
abbrev device_sync_tag : List ℕ
device_sync_tag =
    112 ∷ 114 ∷ 111 ∷ 115 ∷ 99 ∷ 101 ∷ 110 ∷ 105 ∷ 117 ∷ 109 ∷ 45 ∷ 100 ∷ 101 ∷ 118 ∷ 105 ∷ 99 ∷ 101
    ∷ 45 ∷ 115 ∷ 121 ∷ 110 ∷ 99 ∷ 45 ∷ 118 ∷ 49 ∷ 58 ∷ []

module _ (c : Keys) where
  unfoldable registration_signing_bytes : RegistrationPayload → List ℕ
  registration_signing_bytes p = c.to_json (
      ("action", optional p.action)
      ∷ ("master_pubkey", name p.master_pubkey)
      ∷ ("server_url", name p.server_url)
      ∷ ("timestamp", number p.timestamp)
      ∷ ("transport_node_id", name p.transport_node_id)
      ∷ ("visibility", visible p.visibility)
      ∷ [])

  unfoldable sign_registration : RegistrationPayload → ℕ → List ℕ
  sign_registration p signing_secret_key =
      sign_bytes c signing_secret_key (registration_signing_bytes p)

  -- By the signing key that the request's delegation names.
  unfoldable verify_registration_signature : RegistrationRequest → Result (Unit {0})
  verify_registration_signature r = do
    sig ← hex_to_signature c r.signature
    signer ← or_err (c.parse_key r.delegation.signing_pubkey) invalid_key
    ensure (c.verify signer (registration_signing_bytes r.payload) sig) verification_failed

  unfoldable device_sync_challenge_signing_bytes : List ℕ → List ℕ
  device_sync_challenge_signing_bytes challenge = device_sync_tag ++ challenge

  unfoldable sign_device_sync_challenge : List ℕ → ℕ → List ℕ
  sign_device_sync_challenge challenge secret_key =
      sign_bytes c secret_key (device_sync_challenge_signing_bytes challenge)

  unfoldable verify_device_sync_challenge : List ℕ → List ℕ → ℕ → Result (Unit {0})
  verify_device_sync_challenge challenge signature signer =
      verify_bytes c signer (device_sync_challenge_signing_bytes challenge) signature

  unfoldable follow_request_signing_bytes : ℕ → ℕ → List ℕ
  follow_request_signing_bytes requester timestamp =
      c.to_json (("requester", name requester) ∷ ("timestamp", number timestamp) ∷ [])

  unfoldable sign_follow_request : ℕ → ℕ → ℕ → List ℕ
  sign_follow_request requester timestamp secret_key =
      sign_bytes c secret_key (follow_request_signing_bytes requester timestamp)

  unfoldable verify_follow_request : FollowRequest → ℕ → Result (Unit {0})
  verify_follow_request r signer =
      verify_bytes c signer (follow_request_signing_bytes r.requester r.timestamp) r.signature

  module _ (laws : Laws c) where
    -- A signed registration verifies by the delegation of the key that signed it.
    verify_registration_signature-sign_registration :
        (s k : ℕ) (p : RegistrationPayload) (d : SigningKeyDelegation)
        → c.parse_key (c.public_key s) ≡ some k
        → d.signing_pubkey ≡ c.public_key s
        → verify_registration_signature
            (record { payload = p; signature = sign_registration p s; delegation = d })
          ≡ ok tt
    unfolding verify_registration_signature sign_registration
    verify_registration_signature-sign_registration s k p d e q =
        simp
          (
            hex_to_signature-sign_bytes c laws,
            q,
            e,
            laws.verifies s k (registration_signing_bytes p) e,
            verify_registration_signature,
            sign_registration,
          )
          refl

    -- Two devices with the same signing key accept each other's challenge.
    verify_device_sync_challenge-sign_device_sync_challenge :
        (s k : ℕ) (challenge : List ℕ)
        → c.parse_key (c.public_key s) ≡ some k
        → verify_device_sync_challenge challenge (sign_device_sync_challenge challenge s) k ≡ ok tt
    unfolding verify_device_sync_challenge sign_device_sync_challenge
    verify_device_sync_challenge-sign_device_sync_challenge s k challenge e =
        verify_bytes-sign_bytes c laws s k (device_sync_challenge_signing_bytes challenge) e

    verify_follow_request-sign_follow_request :
        (s k requester timestamp : ℕ) (d : SigningKeyDelegation)
        → c.parse_key (c.public_key s) ≡ some k
        → verify_follow_request
            (record {
              requester = requester;
              timestamp = timestamp;
              signature = sign_follow_request requester timestamp s;
              delegation = d;
            })
            k
          ≡ ok tt
    unfolding verify_follow_request sign_follow_request
    verify_follow_request-sign_follow_request s k requester timestamp d e =
        verify_bytes-sign_bytes c laws s k (follow_request_signing_bytes requester timestamp) e
