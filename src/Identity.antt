-- ===== src/Identity.antt =====
-- crates/proscenium-types/src/delegation.rs and signing.rs: what a user signs, and how it is
-- verified. A string that only names something (a public key in hex, an id) is a number, and a
-- signature in hex is its text, a list of bytes.
mod Types
pub mod Honest
mod Requests
mod Tests
pub use Types.*
use proscenium.Common.{
  ℕ, String, Bool, true, false, Option, none, some, List, [], ◌∷◌, ◌==◌, if◌then◌else◌, length,
  u32_bytes,
}

-- iroh's Ed25519 keys (a secret, its public key in hex and parsed, signatures of 64 bytes), the
-- crates hex and serde_json, and hkdf over SHA-256 (salt, key, info, output length).
pub record Keys : Type 0 where
  pub public_key : ℕ → ℕ
  pub parse_key : ℕ → Option ℕ
  pub sign : ℕ → List ℕ → List ℕ
  pub verify : ℕ → List ℕ → List ℕ → Bool
  pub hex_encode : List ℕ → List ℕ
  pub hex_decode : List ℕ → Option (List ℕ)
  pub to_json : List (String × Value) → List ℕ
  pub hkdf : List ℕ → ℕ → String → ℕ → ℕ

module _ (c : Keys) where
  open c use {public_key, parse_key, sign, verify, hex_encode, hex_decode, to_json, hkdf}

  pub derive_signing_key : ℕ → ℕ → ℕ
  derive_signing_key master_secret index =
      hkdf (u32_bytes index) master_secret "proscenium/signing-key" 32

  pub derive_transport_key : ℕ → ℕ → ℕ
  derive_transport_key master_secret device_index =
      hkdf (u32_bytes device_index) master_secret "proscenium/transport-key" 32

  pub derive_dm_key : ℕ → ℕ → ℕ
  derive_dm_key master_secret index = hkdf (u32_bytes index) master_secret "proscenium/dm-key" 32

  unfoldable pub signature_to_hex : List ℕ → List ℕ
  signature_to_hex sig = hex_encode sig

  unfoldable pub hex_to_signature : List ℕ → Result (List ℕ)
  hex_to_signature hex_str = do
    ensure (length hex_str == 128) bad_length
    bytes ← or_err (hex_decode hex_str) bad_hex
    ensure (length bytes == 64) bad_length
    ok bytes

  pub post_signing_bytes : Post → List ℕ
  post_signing_bytes p = to_json (
      ("id", name p.id)
      ∷ ("author", name p.author)
      ∷ ("content", text p.content)
      ∷ ("timestamp", number p.timestamp)
      ∷ ("media", names p.media)
      ∷ ("reply_to", optional p.reply_to)
      ∷ ("reply_to_author", optional p.reply_to_author)
      ∷ ("quote_of", optional p.quote_of)
      ∷ ("quote_of_author", optional p.quote_of_author)
      ∷ [])

  pub interaction_signing_bytes : Interaction → List ℕ
  interaction_signing_bytes i = to_json (
      ("id", name i.id)
      ∷ ("author", name i.author)
      ∷ ("kind", word "Like")
      ∷ ("target_post_id", name i.target_post_id)
      ∷ ("target_author", name i.target_author)
      ∷ ("timestamp", number i.timestamp)
      ∷ [])

  pub profile_signing_bytes : Profile → List ℕ
  profile_signing_bytes p = to_json (
      ("display_name", text p.display_name)
      ∷ ("bio", text p.bio)
      ∷ ("avatar_hash", optional p.avatar_hash)
      ∷ ("avatar_ticket", optional p.avatar_ticket)
      ∷ ("visibility", visible p.visibility)
      ∷ [])

  pub delete_post_signing_bytes : ℕ → ℕ → List ℕ
  delete_post_signing_bytes id author =
      to_json (("action", word "delete_post") ∷ ("id", name id) ∷ ("author", name author) ∷ [])

  pub delete_interaction_signing_bytes : ℕ → ℕ → List ℕ
  delete_interaction_signing_bytes id author =
      to_json
        (("action", word "delete_interaction") ∷ ("id", name id) ∷ ("author", name author) ∷ [])

  pub linked_devices_signing_bytes : LinkedDevicesAnnouncement → List ℕ
  linked_devices_signing_bytes a = to_json (
      ("master_pubkey", name a.master_pubkey)
      ∷ ("devices", device_list a.devices)
      ∷ ("version", number a.version)
      ∷ ("timestamp", number a.timestamp)
      ∷ [])

  pub delegation_signing_bytes : ℕ → ℕ → ℕ → ℕ → ℕ → ℕ → List ℕ
  delegation_signing_bytes master_pubkey signing_pubkey key_index dm_pubkey dm_key_index issued_at =
      to_json (
        ("master_pubkey", name master_pubkey)
        ∷ ("signing_pubkey", name signing_pubkey)
        ∷ ("key_index", number key_index)
        ∷ ("dm_pubkey", name dm_pubkey)
        ∷ ("dm_key_index", number dm_key_index)
        ∷ ("issued_at", number issued_at)
        ∷ [])

  pub rotation_signing_bytes : ℕ → ℕ → ℕ → ℕ → ℕ → List ℕ
  rotation_signing_bytes master_pubkey old_signing_pubkey new_signing_pubkey new_key_index
        timestamp =
      to_json (
        ("action", word "signing_key_rotation")
        ∷ ("master_pubkey", name master_pubkey)
        ∷ ("old_signing_pubkey", name old_signing_pubkey)
        ∷ ("new_signing_pubkey", name new_signing_pubkey)
        ∷ ("new_key_index", number new_key_index)
        ∷ ("timestamp", number timestamp)
        ∷ [])

  -- The end of every verification.
  unfoldable pub verify_bytes : ℕ → List ℕ → List ℕ → Result (Unit {0})
  verify_bytes signer bytes signature = do
    sig ← hex_to_signature signature
    ensure (verify signer bytes sig) verification_failed

  unfoldable pub sign_bytes : ℕ → List ℕ → List ℕ
  sign_bytes secret_key bytes = signature_to_hex (sign secret_key bytes)

  unfoldable pub sign_post : Post → ℕ → Post
  sign_post post secret_key = record post {
    signature = sign_bytes secret_key (post_signing_bytes post);
  }

  unfoldable pub verify_post_signature : Post → ℕ → Result (Unit {0})
  verify_post_signature post signer_pubkey =
      verify_bytes signer_pubkey (post_signing_bytes post) post.signature

  unfoldable pub sign_interaction : Interaction → ℕ → Interaction
  sign_interaction i secret_key = record i {
    signature = sign_bytes secret_key (interaction_signing_bytes i);
  }

  unfoldable pub verify_interaction_signature : Interaction → ℕ → Result (Unit {0})
  verify_interaction_signature i signer_pubkey =
      verify_bytes signer_pubkey (interaction_signing_bytes i) i.signature

  unfoldable pub sign_profile : Profile → ℕ → Profile
  sign_profile p secret_key = record p {
    signature = sign_bytes secret_key (profile_signing_bytes p);
  }

  unfoldable pub verify_profile_signature : Profile → ℕ → Result (Unit {0})
  verify_profile_signature p signer_pubkey =
      verify_bytes signer_pubkey (profile_signing_bytes p) p.signature

  unfoldable pub sign_delete_post : ℕ → ℕ → ℕ → List ℕ
  sign_delete_post id author secret_key =
      sign_bytes secret_key (delete_post_signing_bytes id author)

  unfoldable pub verify_delete_post_signature : ℕ → ℕ → List ℕ → ℕ → Result (Unit {0})
  verify_delete_post_signature id author signature signer_pubkey =
      verify_bytes signer_pubkey (delete_post_signing_bytes id author) signature

  unfoldable pub sign_delete_interaction : ℕ → ℕ → ℕ → List ℕ
  sign_delete_interaction id author secret_key =
      sign_bytes secret_key (delete_interaction_signing_bytes id author)

  unfoldable pub verify_delete_interaction_signature : ℕ → ℕ → List ℕ → ℕ → Result (Unit {0})
  verify_delete_interaction_signature id author signature signer_pubkey =
      verify_bytes signer_pubkey (delete_interaction_signing_bytes id author) signature

  unfoldable pub sign_delegation : ℕ → ℕ → ℕ → ℕ → ℕ → ℕ → SigningKeyDelegation
  sign_delegation master_secret signing_pubkey key_index dm_pubkey dm_key_index issued_at = record {
    master_pubkey = public_key master_secret;
    signing_pubkey = signing_pubkey;
    key_index = key_index;
    dm_pubkey = dm_pubkey;
    dm_key_index = dm_key_index;
    issued_at = issued_at;
    signature = sign_bytes master_secret (
        delegation_signing_bytes (public_key master_secret) signing_pubkey key_index dm_pubkey
          dm_key_index issued_at);
  }

  unfoldable pub verify_delegation : SigningKeyDelegation → Result (Unit {0})
  verify_delegation d = do
    sig ← hex_to_signature d.signature
    master_pubkey ← or_err (parse_key d.master_pubkey) invalid_key
    signing_pubkey ← or_err (parse_key d.signing_pubkey) invalid_key
    let bytes =
        delegation_signing_bytes d.master_pubkey d.signing_pubkey d.key_index d.dm_pubkey
          d.dm_key_index d.issued_at
    ensure (verify master_pubkey bytes sig) verification_failed

  unfoldable pub sign_rotation : ℕ → ℕ → ℕ → ℕ → ℕ → SigningKeyDelegation → SigningKeyRotation
  sign_rotation master_secret old_signing_pubkey new_signing_pubkey new_key_index timestamp d =
      record {
        master_pubkey = public_key master_secret;
        old_signing_pubkey = old_signing_pubkey;
        new_signing_pubkey = new_signing_pubkey;
        new_key_index = new_key_index;
        timestamp = timestamp;
        signature = sign_bytes master_secret (
            rotation_signing_bytes (public_key master_secret) old_signing_pubkey new_signing_pubkey
              new_key_index timestamp);
        new_delegation = d;
      }

  unfoldable pub verify_rotation : SigningKeyRotation → Result (Unit {0})
  verify_rotation r = do
    sig ← hex_to_signature r.signature
    master_pubkey ← or_err (parse_key r.master_pubkey) invalid_key
    let bytes =
        rotation_signing_bytes r.master_pubkey r.old_signing_pubkey r.new_signing_pubkey
          r.new_key_index r.timestamp
    ensure (verify master_pubkey bytes sig) verification_failed
    verify_delegation r.new_delegation
    ensure (r.new_delegation.master_pubkey == r.master_pubkey) mismatch
    ensure (r.new_delegation.signing_pubkey == r.new_signing_pubkey) mismatch
    ensure (r.new_delegation.key_index == r.new_key_index) mismatch
    ok tt

  unfoldable pub sign_linked_devices_announcement :
      LinkedDevicesAnnouncement → ℕ → LinkedDevicesAnnouncement
  sign_linked_devices_announcement a secret_key = record a {
    signature = sign_bytes secret_key (linked_devices_signing_bytes a);
  }

  unfoldable pub verify_linked_devices_announcement : LinkedDevicesAnnouncement → Result (Unit {0})
  verify_linked_devices_announcement a = do
    verify_delegation a.delegation
    ensure (a.delegation.master_pubkey == a.master_pubkey) mismatch
    signer ← or_err (parse_key a.delegation.signing_pubkey) invalid_key
    sig ← hex_to_signature a.signature
    ensure (verify signer (linked_devices_signing_bytes a) sig) verification_failed
