-- ===== src/Identity/Honest.antt =====
-- What is signed verifies.
use proscenium.Common.{ℕ, ◌≡◌, refl, true, some, List, arith, length, ==_refl}
use proscenium.Identity.{
  Keys, ok, signature_to_hex, hex_to_signature, sign_bytes, verify_bytes, sign_delegation,
  verify_delegation, sign_rotation, verify_rotation,
}

-- What the crates document: a signature has 64 bytes and verifies under its key, and hex is two
-- characters for a byte and decodes.
pub record Laws (c : Keys) : Type 0 where
  pub verifies :
      (s k : ℕ) (m : List ℕ)
      → c.parse_key (c.public_key s) ≡ some k
      → c.verify k m (c.sign s m) ≡ true
  pub sign_length : (s : ℕ) (m : List ℕ) → length (c.sign s m) ≡ 64
  pub hex : (b : List ℕ) → c.hex_decode (c.hex_encode b) ≡ some b
  pub hex_length : (b : List ℕ) → length b ≡ 64 → length (c.hex_encode b) ≡ 128

module _ (c : Keys) (laws : Laws c) where
  pub hex_to_signature-sign_bytes :
      (s : ℕ) (m : List ℕ) → hex_to_signature c (sign_bytes c s m) ≡ ok (c.sign s m)
  unfolding hex_to_signature sign_bytes signature_to_hex
  hex_to_signature-sign_bytes s m =
      rw
        (
          laws.hex_length (c.sign s m) (laws.sign_length s m),
          laws.hex (c.sign s m),
          laws.sign_length s m,
        )
        refl

  pub verify_bytes-sign_bytes :
      (s k : ℕ) (m : List ℕ)
      → c.parse_key (c.public_key s) ≡ some k
      → verify_bytes c k m (sign_bytes c s m) ≡ ok tt
  unfolding verify_bytes
  verify_bytes-sign_bytes s k m p = rw (hex_to_signature-sign_bytes s m, laws.verifies s k m p) refl

  pub verify_delegation-sign_delegation :
      (master k signing j index dm dm_index issued : ℕ)
      → c.parse_key (c.public_key master) ≡ some k
      → c.parse_key signing ≡ some j
      → verify_delegation c (sign_delegation c master signing index dm dm_index issued) ≡ ok tt
  unfolding verify_delegation sign_delegation
  verify_delegation-sign_delegation master k signing j index dm dm_index issued p q =
      simp
        (
          hex_to_signature-sign_bytes,
          p,
          q,
          laws.verifies master k _ p,
          verify_delegation,
          sign_delegation,
        )
        refl

  -- A rotation to a key, with the delegation of that key, both signed by the master key,
  -- verifies, whatever key it replaces. Keys are assumed to parse, signatures to verify, and hex
  -- to decode.
  pub verify_rotation-sign_rotation :
      (master k old new j index dm dm_index issued timestamp : ℕ)
      → c.parse_key (c.public_key master) ≡ some k
      → c.parse_key new ≡ some j
      → verify_rotation c (
          sign_rotation c master old new index timestamp
            (sign_delegation c master new index dm dm_index issued))
        ≡ ok tt
  unfolding verify_rotation sign_rotation sign_delegation
  verify_rotation-sign_rotation master k old new j index dm dm_index issued timestamp p q =
      let d = verify_delegation-sign_delegation master k new j index dm dm_index issued p q in
      simp
        (
          hex_to_signature-sign_bytes,
          p,
          laws.verifies master k _ p,
          d,
          verify_rotation,
          sign_rotation,
        )
        (ground (arith, ==_refl (c.public_key master), ==_refl new, ==_refl index))
