-- ===== src/Crypto/Ratchet.antt =====
-- src-tauri/src/crypto/ratchet.rs, the Double Ratchet, and the X25519 helpers of keys.rs it calls.
-- A byte array of fixed size is the number that it spells, most significant byte first.
-- `u32` counters are numbers whose additions wrap as in a release build.
pub mod Skip
pub mod Bounds
pub mod Steps
pub mod Chain
pub mod Delivery
pub mod Turns
pub mod NewChain
mod Tests
use proscenium.Common.{
  ℕ, zero, suc, ◌-◌, ◌/◌, ◌%◌, ◌^◌, String, Bool, false, ◌&&◌, Option, none, some, List, [], ◌∷◌,
  ◌++◌, ltb, ◌==◌, if◌then◌else◌, add_u32,
}

-- The crates that the code calls: hkdf over SHA-256 (salt, input key, info, output length),
-- x25519-dalek, and chacha20poly1305 under the zero nonce (`none`: authentication failed).
pub record Primitives : Type 0 where
  pub hkdf : Option ℕ → ℕ → String → ℕ → ℕ
  pub public_key : ℕ → ℕ
  pub diffie_hellman : ℕ → ℕ → ℕ
  pub aead_encrypt : ℕ → List ℕ → List ℕ
  pub aead_decrypt : ℕ → List ℕ → Option (List ℕ)

pub data CryptoError : Type 0 where
  decryption_failed too_many_skipped : CryptoError

pub data Result (A : Type 0) : Type 0 where
  ok : A → Result A
  err : CryptoError → Result A

pub record SkippedKey : Type 0 where
  pub ratchet_public : ℕ
  pub message_number : ℕ
  pub message_key : ℕ

pub record RatchetHeader : Type 0 where
  pub dh_public : ℕ
  pub message_number : ℕ
  pub previous_chain_length : ℕ

pub record RatchetState : Type 0 where
  pub dh_self_private : ℕ
  pub dh_self_public : ℕ
  pub dh_remote_public : Option ℕ
  pub root_key : ℕ
  pub chain_key_send : Option ℕ
  pub chain_key_recv : Option ℕ
  pub send_count : ℕ
  pub recv_count : ℕ
  pub prev_send_count : ℕ
  pub skipped_keys : List SkippedKey

abbrev pub max_skip : ℕ
max_skip = 100

-- A method of `&mut self` that may fail: what it changed stays changed when it fails.
abbrev pub M : Type 0 → Type 0
M A = RatchetState → Result A × RatchetState

abbrev pub and_then : {A B : Type 0} → Result A × RatchetState → (A → M B) → Result B × RatchetState
and_then (ok a, s) f = f a s
and_then (err e, s) f = (err e, s)

infixl 5 ◌>>=◌ ◌>>◌
abbrev pub ◌>>=◌ : {A B : Type 0} → M A → (A → M B) → M B
◌>>=◌ m f s = and_then (m s) f

abbrev pub ◌>>◌ : {A B : Type 0} → M A → M B → M B
◌>>◌ m k s = and_then (m s) (λ _. k)

abbrev pub pure : {A : Type 0} → A → M A
pure a s = (ok a, s)

-- `ok_or(DecryptionFailed)` and the `map_err` of `decrypt_message`.
abbrev or_failed : {A : Type 0} → Option A → Result A
or_failed none = err decryption_failed
or_failed (some a) = ok a

abbrev is_remote : Option ℕ → ℕ → Bool
is_remote none key = false
is_remote (some k) key = k == key

abbrev remote_or_zero : Option ℕ → ℕ
remote_or_zero none = 0
remote_or_zero (some k) = k

abbrev matches : RatchetHeader → SkippedKey → Bool
matches h k = (k.ratchet_public == h.dh_public) && (k.message_number == h.message_number)

-- `position` and `remove`: the first key that matches, and the others.
pub take_skipped : RatchetHeader → List SkippedKey → Option (SkippedKey × List SkippedKey)
take_skipped h [] = none
take_skipped h (k ∷ ks) =
    if matches h k
    then some (k, ks)
    else elim (take_skipped h ks) [ none ↦ none | some (found, rest) ↦ some (found, k ∷ rest) ]

module _ (c : Primitives) where
  open c use {hkdf, public_key, diffie_hellman, aead_encrypt, aead_decrypt}

  -- The root key and the chain key are the two halves of 64 bytes.
  pub kdf_rk : ℕ → ℕ → ℕ × ℕ
  kdf_rk root_key dh_output =
      let output = hkdf (some root_key) dh_output "proscenium-dm-rk" 64 in
      (output / 2 ^ 256, output % 2 ^ 256)

  -- The next chain key and the message key.
  pub kdf_ck : ℕ → ℕ × ℕ
  kdf_ck chain_key = (
    hkdf none chain_key "proscenium-dm-ck-chain" 32,
    hkdf none chain_key "proscenium-dm-ck-msg" 32,
  )

  -- `generate_x25519_keypair`, its random bytes an argument.
  pub generate_keypair : ℕ → ℕ × ℕ
  generate_keypair random = (random, public_key random)

  pub decrypt_message : ℕ → List ℕ → Result (List ℕ)
  decrypt_message key ciphertext = or_failed (aead_decrypt key ciphertext)

  pub init_alice : ℕ → ℕ → ℕ → RatchetState
  unfolding generate_keypair
  init_alice random shared_secret bob_dh_public =
      let (private, public) = generate_keypair random in
      let dh_output = diffie_hellman private bob_dh_public in
      let (root_key, chain_key_send) = kdf_rk shared_secret dh_output in
      record {
        dh_self_private = private;
        dh_self_public = public;
        dh_remote_public = some bob_dh_public;
        root_key = root_key;
        chain_key_send = some chain_key_send;
        chain_key_recv = none;
        send_count = 0;
        recv_count = 0;
        prev_send_count = 0;
        skipped_keys = [];
      }

  pub init_bob : ℕ → ℕ × ℕ → RatchetState
  init_bob shared_secret (private, public) = record {
    dh_self_private = private;
    dh_self_public = public;
    dh_remote_public = none;
    root_key = shared_secret;
    chain_key_send = none;
    chain_key_recv = none;
    send_count = 0;
    recv_count = 0;
    prev_send_count = 0;
    skipped_keys = [];
  }

  -- `none` is the panic of `expect`.
  pub encrypt : List ℕ → RatchetState → Option (RatchetHeader × List ℕ × RatchetState)
  encrypt plaintext s = elim s.chain_key_send [
    | none ↦ none
    | some chain_key ↦
        let (new_chain, msg_key) = kdf_ck chain_key in
        let header : RatchetHeader = record {
          dh_public = s.dh_self_public;
          message_number = s.send_count;
          previous_chain_length = s.prev_send_count;
        } in
        some (
          header,
          aead_encrypt msg_key plaintext,
          record s { chain_key_send = some new_chain; send_count = add_u32 s.send_count 1 },
        )
  ]

  pub try_skipped_keys : RatchetHeader → List ℕ → M (Option (List ℕ))
  unfolding decrypt_message
  try_skipped_keys header ciphertext s = elim (take_skipped header s.skipped_keys) [
    | none ↦ (ok none, s)
    | some (sk, rest) ↦
        and_then (decrypt_message sk.message_key ciphertext, record s { skipped_keys = rest })
          (λ plaintext. pure (some plaintext))
  ]

  -- The `while` of `skip_messages`, on fuel, and the write of the chain key behind it.
  pub skip_loop : ℕ → ℕ → ℕ → RatchetState → RatchetState
  skip_loop zero until chain_key s = record s { chain_key_recv = some chain_key }
  skip_loop (suc fuel) until chain_key s =
      let (new_chain, msg_key) = kdf_ck chain_key in
      let key : SkippedKey = record {
        ratchet_public = remote_or_zero s.dh_remote_public;
        message_number = s.recv_count;
        message_key = msg_key;
      } in
      let rest = skip_loop fuel until new_chain (record s {
        skipped_keys = s.skipped_keys ++ (key ∷ []);
        recv_count = add_u32 s.recv_count 1;
      }) in
      if ltb s.recv_count until then rest else record s { chain_key_recv = some chain_key }

  pub skip_messages : ℕ → M (Unit {0})
  skip_messages until s =
      if ltb (add_u32 s.recv_count max_skip) until
      then (err too_many_skipped, s)
      else elim s.chain_key_recv [
        | none ↦ (ok tt, s)
        | some chain_key ↦ (ok tt, skip_loop (until - s.recv_count) until chain_key s)
      ]

  pub dh_ratchet : ℕ → ℕ → RatchetState → RatchetState
  unfolding generate_keypair
  dh_ratchet random new_remote_public s =
      let (root_recv, chain_key_recv) =
        kdf_rk s.root_key (diffie_hellman s.dh_self_private new_remote_public) in
      let (new_private, new_public) = generate_keypair random in
      let (root_send, chain_key_send) =
        kdf_rk root_recv (diffie_hellman new_private new_remote_public) in
      record s {
        prev_send_count = s.send_count;
        send_count = 0;
        recv_count = 0;
        dh_remote_public = some new_remote_public;
        root_key = root_send;
        chain_key_recv = some chain_key_recv;
        chain_key_send = some chain_key_send;
        dh_self_private = new_private;
        dh_self_public = new_public;
      }

  -- The DH ratchet step of `decrypt`, taken when the header shows a new key.
  pub follow_header : ℕ → RatchetHeader → M (Unit {0})
  follow_header random header s =
      if is_remote s.dh_remote_public header.dh_public
      then (ok tt, s)
      else and_then (skip_messages header.previous_chain_length s)
          (λ _ s'. (ok tt, dh_ratchet random header.dh_public s'))

  -- The end of `decrypt`: the next key of the receiving chain.
  pub next_message : List ℕ → M (List ℕ)
  unfolding decrypt_message
  next_message ciphertext s = elim s.chain_key_recv [
    | none ↦ (err decryption_failed, s)
    | some chain_key ↦
        let (new_chain, msg_key) = kdf_ck chain_key in
        (
          decrypt_message msg_key ciphertext,
          record s { chain_key_recv = some new_chain; recv_count = add_u32 s.recv_count 1 },
        )
  ]

  pub receive_new : ℕ → RatchetHeader → List ℕ → M (List ℕ)
  receive_new random header ciphertext = do
    follow_header random header
    skip_messages header.message_number
    next_message ciphertext

  pub decrypt : ℕ → RatchetHeader → List ℕ → M (List ℕ)
  decrypt random header ciphertext = do
    skipped ← try_skipped_keys header ciphertext
    elim skipped [ some plaintext ↦ pure plaintext | none ↦ receive_new random header ciphertext ]
