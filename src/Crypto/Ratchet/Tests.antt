-- ===== src/Crypto/Ratchet/Tests.antt =====
-- Runs of crypto/ratchet.rs over toy primitives, and the theorems at such inputs.
use native.Mathlib.Nat.{mul_comm}
use text.Mathlib.Text.{◌==◌ as str_eq}
use proscenium.Common.{
  ℕ, ◌+◌, ◌*◌, ◌≤◌, ◌≡◌, refl, Option, none, some, String, List, [], ◌∷◌, map, arith, ◌==◌,
  if◌then◌else◌, length,
}
use proscenium.Crypto.Ratchet.{
  Primitives, RatchetState, ok, err, decryption_failed, kdf_rk, kdf_ck, init_alice, init_bob,
  encrypt, decrypt, skip_messages, skip_loop, next_message, try_skipped_keys, receive_new,
  follow_header, take_skipped, generate_keypair,
}
use proscenium.Crypto.Ratchet.Bounds.{length-decrypt}
use proscenium.Crypto.Ratchet.Skip.{key_at, after_skip, skip_messages_lem}
use proscenium.Crypto.Ratchet.Chain.{Follows, header_of}
use proscenium.Crypto.Ratchet.Delivery.{Delivery, deliver_all, deliver_all_lem}
use proscenium.Crypto.Ratchet.Turns.{Sends, init-Offers, encrypt-Sends}
use proscenium.Crypto.Ratchet.NewChain.{decrypt-first}

abbrev toy_hkdf : Option ℕ → ℕ → String → ℕ → ℕ
toy_hkdf (some salt) key info len = salt * key + 7
toy_hkdf none key info len = if str_eq info "proscenium-dm-ck-msg" then 2 * key + 1 else key + 1

abbrev toy_open : ℕ → List ℕ → Option (List ℕ)
toy_open key [] = none
toy_open key (tag ∷ m) = if tag == key then some m else none

abbrev toy : Primitives
toy = record {
  hkdf = toy_hkdf;
  public_key = λ a. a;
  diffie_hellman = λ a b. a * b;
  aead_encrypt = λ key m. key ∷ m;
  aead_decrypt = toy_open;
}

toy-opens : (k : ℕ) (m : List ℕ) → toy_open k (k ∷ m) ≡ some m
toy-opens k m = ground arith

toy-agrees : (a b : ℕ) → a * b ≡ b * a
toy-agrees a b = mul_comm a b

abbrev alice : RatchetState
alice = init_alice toy 3 5 11

abbrev bob : RatchetState
bob = init_bob toy 5 (11, 11)

-- The receiver of a chain that begins at 40 under the ratchet key 3.
abbrev follower : RatchetState
follower = record {
  dh_self_private = 11;
  dh_self_public = 11;
  dh_remote_public = some 3;
  root_key = 5;
  chain_key_send = none;
  chain_key_recv = some 40;
  send_count = 0;
  recv_count = 0;
  prev_send_count = 0;
  skipped_keys = [];
}

abbrev follower-Follows : Follows toy 40 3 follower
follower-Follows = record { remote = refl; chain = refl; stored = tt }

abbrev shuffled : List Delivery
shuffled = (2, 0, 20 ∷ []) ∷ (0, 0, 21 ∷ 22 ∷ []) ∷ (3, 0, []) ∷ (1, 0, 23 ∷ []) ∷ []

shuffled_run :
    (deliver_all toy toy-opens 40 3 9 shuffled follower).0
    ≡ ok (20 ∷ []) ∷ ok (21 ∷ 22 ∷ []) ∷ ok [] ∷ ok (23 ∷ []) ∷ []
unfolding deliver_all decrypt try_skipped_keys receive_new follow_header skip_messages skip_loop
    next_message take_skipped kdf_ck
shuffled_run = refl

-- A message that comes twice is refused the second time.
replayed :
    let once = decrypt toy 9 (header_of toy 40 3 0 0) (81 ∷ 5 ∷ []) follower in
    let twice = decrypt toy 9 (header_of toy 40 3 0 0) (81 ∷ 5 ∷ []) once.1 in
    (once.0 ≡ ok (5 ∷ [])) × (twice.0 ≡ err decryption_failed)
unfolding decrypt try_skipped_keys receive_new follow_header skip_messages skip_loop next_message
    take_skipped kdf_ck
replayed = (refl, refl)

deliver_all_lem_example :
    ((deliver_all toy toy-opens 40 3 9 shuffled follower).0 ≡ map (λ d. ok d.2) shuffled)
    × Follows toy 40 3 (deliver_all toy toy-opens 40 3 9 shuffled follower).1
deliver_all_lem_example =
    deliver_all_lem toy toy-opens 40 3 9 shuffled follower follower-Follows (omega arith)
      (refl, (refl, (refl, (refl, tt))))

length-decrypt_example :
    length (decrypt toy 9 (header_of toy 40 3 50 0) (81 ∷ []) follower).1.skipped_keys ≤ 0 + 200
length-decrypt_example = length-decrypt toy 9 (header_of toy 40 3 50 0) (81 ∷ []) follower

skip_messages_lem_example : skip_messages toy 7 follower ≡ (ok tt, after_skip toy 7 40 follower)
skip_messages_lem_example =
    skip_messages_lem toy 7 40 follower refl (omega arith) (omega arith) (omega arith)

encrypt-Sends_example :
    (a' : RatchetState) × (encrypt toy (1 ∷ []) alice
      ≡ some
          (header_of toy (kdf_rk toy 5 33).1 3 0 0, key_at toy (kdf_rk toy 5 33).1 0 ∷ 1 ∷ [], a'))
    × Sends toy toy-agrees (kdf_rk toy 5 33).1 a'
    × (a'.send_count ≡ 0 + 1)
    × (a'.dh_self_public ≡ 3)
    × (a'.prev_send_count ≡ 0)
    × (a'.skipped_keys ≡ [])
    × (a'.recv_count ≡ 0)
unfolding init_alice generate_keypair
encrypt-Sends_example =
    encrypt-Sends toy toy-agrees (kdf_rk toy 5 33).1 (1 ∷ []) {a = alice} (record { chain = refl })
      (omega arith)

decrypt-first_example :
    (decrypt toy 9
      (header_of toy (kdf_rk toy 5 33).1 3 4 0)
      (key_at toy (kdf_rk toy 5 33).1 4 ∷ 1 ∷ [])
      bob).0
    ≡ ok (1 ∷ [])
unfolding init_alice init_bob generate_keypair
decrypt-first_example =
    (decrypt-first toy toy-opens toy-agrees 9 4 0 (kdf_rk toy 5 33).1 (1 ∷ []) {a = alice} {b = bob}
      (init-Offers toy toy-agrees 3 5 11).0
      (record { not_remote = refl; not_zero = omega arith; not_stored = tt }) (omega arith)
      (omega arith) (omega arith)).0
