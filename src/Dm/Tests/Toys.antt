-- ===== src/Dm/Tests/Toys.antt =====
-- Toy crates for two nodes, and that they keep what the crates document.
use native.Mathlib.Nat.{mul_comm}
use proscenium.Common.{
  ℕ, zero, suc, ◌+◌, ◌*◌, ◌≡◌, refl, ap, sym, ◌∙◌, inl, inr, Option-cases, true, false, Option,
  none, some, List, [], ◌∷◌, ◌++◌, arith, ◌==◌, if◌then◌else◌, length, take, drop, from_be,
  be_bytes, from_be-be_bytes, take-append, drop-append,
}
use proscenium.Crypto.Ratchet.{Primitives, RatchetState, SkippedKey}
use proscenium.Crypto.Noise.{Snow}
use proscenium.Crypto.Noise.Agreement.{Honest}
use proscenium.Dm.{
  Crates, DmPayload, EncryptedEnvelope, message, typing, read, delivered, call_offer, call_answer,
  call_reject, call_hangup,
}
use proscenium.Dm.Sealing.RoundTrip.{Laws}

abbrev toy_open : ℕ → List ℕ → Option (List ℕ)
toy_open key [] = none
toy_open key (tag ∷ m) = if tag == key then some m else none

abbrev pub toy : Primitives
toy = record {
  hkdf = λ salt key info len. key + 1;
  public_key = λ a. a;
  diffie_hellman = λ a b. a * b;
  aead_encrypt = λ key m. key ∷ m;
  aead_decrypt = toy_open;
}

pub toy-opens : (k : ℕ) (m : List ℕ) → toy_open k (k ∷ m) ≡ some m
toy-opens k m = ground arith

pub toy-agrees : (a b : ℕ) → a * b ≡ b * a
toy-agrees a b = mul_comm a b

-- An option in front of other cells.
abbrev put : Option ℕ → List ℕ → List ℕ
put none r = 0 ∷ r
put (some k) r = 1 ∷ k ∷ r

abbrev keys_to : List SkippedKey → List ℕ
keys_to [] = []
keys_to (k ∷ ks) = k.ratchet_public ∷ k.message_number ∷ k.message_key ∷ keys_to ks

abbrev keys_from : List ℕ → List SkippedKey
keys_from (a ∷ b ∷ c ∷ r) =
    record { ratchet_public = a; message_number = b; message_key = c } ∷ keys_from r
keys_from _ = []

keys-keys : (ks : List SkippedKey) → keys_from (keys_to ks) ≡ ks
keys-keys [] = refl
keys-keys (k ∷ ks) = ap (◌∷◌ k) (keys-keys ks)

abbrev pub state_to : RatchetState → List ℕ
state_to s =
    s.dh_self_private
    ∷ s.dh_self_public
    ∷ s.root_key
    ∷ s.send_count
    ∷ s.recv_count
    ∷ s.prev_send_count
    ∷ put s.dh_remote_public (put s.chain_key_send (put s.chain_key_recv (keys_to s.skipped_keys)))

abbrev get : List ℕ → (Option ℕ → List ℕ → Option RatchetState) → Option RatchetState
get (zero ∷ r) f = f none r
get (suc _ ∷ k ∷ r) f = f (some k) r
get _ f = none

abbrev state_from : List ℕ → Option RatchetState
state_from (private ∷ public ∷ root ∷ sent ∷ received ∷ before ∷ r) = get r (λ remote r₁.
    get r₁ (λ send r₂. get r₂ (λ receive r₃. some (record {
      dh_self_private = private;
      dh_self_public = public;
      dh_remote_public = remote;
      root_key = root;
      chain_key_send = send;
      chain_key_recv = receive;
      send_count = sent;
      recv_count = received;
      prev_send_count = before;
      skipped_keys = keys_from r₃;
    }))))
state_from _ = none

get-put :
    (o : Option ℕ) (r : List ℕ) (f : Option ℕ → List ℕ → Option RatchetState)
    → get (put o r) f ≡ f o r
get-put none r f = refl
get-put (some k) r f = refl

state-state : (s : RatchetState) → state_from (state_to s) ≡ some s
state-state s = rw (get-put, get-put, get-put, keys-keys s.skipped_keys) refl

-- A flag for each payload, its numbers, and for a message the length of the content before it.
abbrev payload_to : DmPayload → List ℕ
payload_to (message m) =
    0 ∷ m.id ∷ m.timestamp ∷ length m.content ∷ put m.reply_to (m.content ++ m.media)
payload_to typing = 1 ∷ []
payload_to (read id) = 2 ∷ id ∷ []
payload_to (delivered id) = 3 ∷ id ∷ []
payload_to (call_offer id true) = 4 ∷ id ∷ []
payload_to (call_offer id false) = 5 ∷ id ∷ []
payload_to (call_answer id) = 6 ∷ id ∷ []
payload_to (call_reject id) = 7 ∷ id ∷ []
payload_to (call_hangup id) = 8 ∷ id ∷ []

abbrev message_from : ℕ → ℕ → ℕ → Option ℕ → List ℕ → Option DmPayload
message_from id timestamp n reply r = some (
    message (record {
      id = id;
      content = take n r;
      timestamp = timestamp;
      media = drop n r;
      reply_to = reply;
    }))

abbrev signal : ℕ → ℕ → DmPayload
signal tag id =
    if tag == 2
    then read id
    else if tag == 3
    then delivered id
    else if tag == 4
    then call_offer id true
    else if tag == 5
    then call_offer id false
    else if tag == 6
    then call_answer id
    else if tag == 7
    then call_reject id
    else call_hangup id

abbrev payload_from : List ℕ → Option DmPayload
payload_from (zero ∷ id ∷ timestamp ∷ n ∷ zero ∷ r) = message_from id timestamp n none r
payload_from (zero ∷ id ∷ timestamp ∷ n ∷ suc _ ∷ k ∷ r) = message_from id timestamp n (some k) r
payload_from (suc _ ∷ []) = some typing
payload_from (tag ∷ id ∷ []) = some (signal tag id)
payload_from _ = none

message-message :
    (id timestamp : ℕ) (content media : List ℕ) (reply : Option ℕ)
    → message_from id timestamp (length content) reply (content ++ media)
      ≡ some (
          message (record {
            id = id;
            content = content;
            timestamp = timestamp;
            media = media;
            reply_to = reply;
          }))
message-message id timestamp content media reply =
    rw
      (
        take-append (length content) content media refl,
        drop-append (length content) content media refl,
      )
      refl

payload-payload : (p : DmPayload) → payload_from (payload_to p) ≡ some p
payload-payload (message m) = elim (Option-cases m.reply_to) [
  | inl e ↦
      rw e (message-message m.id m.timestamp m.content m.media none)
      ∙ ap (λ r. some (message (record m { reply_to = r }))) (sym e)
  | inr (k, e) ↦
      rw e (message-message m.id m.timestamp m.content m.media (some k))
      ∙ ap (λ r. some (message (record m { reply_to = r }))) (sym e)
]
payload-payload typing = refl
payload-payload (read id) = refl
payload-payload (delivered id) = refl
payload-payload (call_offer id true) = refl
payload-payload (call_offer id false) = refl
payload-payload (call_answer id) = refl
payload-payload (call_reject id) = refl
payload-payload (call_hangup id) = refl

abbrev pub tag_bytes : List ℕ
tag_bytes = be_bytes 16 0

abbrev pub toy_crates : Crates
toy_crates = record {
  hex_encode = from_be 0;
  hex_decode = λ s. some (be_bytes 32 s);
  base64_encode = λ b. b;
  base64_decode = λ b. some b;
  chacha_encrypt = λ key nonce m. some (tag_bytes ++ m);
  chacha_decrypt = λ key nonce m. some (drop 16 m);
  from_utf8 = λ b. some b;
  state_to_json = state_to;
  state_from_json = state_from;
  payload_to_json = payload_to;
  payload_from_json = payload_from;
  envelope_to_json = λ e. e.sender ∷ [];
  envelope_from_json = envelope_from;
  sha256_hex = λ a b. a * 1000 + b;
  parse_node_id = λ s. some s;
}
  where
    envelope_from : List ℕ → Option EncryptedEnvelope
    envelope_from [] = none
    envelope_from (sender ∷ r) = some (record {
      sender = sender;
      ratchet_header = record { dh_public = 0; message_number = 0; previous_chain_length = 0 };
      ciphertext = r;
    })

pub toy-Laws : Laws toy_crates
toy-Laws = record {
  hex = λ k h. ap (λ n. some (be_bytes 32 n)) (from_be-be_bytes 32 k h);
  base64 = λ b. refl;
  opens = λ key nonce m ct e. ground arith;
  tagged = λ key nonce m ct e. ground arith;
  encrypts = λ key nonce m l. (tag_bytes ++ m, refl);
  utf8 = λ r. refl;
  state = state-state;
  payload = payload-payload;
}

-- Either side sends its key in the first message, and the transcript's hash is fixed.
abbrev pub toy_snow : Snow
toy_snow = record {
  HandshakeState = List ℕ;
  build_initiator = λ private peer. some (private ∷ peer ∷ []);
  build_responder = λ private. some (private ∷ []);
  write_message = write;
  read_message = receive;
  get_handshake_hash = λ hs. 5 ∷ [];
  get_remote_static = λ hs. some (drop 2 hs);
  into_transport_mode = λ hs. true;
}
  where
    write : List ℕ → Option (List ℕ × List ℕ)
    write (private ∷ peer ∷ []) = some (private ∷ peer ∷ [], be_bytes 32 private)
    write hs = some (hs, 7 ∷ [])

    receive : List ℕ → List ℕ → Option (List ℕ)
    receive (private ∷ []) m = some (private ∷ 0 ∷ m)
    receive hs m = some hs

abbrev pub toy_honest : Honest toy_snow 3 3 11 11
toy_honest = record {
  initiator = 3 ∷ 11 ∷ [];
  sent = 3 ∷ 11 ∷ [];
  responder = 11 ∷ [];
  received = 11 ∷ 0 ∷ be_bytes 32 3;
  replied = 11 ∷ 0 ∷ be_bytes 32 3;
  finished = 3 ∷ 11 ∷ [];
  first = be_bytes 32 3;
  second = 7 ∷ [];
  built = refl;
  first_written = refl;
  peer_built = refl;
  first_read = refl;
  second_written = refl;
  second_read = refl;
  same_hash = refl;
  revealed = refl;
  initiator_done = refl;
  responder_done = refl;
}
