-- ===== src/Dm.antt =====
-- src-tauri/src/dm and the parts of src-tauri/src/storage that it writes: direct messages.
-- A string that only names something (a public key in hex, a message id) is a number; text and
-- JSON are their bytes. What the handler owns and the tables it writes are one `Store`.
pub mod Storage
pub mod Sealing
pub mod Establish
pub mod Incoming
pub mod Outbox
pub mod Delivery
pub mod FirstContact
mod Tests
use proscenium.Common.{ℕ, Bool, Option, List, ◌≡◌, refl, ap₂, ◌⊎◌, inl, inr}
use proscenium.Crypto.Ratchet.{RatchetState, RatchetHeader, CryptoError}

pub record DirectMessage : Type 0 where
  pub id : ℕ
  pub content : List ℕ
  pub timestamp : ℕ
  pub media : List ℕ
  pub reply_to : Option ℕ

pub data DmPayload : Type 0 where
  message : DirectMessage → DmPayload
  typing : DmPayload
  read delivered : ℕ → DmPayload
  call_offer : ℕ → Bool → DmPayload
  call_answer call_reject call_hangup : ℕ → DmPayload

pub record RatchetHeaderWire : Type 0 where
  pub dh_public : ℕ
  pub message_number : ℕ
  pub previous_chain_length : ℕ

pub record EncryptedEnvelope : Type 0 where
  pub sender : ℕ
  pub ratchet_header : RatchetHeaderWire
  pub ciphertext : List ℕ

pub data DmHandshake : Type 0 where
  init : List ℕ → ℕ → DmHandshake
  response : List ℕ → DmHandshake

pub data DmMessage : Type 0 where
  handshake : DmHandshake → DmMessage
  envelope : EncryptedEnvelope → DmMessage

pub record StoredMessage : Type 0 where
  pub id : ℕ
  pub conversation_id : ℕ
  pub from_pubkey : ℕ
  pub to_pubkey : ℕ
  pub content : List ℕ
  pub timestamp : ℕ
  pub media : List ℕ
  pub is_read : Bool
  pub is_delivered : Bool
  pub reply_to : Option ℕ

-- A row of dm_ratchet_sessions: the sealed state.
pub record Session : Type 0 where
  pub state_json : List ℕ
  pub updated_at : ℕ

-- A row of dm_conversations.
pub record Conversation : Type 0 where
  pub peer_pubkey : ℕ
  pub last_message_at : ℕ
  pub last_message_preview : List ℕ
  pub unread_count : ℕ
  pub created_at : ℕ

-- A row of dm_outbox.
pub record OutboxEntry : Type 0 where
  pub id : ℕ
  pub peer_pubkey : ℕ
  pub envelope_json : List ℕ
  pub created_at : ℕ
  pub message_id : ℕ

-- A row of peer_delegations, without the delegation itself.
pub record PeerIdentity : Type 0 where
  pub dm_pubkey : ℕ
  pub transport_node_ids : List ℕ

pub record CallSignal : Type 0 where
  pub peer_pubkey : ℕ
  pub payload : DmPayload

-- What the handler emits to the frontend.
pub data Event : Type 0 where
  dm_received : ℕ → StoredMessage → Event
  dm_delivered dm_read typing_indicator : ℕ → Event

-- The fields of the node's identity that the handler reads.
pub record Identity : Type 0 where
  pub master_pubkey : ℕ
  pub dm_pubkey : ℕ
  pub dm_x25519_private : ℕ
  pub dm_x25519_public : ℕ
  pub ratchet_storage_key : ℕ

pub record Store : Type 0 where
  pub sessions : List (ℕ × Session)
  pub conversations : List (ℕ × Conversation)
  pub messages : List (ℕ × StoredMessage)
  pub outbox : List OutboxEntry
  pub peer_delegations : List (ℕ × PeerIdentity)
  pub blocked : List ℕ
  pub events : List Event
  pub call_signals : List CallSignal
  pub outbox_notified : Bool

-- The statements on the database, each of which can fail.
pub data Query : Type 0 where
  get_ratchet_session save_ratchet_session get_peer_dm_pubkey get_peer_transport_node_ids : Query
  get_all_outbox_messages insert_outbox_message receive_dm_message_atomically : Query
  get_master_pubkey_for_dm_pubkey get_master_pubkey_for_transport : Query
  is_blocked : ℕ → Query
  remove_outbox_message mark_dm_delivered mark_dm_read : ℕ → Query

pub data AppError : Type 0 where
  storage no_session bad_base64 too_short encryption_failed decryption_failed not_utf8 : AppError
  bad_json bad_hex wrong_length no_master_pubkey no_dm_pubkey no_transport bad_transport : AppError
  connect_failed no_ack unexpected_response noise sender_mismatch no_initiator_key : AppError
  crypto : CryptoError → AppError
  panicked : AppError

pub data Result (A : Type 0) : Type 0 where
  ok : A → Result A
  err : AppError → Result A

-- The crates hex, base64, chacha20poly1305 (key, nonce, text), serde_json and sha2, `from_utf8`,
-- and iroh's parser of node ids.
pub record Crates : Type 0 where
  pub hex_encode : List ℕ → ℕ
  pub hex_decode : ℕ → Option (List ℕ)
  pub base64_encode : List ℕ → List ℕ
  pub base64_decode : List ℕ → Option (List ℕ)
  pub chacha_encrypt : ℕ → List ℕ → List ℕ → Option (List ℕ)
  pub chacha_decrypt : ℕ → List ℕ → List ℕ → Option (List ℕ)
  pub from_utf8 : List ℕ → Option (List ℕ)
  pub state_to_json : RatchetState → List ℕ
  pub state_from_json : List ℕ → Option RatchetState
  pub payload_to_json : DmPayload → List ℕ
  pub payload_from_json : List ℕ → Option DmPayload
  pub envelope_to_json : EncryptedEnvelope → List ℕ
  pub envelope_from_json : List ℕ → Option EncryptedEnvelope
  pub sha256_hex : ℕ → ℕ → ℕ
  pub parse_node_id : ℕ → Option ℕ

-- What one call meets: the clock, the bytes drawn at random, the statements that fail, and what
-- comes back from the node that an envelope or a handshake is sent to.
pub record Env : Type 0 where
  pub now : ℕ
  pub nonce : List ℕ
  pub session_nonce : List ℕ
  pub ratchet_random : ℕ
  pub generated_id : ℕ
  pub fails : Query → Bool
  pub exchange : ℕ → EncryptedEnvelope → Option AppError
  pub ask : ℕ → DmHandshake → Option DmHandshake

-- A call of the handler: what it wrote stays written when it fails.
abbrev pub M : Type 0 → Type 0
M A = Store → Result A × Store

abbrev pub and_then : {A B : Type 0} → Result A × Store → (A → M B) → Result B × Store
and_then (ok a, s) f = f a s
and_then (err e, s) f = (err e, s)

infixl 5 ◌>>=◌ ◌>>◌
abbrev pub ◌>>=◌ : {A B : Type 0} → M A → (A → M B) → M B
◌>>=◌ m f s = and_then (m s) f

abbrev pub ◌>>◌ : {A B : Type 0} → M A → M B → M B
◌>>◌ m k s = and_then (m s) (λ _. k)

abbrev pub pure : {A : Type 0} → A → M A
pure a s = (ok a, s)

abbrev pub throw : {A : Type 0} → AppError → M A
throw e s = (err e, s)

-- `ok_or` and `map_err` on an option.
abbrev pub or_throw : {A : Type 0} → Option A → AppError → M A
or_throw o e s = elim o [ Option.none ↦ (err e, s) | Option.some a ↦ (ok a, s) ]

-- To split on what a call returned, and to put an outcome together.
pub Result-cases :
    {A : Type 0} (r : Result A) → ((a : A) × (r ≡ ok a)) ⊎ ((e : AppError) × (r ≡ err e))
Result-cases (ok a) = inl (a, refl)
Result-cases (err e) = inr (e, refl)

pub pair : {A B : Type 0} {a a' : A} {b b' : B} → a ≡ a' → b ≡ b' → ◌≡◌ {A = A × B} (a, b) (a', b')
pair {A = A} {B = B} e f = ap₂ {C = A × B} (λ x y. (x, y)) e f
