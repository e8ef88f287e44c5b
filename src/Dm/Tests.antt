-- ===== src/Dm/Tests.antt =====
-- Two nodes over toy crates, and the theorems at such inputs.
mod Toys
use proscenium.Common.{
  insert_or_ignore, ℕ, ◌≡◌, refl, ◌⊎◌, false, true, none, some, List, [], ◌∷◌, ◌++◌, be_bytes,
  insert, not, arith,
}
use proscenium.Crypto.Ratchet.{RatchetState, kdf_rk}
use proscenium.Crypto.Noise.Agreement.{secret}
use proscenium.Dm.{
  Store, Session, Env, Identity, DirectMessage, DmPayload, EncryptedEnvelope, StoredMessage,
  OutboxEntry, AppError, ok, err, message, envelope, response, no_session, and_then,
}
use proscenium.Dm.Storage.{get_ratchet_session, get_master_pubkey_for_transport, is_blocked}
use proscenium.Dm.{too_short}
use proscenium.Dm.Sealing.{open_ratchet_state}
use proscenium.Dm.Establish.{encrypt_and_save, handle_handshake}
use proscenium.Dm.Establish.Authenticated.{Authenticates, handle_handshake_lem}
use proscenium.Dm.Incoming.{
  accept, ack, is_blocked_remote, open_envelope, handle_encrypted_message, to_stored,
}
use proscenium.Dm.Incoming.Atomic.{handle_encrypted_message-Advances}
use proscenium.Dm.Incoming.Unread.{Unreadable, broken_state, unread_acknowledged}
use proscenium.Dm.Outbox.{send_dm, flush_rounds}
use proscenium.Dm.Outbox.Sending.{sent_or_queued, send_dm_lem}
use proscenium.Dm.Outbox.Flush.{keep_if, reached_in, flush_rounds_lem}
use proscenium.Dm.Delivery.{Works}
use proscenium.Dm.Delivery.Mailbox.{Passage, Linked, mailbox, converse, converse_lem}
use proscenium.Dm.FirstContact.{IsIdentity, first_message_lem}
use proscenium.Dm.Tests.Toys.{
  toy, toy-opens, toy-agrees, toy_crates, toy-Laws, toy_snow, toy_honest, state_to, tag_bytes,
}

abbrev alice : Identity
alice = record {
  master_pubkey = 100;
  dm_pubkey = 3;
  dm_x25519_private = 3;
  dm_x25519_public = 3;
  ratchet_storage_key = 9;
}

abbrev bob : Identity
bob = record {
  master_pubkey = 200;
  dm_pubkey = 11;
  dm_x25519_private = 11;
  dm_x25519_public = 11;
  ratchet_storage_key = 8;
}

alice-IsIdentity : IsIdentity toy toy_crates alice
alice-IsIdentity = record { own_key = refl; in_hex = refl; bounded = omega arith }

bob-IsIdentity : IsIdentity toy toy_crates bob
bob-IsIdentity = record { own_key = refl; in_hex = refl; bounded = omega arith }

abbrev empty : Store
empty = record {
  sessions = [];
  conversations = [];
  messages = [];
  outbox = [];
  peer_delegations = [];
  blocked = [];
  events = [];
  call_signals = [];
  outbox_notified = false;
}

abbrev alice_store : Store
alice_store = record empty {
  peer_delegations = (200, record { dm_pubkey = 11; transport_node_ids = 77 ∷ [] }) ∷ [];
}

abbrev bob_store : Store
bob_store = record empty {
  peer_delegations = (100, record { dm_pubkey = 3; transport_node_ids = 66 ∷ [] }) ∷ [];
}

-- Everything works, and the peer answers.
abbrev online : Env
online = record {
  now = 50;
  nonce = be_bytes 12 0;
  session_nonce = be_bytes 12 0;
  ratchet_random = 4;
  generated_id = 1;
  fails = λ q. false;
  exchange = λ node env. none;
  ask = λ node init. some (response (7 ∷ []));
}

online-Works : Works online
online-Works = record { queries = λ q. refl; nonce = refl; session_nonce = refl }

abbrev hello : DirectMessage
hello = record { id = 1; content = 104 ∷ 105 ∷ []; timestamp = 40; media = []; reply_to = none }

first_message_lem_example :
    (env : EncryptedEnvelope) × (a' : Store) × (b₁ : Store) × (b₂ : Store) × (handle_handshake toy
        toy_snow toy_crates bob online 3
        (be_bytes 32 3)
        bob_store
      ≡ (ok (response (7 ∷ [])), b₁))
    × (encrypt_and_save toy toy_snow toy_crates alice online 200 (message hello) alice_store
        ≡ (ok env, a'))
    × (handle_encrypted_message toy toy_crates bob online env.sender env b₁ ≡ (ok tt, b₂))
    × (b₂.messages ≡ insert_or_ignore 1 (to_stored toy_crates bob 100 hello) [])
    × Linked toy toy_snow toy_crates toy-opens toy-agrees alice bob
        (kdf_rk toy (secret toy_snow toy_honest) 44).1
        1
        a'
        b₂
first_message_lem_example =
    first_message_lem toy toy_snow toy_crates toy-Laws alice bob alice-IsIdentity bob-IsIdentity
      toy_honest toy-opens toy-agrees online online online hello alice_store bob_store
      (record {
        knows = record {
          identity = record { dm_pubkey = 11; transport_node_ids = 77 ∷ [] };
          cached = refl;
          key = refl;
          present = refl;
        };
        no_session = refl;
        node = 77;
        endpoint = 77;
        listed = refl;
        parsed = refl;
        answered = refl;
      })
      refl online-Works (online-Works, online-Works, (104 ∷ 105 ∷ [], refl)) (omega arith)
      (λ e. omega (arith, e))

-- A session in which Alice stands at message 0 of a chain that began at 40.
abbrev sending : RatchetState
sending = record {
  dh_self_private = 3;
  dh_self_public = 3;
  dh_remote_public = some 11;
  root_key = 5;
  chain_key_send = some 40;
  chain_key_recv = none;
  send_count = 0;
  recv_count = 0;
  prev_send_count = 0;
  skipped_keys = [];
}

abbrev receiving : RatchetState
receiving = record sending {
  dh_self_private = 11;
  dh_self_public = 11;
  dh_remote_public = some 3;
  chain_key_send = none;
  chain_key_recv = some 40;
}

abbrev row_of : RatchetState → Session
row_of r = record { state_json = be_bytes 12 0 ++ (tag_bytes ++ state_to r); updated_at = 1 }

abbrev alice_linked : Store
alice_linked = record alice_store { sessions = (11, row_of sending) ∷ [] }

abbrev bob_linked : Store
bob_linked = record bob_store { sessions = (3, row_of receiving) ∷ [] }

linked : Linked toy toy_snow toy_crates toy-opens toy-agrees alice bob 40 0 alice_linked bob_linked
unfolding open_ratchet_state
linked = record {
  sender = sending;
  receiver = receiving;
  holds_sender = record { row = row_of sending; stored = refl; opened = refl };
  holds_receiver = record { row = row_of receiving; stored = refl; opened = refl };
  sends = record { chain = refl };
  follows = record { remote = refl; chain = refl; stored = tt };
  sent = refl;
  received = refl;
  key_bound = omega arith;
  knows = record {
    identity = record { dm_pubkey = 11; transport_node_ids = 77 ∷ [] };
    cached = refl;
    key = refl;
    present = refl;
  };
  known = refl;
}

abbrev talk : List Passage
talk = (online, online, hello) ∷ (online, online, record hello { id = 2 }) ∷ []

converse_lem_example :
    let out = converse toy toy_snow toy_crates alice bob talk (alice_linked, bob_linked) in
    (out.1.messages ≡ mailbox toy_crates alice bob talk [])
    × Linked toy toy_snow toy_crates toy-opens toy-agrees alice bob 40 2 out.0 out.1
converse_lem_example =
    converse_lem toy toy_snow toy_crates toy-opens toy-agrees alice bob toy-Laws 40 0 talk
      alice_linked bob_linked linked
      (
        (online-Works, online-Works, (104 ∷ 105 ∷ [], refl)),
        ((online-Works, online-Works, (104 ∷ 105 ∷ [], refl)), tt),
      )
      (omega arith)

-- An envelope of nothing that Bob's sessions know.
abbrev stray : EncryptedEnvelope
stray = record {
  sender = 3;
  ratchet_header = record { dh_public = 3; message_number = 0; previous_chain_length = 0 };
  ciphertext = 41 ∷ 1 ∷ [];
}

handle_encrypted_message-Advances_example :
    let out = handle_encrypted_message toy toy_crates bob online 3 stray bob_linked in
    ((e : AppError) × (out ≡ (err e, bob_linked)))
    ⊎ ((sealed : List ℕ) × (payload : DmPayload) × (open_envelope toy toy_crates bob online 3 stray
            bob_linked
          ≡ (ok (sealed, payload), bob_linked))
        × (out.1.sessions
            ≡ insert 3 (record { state_json = sealed; updated_at = 50 }) bob_linked.sessions))
handle_encrypted_message-Advances_example =
    handle_encrypted_message-Advances toy toy_crates bob online 3 stray bob_linked

-- Bob with a session whose stored state is cut off.
abbrev bob_broken : Store
bob_broken = record bob_store {
  sessions = (3, record { state_json = be_bytes 4 0; updated_at = 1 }) ∷ [];
}

stray-Unreadable : Unreadable toy toy_crates bob online stray bob_broken
unfolding open_ratchet_state
stray-Unreadable =
    broken_state (record { state_json = be_bytes 4 0; updated_at = 1 }) too_short refl refl

unread_acknowledged_example :
    accept toy toy_snow toy_crates bob online 66 (some (envelope stray)) bob_broken
    ≡ (ack, bob_broken)
unfolding is_blocked_remote get_master_pubkey_for_transport is_blocked
unread_acknowledged_example =
    unread_acknowledged toy toy_snow toy_crates bob online 66 stray bob_broken refl stray-Unreadable

handle_handshake_lem_example :
    let out = handle_handshake toy toy_snow toy_crates bob online 3 (be_bytes 32 4) bob_linked in
    ((e : AppError) × (out ≡ (err e, bob_linked)))
    ⊎ Authenticates toy toy_snow toy_crates bob online 3 (be_bytes 32 4) bob_linked out.1
handle_handshake_lem_example =
    handle_handshake_lem toy toy_snow toy_crates bob online 3 (be_bytes 32 4) bob_linked

send_dm_lem_example :
    send_dm toy toy_snow toy_crates alice online 200 hello alice_linked
    ≡ and_then
        (encrypt_and_save toy toy_snow toy_crates alice online 200 (message hello) alice_linked)
        (λ env s₁. (
          ok tt,
          sent_or_queued toy toy_snow toy_crates alice online online-Works 200 env hello s₁,
        ))
send_dm_lem_example =
    send_dm_lem toy toy_snow toy_crates alice online online-Works 200 hello alice_linked

-- A round in which no peer answers.
abbrev offline : Env
offline = record online { exchange = λ node env. some no_session }

offline-Works : Works offline
offline-Works = record { queries = λ q. refl; nonce = refl; session_nonce = refl }

abbrev entry : ℕ → ℕ → OutboxEntry
entry id peer = record {
  id = id;
  peer_pubkey = peer;
  envelope_json = 3 ∷ [];
  created_at = 7;
  message_id = 1;
}

abbrev full_store : Store
full_store = record alice_store { outbox = entry 1 200 ∷ entry 2 300 ∷ entry 3 200 ∷ [] }

flush_rounds_lem_example :
    (flush_rounds toy_crates (offline ∷ online ∷ []) full_store).outbox ≡ entry 2 300 ∷ []
flush_rounds_lem_example =
    flush_rounds_lem toy_crates (offline ∷ online ∷ []) full_store
      (offline-Works, (online-Works, tt))
      (
        (λ e. omega (arith, e), (λ e. omega (arith, e), tt)),
        ((λ e. omega (arith, e), tt), (tt, tt)),
      )
