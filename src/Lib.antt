-- ===== src/Lib.antt =====
-- Proscenium, the core of the desktop application in src-tauri/src: end-to-end encrypted direct
-- messages, voice calls, the sync of posts, and live audio rooms ("stages").
--
-- Crypto models how two peers encrypt direct messages:
--   Crypto.Ratchet: src-tauri/src/crypto/ratchet.rs, its RatchetState as a record and each method
--   under its name, over a small state-and-error monad, since a method that fails keeps what it
--   has changed so far. The key derivation, X25519 and the AEAD are parameters;
--   Crypto.Noise: src-tauri/src/crypto/noise.rs, the handshake that seeds a ratchet, over snow.
-- Dm models src-tauri/src/dm and the statements of src-tauri/src/storage that it uses. A Store has
-- the tables and what goes to the frontend, the call handler and the flush loop; an Env has what
-- one call meets (clock, random bytes, failing queries, answers of other nodes). Its children:
--   Dm.Storage (storage/messaging.rs, ratchet.rs, peer_delegations.rs), Dm.Sealing (crypto.rs),
--   Dm.Establish (handshake.rs and encrypt_and_save, over Crypto.Ratchet and Crypto.Noise),
--   Dm.Incoming (incoming.rs and `accept` of mod.rs), Dm.Outbox (delivery.rs), and for the two ends
--   together Dm.Delivery and Dm.FirstContact.
-- Wire models what goes over a stream:
--   Wire.Frame: src-tauri/src/framing.rs and the loop of src-tauri/src/sync/client.rs;
--   Wire.Audio: src-tauri/src/audio/transport.rs.
-- Stage models a live room:
--   Stage.Topology: src-tauri/src/stage/topology.rs, the assignment of listeners to sources;
--   Stage.Auth: src-tauri/src/stage/auth.rs, and how stage/pipeline.rs splits a received frame;
--   Stage.Room: crates/proscenium-types/src/stage.rs and src-tauri/src/stage/state.rs, the session
--   ActiveStage and the messages; its children Handler (control_handler.rs, one function for each
--   message kind), Moderation (moderation.rs), Lifecycle (lifecycle.rs) and Actor (mod.rs and
--   command.rs, whose `handle` calls the other three; Handler calls Topology when a relay
--   volunteers). A handler takes the session and gives the session, if it goes on, and the effects
--   in order: events, broadcasts, tasks that are started or stopped.
-- Identity models crates/proscenium-types/src/delegation.rs and signing.rs: what is signed, and how
-- it is verified; Identity.Requests has the registrations, challenges and follow requests of
-- registration.rs and protocol.rs beside them.
-- Feed models what arrives from peers: Feed.Mentions and the limits of Feed.Ingest
-- (crates/proscenium-types/src/validation.rs), Feed.Ingest (src-tauri/src/ingest.rs and
-- sync/processing.rs), Feed.Gossip (gossip/handlers.rs, every message kind, and the device
-- announcements that sync/client.rs caches), and Feed.Storage (the
-- statements on the tables that they use). They verify with Identity; a run of arrivals is
-- Feed.Gossip.receive_all.
-- Sync models src-tauri/src/sync/server.rs and sync/client.rs, which bring a follower the posts and
-- interactions of an author, with the queries of storage/posts.rs and storage/interactions.rs as
-- functions of lists of rows.
-- DeviceSync models src-tauri/src/device_sync.rs and storage/device_sync.rs, in which two linked
-- devices merge the follows, moderation, bookmarks and ratchet sessions of their user, with the
-- tables of Common.Lww; the posts and interactions that the same exchange streams, and the
-- connection, are not modelled.
-- Call models src-tauri/src/call, the active call of a CallHandler with its cancellation tokens and
-- timeouts, without the audio session.
-- Common has the lists, maps, bytes and Boolean tests that these share.
--
-- Strings that are only compared (public keys, node and room ids) are numbers; byte strings are
-- lists of numbers below 256. A `u32` addition wraps, as in a release build. Random bytes are
-- arguments.
--
-- Fuel: the loop of skip_messages gets the distance to its target, which is the number of its
-- turns. The frame loop gets any fuel above the length of the stream, which is enough. The
-- loop over batches gets one more than the number of rows. The loop over the mentions of a post gets
-- the number of its bytes, which any larger fuel agrees with.
--
-- Not modelled: logging, sound hardware, codecs, SQL, the wiring of Tauri and iroh, and the code
-- of other crates.
pub mod Common
pub mod Crypto
pub mod Wire
pub mod Dm
pub mod Identity
pub mod Feed
pub mod Sync
pub mod DeviceSync
pub mod Stage
pub mod Call
