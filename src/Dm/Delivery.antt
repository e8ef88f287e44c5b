-- ===== src/Dm/Delivery.antt =====
-- A message from one node to another: dm/crypto.rs at the sender, dm/incoming.rs at the receiver.
pub mod Steps
pub mod Mailbox
use proscenium.Common.{ℕ, ◌≡◌, false, some, List, lookup, length}
use proscenium.Crypto.Ratchet.{RatchetState}
use proscenium.Dm.{Store, Env, Query, Crates, Identity, Session, PeerIdentity, ok}
use proscenium.Dm.Sealing.{open_state}

-- No statement fails, and the random bytes are as many as are asked for.
pub record Works (w : Env) : Type 0 where
  pub queries : (q : Query) → w.fails q ≡ false
  pub nonce : length w.nonce ≡ 12
  pub session_nonce : length w.session_nonce ≡ 12

-- The node stores a session with a peer, which opens to the state `r`.
pub record Holds (c : Crates) (me : Identity) (peer_dm_pubkey : ℕ) (r : RatchetState) (s : Store)
    : Type 0 where
  pub row : Session
  pub stored : lookup peer_dm_pubkey s.sessions ≡ some row
  pub opened : open_state c me.ratchet_storage_key row.state_json ≡ ok r
