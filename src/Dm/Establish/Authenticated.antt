-- ===== src/Dm/Establish/Authenticated.antt =====
-- dm/handshake.rs: whose session a handshake can set, and what the responder can do with it.
use proscenium.Common.{
  ℕ, ◌≡◌, refl, ap, ◌∙◌, ◌⊎◌, inl, inr, some, List, arith, insert, Bool-cases, Option-cases, ◌==◌,
}
use proscenium.Crypto.Ratchet.{Primitives, init_bob}
use proscenium.Crypto.Noise.{Snow, noise_respond, noise_complete_responder}
use proscenium.Dm.{
  Result-cases, Store, Env, Crates, Identity, AppError, ok, err, noise, no_initiator_key,
  sender_mismatch, storage, save_ratchet_session as q_save_session,
}
use proscenium.Dm.Storage.{save_ratchet_session}
use proscenium.Dm.Sealing.{seal_state, dm_pubkey_to_x25519}
use proscenium.Dm.Establish.{handle_handshake}

module _ (prim : Primitives) (snow : Snow) (c : Crates) (me : Identity) (w : Env) where
  -- The message authenticates the key that the sender claims, and the session under the claimed
  -- key is the one that the handshake agreed on.
  pub record Authenticates (peer : ℕ) (noise_message : List ℕ) (s s' : Store) : Type 0 where
    pub hs : snow.HandshakeState
    pub reply : List ℕ
    pub shared_secret : ℕ
    pub key : ℕ
    pub sealed : List ℕ
    pub responded : noise_respond snow me.dm_x25519_private noise_message ≡ some (hs, reply)
    pub completed : noise_complete_responder snow hs ≡ some (shared_secret, some key)
    pub claimed : dm_pubkey_to_x25519 c peer ≡ ok key
    pub session :
        seal_state c me.ratchet_storage_key w.session_nonce
          (init_bob prim shared_secret (me.dm_x25519_private, me.dm_x25519_public))
        ≡ ok sealed
    pub saved : s' ≡ record s {
      sessions = insert peer (record { state_json = sealed; updated_at = w.now }) s.sessions;
    }

  -- Whatever handshake message arrives, handle_handshake either fails and leaves the store as it
  -- was, or the message authenticates the key that the sender claims, and all that changes is the
  -- session under the claimed key, which is the responder's for the agreed secret. A session that
  -- stood there before is overwritten.
  pub handle_handshake_lem :
      (peer : ℕ) (noise_message : List ℕ) (s : Store)
      → let out = handle_handshake prim snow c me w peer noise_message s in
        ((e : AppError) × (out ≡ (err e, s))) ⊎ Authenticates peer noise_message s out.1
  unfolding handle_handshake save_ratchet_session
  handle_handshake_lem peer noise_message s =
      elim (Option-cases (noise_respond snow me.dm_x25519_private noise_message)) [
        | inl refused ↦ inl (noise, simp (refused, handle_handshake) refl)
        | inr ((hs, reply), responded) ↦ elim (Option-cases (noise_complete_responder snow hs)) [
          | inl incomplete ↦ inl (noise, simp (responded, incomplete, handle_handshake) refl)
          | inr ((shared_secret, revealed), completed) ↦
              elim (Result-cases (dm_pubkey_to_x25519 c peer)) [
                | inr (e, malformed) ↦
                    inl (e, simp (responded, completed, malformed, handle_handshake) refl)
                | inl (claimed_key, claimed) ↦ elim (Option-cases revealed) [
                  | inl hidden ↦ inl (
                    no_initiator_key,
                    simp (responded, completed, claimed, hidden, handle_handshake) refl,
                  )
                  | inr (actual, shown) ↦ elim (Bool-cases (actual == claimed_key)) [
                    | inr differ ↦ inl (
                      sender_mismatch,
                      simp (responded, completed, claimed, shown, differ, handle_handshake) refl,
                    )
                    | inl agree ↦
                        let key : claimed_key ≡ actual = ground (arith, agree) in
                        let ratchet =
                          init_bob prim shared_secret (me.dm_x25519_private, me.dm_x25519_public) in
                        elim (Result-cases
                          (seal_state c me.ratchet_storage_key w.session_nonce ratchet)) [
                            | inr (e, unsealed) ↦ inl (
                              e,
                              simp
                                  (
                                    responded, completed, claimed, shown, agree, unsealed,
                                    handle_handshake,
                                  )
                                  refl,
                            )
                            | inl (sealed, session) ↦ elim (Bool-cases (w.fails q_save_session)) [
                              | inl fails ↦ inl (
                                storage,
                                simp
                                    (
                                      responded, completed, claimed, shown, agree, session, fails,
                                      handle_handshake, save_ratchet_session,
                                    )
                                    refl,
                              )
                              | inr works ↦ inr (record {
                                hs = hs;
                                reply = reply;
                                shared_secret = shared_secret;
                                key = actual;
                                sealed = sealed;
                                responded = responded;
                                completed = completed ∙ ap (λ k. some (shared_secret, k)) shown;
                                claimed = claimed ∙ ap ok key;
                                session = session;
                                saved =
                                    simp
                                      (
                                        responded, completed, claimed, shown, agree, session, works,
                                        handle_handshake, save_ratchet_session,
                                      )
                                      refl;
                              })
                            ]
                          ]
                  ]
                ]
              ]
        ]
      ]
