-- ===== src/Crypto/Ratchet/Steps.antt =====
-- The paths through `decrypt`, one equation for each.
use proscenium.Common.{ℕ, ◌≡◌, false, none, some, List, arith, ==_refl}
use proscenium.Crypto.Ratchet.{
  Primitives, RatchetHeader, RatchetState, SkippedKey, ok, and_then, is_remote, take_skipped,
  skip_messages, dh_ratchet, follow_header, next_message, try_skipped_keys, receive_new, decrypt,
}

module _ (c : Primitives) (random : ℕ) (h : RatchetHeader) (ciphertext : List ℕ)
    (s : RatchetState) where
  pub decrypt_stored :
      {k : SkippedKey} {rest : List SkippedKey} {m : List ℕ}
      → take_skipped h s.skipped_keys ≡ some (k, rest)
      → c.aead_decrypt k.message_key ciphertext ≡ some m
      → decrypt c random h ciphertext s ≡ (ok m, record s { skipped_keys = rest })
  unfolding decrypt try_skipped_keys
  decrypt_stored t o = ground arith

  pub decrypt_new :
      take_skipped h s.skipped_keys ≡ none
      → decrypt c random h ciphertext s ≡ receive_new c random h ciphertext s
  unfolding decrypt try_skipped_keys
  decrypt_new t = ground arith

  pub receive_on_chain :
      s.dh_remote_public ≡ some h.dh_public
      → receive_new c random h ciphertext s
        ≡ and_then (skip_messages c h.message_number s) (λ _. next_message c ciphertext)
  unfolding receive_new follow_header
  receive_on_chain r = rw (r, receive_new, follow_header, ==_refl h.dh_public)

  -- A header with a new key: the old chain is stored up to its length, and a new one begins.
  pub receive_new_chain :
      {t : RatchetState}
      → is_remote s.dh_remote_public h.dh_public ≡ false
      → skip_messages c h.previous_chain_length s ≡ (ok tt, t)
      → receive_new c random h ciphertext s
        ≡ and_then
            (skip_messages c h.message_number (dh_ratchet c random h.dh_public t))
            (λ _. next_message c ciphertext)
  unfolding receive_new follow_header
  receive_new_chain r e = rw (r, receive_new, follow_header, e)
