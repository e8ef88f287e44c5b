-- ===== src/Crypto/Ratchet/Bounds.antt =====
-- How fast the stored keys of crypto/ratchet.rs can grow.
use proscenium.Common.{
  ℕ, ◌+◌, ◌*◌, ◌≤◌, ◌≡◌, inl, inr, some, Option-cases, List, [], ◌∷◌, arith, length,
}
use proscenium.Crypto.Ratchet.{
  Primitives, RatchetHeader, RatchetState, SkippedKey, max_skip, take_skipped, skip_messages,
  dh_ratchet, follow_header, next_message, try_skipped_keys, receive_new, decrypt,
}
use proscenium.Crypto.Ratchet.Skip.{length-skip_messages}

length-take_skipped :
    (h : RatchetHeader) (ks : List SkippedKey) {k : SkippedKey} {rest : List SkippedKey}
    → take_skipped h ks ≡ some (k, rest)
    → length rest ≤ length ks
unfolding take_skipped
length-take_skipped h [] e = cc
length-take_skipped h (k ∷ ks) e = elim (Option-cases (take_skipped h ks)) [
  | inl absent ↦ ground arith
  | inr ((found, others), present) ↦ ground (arith, length-take_skipped h ks present)
]

module _ (c : Primitives) where
  length-next_message :
      (ciphertext : List ℕ) (s : RatchetState)
      → length (next_message c ciphertext s).1.skipped_keys ≤ length s.skipped_keys
  unfolding next_message
  length-next_message ciphertext s = ground arith

  length-follow_header :
      (random : ℕ) (h : RatchetHeader) (s : RatchetState)
      → length (follow_header c random h s).1.skipped_keys ≤ length s.skipped_keys + max_skip
  unfolding follow_header dh_ratchet
  length-follow_header random h s = ground (arith, length-skip_messages c h.previous_chain_length s)

  length-receive_new :
      (random : ℕ) (h : RatchetHeader) (ciphertext : List ℕ) (s : RatchetState)
      → length (receive_new c random h ciphertext s).1.skipped_keys
        ≤ length s.skipped_keys + 2 * max_skip
  unfolding receive_new
  length-receive_new random h ciphertext s =
      let s₁ = (follow_header c random h s).1 in
      let s₂ = (skip_messages c h.message_number s₁).1 in
      ground (
        arith,
        length-follow_header random h s,
        length-skip_messages c h.message_number s₁,
        length-next_message ciphertext s₂,
      )

  -- A call of decrypt, successful or not, adds at most twice MAX_SKIP stored keys.
  pub length-decrypt :
      (random : ℕ) (h : RatchetHeader) (ciphertext : List ℕ) (s : RatchetState)
      → length (decrypt c random h ciphertext s).1.skipped_keys
        ≤ length s.skipped_keys + 2 * max_skip
  unfolding decrypt try_skipped_keys
  length-decrypt random h ciphertext s = elim (Option-cases (take_skipped h s.skipped_keys)) [
    | inl absent ↦ ground (arith, length-receive_new random h ciphertext s)
    | inr ((found, others), present) ↦ ground (arith, length-take_skipped h s.skipped_keys present)
  ]
