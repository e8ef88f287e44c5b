-- ===== src/Crypto/Ratchet/Turns.antt =====
-- The two parties of a session: how they agree on a chain, and how the chains follow one another.
use native.Mathlib.Numerals.{add-one}
use proscenium.Common.{ℕ, suc, ◌+◌, ◌^◌, ◌<◌, ◌≡◌, refl, some, List, arith}
use proscenium.Crypto.Ratchet.{
  Primitives, RatchetState, kdf_rk, init_alice, init_bob, encrypt, dh_ratchet,
}
use proscenium.Crypto.Ratchet.Skip.{chain_after, key_at, chain_after-suc}
use proscenium.Crypto.Ratchet.Chain.{header_of}

module _ (c : Primitives)
    (agrees : (a b : ℕ)
      → c.diffie_hellman a (c.public_key b) ≡ c.diffie_hellman b (c.public_key a)) where
  -- `a` sends on the chain that begins at `base`, and `b` has not seen the key of it yet.
  pub record Offers (base : ℕ) (a b : RatchetState) : Type 0 where
    pub own_key : a.dh_self_public ≡ c.public_key a.dh_self_private
    pub peer_key : b.dh_self_public ≡ c.public_key b.dh_self_private
    pub agreed :
        kdf_rk c b.root_key (c.diffie_hellman a.dh_self_private b.dh_self_public)
        ≡ (a.root_key, base)

  -- The sender stands at its next message of the chain.
  pub record Sends (base : ℕ) (a : RatchetState) : Type 0 where
    pub chain : a.chain_key_send ≡ some (chain_after c a.send_count base)

  -- The states of init_alice and init_bob with one shared secret agree: alice offers bob the
  -- chain that begins with the second half of her first root step, and stands on it.
  pub init-Offers :
      (random secret bob_private : ℕ)
      → let a = init_alice c random secret (c.public_key bob_private) in
        let b = init_bob c secret (bob_private, c.public_key bob_private) in
        let base = (kdf_rk c secret (c.diffie_hellman random (c.public_key bob_private))).1 in
        Offers base a b × Sends base a
  unfolding init_alice init_bob
  init-Offers random secret bob_private =
      (record { own_key = refl; peer_key = refl; agreed = refl }, record { chain = refl })

  -- When `b` follows the key of `a`, its receiving chain begins where the chain of `a` began,
  -- and it offers a new chain in turn.
  pub dh_ratchet-Offers :
      (random base : ℕ) {a b : RatchetState}
      → Offers base a b
      → let b' = dh_ratchet c random a.dh_self_public b in
        let base' = (kdf_rk c a.root_key (c.diffie_hellman random a.dh_self_public)).1 in
        (b'.chain_key_recv ≡ some base) × Offers base' b' a × Sends base' b'
  unfolding dh_ratchet
  dh_ratchet-Offers random base {a} {b} o =
      let e = agrees b.dh_self_private a.dh_self_private in
      (
        ground (arith, o.agreed, o.own_key, o.peer_key, e),
        record {
          own_key = refl;
          peer_key = o.own_key;
          agreed = ground (arith, o.agreed, o.own_key, o.peer_key, e);
        },
        record { chain = ground (arith, o.agreed, o.own_key, o.peer_key, e) },
      )

  -- A sender stands on its chain and its counter does not overflow. Then encrypt succeeds with
  -- the header and the key of its next message, and the sender stands at the message after that
  -- with the same public key, previous chain length and stored keys.
  pub encrypt-Sends :
      (base : ℕ) (m : List ℕ) {a : RatchetState}
      → Sends base a
      → a.send_count + 1 < 2 ^ 32
      → (a' : RatchetState) × (encrypt c m a
          ≡ some (
            header_of c base a.dh_self_public a.send_count a.prev_send_count,
            c.aead_encrypt (key_at c base a.send_count) m,
            a',
          ))
        × Sends base a'
        × (a'.send_count ≡ a.send_count + 1)
        × (a'.dh_self_public ≡ a.dh_self_public)
        × (a'.prev_send_count ≡ a.prev_send_count)
        × (a'.skipped_keys ≡ a.skipped_keys)
        × (a'.recv_count ≡ a.recv_count)
  unfolding encrypt
  encrypt-Sends base m {a} v w = (
    record a {
      chain_key_send = some (chain_after c (suc a.send_count) base);
      send_count = a.send_count + 1;
    },
    ground (arith, v.chain, chain_after-suc c a.send_count base),
    record { chain = ground (arith, add-one a.send_count) },
    refl,
    refl,
    refl,
    refl,
    refl,
  )
