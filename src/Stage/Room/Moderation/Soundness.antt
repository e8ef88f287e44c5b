-- ===== src/Stage/Room/Moderation/Soundness.antt =====
-- What the local user does by stage/moderation.rs keeps a session sound.
use proscenium.Common.{
  ℕ, ◌≡◌, refl, inl, inr, Bool, Option, none, some, List, Bool-cases, Option-cases,
}
use proscenium.Stage.Room.{speaker, listener, ActiveStage, Platform, Identity}
use proscenium.Stage.Room.Handler.{set_role}
use proscenium.Stage.Room.Handler.Soundness.{SessionSound, new_participants-IsSound, set_role-Keyed}
use proscenium.Stage.Room.Moderation.{
  guarded, require_active, require_host_active, may_moderate, toggle_self_mute, send_reaction,
  send_chat, do_raise_hand, do_lower_hand, do_promote_speaker, do_demote_speaker,
  volunteer_as_relay,
}

module _ (c : Platform) (identity : Identity) (now : ℕ) where
  pub toggle_self_mute-IsSound :
      (active : Option ActiveStage)
      → SessionSound active
      → SessionSound (toggle_self_mute c identity now active).1
  unfolding toggle_self_mute guarded require_active
  toggle_self_mute-IsSound none v = tt
  toggle_self_mute-IsSound (some s) v = new_participants-IsSound s s.my_role _ v v.keyed (λ h. h)

  -- Messages of the local user leave the session as it is.
  pub talk_unchanged :
      (text : List ℕ) (active : Option ActiveStage)
      → ((send_reaction c identity now text active).1 ≡ active)
        × ((send_chat c identity now text active).1 ≡ active)
        × ((do_raise_hand c identity now active).1 ≡ active)
        × ((do_lower_hand c identity now active).1 ≡ active)
  unfolding send_reaction send_chat do_raise_hand do_lower_hand guarded require_active
  talk_unchanged text none = (refl, refl, refl, refl)
  talk_unchanged text (some s) = (refl, refl, refl, refl)

  pub do_promote_speaker-IsSound :
      (pubkey : ℕ) (active : Option ActiveStage)
      → SessionSound active
      → SessionSound (do_promote_speaker c identity now pubkey active).1
  unfolding do_promote_speaker guarded require_host_active set_role
  do_promote_speaker-IsSound pubkey none v = tt
  do_promote_speaker-IsSound pubkey (some s) v =
      let keyed = set_role-Keyed pubkey speaker s v in
      elim (Bool-cases (may_moderate s.my_role)) [
        | inl may ↦
            simp (may, do_promote_speaker) (new_participants-IsSound s s.my_role _ v keyed (λ h. h))
        | inr may_not ↦ simp (may_not, do_promote_speaker) v
      ]

  pub do_demote_speaker-IsSound :
      (pubkey : ℕ) (active : Option ActiveStage)
      → SessionSound active
      → SessionSound (do_demote_speaker c identity now pubkey active).1
  unfolding do_demote_speaker guarded require_host_active set_role
  do_demote_speaker-IsSound pubkey none v = tt
  do_demote_speaker-IsSound pubkey (some s) v =
      let keyed = set_role-Keyed pubkey listener s v in
      elim (Bool-cases (may_moderate s.my_role)) [
        | inl may ↦
            simp (may, do_demote_speaker) (new_participants-IsSound s s.my_role _ v keyed (λ h. h))
        | inr may_not ↦ simp (may_not, do_demote_speaker) v
      ]

  pub volunteer_as_relay-IsSound :
      (started : Bool) (capacity : ℕ) (active : Option ActiveStage)
      → SessionSound active
      → SessionSound (volunteer_as_relay c identity now started capacity active).1
  unfolding volunteer_as_relay guarded require_active
  volunteer_as_relay-IsSound started capacity none v = tt
  volunteer_as_relay-IsSound started capacity (some s) v =
      elim (Option-cases s.listener_upstream_id) [
        | inl absent ↦ simp (absent, volunteer_as_relay) v
        | inr (upstream, present) ↦ elim (Bool-cases started) [
          | inl up ↦
              simp (present, up, volunteer_as_relay)
                (new_participants-IsSound s s.my_role _ v v.keyed (λ h. h))
          | inr down ↦ simp (present, down, volunteer_as_relay) v
        ]
      ]
