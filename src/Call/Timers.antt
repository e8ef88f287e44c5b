-- ===== src/Call/Timers.antt =====
-- The timeouts of src-tauri/src/call/initiator.rs and responder.rs across several steps.
use proscenium.Common.{ℕ, ◌≡◌, refl, Bool, true, false, none, [], ◌∷◌, ==_refl}
use proscenium.Call.{
  failed, Timer, CallHandler, emit_call_event, err, no_active_call, begin_call, start_call,
  on_call_offer, renew, accept_call, on_call_answered, connection_failed, hangup, timeout, elem,
}

-- The timeout that a new call starts.
abbrev pub timer_of : Bool → ℕ → ℕ → CallHandler → Timer
timer_of is_incoming call_id peer_pubkey h = record {
  is_incoming = is_incoming;
  call_id = call_id;
  peer_pubkey = peer_pubkey;
  cancel = h.next_token;
}

-- A handler without a call starts one that is then answered, or gets an offer that is then
-- accepted, the signals being sent. When the timeout that the call started runs out afterwards,
-- nothing changes and nothing is sent or reported.
pub answered_timeout :
    (call_id peer_pubkey answering : ℕ) (h : CallHandler)
    → h.active_call ≡ none
    → let outgoing =
        (on_call_answered call_id answering (start_call call_id true peer_pubkey h).1).0 in
      let accepted = (accept_call call_id true (on_call_offer call_id peer_pubkey h).0).1 in
      (timeout (timer_of false call_id peer_pubkey h) outgoing ≡ (outgoing, []))
      × (timeout (timer_of true call_id peer_pubkey h) accepted ≡ (accepted, []))
unfolding start_call on_call_offer begin_call on_call_answered accept_call renew timeout
answered_timeout call_id peer_pubkey answering h e =
    simp
      (
        e,
        start_call,
        on_call_offer,
        on_call_answered,
        accept_call,
        ==_refl call_id,
        timeout,
        ==_refl h.next_token,
      )
      (refl, refl)

-- A handler without a call, whose next token is not cancelled, starts a call, and the connection
-- of an older call then fails. The new call is dropped: hanging up reports that there is no call,
-- and the timeout of the new call is still live and reports a failure.
pub stale_failure :
    (old_call old_peer call_id peer_pubkey : ℕ) (h : CallHandler)
    → h.active_call ≡ none
    → elem h.next_token h.cancelled ≡ false
    → let after =
        (connection_failed old_call old_peer (start_call call_id true peer_pubkey h).1).0 in
      ((hangup after).0 ≡ err no_active_call)
      × (timeout (timer_of false call_id peer_pubkey h) after
          ≡ (after, emit_call_event call_id peer_pubkey failed ∷ []))
unfolding start_call begin_call connection_failed hangup timeout
stale_failure old_call old_peer call_id peer_pubkey h e live =
    simp (e, start_call, connection_failed, hangup, live, timeout) (refl, refl)
