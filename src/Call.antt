-- ===== src/Call.antt =====
-- src-tauri/src/call: the state of a voice call between two peers. A cancellation token is a
-- number, and `timers` lists the timeouts that were started, each with the token it waits on.
-- Whether a signal reaches the outbox is an argument.
pub mod Timers
mod Tests
use proscenium.Common.{
  ℕ, ◌+◌, Bool, true, false, not, Option, none, some, List, [], ◌∷◌, ◌==◌, if◌then◌else◌,
}

pub data CallState : Type 0 where
  ringing incoming active ended failed : CallState

pub data CallSignal : Type 0 where
  -- A call id, and whether video is offered.
  call_offer : ℕ → Bool → CallSignal
  call_answer call_reject call_hangup : ℕ → CallSignal

pub record ActiveCall : Type 0 where
  pub call_id : ℕ
  pub peer_pubkey : ℕ
  pub cancel : ℕ
  pub muted : Bool

-- A timeout that was started for an outgoing or an incoming call.
pub record Timer : Type 0 where
  pub is_incoming : Bool
  pub call_id : ℕ
  pub peer_pubkey : ℕ
  pub cancel : ℕ

pub record CallHandler : Type 0 where
  pub active_call : Option ActiveCall
  pub cancelled : List ℕ
  pub timers : List Timer
  -- The next token that `CancellationToken::new` gives out.
  pub next_token : ℕ

pub data Effect : Type 0 where
  emit_call_event : ℕ → ℕ → CallState → Effect
  send_signal : ℕ → CallSignal → Effect
  restore_default_routing : Effect

pub data CallError : Type 0 where
  already_in_call no_active_call other_call send_failed : CallError

pub data Reply (A : Type 0) : Type 0 where
  ok : A → Reply A
  err : CallError → Reply A

abbrev pub elem : ℕ → List ℕ → Bool
elem n [] = false
elem n (m ∷ ms) = if m == n then true else elem n ms

-- A call of that peer with a new token, and a timeout on it.
pub begin_call : Bool → ℕ → ℕ → CallHandler → CallHandler
begin_call is_incoming call_id peer_pubkey h = record h {
  active_call = some (record {
    call_id = call_id;
    peer_pubkey = peer_pubkey;
    cancel = h.next_token;
    muted = false;
  });
  timers =
      record {
        is_incoming = is_incoming;
        call_id = call_id;
        peer_pubkey = peer_pubkey;
        cancel = h.next_token;
      }
      ∷ h.timers;
  next_token = h.next_token + 1;
}

-- The call id is `generate_id`'s.
pub start_call : ℕ → Bool → ℕ → CallHandler → Reply ℕ × CallHandler × List Effect
unfolding begin_call
start_call call_id sent peer_pubkey h = elim h.active_call [
  | some call ↦ (err already_in_call, h, [])
  | none ↦
      if sent
      then (
        ok call_id,
        begin_call false call_id peer_pubkey h,
        send_signal peer_pubkey (call_offer call_id false)
            ∷ emit_call_event call_id peer_pubkey ringing
            ∷ [],
      )
      else (err send_failed, h, [])
]

pub on_call_offer : ℕ → ℕ → CallHandler → CallHandler × List Effect
unfolding begin_call
on_call_offer call_id peer_pubkey h = elim h.active_call [
  | some call ↦ (h, send_signal peer_pubkey (call_reject call_id) ∷ [])
  | none ↦
      (begin_call true call_id peer_pubkey h, emit_call_event call_id peer_pubkey incoming ∷ [])
]

-- The ringing timeout is cancelled, and the call gets a new token.
pub renew : ActiveCall → CallHandler → CallHandler
renew call h = record h {
  active_call = some (record call { cancel = h.next_token });
  cancelled = call.cancel ∷ h.cancelled;
  next_token = h.next_token + 1;
}

pub accept_call : ℕ → Bool → CallHandler → Reply (Unit {0}) × CallHandler × List Effect
accept_call call_id sent h = elim h.active_call [
  | none ↦ (err no_active_call, h, [])
  | some call ↦
      if call.call_id == call_id
      then if sent
        then (
          ok tt,
          renew call h,
          send_signal call.peer_pubkey (call_answer call_id)
              ∷ emit_call_event call_id call.peer_pubkey active
              ∷ [],
        )
        else (err send_failed, renew call h, [])
      else (err no_active_call, h, [])
]

-- Up to the connection, which comes up or fails later.
pub on_call_answered : ℕ → ℕ → CallHandler → CallHandler × List Effect
on_call_answered call_id peer_pubkey h = elim h.active_call [
  | none ↦ (h, [])
  | some call ↦
      if call.call_id == call_id
      then (renew call h, emit_call_event call_id peer_pubkey active ∷ [])
      else (h, [])
]

-- The connection of an answered call fails: whatever call is active then is dropped.
pub connection_failed : ℕ → ℕ → CallHandler → CallHandler × List Effect
connection_failed call_id peer_pubkey h =
    (record h { active_call = none }, emit_call_event call_id peer_pubkey failed ∷ [])

-- The call is dropped and its token cancelled.
pub drop_call : ActiveCall → CallHandler → CallHandler
drop_call call h = record h { active_call = none; cancelled = call.cancel ∷ h.cancelled }

pub reject_call : ℕ → CallHandler → Reply (Unit {0}) × CallHandler × List Effect
reject_call call_id h = elim h.active_call [
  | none ↦ (err no_active_call, h, [])
  | some call ↦
      if call.call_id == call_id
      then (
        ok tt,
        drop_call call h,
        send_signal call.peer_pubkey (call_reject call_id)
            ∷ emit_call_event call_id call.peer_pubkey ended
            ∷ [],
      )
      else (err other_call, h, [])
]

pub hangup : CallHandler → Reply (Unit {0}) × CallHandler × List Effect
hangup h = elim h.active_call [
  | none ↦ (err no_active_call, h, [])
  | some call ↦ (
    ok tt,
    drop_call call h,
    send_signal call.peer_pubkey (call_hangup call.call_id)
        ∷ emit_call_event call.call_id call.peer_pubkey ended
        ∷ restore_default_routing
        ∷ [],
  )
]

pub on_call_ended : ℕ → CallHandler → CallHandler × List Effect
on_call_ended call_id h = elim h.active_call [
  | none ↦ (h, [])
  | some call ↦
      if call.call_id == call_id
      then (
        drop_call call h,
        emit_call_event call_id call.peer_pubkey ended ∷ restore_default_routing ∷ [],
      )
      else (h, [])
]

pub toggle_mute : CallHandler → Reply Bool × CallHandler
toggle_mute h = elim h.active_call [
  | none ↦ (err no_active_call, h)
  | some call ↦ (
    ok (not call.muted),
    record h { active_call = some (record call { muted = not call.muted }) },
  )
]

abbrev pub is_call : ℕ → Option ActiveCall → Bool
is_call call_id none = false
is_call call_id (some call) = call.call_id == call_id

abbrev pub timeout_state : Bool → CallState
timeout_state true = ended
timeout_state false = failed

-- A timer runs out: nothing if its token is cancelled.
pub timeout : Timer → CallHandler → CallHandler × List Effect
timeout t h =
    let event = emit_call_event t.call_id t.peer_pubkey (timeout_state t.is_incoming) in
    if elem t.cancel h.cancelled
    then (h, [])
    else if is_call t.call_id h.active_call
    then (
      record h { active_call = none },
      event
          ∷ (if t.is_incoming then send_signal t.peer_pubkey (call_reject t.call_id) ∷ [] else []),
    )
    else (h, event ∷ [])
