-- ===== src/Call/Tests.antt =====
-- A quiet handler, and the theorems on it.
use proscenium.Common.{◌≡◌, refl, true, false, none, [], ◌∷◌}
use proscenium.Call.{
  failed, CallHandler, emit_call_event, err, no_active_call, start_call, on_call_offer, accept_call,
  on_call_answered, connection_failed, hangup, timeout,
}
use proscenium.Call.Timers.{timer_of, answered_timeout, stale_failure}

abbrev quiet : CallHandler
quiet = record { active_call = none; cancelled = 1 ∷ []; timers = []; next_token = 2 }

abbrev answered : CallHandler
answered = (on_call_answered 7 8 (start_call 7 true 8 quiet).1).0

abbrev accepted : CallHandler
accepted = (accept_call 7 true (on_call_offer 7 8 quiet).0).1

answered_timeout_example :
    (timeout (timer_of false 7 8 quiet) answered ≡ (answered, []))
    × (timeout (timer_of true 7 8 quiet) accepted ≡ (accepted, []))
answered_timeout_example = answered_timeout 7 8 8 quiet refl

abbrev dropped : CallHandler
dropped = (connection_failed 5 6 (start_call 7 true 8 quiet).1).0

stale_failure_example :
    ((hangup dropped).0 ≡ err no_active_call)
    × (timeout (timer_of false 7 8 quiet) dropped ≡ (dropped, emit_call_event 7 8 failed ∷ []))
stale_failure_example = stale_failure 5 6 7 8 quiet refl refl
