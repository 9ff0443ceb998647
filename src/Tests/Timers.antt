-- ===== src/Tests/Timers.antt =====
-- The theorems on timers and sequence resets at concrete inputs.
use openfix.Prelude.{
  ◌≡◌, [], ◌∷◌, codes, refl, arith, int, seconds_to_millis, true, false, from_chars,
}
use openfix.Fields
use openfix.LinkedHashMap.{find}
use openfix.Message.{Message, get_int_field, try_get_bool}
use openfix.Session.State.{Session, SessionState, ok}
use openfix.Session.Send.{read_clock}
use openfix.Session.Update.{elapsed, internal_update}
use openfix.Session.Handlers.{handle_sequence_reset}
use openfix.Session.Resets.{reset_target, handle_sequence_reset-target}
use openfix.Session.Silence.{
  internal_update-silent, Asks, after_heartbeat, internal_update-unanswered,
}
use openfix.Tests.Fixture.{env, session, order, fields_of}

-- A session that has heard nothing for its interval of one second.
abbrev quiet_session : Session
quiet_session = record session { heartbeat_interval = seconds_to_millis (int 1) }

quiet_session-elapsed : elapsed 5000 4000 (seconds_to_millis (int 1)) ≡ true
unfolding elapsed seconds_to_millis
quiet_session-elapsed = refl

internal_update-silent_example :
    ((internal_update env quiet_session).0 ≡ ok tt)
    × Asks env 5000
        (after_heartbeat env 5000 (read_clock env quiet_session).1)
        (internal_update env quiet_session).1
internal_update-silent_example =
    internal_update-silent env quiet_session (λ h. absurd (ground (arith, h)))
      (λ h. absurd (ground (arith, h))) refl refl quiet_session-elapsed

-- A session that sent a test request a second ago.
abbrev asking_session : Session
asking_session = record quiet_session {
  state = SessionState.test_request;
  last_sent_test_request = 4000;
}

internal_update-unanswered_example :
    ((internal_update env asking_session).0 ≡ ok tt)
    × ((internal_update env asking_session).1.state ≡ SessionState.logon)
    × ((internal_update env asking_session).1.handler.connected ≡ false)
internal_update-unanswered_example =
    internal_update-unanswered env asking_session refl refl quiet_session-elapsed

-- A gap fill from 2 to 7.
abbrev gap_fill : Message
gap_fill = record order { body = fields_of ((36, codes "7") ∷ (123, codes "Y") ∷ []) }

handle_sequence_reset-target_example :
    (handle_sequence_reset env gap_fill session).1.cache.target_seq_num
    ≡ reset_target
        (try_get_bool Fields.gap_fill_flag gap_fill.body)
        (int 7)
        (int 2)
        session.cache.target_seq_num
unfolding get_int_field find from_chars
handle_sequence_reset-target_example =
    handle_sequence_reset-target env gap_fill (int 2) (int 7) session refl refl
