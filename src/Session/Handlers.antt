-- ===== src/Session/Handlers.antt =====
-- src/Session.cpp: the handlers of resend requests, sequence resets and logons.
use openfix.Prelude.{
  ℕ, Bool, true, false, not, ◌&&◌, Option, none, some, ◌++◌, ◌==◌, ltb, leb, if◌then◌else◌, codes,
  int_zero, to_chars, seconds_to_millis,
}
use openfix.Fields
use openfix.Message.{Message, get_int_field, has_field, try_get_bool}
use openfix.Cache
use openfix.Session.State.{
  SessionState, Event, Session, Env, M, ◌>>=◌, ◌>>◌, pure, gets, modify, or_throw, emit, on_cache,
}
use openfix.Session.Send.{logout, send_logon, send_reject, send_resend_request}
use openfix.Session.Validate.{is_acceptor, same_bool, validate_seq_num}
use openfix.Session.Recovery.{run_message_recovery}

-- `if (m_delegate) …`
unfoldable pub tell : Event → Session → Session
tell e s = if s.has_delegate then emit e s else s

-- `m_heartbeatInterval = … * 1000L` and `m_state = …`
unfoldable pub set_interval : ℕ → Session → Session
set_interval interval s = record s { heartbeat_interval = seconds_to_millis interval }

unfoldable pub set_state : SessionState → Session → Session
set_state state s = record s { state = state }

module _ (env : Env) where
  -- Session::handleResendRequest
  unfoldable pub handle_resend_request : Message → M (Unit {0})
  handle_resend_request msg = do
    seq ← or_throw (get_int_field Fields.msg_seq_num msg.header)
    from ← or_throw (get_int_field Fields.begin_seq_no msg.body)
    to ← or_throw (get_int_field Fields.end_seq_no msg.body)
    run_message_recovery env from to
    target ← gets (λ s. s.cache.target_seq_num)
    if seq == target then modify (on_cache Cache.next_target) else pure tt

  -- Session::handleSequenceReset
  unfoldable pub handle_sequence_reset : Message → M (Unit {0})
  handle_sequence_reset msg = do
    let gap_fill = try_get_bool Fields.gap_fill_flag msg.body
    new_seq ← or_throw (get_int_field Fields.new_seq_no msg.body)
    seq ← or_throw (get_int_field Fields.msg_seq_num msg.header)
    target ← gets (λ s. s.cache.target_seq_num)
    if leb new_seq seq
        then send_reject env msg Fields.incorrect_value_for_tag (
            codes "Attempt to lower sequence number, invalid value NewSeqNo(36)="
            ++ to_chars new_seq)
        else if ltb new_seq target
        then logout env
            (codes "Unable to set SeqNum to "
              ++ (to_chars new_seq ++ (codes ", next expected is " ++ to_chars target)))
            true
        else (do
          valid ← if gap_fill then validate_seq_num env msg else pure true
          if valid then modify (on_cache (Cache.set_target new_seq)) else pure tt)

  -- `if (needsMessageRecovery) …`
  unfoldable pub recover_from : Option ℕ → M (Unit {0})
  recover_from none = pure tt
  recover_from (some from) = run_message_recovery env from int_zero

  -- Session::handleLogon, from the reply of an acceptor on. `next_expected` is the number of a
  -- NextExpectedMsgSeqNum that asks for message recovery.
  unfoldable pub finish_logon : Message → Bool → Option ℕ → ℕ → ℕ → M (Unit {0})
  finish_logon msg should_reset next_expected seq expected = do
    s ← gets (λ s. s)
    if is_acceptor s.settings.session_type
        then (do
          interval ← or_throw (get_int_field Fields.heart_bt_int msg.body)
          modify (set_interval interval)
          send_logon env should_reset)
        else pure tt
    modify (set_state SessionState.ready)
    recover_from next_expected
    if not s.settings.send_next_expected_msg_seq_num && ltb expected seq
        then send_resend_request env expected int_zero
        else modify (tell Event.on_logon)

  -- The ResetSeqNumFlag of Session::handleLogon, and what follows.
  unfoldable pub reset_logon : Message → Option ℕ → ℕ → ℕ → M (Unit {0})
  reset_logon msg next_expected seq expected = do
    s ← gets (λ s. s)
    let should_reset = try_get_bool Fields.reset_seq_num_flag msg.body
    if should_reset && not s.settings.reset_seq_num_on_logon
        then logout env (codes "ResetSeqNumFlag(141) not supported on this session") true
        else (do
          modify (on_cache (λ c. if should_reset then Cache.reset c else c))
          modify (on_cache (λ c. if seq == expected then Cache.next_target c else c))
          finish_logon msg should_reset next_expected seq expected)

  -- Session::handleLogon
  unfoldable pub handle_logon : Message → M (Unit {0})
  handle_logon msg = do
    s ← gets (λ s. s)
    if not (same_bool (try_get_bool Fields.test_message_indicator msg.body) s.settings.is_test)
        then logout env (codes "Sender/target test session mismatch") false
        else (do
          seq ← or_throw (get_int_field Fields.msg_seq_num msg.header)
          let expected = s.cache.target_seq_num
          if not (try_get_bool Fields.poss_dup_flag msg.header) && ltb seq expected
              then logout env (codes "MsgSeqNum(34) too low, expected " ++ to_chars expected) true
              else if has_field Fields.next_expected_msg_seq_num msg.body
              then (do
                next ← or_throw (get_int_field Fields.next_expected_msg_seq_num msg.body)
                if ltb s.cache.sender_seq_num next
                    then logout env
                        (codes "NextExpectedMsgSeqNum(789) too high, next sender MsgSeqNum="
                          ++ to_chars s.cache.sender_seq_num)
                        true
                    else reset_logon msg
                        (if ltb next s.cache.sender_seq_num then some next else none) seq expected)
              else reset_logon msg none seq expected)
