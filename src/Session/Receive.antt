-- ===== src/Session/Receive.antt =====
-- src/Session.cpp: what a session does with a text that it receives.
use openfix.Prelude.{
  ℕ, suc, zero, ◌/◌, true, false, ◌&&◌, [], ◌∷◌, ◌==◌, if◌then◌else◌, Bytes, codes, bytes_eq,
  length, int,
}
use openfix.Fields
use openfix.Message.{Message, get_field, get_int_field, has_field}
use openfix.Cache
use openfix.Session.State.{
  SessionState, Event, Session, Env, M, ok, stuck, ◌>>=◌, ◌>>◌, pure, gets, modify, or_throw, emit,
  on_cache,
}
use openfix.Session.Send.{send_logout, send_heartbeat, read_clock}
use openfix.Network.Handler
use openfix.Session.Validate.{is_state, validate_message, validate_seq_num}
use openfix.Session.Handlers.{
  tell, set_state, handle_logon, handle_sequence_reset, handle_resend_request,
}

-- The end of a logout that the session began.
unfoldable pub log_out : Session → Session
log_out s =
    emit Event.disconnected
      (record s { state = SessionState.logon; handler = Handler.disconnect s.handler })

module _ (env : Env) where
  -- A heartbeat with a TestReqID, while a test request is out.
  unfoldable pub test_response : Message → M (Unit {0})
  test_response msg = do
    id ← or_throw (get_int_field Fields.test_req_id msg.body)
    s ← gets (λ s. s)
    if id == int s.test_req_id then modify (set_state SessionState.ready) else pure tt

  -- Session::processMessage, once the sequence number is accepted: the branch of each type.
  unfoldable pub receive_logout : M (Unit {0})
  receive_logout = do
    modify (tell Event.on_logout)
    s ← gets (λ s. s)
    if is_state s.state SessionState.logout
        then modify log_out
        else send_logout env (codes "Successful logout") true

  unfoldable pub receive_heartbeat : Message → M (Unit {0})
  receive_heartbeat msg = do
    s ← gets (λ s. s)
    if is_state s.state SessionState.test_request && has_field Fields.test_req_id msg.body
        then test_response msg
        else pure tt
    modify (tell (Event.on_admin_message msg))

  unfoldable pub receive_test_request : Message → M (Unit {0})
  receive_test_request msg = do
    id ← or_throw (get_field Fields.test_req_id msg.body)
    send_heartbeat env id

  unfoldable pub dispatch : Message → Bytes → M (Unit {0})
  dispatch msg type =
      if bytes_eq type Fields.logout
      then receive_logout
      else if bytes_eq type Fields.heartbeat
      then receive_heartbeat msg
      else if bytes_eq type Fields.test_request
      then receive_test_request msg
      else if bytes_eq type Fields.reject
      then pure tt
      else modify (tell (Event.on_message msg))

  -- Session::processMessage, the types whose sequence number is checked.
  unfoldable pub accept : Message → Bytes → M (Unit {0})
  accept msg type = do
    accepted ← validate_seq_num env msg
    if accepted then dispatch msg type else pure tt

  -- Session::processMessage, after the validation.
  unfoldable pub route : Message → Bytes → M (Unit {0})
  route msg type =
      if bytes_eq type Fields.sequence_reset
      then handle_sequence_reset env msg
      else if bytes_eq type Fields.logon
      then handle_logon env msg
      else if bytes_eq type Fields.resend_request
      then handle_resend_request env msg
      else accept msg type

  -- Session::processMessage
  unfoldable pub process_message : Message → ℕ → M (Unit {0})
  process_message msg time = do
    type ← or_throw (get_field Fields.msg_type msg.header)
    valid ← validate_message env msg type time
    if valid then route msg type else pure tt

  -- The loop of Session::onNetworkMessage over the inbound queue.
  unfoldable pub drain : ℕ → ℕ → M (Unit {0})
  drain zero time s = (stuck, s)
  drain (suc fuel) time s = elim s.cache.inbound_queue [
    | [] ↦ (ok tt, s)
    | entry ∷ rest ↦ elim (s.cache.target_seq_num == entry.0) [
      | false ↦ (ok tt, s)
      | true ↦
          (process_message entry.1 time >> (modify (on_cache Cache.erase_first) >> drain fuel time))
            s
    ]
  ]

  -- The body of the try block of Session::onNetworkMessage, for a text.
  unfoldable pub receive : Bytes → M (Unit {0})
  receive text = do
    msg ← or_throw (env.parse text)
    modify (λ s.
        let (now, s') = read_clock env s in
        emit (Event.logged_inbound now msg.source_text)
          (record s' { cached_epoch_us = now; last_recv_heartbeat = now / 1000 }))
    time ← gets (λ s. s.last_recv_heartbeat)
    process_message msg time
    fuel ← gets (λ s. suc (length s.cache.inbound_queue))
    drain fuel time

  -- Session::onNetworkMessage; the exceptions end here.
  unfoldable pub on_network_message : Bytes → Session → Session
  on_network_message text s =
      if is_state s.state SessionState.killing
      then s
      else record ((receive text s).1) { cached_epoch_us = 0 }
