-- ===== src/Session/Silence.antt =====
-- What the timers of src/Session.cpp do about a peer that is silent.
use openfix.Prelude.{
  ℕ, suc, ◌%◌, Option, ◌∙◌, some, int, to_chars, if◌then◌else◌, ◌/◌, true, false, none, [], ◌≡◌,
  ◌≢◌, refl, arith, Bytes, inl, inr, Bool-cases, Option-cases,
}
use openfix.Fields
use openfix.LinkedHashMap.{has}
use openfix.Message.{
  GroupSpec, field_map, no_groups, Message, get_field, has_field, insert_field_view, set_field,
  set_int_field,
}
use openfix.Message.Order.{get_field-insert_field_view}
use openfix.Network.Handler
use openfix.Network.Handler.{Sending}
use openfix.Session.State.{
  SessionState, Session, Env, Callback, Event, M, ok, ◌>>=◌, ◌>>◌, pure, gets, modify, or_throw,
  emit,
}
use openfix.Session.Send.{
  terminate, settle, call_back, read_clock, epoch_micros, network_send, internal_send_text,
  populate_message, send, create, send_heartbeat, send_test_request, count_test_request,
}
use openfix.Session.Validate.{is_state, is_initiator}
use openfix.Session.Update.{
  elapsed, update_timeouts, update_heartbeat, update_connected, internal_update,
}

-- The members that the timers read, where a sent message leaves them as they are.
pub record Idle (s t : Session) : Type 0 where
  pub state : t.state ≡ s.state
  pub received : t.last_recv_heartbeat ≡ s.last_recv_heartbeat
  pub interval : t.heartbeat_interval ≡ s.heartbeat_interval

Idle-trans : (s t u : Session) → Idle s t → Idle t u → Idle s u
Idle-trans s t u f g = ground arith

settle-Idle :
    (w : Sending) (wire : Bytes) (s : Session) → Idle s (settle w wire Callback.no_callback s)
unfolding settle call_back
settle-Idle Sending.dropped wire s = ground arith
settle-Idle Sending.written wire s = ground arith
settle-Idle Sending.queued wire s = ground arith

module _ (env : Env) where
  network_send-Idle :
      (wire : Bytes) (s : Session) → Idle s (network_send env wire Callback.no_callback s)
  unfolding network_send
  network_send-Idle wire s =
      let (h, sending) = Handler.send (env.inline s.packets) s.handler in
      Idle-trans s (record s { handler = h; packets = suc s.packets }) _ (ground arith)
        (settle-Idle sending wire (record s { handler = h; packets = suc s.packets }))

  internal_send_text-Idle :
      (wire : Bytes) (us : ℕ) (s : Session)
      → Idle s (internal_send_text env wire Callback.no_callback us s)
  unfolding internal_send_text
  internal_send_text-Idle wire us s =
      ground (arith, network_send-Idle wire (emit (Event.logged_outbound us wire) s))

  epoch_micros-Idle : (s : Session) → Idle s (epoch_micros env s).1
  unfolding epoch_micros read_clock
  epoch_micros-Idle s = ground arith

  populate_message-Idle :
      (msg : Message) (ms : ℕ) (s : Session) → Idle s (populate_message env msg ms s).1
  unfolding populate_message read_clock
  populate_message-Idle msg ms s = ground arith

  send-Idle : (msg : Message) (s : Session) → Idle s (send env msg Callback.no_callback s)
  unfolding send
  send-Idle msg s =
      let s₁ = (epoch_micros env s).1 in
      let s₂ = (populate_message env msg ((epoch_micros env s).0 / 1000) s₁).1 in
      Idle-trans s s₁ _ (epoch_micros-Idle s) (
        Idle-trans s₁ s₂ _ (populate_message-Idle msg _ s₁)
          (Idle-trans s₂ _ _ (ground arith) (internal_send_text-Idle _ _ _)))

  -- The dictionary has the type.
  abbrev pub Knows : Bytes → Type 0
  Knows type = env.body_spec type ≢ none

  heartbeat-Idle :
      (s : Session)
      → Knows Fields.heartbeat
      → ((send_heartbeat env [] s).0 ≡ ok tt) × Idle s (send_heartbeat env [] s).1
  unfolding send_heartbeat create ◌>>=◌ or_throw modify
  heartbeat-Idle s known = elim (Option-cases (env.body_spec Fields.heartbeat)) [
    | inl e ↦ absurd (known e)
    | inr (spec, e) ↦ rw (send_heartbeat, e, create) (refl, send-Idle _ s)
  ]

  -- The session as it is when the test request is sent: after the heartbeat that may be due.
  abbrev pub after_heartbeat : ℕ → Session → Session
  after_heartbeat time s =
      if elapsed time s.last_sent_heartbeat s.heartbeat_interval
      then (send_heartbeat env [] s).1
      else s

  -- A message of the type TestRequest with the counter of requests as its TestReqID is sent, and the
  -- session waits for the answer to it from the time on.
  pub record Asks (time : ℕ) (s t : Session) : Type 0 where
    pub message : Message
    pub has_type : get_field Fields.msg_type message.header ≡ some Fields.test_request
    pub has_id :
        get_field Fields.test_req_id message.body
        ≡ some (to_chars (int (suc s.test_req_id) % 4294967296))
    pub sends : t ≡ record (send env message Callback.no_callback (count_test_request s)) {
      last_sent_test_request = time;
      state = SessionState.test_request;
    }

  -- What is left of the update once the test request is due.
  abbrev ask : ℕ → M (Unit {0})
  ask time =
      send_test_request env
      >> modify (λ s. record s { last_sent_test_request = time; state = SessionState.test_request })

  fresh-field :
      (tag : ℕ) (value : Bytes) (spec : Option GroupSpec)
      → get_field tag (insert_field_view tag value true (field_map [] no_groups spec []))
        ≡ some value
  unfolding has_field has
  fresh-field tag value spec =
      get_field-insert_field_view tag tag value true (field_map [] no_groups spec []) (inl refl)
      ∙ ground arith

  asks :
      (time : ℕ) (t : Session)
      → Knows Fields.test_request
      → ((ask time t).0 ≡ ok tt) × Asks time t (ask time t).1
  unfolding send_test_request create ◌>>=◌ or_throw modify gets count_test_request set_field
      set_int_field
  asks time t tests = elim (Option-cases (env.body_spec Fields.test_request)) [
    | inl e ↦ absurd (tests e)
    | inr (spec, e) ↦
        rw (send_test_request, e, create)
          (
            refl,
            record {
              message = _;
              has_type = fresh-field Fields.msg_type Fields.test_request (some env.header_spec);
              has_id = fresh-field Fields.test_req_id _ (some spec);
              sends = refl;
            },
          )
  ]

  update_heartbeat-silent :
      (time : ℕ) (s : Session)
      → Knows Fields.heartbeat
      → Knows Fields.test_request
      → s.state ≡ SessionState.ready
      → elapsed time s.last_recv_heartbeat (env.threshold_times s.heartbeat_interval) ≡ true
      → ((update_heartbeat env time s).0 ≡ ok tt)
        × Asks time (after_heartbeat time s) (update_heartbeat env time s).1
  unfolding update_heartbeat ◌>>=◌ gets pure
  update_heartbeat-silent time s beats tests ready silent =
      elim (Bool-cases (elapsed time s.last_sent_heartbeat s.heartbeat_interval)) [
        | inl due ↦
            let (sent, idle) = heartbeat-Idle s beats in
            rw
              (
                update_heartbeat, due, ◌>>=◌, sent, idle.state, idle.received, idle.interval, ready,
                silent,
              )
              (asks time _ tests)
        | inr early ↦ rw (update_heartbeat, early, ready, silent) (asks time _ tests)
      ]

  update_timeouts-ready :
      (time : ℕ) (s : Session) → s.state ≡ SessionState.ready → update_timeouts env time s ≡ s
  unfolding update_timeouts
  update_timeouts-ready time s ready = rw ready

  update_timeouts-late :
      (time : ℕ) (s : Session)
      → s.state ≡ SessionState.test_request
      → elapsed time s.last_sent_test_request (env.threshold_times s.heartbeat_interval) ≡ true
      → ((update_timeouts env time s).state ≡ SessionState.logon)
        × ((update_timeouts env time s).handler.connected ≡ false)
  unfolding update_timeouts terminate Handler.disconnect
  update_timeouts-late time s waiting late =
      rw (update_timeouts, waiting, late) (refl, ground arith)

  -- What follows the timeouts.
  abbrev rest : ℕ → M (Unit {0})
  rest time t =
      (if is_state t.state SessionState.logon
          then pure tt
          else if is_state t.state SessionState.logout
          then pure tt
          else if is_state t.state SessionState.killing
          then pure tt
          else update_heartbeat env time)
        t

  update_connected-timeouts :
      (time : ℕ) (s : Session)
      → is_state s.state SessionState.logon ≡ false
      → update_connected env time s ≡ rest time (update_timeouts env time s)
  unfolding update_connected ◌>>=◌ gets modify
  update_connected-timeouts time s on = elim (Bool-cases (is_initiator s.settings.session_type)) [
    | inl i ↦ rw (i, on) refl
    | inr i ↦ rw i refl
  ]

  update_connected-silent :
      (time : ℕ) (s : Session)
      → Knows Fields.heartbeat
      → Knows Fields.test_request
      → s.state ≡ SessionState.ready
      → elapsed time s.last_recv_heartbeat (env.threshold_times s.heartbeat_interval) ≡ true
      → ((update_connected env time s).0 ≡ ok tt)
        × Asks time (after_heartbeat time s) (update_connected env time s).1
  update_connected-silent time s beats tests ready silent =
      rw
        (
          update_connected-timeouts time s (rw ready refl),
          update_timeouts-ready time s ready,
          rest,
          ready,
        )
        (update_heartbeat-silent time _ beats tests refl silent)

  update_connected-late :
      (time : ℕ) (s : Session)
      → s.state ≡ SessionState.test_request
      → elapsed time s.last_sent_test_request (env.threshold_times s.heartbeat_interval) ≡ true
      → ((update_connected env time s).0 ≡ ok tt)
        × ((update_connected env time s).1.state ≡ SessionState.logon)
        × ((update_connected env time s).1.handler.connected ≡ false)
  unfolding pure
  update_connected-late time s waiting late =
      let (back, down) = update_timeouts-late time s waiting late in
      rw (update_connected-timeouts time s (rw waiting refl), rest, back) (refl, refl, down)

  -- An update of a connected session that is ready, whose peer has been silent for the threshold and
  -- whose dictionary has heartbeats and test requests, sends a message of the type TestRequest with
  -- the next TestReqID, after the heartbeat that may be due, and is then in the state that waits for
  -- the answer, with the time of the update as that of the request, and otherwise as `send` left it.
  pub internal_update-silent :
      (s : Session)
      → Knows Fields.heartbeat
      → Knows Fields.test_request
      → s.handler.connected ≡ true
      → s.state ≡ SessionState.ready
      → elapsed
          (env.clock s.clock_reads / 1000)
          s.last_recv_heartbeat
          (env.threshold_times s.heartbeat_interval)
        ≡ true
      → ((internal_update env s).0 ≡ ok tt)
        × Asks
            (env.clock s.clock_reads / 1000)
            (after_heartbeat (env.clock s.clock_reads / 1000) (read_clock env s).1)
            (internal_update env s).1
  unfolding internal_update read_clock
  internal_update-silent s beats tests up ready silent =
      rw (internal_update, up) (update_connected-silent _ _ beats tests ready silent)

  -- An update of a connected session that waits for the answer to a test request, when the threshold
  -- has passed, terminates the connection: the session is in its logon state and not connected.
  pub internal_update-unanswered :
      (s : Session)
      → s.handler.connected ≡ true
      → s.state ≡ SessionState.test_request
      → elapsed
          (env.clock s.clock_reads / 1000)
          s.last_sent_test_request
          (env.threshold_times s.heartbeat_interval)
        ≡ true
      → ((internal_update env s).0 ≡ ok tt)
        × ((internal_update env s).1.state ≡ SessionState.logon)
        × ((internal_update env s).1.handler.connected ≡ false)
  unfolding internal_update read_clock
  internal_update-unanswered s up waiting late =
      rw (internal_update, up) (update_connected-late _ _ waiting late)
