-- ===== src/Session/Send.antt =====
-- src/Session.cpp: what a session sends, from `send` and `internal_send` to the messages of its
-- own. The clock is read where the source reads it.
use openfix.Prelude.{
  ℕ, suc, ◌/◌, ◌%◌, Bool, true, false, Option, none, some, [], ◌∷◌, ◌++◌, ◌==◌, if◌then◌else◌,
  Bytes, codes, is_empty, int, to_chars, millis_to_seconds,
}
use openfix.Fields
use openfix.Message.{
  FieldMap, field_map, no_groups, Message, get_field, set_field, set_field_view, set_int_field,
}
use openfix.Message.Serialize.{to_string}
use openfix.Cache
use openfix.Network.Handler
use openfix.Network.Handler.{Sending}
use openfix.Session.State.{
  SessionState, Settings, Callback, Event, Session, Env, M, ◌>>=◌, ◌>>◌, gets, modify, or_throw,
  emit, on_cache,
}

-- Session::terminate
unfoldable pub terminate : Bytes → Session → Session
terminate reason s =
    emit Event.disconnected
      (record (emit (Event.logged_event (codes "Terminating: " ++ reason)) s) {
        handler = Handler.disconnect s.handler;
        state = SessionState.logon;
      })

-- A call of a send callback.
unfoldable pub call_back : Callback → Session → Session
call_back Callback.no_callback s = s
call_back (Callback.terminates reason) s = terminate reason s
call_back (Callback.client n) s = emit (Event.called_back n) s

-- The fate of a packet that has been handed to the network handler.
unfoldable pub settle : Sending → Bytes → Callback → Session → Session
settle Sending.dropped wire done s = s
settle Sending.written wire done s = call_back done (emit (Event.transmitted wire true) s)
settle Sending.queued wire done s = record (emit (Event.transmitted wire false) s) {
  callbacks = s.callbacks ++ done ∷ [];
}

-- The reader thread has flushed the oldest packet of the write queue: its callback is called.
unfoldable pub flush_callback : Session → Session
flush_callback s = elim s.callbacks [
  | [] ↦ s
  | callback ∷ rest ↦ call_back callback (record s { callbacks = rest })
]

-- `++m_testReqID`
unfoldable pub count_test_request : Session → Session
count_test_request s = record s { test_req_id = suc s.test_req_id }

abbrev pub with_body : (FieldMap → FieldMap) → Message → Message
with_body f msg = record msg { body = f msg.body }

module _ (env : Env) where
  -- A reading of the clock, in microseconds.
  unfoldable pub read_clock : Session → ℕ × Session
  read_clock s = (env.clock s.clock_reads, record s { clock_reads = suc s.clock_reads })

  -- `m_cachedEpochUs ? m_cachedEpochUs : Utils::getEpochMicros()`
  unfoldable pub epoch_micros : Session → ℕ × Session
  epoch_micros s = if s.cached_epoch_us == 0 then read_clock s else (s.cached_epoch_us, s)

  -- `m_network->send({msg, callback})`
  unfoldable pub network_send : Bytes → Callback → Session → Session
  network_send wire callback s =
      let (h, sending) = Handler.send (env.inline s.packets) s.handler in
      settle sending wire callback (record s { handler = h; packets = suc s.packets })

  -- Session::internal_send of a text.
  unfoldable pub internal_send_text : Bytes → Callback → ℕ → Session → Session
  internal_send_text wire callback epoch_us s =
      if s.handler.connected
      then record (network_send wire callback (emit (Event.logged_outbound epoch_us wire) s)) {
        last_sent_heartbeat = epoch_us / 1000;
      }
      else s

  -- Session::internal_send of a message.
  unfoldable pub internal_send : Message → Callback → Session → Session
  internal_send msg callback s =
      let (epoch_us, s') = epoch_micros s in
      internal_send_text (to_string true msg) callback epoch_us s'

  -- Session::populateMessage with a time that is not 0, the header alone.
  unfoldable pub populate_header : Settings → ℕ → ℕ → FieldMap → FieldMap
  populate_header settings seqnum epoch_ms header =
      set_field_view Fields.msg_seq_num (to_chars seqnum) false (
        set_field_view Fields.sending_time (env.utc_timestamp epoch_ms) false (
          set_field_view Fields.target_comp_id settings.target_comp_id false (
            set_field_view Fields.sender_comp_id settings.sender_comp_id false
              (set_field_view Fields.begin_string settings.begin_string false header))))

  unfoldable pub with_populated : Session → ℕ → Message → Message
  with_populated s epoch_ms msg = record msg {
    header = populate_header s.settings s.cache.sender_seq_num epoch_ms msg.header;
  }

  -- Session::populateMessage; the time 0 stands for the present. The second result is the
  -- session, since the clock may be read.
  unfoldable pub populate_message : Message → ℕ → Session → Message × Session
  populate_message msg epoch_ms s =
      let (now, s') = read_clock s in
      if epoch_ms == 0
      then (with_populated s (now / 1000) msg, s')
      else (with_populated s epoch_ms msg, s)

  -- Session::send
  unfoldable pub send : Message → Callback → Session → Session
  send msg callback s =
      let (epoch_us, s₁) = epoch_micros s in
      let (msg', s₂) = populate_message msg (epoch_us / 1000) s₁ in
      let wire = to_string true msg' in
      let seqnum = s₁.cache.sender_seq_num in
      internal_send_text wire callback epoch_us
        (on_cache (λ c. Cache.next_sender (Cache.cache seqnum wire c)) s₂)

  -- Dictionary::create: the specs of the parts, and the message type in the header; `none` is the
  -- exception for a type that the dictionary does not have.
  unfoldable pub create : Bytes → Option Message
  create type = elim (env.body_spec type) [
    | none ↦ none
    | some spec ↦ some (record {
      header = set_field Fields.msg_type type (field_map [] no_groups (some env.header_spec) []);
      body = field_map [] no_groups (some spec) [];
      trailer = field_map [] no_groups (some env.trailer_spec) [];
      source_text = [];
    })
  ]

  -- `m_lastLogon = Utils::getEpochMillis()`
  unfoldable pub stamp_logon : Session → Session
  stamp_logon s = let (now, s') = read_clock s in record s' { last_logon = now / 1000 }

  -- Session::sendLogon
  unfoldable pub send_logon : Bool → M (Unit {0})
  send_logon should_reset = do
    msg ← or_throw (create Fields.logon)
    s ← gets (λ s. s)
    let body =
        set_field Fields.encrypt_method (codes "0")
          (set_int_field Fields.heart_bt_int (millis_to_seconds s.heartbeat_interval) msg.body)
    let header =
        if s.settings.send_next_expected_msg_seq_num
        then set_int_field Fields.next_expected_msg_seq_num s.cache.target_seq_num msg.header
        else msg.header
    let header' =
        if should_reset then set_field Fields.reset_seq_num_flag (codes "Y") header else header
    modify (send (record msg { header = header'; body = body }) Callback.no_callback)
    modify stamp_logon

  -- Session::sendLogout
  unfoldable pub send_logout : Bytes → Bool → M (Unit {0})
  send_logout reason terminal = do
    msg ← or_throw (create Fields.logout)
    let msg' = if is_empty reason then msg else with_body (set_field Fields.text_tag reason) msg
    modify (send msg' (if terminal then Callback.terminates reason else Callback.no_callback))

  -- Session::sendResendRequest
  unfoldable pub send_resend_request : ℕ → ℕ → M (Unit {0})
  send_resend_request from to = do
    msg ← or_throw (create Fields.resend_request)
    modify (
        send
          (with_body
            (λ b. set_int_field Fields.end_seq_no to (set_int_field Fields.begin_seq_no from b))
            msg)
          Callback.no_callback)

  -- The message of Session::sendSequenceReset, from the created one, at the time `now`.
  unfoldable pub gap_fill_message : ℕ → ℕ → Bool → ℕ → Message → Message
  gap_fill_message seqno new_seqno gapfill now msg =
      let body = set_int_field Fields.new_seq_no new_seqno msg.body in
      record msg {
        header = set_field Fields.poss_dup_flag (codes "Y") (
            set_int_field Fields.msg_seq_num seqno
              (set_field Fields.orig_sending_time (env.utc_timestamp now) msg.header));
        body = if gapfill then set_field Fields.gap_fill_flag (codes "Y") body else body;
      }

  -- The rest of Session::sendSequenceReset, for the created message.
  unfoldable pub send_gap_fill : ℕ → ℕ → Bool → Message → Session → Session
  send_gap_fill seqno new_seqno gapfill msg s =
      let (msg', s₁) = populate_message msg 0 s in
      let (now, s₂) = read_clock s₁ in
      internal_send (gap_fill_message seqno new_seqno gapfill (now / 1000) msg')
        Callback.no_callback s₂

  -- Session::sendSequenceReset
  unfoldable pub send_sequence_reset : ℕ → ℕ → Bool → M (Unit {0})
  send_sequence_reset seqno new_seqno gapfill = do
    msg ← or_throw (create Fields.sequence_reset)
    modify (send_gap_fill seqno new_seqno gapfill msg)

  -- Session::sendHeartbeat
  unfoldable pub send_heartbeat : Bytes → M (Unit {0})
  send_heartbeat test_id = do
    msg ← or_throw (create Fields.heartbeat)
    modify (
        send
          (if is_empty test_id then msg else with_body (set_field Fields.test_req_id test_id) msg)
          Callback.no_callback)

  -- Session::sendTestRequest; `static_cast<int>(++m_testReqID)`.
  unfoldable pub send_test_request : M (Unit {0})
  send_test_request = do
    msg ← or_throw (create Fields.test_request)
    modify count_test_request
    id ← gets (λ s. int s.test_req_id % 4294967296)
    modify (send (with_body (set_int_field Fields.test_req_id id) msg) Callback.no_callback)

  -- Session::sendReject
  unfoldable pub send_reject : Message → ℕ → Bytes → M (Unit {0})
  send_reject rejected reason text = do
    msg ← or_throw (create Fields.reject)
    seqnum ← or_throw (get_field Fields.msg_seq_num rejected.header)
    let body =
        set_int_field Fields.session_reject_reason (int reason)
          (set_field Fields.ref_seq_num seqnum msg.body)
    modify (
        send
          (record msg {
            body = if is_empty text then body else set_field Fields.text_tag text body;
          })
          Callback.no_callback)

  -- The state that Session::logout enters.
  unfoldable pub enter_logout : Bool → Session → Session
  enter_logout terminal s =
      let (now, s') = read_clock s in
      if terminal
      then record s { state = SessionState.killing }
      else record s' { state = SessionState.logout; logout_time = now / 1000 }

  -- Session::logout
  unfoldable pub logout : Bytes → Bool → M (Unit {0})
  logout reason terminal = do modify (enter_logout terminal); send_logout reason terminal
