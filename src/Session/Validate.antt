-- ===== src/Session/Validate.antt =====
-- src/Session.cpp: the validation of a received message.
use openfix.Prelude.{
  ℕ, ◌+◌, ◌*◌, Bool, true, false, not, ◌&&◌, ◌||◌, [], ◌++◌, ◌==◌, ltb, if◌then◌else◌, Bytes, codes,
  bytes_eq, int_zero, long, to_chars,
}
use openfix.Fields
use openfix.Message.{Message, get_field, get_int_field, has_field, try_get_bool}
use openfix.Cache
use openfix.Session.State.{
  SessionState, SessionType, Session, Env, M, ◌>>=◌, ◌>>◌, pure, gets, modify, or_throw, on_cache,
}
use openfix.Session.Send.{logout, terminate, send_reject, send_resend_request}

abbrev pub is_state : SessionState → SessionState → Bool
is_state SessionState.logon SessionState.logon = true
is_state SessionState.ready SessionState.ready = true
is_state SessionState.test_request SessionState.test_request = true
is_state SessionState.killing SessionState.killing = true
is_state SessionState.logout SessionState.logout = true
is_state _ _ = false

abbrev pub is_acceptor : SessionType → Bool
is_acceptor SessionType.acceptor = true
is_acceptor _ = false

abbrev pub is_initiator : SessionType → Bool
is_initiator SessionType.initiator = true
is_initiator _ = false

abbrev pub same_bool : Bool → Bool → Bool
same_bool true b = b
same_bool false b = not b

-- `std::abs(time - sendingTime) > threshold * 1000`, for a time that is not negative and the code
-- of a long.
unfoldable pub out_of_threshold : ℕ → ℕ → ℕ → Bool
out_of_threshold time sending_time threshold =
    ltb (sending_time + threshold * 1000) (long time)
    || ltb (long time + threshold * 1000) sending_time

-- `m_cache->getInboundQueue()[seqNum] = msg`
unfoldable pub enqueue : ℕ → Message → Session → Session
enqueue seq msg s =
    on_cache (λ c. record c { inbound_queue = Cache.enqueue seq msg c.inbound_queue }) s

module _ (env : Env) where
  -- The `fail` of Session::validateMessage.
  unfoldable pub fail : Bytes → M Bool
  fail reason = do
    s ← gets (λ s. s)
    (if is_state s.state SessionState.logon
        then modify (terminate reason)
        else logout env reason true)
    pure false

  -- The last tests of Session::validateMessage, on the state and the message type.
  unfoldable pub validate_state : Bytes → M Bool
  validate_state type = do
    s ← gets (λ s. s)
    if is_state s.state SessionState.logon && not (bytes_eq type Fields.logon)
        then (do
          logout env (codes "Received unexpected MsgType(35) during logon state: " ++ type) true
          pure false)
        else if is_state s.state SessionState.logout
            && not (bytes_eq type Fields.logout)
            && not (bytes_eq type Fields.resend_request)
        then (do
          logout env (codes "Received unexpected MsgType(35) during logoff state: " ++ type) true
          pure false)
        else pure true

  -- The tests of Session::validateMessage on SendingTime and PossDupFlag, and what follows.
  unfoldable pub validate_time : Message → Bytes → ℕ → M Bool
  validate_time msg type time = do
    text ← or_throw (get_field Fields.sending_time msg.header)
    s ← gets (λ s. s)
    if out_of_threshold time (env.parse_utc_timestamp text) s.settings.sending_time_threshold
        then (do
          send_reject env msg Fields.sending_time_problem []
          logout env (codes "SendingTime(52) outside of threshold") false
          pure false)
        else if try_get_bool Fields.poss_dup_flag msg.header
            && not (has_field Fields.orig_sending_time msg.header)
        then (do send_reject env msg Fields.required_tag_missing []; pure false)
        else validate_state type

  -- One of the three tests of a header field against the settings, and what follows.
  unfoldable pub expect_field : Message → ℕ → Bytes → Bytes → M Bool → M Bool
  expect_field msg tag expected reason next = do
    text ← or_throw (get_field tag msg.header)
    if bytes_eq text expected then next else fail (reason ++ text)

  -- The tests of Session::validateMessage on BeginString, SenderCompID and TargetCompID, and what
  -- follows.
  unfoldable pub validate_parties : Message → Bytes → ℕ → M Bool
  validate_parties msg type time s =
      expect_field msg Fields.begin_string s.settings.begin_string
        (codes "Failed to validate BeginString(8): ")
        (expect_field msg Fields.sender_comp_id s.settings.target_comp_id
          (codes "Failed to validate SenderCompID(49): ")
          (expect_field msg Fields.target_comp_id s.settings.sender_comp_id
            (codes "Failed to validate TargetCompID(56): ") (validate_time msg type time)))
        s

  -- Session::validateMessage
  unfoldable pub validate_message : Message → Bytes → ℕ → M Bool
  validate_message msg type time =
      if not (has_field Fields.msg_seq_num msg.header)
      then (do logout env (codes "Message missing MsgSeqNum(34)") true; pure false)
      else validate_parties msg type time

  -- Session::validateSeqNum
  unfoldable pub validate_seq_num : Message → M Bool
  validate_seq_num msg = do
    seq ← or_throw (get_int_field Fields.msg_seq_num msg.header)
    target ← gets (λ s. s.cache.target_seq_num)
    if seq == target
        then (do modify (on_cache Cache.next_target); pure true)
        else if ltb seq target
        then (do
          logout env
              (codes "MsgSeqNum too low, expected "
                ++ (to_chars target ++ (codes ", received " ++ to_chars seq)))
              true
          pure false)
        else if seq == int_zero
        then pure false
        else (do modify (enqueue seq msg); send_resend_request env target seq; pure false)
