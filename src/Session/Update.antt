-- ===== src/Session/Update.antt =====
-- src/Session.cpp: start and stop, and the timers of a session: reconnect, logon, heartbeats, test
-- requests and the two timeouts.
use openfix.Prelude.{
  ℕ, ◌+◌, ◌*◌, ◌/◌, Bool, false, not, ◌&&◌, none, some, [], ◌++◌, leb, if◌then◌else◌, codes, long,
  int, to_chars,
}
use openfix.Cache
use openfix.Network.Handler
use openfix.Session.State.{
  SessionState, Event, Session, Env, M, ok, ◌>>=◌, ◌>>◌, pure, gets, modify, emit, on_cache,
}
use openfix.Session.Send.{read_clock, send_logon, send_heartbeat, send_test_request, terminate}
use openfix.Session.Validate.{is_state, is_initiator}

-- `(time - last) >= interval`, for times that are not negative and the code of a long.
unfoldable pub elapsed : ℕ → ℕ → ℕ → Bool
elapsed time last interval = leb (last + interval) (long time)

-- Session::start and Session::setEnabled
unfoldable pub set_enabled : Bool → Session → Session
set_enabled enabled s = record s { enabled = enabled }

-- Session::stop
unfoldable pub stop : Session → Session
stop s = emit Event.disconnected (record s {
  enabled = false;
  cache = Cache.flush_seq_nums s.cache;
  handler = Handler.stop s.handler;
})

module _ (env : Env) where
  -- `m_network->start()`: an initiator connects or does not; an acceptor listens.
  unfoldable pub network_start : Session → Session
  network_start s =
      let s' = emit Event.network_started s in
      if is_initiator s.settings.session_type
      then elim (env.connects s.clock_reads) [
        | none ↦ s'
        | some fd ↦ record s' { handler = Handler.set_connection fd s.handler }
      ]
      else s'

  -- Session::internal_update while the network is not connected.
  unfoldable pub update_disconnected : ℕ → Session → Session
  update_disconnected time s =
      let s' = record s { state = SessionState.logon } in
      if elapsed time s.last_reconnect (long (s.settings.reconnect_interval * 1000))
      then record (network_start s') { last_reconnect = time }
      else s'

  -- The logon of an initiator.
  unfoldable pub update_logon : M (Unit {0})
  update_logon = do
    should_reset ← gets (λ s. s.settings.reset_seq_num_on_logon)
    modify (on_cache (λ c. if should_reset then Cache.reset c else c))
    send_logon env should_reset

  -- The timeouts of a test request and of a logout.
  unfoldable pub update_timeouts : ℕ → Session → Session
  update_timeouts time s =
      let s' =
        if is_state s.state SessionState.test_request
          && elapsed time s.last_sent_test_request (env.threshold_times s.heartbeat_interval)
        then terminate
            (codes "Failed to respond to test request "
              ++ (to_chars (int s.test_req_id) ++ codes " within heartbeat timeout"))
            s
        else s in
      if is_state s'.state SessionState.logout
        && leb (2 * s'.heartbeat_interval + s'.logout_time) (long time + 9223372036854775808)
      then terminate (codes "Didn't receive logout ack in time") s'
      else s'

  -- The heartbeat that is due, and the test request.
  unfoldable pub update_heartbeat : ℕ → M (Unit {0})
  update_heartbeat time = do
    s ← gets (λ s. s)
    if elapsed time s.last_sent_heartbeat s.heartbeat_interval
        then send_heartbeat env []
        else pure tt
    t ← gets (λ s. s)
    if not (is_state t.state SessionState.test_request)
          && elapsed time t.last_recv_heartbeat (env.threshold_times t.heartbeat_interval)
        then (do
          send_test_request env
          modify
              (λ s. record s { last_sent_test_request = time; state = SessionState.test_request }))
        else pure tt

  -- Session::internal_update while the network is connected.
  unfoldable pub update_connected : ℕ → M (Unit {0})
  update_connected time = do
    s ← gets (λ s. s)
    if is_initiator s.settings.session_type
          && is_state s.state SessionState.logon
          && elapsed time s.last_logon (long (s.settings.logon_interval * 1000))
        then update_logon
        else (do
          modify (update_timeouts time)
          t ← gets (λ s. s)
          if is_state t.state SessionState.logon
              then pure tt
              else if is_state t.state SessionState.logout
              then pure tt
              else if is_state t.state SessionState.killing
              then pure tt
              else update_heartbeat time)

  -- Session::internal_update
  unfoldable pub internal_update : M (Unit {0})
  internal_update s =
      let (now, s') = read_clock env s in
      if s'.handler.connected
      then update_connected (now / 1000) s'
      else (ok tt, update_disconnected (now / 1000) s')

  -- Session::onNetworkUpdate; the exceptions end here.
  unfoldable pub on_network_update : Session → Session
  on_network_update s =
      let (micros, s') = read_clock env s in
      let now = micros / 1000 in
      if not s.enabled
      then s
      else if leb now s.last_update
      then s'
      else (internal_update (on_cache Cache.flush_seq_nums (record s' { last_update = now }))).1
