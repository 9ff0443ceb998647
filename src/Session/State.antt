-- ===== src/Session/State.antt =====
-- class Session of src/Session.h: the state of a session, what it does to the outside, what it
-- takes from there, and the actions that change it and may throw.
use openfix.Prelude.{ℕ, Bool, Option, none, some, List, ◌∷◌, Bytes}
use openfix.Message.{GroupSpec, Message}
use openfix.Cache.{Cache}
use openfix.Network.Handler.{Handler}

-- enum class SessionType and enum class SessionState
pub data SessionType : Type 0 where
  unknown acceptor initiator : SessionType

pub data SessionState : Type 0 where
  logon ready test_request killing logout : SessionState

-- The SessionSettings that the session reads; the intervals are seconds and not negative.
pub record Settings : Type 0 where
  pub begin_string : Bytes
  pub sender_comp_id : Bytes
  pub target_comp_id : Bytes
  pub session_type : SessionType
  pub is_test : Bool
  pub send_next_expected_msg_seq_num : Bool
  pub reset_seq_num_on_logon : Bool
  pub logon_interval : ℕ
  pub reconnect_interval : ℕ
  pub sending_time_threshold : ℕ

-- A send callback: none, the `terminate(reason)` of `sendLogout`, or one of the client's.
pub data Callback : Type 0 where
  no_callback : Callback
  terminates : Bytes → Callback
  client : ℕ → Callback

-- What a session does: a packet for the network (and whether it was written at once), a line of
-- the message log or the event log, a call of the delegate or of a client's callback, a start or a
-- disconnect of the network handler.
pub data Event : Type 0 where
  transmitted : Bytes → Bool → Event
  logged_inbound : ℕ → Bytes → Event
  logged_outbound : ℕ → Bytes → Event
  logged_event : Bytes → Event
  on_message : Message → Event
  on_admin_message : Message → Event
  on_logon : Event
  on_logout : Event
  called_back : ℕ → Event
  network_started : Event
  disconnected : Event

-- The members, with the number of clock readings and of packets so far, the callbacks that wait in
-- the write queue, and the events, newest first.
pub record Session : Type 0 where
  pub settings : Settings
  pub state : SessionState
  pub cache : Cache
  pub handler : Handler
  pub has_delegate : Bool
  pub enabled : Bool
  pub last_sent_heartbeat : ℕ
  pub last_recv_heartbeat : ℕ
  pub last_sent_test_request : ℕ
  pub heartbeat_interval : ℕ
  pub last_logon : ℕ
  pub logout_time : ℕ
  pub last_reconnect : ℕ
  pub last_update : ℕ
  pub test_req_id : ℕ
  pub cached_epoch_us : ℕ
  pub clock_reads : ℕ
  pub packets : ℕ
  pub callbacks : List Callback
  pub events : List Event

-- What a session takes from outside: the clock in microseconds at its n-th reading, whether the
-- n-th packet is written at once, the descriptor that a start of the network handler connects,
-- the dictionary's parser and specs, and the timestamp functions of lib/Utils.h. The threshold
-- product is `static_cast<long>(TEST_REQUEST_THRESHOLD * interval)`, on a double.
pub record Env : Type 0 where
  pub clock : ℕ → ℕ
  pub inline : ℕ → Bool
  pub connects : ℕ → Option ℕ
  pub parse : Bytes → Option Message
  pub header_spec : GroupSpec
  pub trailer_spec : GroupSpec
  pub body_spec : Bytes → Option GroupSpec
  pub parse_utc_timestamp : Bytes → ℕ
  pub utc_timestamp : ℕ → Bytes
  pub threshold_times : ℕ → ℕ

-- The outcome of an action: an exception leaves the state that it was thrown in. `stuck` is no
-- outcome of the code: the fuel of a loop ran out.
pub data Outcome {ℓ} (A : Type ℓ) : Type ℓ where
  ok : A → Outcome A
  threw : Outcome A
  stuck : Outcome A

abbrev pub M : Type 0 → Type 0
M A = Session → Outcome A × Session

abbrev pub continue : {A B : Type 0} → Outcome A → (A → M B) → M B
continue (ok a) f s = f a s
continue threw f s = (threw, s)
continue stuck f s = (stuck, s)

infixl 5 ◌>>=◌ ◌>>◌
unfoldable pub ◌>>=◌ : {A B : Type 0} → M A → (A → M B) → M B
◌>>=◌ m f s = let (r, s') = m s in continue r f s'

abbrev pub ◌>>◌ : {A B : Type 0} → M A → M B → M B
m >> k = m >>= λ _. k

unfoldable pub pure : {A : Type 0} → A → M A
pure a s = (ok a, s)

unfoldable pub gets : {A : Type 0} → (Session → A) → M A
gets f s = (ok (f s), s)

unfoldable pub modify : (Session → Session) → M (Unit {0})
modify f s = (ok tt, f s)

unfoldable pub or_throw : {A : Type 0} → Option A → M A
or_throw none s = (threw, s)
or_throw (some a) s = (ok a, s)

abbrev pub emit : Event → Session → Session
emit e s = record s { events = e ∷ s.events }

abbrev pub on_cache : (Cache → Cache) → Session → Session
on_cache f s = record s { cache = f s.cache }
