-- ===== src/Tests/Fixture.antt =====
-- A session of an acceptor that has logged on, with the header order of test/FIXDictionary.xml.
use openfix.Session.GapFill.{fix_header_order}
use openfix.Prelude.{
  ℕ, ◌+◌, true, false, some, List, [], ◌∷◌, Bytes, codes, int, long, seconds_to_millis,
}
use openfix.Message.{GroupSpec, group_spec, no_specs, FieldMap, field_map, no_groups, Message}
use openfix.Cache.{Cache}
use openfix.Network.Handler.{Handler}
use openfix.Writer.{WriterInstance}
use openfix.Session.State.{Settings, SessionState, SessionType, Session, Env}

abbrev pub header_spec : GroupSpec
header_spec = group_spec [] no_specs true fix_header_order

abbrev pub plain_spec : GroupSpec
plain_spec = group_spec [] no_specs false []

abbrev pub fields_of : List (ℕ × Bytes) → FieldMap
fields_of fields = field_map fields no_groups (some plain_spec) []

-- An order with sequence number 2 from the counterparty.
abbrev pub order : Message
order = record {
  header = fields_of (
      (8, codes "FIX.4.2")
      ∷ (35, codes "D")
      ∷ (49, codes "CLIENT")
      ∷ (56, codes "SERVER")
      ∷ (34, codes "2")
      ∷ (52, codes "20240101-00:00:00")
      ∷ []);
  body = fields_of ((58, codes "hello") ∷ []);
  trailer = fields_of [];
  source_text = codes "order";
}

-- The clock advances by a second at each reading; every packet is written at once.
abbrev pub env : Env
env = record {
  clock = λ n. 5000000 + n;
  inline = λ n. true;
  connects = λ n. some 7;
  parse = λ text. some order;
  header_spec = header_spec;
  trailer_spec = plain_spec;
  body_spec = λ type. some plain_spec;
  parse_utc_timestamp = λ text. long 5000;
  utc_timestamp = λ ms. codes "20240101-00:00:05.000";
  threshold_times = λ interval. interval;
}

abbrev pub settings : Settings
settings = record {
  begin_string = codes "FIX.4.2";
  sender_comp_id = codes "SERVER";
  target_comp_id = codes "CLIENT";
  session_type = SessionType.acceptor;
  is_test = false;
  send_next_expected_msg_seq_num = true;
  reset_seq_num_on_logon = false;
  logon_interval = 10;
  reconnect_interval = 10;
  sending_time_threshold = 10;
}

abbrev pub empty_writer : WriterInstance
empty_writer = record {
  buffer = [];
  queue = [];
  log_entry_queue = [];
  log_entry_buffer = [];
  should_reset = false;
  dirty = false;
  format_fix_messages = false;
  is_open = false;
  file = [];
}

abbrev pub cache : Cache
cache = record {
  sender_seq_num = int 9;
  target_seq_num = int 2;
  messages = [];
  seq_nums_dirty = true;
  pending_store_seq_nums = [];
  inbound_queue = [];
  writer = empty_writer;
}

abbrev pub connection : Handler
connection = record { connection = some 7; valid = true; connected = true; stopped = false }

abbrev pub session : Session
session = record {
  settings = settings;
  state = SessionState.ready;
  cache = cache;
  handler = connection;
  has_delegate = true;
  enabled = true;
  last_sent_heartbeat = 4000;
  last_recv_heartbeat = 4000;
  last_sent_test_request = 0;
  heartbeat_interval = seconds_to_millis (int 10);
  last_logon = 1000;
  logout_time = 0;
  last_reconnect = 0;
  last_update = 4000;
  test_req_id = 0;
  cached_epoch_us = 5000000;
  clock_reads = 0;
  packets = 0;
  callbacks = [];
  events = [];
}
