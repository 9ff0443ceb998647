-- ===== src/Session/Frame.antt =====
-- What the sending actions of src/Session.cpp leave alone: the settings, the target sequence number,
-- the inbound queue, and what the delegate has been given.
pub mod Handlers
use openfix.Prelude.{
  ℕ, suc, Bool, true, false, Option, none, some, List, [], ◌∷◌, ◌≡◌, refl, ◌∙◌, arith, Bytes, ◌/◌,
  if◌then◌else◌,
}
use openfix.Message.{Message}
use openfix.Cache
use openfix.Network.Handler
use openfix.Network.Handler.{Sending}
use openfix.Session.Rules.{
  Related, Related-pure, Related-gets, Related-or_throw, Related-bind, Related-modify, Related-if,
}
use openfix.Session.State.{
  Settings, Callback, Event, Session, Env, M, Outcome, ok, threw, stuck, ◌>>=◌, ◌>>◌, pure, gets,
  modify, or_throw, emit, on_cache,
}
use openfix.Session.Send.{
  terminate, call_back, settle, flush_callback, read_clock, epoch_micros, network_send,
  internal_send_text, internal_send, with_populated, populate_message, send, create, send_logon,
  send_logout, send_resend_request, gap_fill_message, send_sequence_reset, send_heartbeat,
  send_test_request, send_reject, logout, stamp_logon, count_test_request, enter_logout,
  send_gap_fill,
}

-- The application messages that the delegate has been given, newest first.
unfoldable pub deliveries : List Event → List Message
deliveries [] = []
deliveries (Event.on_message msg ∷ events) = msg ∷ deliveries events
deliveries (_ ∷ events) = deliveries events

pub record Frame (s t : Session) : Type 0 where
  pub settings : t.settings ≡ s.settings
  pub delegate : t.has_delegate ≡ s.has_delegate
  pub target : t.cache.target_seq_num ≡ s.cache.target_seq_num
  pub queue : t.cache.inbound_queue ≡ s.cache.inbound_queue
  pub delivered : deliveries t.events ≡ deliveries s.events

pub Frame-refl : (s : Session) → Frame s s
Frame-refl s = ground arith

pub Frame-trans : (s t u : Session) → Frame s t → Frame t u → Frame s u
Frame-trans s t u f g = ground arith

-- Every outcome of an action keeps the frame.
abbrev pub Framed : {A : Type 0} → M A → Type 0
Framed m = Related Frame m

pub Framed-pure : {A : Type 0} (a : A) → Framed (pure a)
Framed-pure a = Related-pure Frame Frame-refl Frame-trans a

pub Framed-gets : {A : Type 0} (f : Session → A) → Framed (gets f)
Framed-gets f = Related-gets Frame Frame-refl Frame-trans f

pub Framed-or_throw : {A : Type 0} (o : Option A) → Framed (or_throw o)
Framed-or_throw o = Related-or_throw Frame Frame-refl Frame-trans o

pub Framed-modify : (f : Session → Session) → ((s : Session) → Frame s (f s)) → Framed (modify f)
Framed-modify f h = Related-modify Frame f h

pub Framed-if :
    {A : Type 0} (b : Bool) (m n : M A) → Framed m → Framed n → Framed (if b then m else n)
Framed-if b m n hm hn = Related-if Frame b m n hm hn

pub Framed-bind :
    {A B : Type 0} (m : M A) (f : A → M B) → Framed m → ((a : A) → Framed (f a)) → Framed (m >>= f)
Framed-bind m f hm hf = Related-bind Frame Frame-refl Frame-trans m f hm hf

pub ruleset frame_rules =
    (Framed-pure, Framed-gets, Framed-or_throw, Framed-modify, Framed-if, Framed-bind)

pub terminate-Frame : (reason : Bytes) (s : Session) → Frame s (terminate reason s)
unfolding terminate deliveries
terminate-Frame reason s = ground arith

call_back-Frame : (done : Callback) (s : Session) → Frame s (call_back done s)
unfolding call_back terminate deliveries
call_back-Frame Callback.no_callback s = ground arith
call_back-Frame (Callback.terminates r) s = ground arith
call_back-Frame (Callback.client n) s = ground arith

settle-Frame :
    (w : Sending) (wire : Bytes) (done : Callback) (s : Session) → Frame s (settle w wire done s)
unfolding settle deliveries
settle-Frame Sending.dropped wire done s = ground arith
settle-Frame Sending.written wire done s =
    ground (arith, call_back-Frame done (emit (Event.transmitted wire true) s))
settle-Frame Sending.queued wire done s = ground arith

module _ (env : Env) where
  pub read_clock-Frame : (s : Session) → Frame s (read_clock env s).1
  unfolding read_clock
  read_clock-Frame s = ground arith

  epoch_micros-Frame : (s : Session) → Frame s (epoch_micros env s).1
  unfolding epoch_micros read_clock
  epoch_micros-Frame s = ground arith

  network_send-Frame :
      (wire : Bytes) (done : Callback) (s : Session) → Frame s (network_send env wire done s)
  unfolding network_send
  network_send-Frame wire done s =
      let (h, sending) = Handler.send (env.inline s.packets) s.handler in
      Frame-trans s (record s { handler = h; packets = suc s.packets }) _ (ground arith)
        (settle-Frame sending wire done (record s { handler = h; packets = suc s.packets }))

  internal_send_text-Frame :
      (wire : Bytes) (done : Callback) (us : ℕ) (s : Session)
      → Frame s (internal_send_text env wire done us s)
  unfolding internal_send_text deliveries
  internal_send_text-Frame wire done us s =
      ground (arith, network_send-Frame wire done (emit (Event.logged_outbound us wire) s))

  populate_message-Frame :
      (msg : Message) (ms : ℕ) (s : Session) → Frame s (populate_message env msg ms s).1
  unfolding populate_message read_clock
  populate_message-Frame msg ms s = ground arith

  pub send-Frame : (msg : Message) (done : Callback) (s : Session) → Frame s (send env msg done s)
  unfolding send Cache.next_sender Cache.cache
  send-Frame msg done s =
      grind (arith, epoch_micros-Frame, populate_message-Frame, internal_send_text-Frame)

  pub internal_send-Frame :
      (msg : Message) (done : Callback) (s : Session) → Frame s (internal_send env msg done s)
  unfolding internal_send
  internal_send-Frame msg done s = grind (arith, epoch_micros-Frame, internal_send_text-Frame)

  Framed-send : (msg : Message) (done : Callback) → Framed (modify (send env msg done))
  Framed-send msg done = Framed-modify _ (send-Frame msg done)

  Framed-stamp_logon : Framed (modify (stamp_logon env))
  unfolding stamp_logon read_clock
  Framed-stamp_logon = Framed-modify _ (λ s. ground arith)

  Framed-count_test_request : Framed (modify count_test_request)
  unfolding count_test_request
  Framed-count_test_request = Framed-modify _ (λ s. ground arith)

  Framed-enter_logout : (terminal : Bool) → Framed (modify (enter_logout env terminal))
  unfolding enter_logout read_clock
  Framed-enter_logout terminal = Framed-modify _ (λ s. ground arith)

  Framed-send_gap_fill :
      (seqno new_seqno : ℕ) (gapfill : Bool) (msg : Message)
      → Framed (modify (send_gap_fill env seqno new_seqno gapfill msg))
  unfolding send_gap_fill
  Framed-send_gap_fill seqno new_seqno gapfill msg =
      Framed-modify _
        λ s. grind (arith, populate_message-Frame, read_clock-Frame, internal_send-Frame)

  ruleset send_rules = (
    frame_rules, Framed-send, Framed-stamp_logon, Framed-count_test_request, Framed-enter_logout,
    Framed-send_gap_fill,
  )

  pub send_logon-Framed : (reset : Bool) → Framed (send_logon env reset)
  unfolding send_logon
  send_logon-Framed reset = search send_rules depth 8

  pub send_logout-Framed :
      (reason : Bytes) (terminal : Bool) → Framed (send_logout env reason terminal)
  unfolding send_logout
  send_logout-Framed reason terminal = search send_rules

  pub send_resend_request-Framed : (from to : ℕ) → Framed (send_resend_request env from to)
  unfolding send_resend_request
  send_resend_request-Framed from to = search send_rules

  pub send_sequence_reset-Framed :
      (seqno new_seqno : ℕ) (gapfill : Bool)
      → Framed (send_sequence_reset env seqno new_seqno gapfill)
  unfolding send_sequence_reset
  send_sequence_reset-Framed seqno new_seqno gapfill = search send_rules

  pub send_heartbeat-Framed : (id : Bytes) → Framed (send_heartbeat env id)
  unfolding send_heartbeat
  send_heartbeat-Framed id = search send_rules

  pub send_test_request-Framed : Framed (send_test_request env)
  unfolding send_test_request
  send_test_request-Framed = search send_rules depth 8

  pub send_reject-Framed :
      (msg : Message) (reason : ℕ) (text : Bytes) → Framed (send_reject env msg reason text)
  unfolding send_reject
  send_reject-Framed msg reason text = search send_rules

  pub logout-Framed : (reason : Bytes) (terminal : Bool) → Framed (logout env reason terminal)
  unfolding logout
  logout-Framed reason terminal = search (send_rules, send_logout-Framed)
