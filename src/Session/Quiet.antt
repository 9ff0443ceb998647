-- ===== src/Session/Quiet.antt =====
-- The handlers of src/Session.cpp that give the delegate no application message.
pub mod Delivery
pub mod InOrder
use openfix.Prelude.{
  ℕ, Bool, true, false, Option, none, some, List, [], ◌∷◌, ◌≡◌, refl, ◌∙◌, arith, Bytes, ◌++◌,
  if◌then◌else◌, ltb, leb, not, ◌&&◌, ◌||◌, seconds_to_millis, int_zero,
}
use openfix.Message.{Message, get_field, get_int_field, has_field, try_get_bool}
use openfix.Cache
use openfix.Cache.{Cache}
use openfix.Session.State.{
  SessionState, Event, Session, Env, M, Outcome, ok, threw, stuck, ◌>>=◌, ◌>>◌, pure, gets, modify,
  or_throw, emit, on_cache,
}
use openfix.Session.Send.{
  logout, send_reject, send_resend_request, send_logon, send_logout, send_heartbeat,
}
use openfix.Session.Recovery.{run_message_recovery}
use openfix.Session.Validate.{validate_message, validate_seq_num, enqueue}
use openfix.Session.Handlers.{
  tell, finish_logon, reset_logon, handle_logon, handle_resend_request, handle_sequence_reset,
  recover_from, set_interval, set_state,
}
use openfix.Session.Rules.{
  Related, Related-pure, Related-gets, Related-or_throw, Related-bind, Related-modify, Related-if,
}
use openfix.Session.Frame.{
  deliveries, Frame, Framed, logout-Framed, send_reject-Framed, send_resend_request-Framed,
  send_logon-Framed, send_logout-Framed, send_heartbeat-Framed,
}
use openfix.Session.Frame.Handlers.{validate_message-Framed, run_message_recovery-Framed}

-- The settings and the delivered messages stay.
pub record Quiet (s t : Session) : Type 0 where
  pub settings : t.settings ≡ s.settings
  pub delivered : deliveries t.events ≡ deliveries s.events

Quiet-refl : (s : Session) → Quiet s s
Quiet-refl s = ground arith

pub Quiet-trans : (s t u : Session) → Quiet s t → Quiet t u → Quiet s u
Quiet-trans s t u f g = ground arith

abbrev pub Quieted : {A : Type 0} → M A → Type 0
Quieted m = Related Quiet m

pub Quieted-pure : {A : Type 0} (a : A) → Quieted (pure a)
Quieted-pure a = Related-pure Quiet Quiet-refl Quiet-trans a

pub Quieted-gets : {A : Type 0} (f : Session → A) → Quieted (gets f)
Quieted-gets f = Related-gets Quiet Quiet-refl Quiet-trans f

pub Quieted-or_throw : {A : Type 0} (o : Option A) → Quieted (or_throw o)
Quieted-or_throw o = Related-or_throw Quiet Quiet-refl Quiet-trans o

pub Quieted-if :
    {A : Type 0} (b : Bool) (m n : M A) → Quieted m → Quieted n → Quieted (if b then m else n)
Quieted-if b m n hm hn = Related-if Quiet b m n hm hn

pub Quieted-bind :
    {A B : Type 0} (m : M A) (f : A → M B)
    → Quieted m
    → ((a : A) → Quieted (f a))
    → Quieted (m >>= f)
Quieted-bind m f hm hf = Related-bind Quiet Quiet-refl Quiet-trans m f hm hf

pub Quieted-Framed : {A : Type 0} (m : M A) → Framed m → Quieted m
Quieted-Framed m h = record {
  at = λ s. record { settings = (h.at s).settings; delivered = (h.at s).delivered };
}

pub Quieted-cache : (f : Cache → Cache) → Quieted (modify (on_cache f))
Quieted-cache f = Related-modify Quiet _ (λ s. ground arith)

pub Quieted-on_logon : Quieted (modify (tell Event.on_logon))
unfolding tell deliveries
Quieted-on_logon = Related-modify Quiet _ (λ s. ground arith)

pub Quieted-set_interval : (interval : ℕ) → Quieted (modify (set_interval interval))
unfolding set_interval
Quieted-set_interval interval = Related-modify Quiet _ (λ s. ground arith)

pub Quieted-set_state : (state : SessionState) → Quieted (modify (set_state state))
unfolding set_state
Quieted-set_state state = Related-modify Quiet _ (λ s. ground arith)

pub Quieted-enqueue : (seq : ℕ) (msg : Message) → Quieted (modify (enqueue seq msg))
unfolding enqueue
Quieted-enqueue seq msg = Related-modify Quiet _ (λ s. ground arith)

pub ruleset quiet_rules = (
  Quieted-pure, Quieted-gets, Quieted-or_throw, Quieted-if, Quieted-bind, Quieted-cache,
  Quieted-on_logon, Quieted-set_interval, Quieted-set_state, Quieted-enqueue, Quieted-Framed,
  logout-Framed, send_reject-Framed, send_resend_request-Framed, send_logon-Framed,
  run_message_recovery-Framed,
)

module _ (env : Env) where
  pub validate_seq_num-Quieted : (msg : Message) → Quieted (validate_seq_num env msg)
  unfolding validate_seq_num
  validate_seq_num-Quieted msg = search quiet_rules depth 9

  pub handle_resend_request-Quieted : (msg : Message) → Quieted (handle_resend_request env msg)
  unfolding handle_resend_request
  handle_resend_request-Quieted msg = search quiet_rules depth 9

  pub handle_sequence_reset-Quieted : (msg : Message) → Quieted (handle_sequence_reset env msg)
  unfolding handle_sequence_reset
  handle_sequence_reset-Quieted msg = search (quiet_rules, validate_seq_num-Quieted) depth 10

  recover_from-Quieted : (next : Option ℕ) → Quieted (recover_from env next)
  unfolding recover_from
  recover_from-Quieted none = search quiet_rules
  recover_from-Quieted (some from) = search quiet_rules

  finish_logon-Quieted :
      (msg : Message) (reset : Bool) (next : Option ℕ) (seq expected : ℕ)
      → Quieted (finish_logon env msg reset next seq expected)
  unfolding finish_logon
  finish_logon-Quieted msg reset next seq expected =
      search (quiet_rules, recover_from-Quieted) depth 12

  reset_logon-Quieted :
      (msg : Message) (next : Option ℕ) (seq expected : ℕ)
      → Quieted (reset_logon env msg next seq expected)
  unfolding reset_logon
  reset_logon-Quieted msg next seq expected = search (quiet_rules, finish_logon-Quieted) depth 10

  pub handle_logon-Quieted : (msg : Message) → Quieted (handle_logon env msg)
  unfolding handle_logon
  handle_logon-Quieted msg = search (quiet_rules, reset_logon-Quieted) depth 12
