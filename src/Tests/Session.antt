-- ===== src/Tests/Session.antt =====
-- The theorems on the session at concrete inputs.
use openfix.Prelude.{◌≡◌, refl, ◌⊎◌, [], ◌∷◌, some, true, codes, bytes_eq}
use openfix.Fields
use openfix.LinkedHashMap.{find, has}
use openfix.Message.{Message, field_map, no_groups, get_field, has_field, try_get_bool}
use openfix.Session.State.{Callback, ok, ◌>>=◌, or_throw, gets, pure}
use openfix.Session.Send.{send}
use openfix.Session.Validate.{
  validate_message, validate_parties, expect_field, validate_time, validate_state, out_of_threshold,
}
use openfix.Session.Receive.{process_message}
use openfix.Session.Accept.{Accepted, validate_message-true}
use openfix.Session.Sent.{Sent, send-Sent}
use openfix.Session.Quiet.{Quiet}
use openfix.Session.Quiet.InOrder.{Delivery, process_message-Delivery}
use openfix.Tests.Fixture.{env, session, order, header_spec, plain_spec}

process_message-Delivery_example :
    Quiet session (process_message env order 5000 session).1
    ⊎ Delivery env order 5000 session (process_message env order 5000 session).1
process_message-Delivery_example = process_message-Delivery env order 5000 session

send-Sent_example : Sent env order session (send env order Callback.no_callback session)
send-Sent_example = send-Sent env order Callback.no_callback session

-- The message that `create` makes for a sequence reset.
abbrev reset_message : Message
reset_message = record {
  header = field_map ((35, codes "4") ∷ []) no_groups (some header_spec) [];
  body = field_map [] no_groups (some plain_spec) [];
  trailer = field_map [] no_groups (some plain_spec) [];
  source_text = [];
}

order-validates : (validate_message env order (codes "D") 5000 session).0 ≡ ok true
unfolding validate_message validate_parties expect_field validate_time validate_state
    out_of_threshold has_field try_get_bool get_field has find bytes_eq ◌>>=◌ or_throw gets pure
order-validates = refl

validate_message-true_example :
    ((validate_message env order (codes "D") 5000 session).1 ≡ session)
    × Accepted env order (codes "D") 5000 session
validate_message-true_example =
    validate_message-true env order (codes "D") 5000 session order-validates
