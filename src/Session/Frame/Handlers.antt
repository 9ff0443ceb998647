-- ===== src/Session/Frame/Handlers.antt =====
-- What the validation of src/Session.cpp and the message recovery leave alone.
use openfix.Prelude.{ℕ, Bool, List, [], ◌∷◌, arith, Bytes}
use openfix.Message.{Message}
use openfix.Session.State.{Env, M, modify}
use openfix.Session.Send.{terminate}
use openfix.Session.Recovery.{resend, resend_now, recover_one, recover_loop, run_message_recovery}
use openfix.Session.Validate.{
  fail, validate_state, validate_time, expect_field, validate_parties, validate_message,
}
use openfix.Session.Frame.{
  Framed, frame_rules, Framed-modify, logout-Framed, send_reject-Framed, send_sequence_reset-Framed,
  read_clock-Frame, internal_send-Frame, terminate-Frame,
}

Framed-terminate : (reason : Bytes) → Framed (modify (terminate reason))
Framed-terminate reason = Framed-modify _ (terminate-Frame reason)

module _ (env : Env) where
  fail-Framed : (reason : Bytes) → Framed (fail env reason)
  unfolding fail
  fail-Framed reason = search (frame_rules, Framed-terminate, logout-Framed) depth 8

  validate_state-Framed : (type : Bytes) → Framed (validate_state env type)
  unfolding validate_state
  validate_state-Framed type = search (frame_rules, logout-Framed) depth 8

  validate_time-Framed :
      (msg : Message) (type : Bytes) (time : ℕ) → Framed (validate_time env msg type time)
  unfolding validate_time
  validate_time-Framed msg type time =
      search (frame_rules, logout-Framed, send_reject-Framed, validate_state-Framed) depth 9

  expect_field-Framed :
      (msg : Message) (tag : ℕ) (expected reason : Bytes) (next : M Bool)
      → Framed next
      → Framed (expect_field env msg tag expected reason next)
  unfolding expect_field
  expect_field-Framed msg tag expected reason next h = search (frame_rules, fail-Framed) depth 8

  validate_parties-Framed :
      (msg : Message) (type : Bytes) (time : ℕ) → Framed (validate_parties env msg type time)
  unfolding validate_parties
  validate_parties-Framed msg type time = record {
    at = λ s.
        (expect_field-Framed msg _ _ _ _ (
            expect_field-Framed msg _ _ _ _
              (expect_field-Framed msg _ _ _ _ (validate_time-Framed msg type time)))).at
          s;
  }

  pub validate_message-Framed :
      (msg : Message) (type : Bytes) (time : ℕ) → Framed (validate_message env msg type time)
  unfolding validate_message
  validate_message-Framed msg type time =
      search (frame_rules, logout-Framed, validate_parties-Framed) depth 8

  Framed-resend_now : (text : Bytes) (msg : Message) → Framed (modify (resend_now env text msg))
  unfolding resend_now
  Framed-resend_now text msg =
      Framed-modify _ λ s. grind (arith, read_clock-Frame, internal_send-Frame)

  resend-Framed : (msg : Message) → Framed (resend env msg)
  unfolding resend
  resend-Framed msg = search (frame_rules, Framed-resend_now) depth 8

  recover_one-Framed :
      (seqno : ℕ) (msg : Message) (type : Bytes) (ptr : ℕ)
      → Framed (recover_one env seqno msg type ptr)
  unfolding recover_one
  recover_one-Framed seqno msg type ptr =
      search (frame_rules, resend-Framed, send_sequence_reset-Framed) depth 9

  recover_loop-Framed :
      (entries : List (ℕ × Bytes)) (ptr : ℕ) → Framed (recover_loop env entries ptr)
  unfolding recover_loop
  recover_loop-Framed [] ptr = search frame_rules
  recover_loop-Framed ((seqno, wire) ∷ entries) ptr =
      let rest = recover_loop-Framed entries in
      search (frame_rules, recover_one-Framed, rest) depth 9

  pub run_message_recovery-Framed : (from to : ℕ) → Framed (run_message_recovery env from to)
  unfolding run_message_recovery
  run_message_recovery-Framed from to =
      search (frame_rules, recover_loop-Framed, send_sequence_reset-Framed) depth 9
