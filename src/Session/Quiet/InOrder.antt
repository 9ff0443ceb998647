-- ===== src/Session/Quiet/InOrder.antt =====
-- processMessage of src/Session.cpp and the application messages that the delegate is given.
use openfix.Prelude.{
  ℕ, Bool, true, false, some, ◌≡◌, refl, ◌⊎◌, inl, inr, Bytes, bytes_eq, Bool-cases, Option-cases,
}
use openfix.Fields
use openfix.Message.{Message, get_field}
use openfix.Session.State.{
  SessionState, Session, Env, Outcome, ok, threw, stuck, ◌>>=◌, pure, or_throw,
}
use openfix.Session.Validate.{validate_message}
use openfix.Session.Receive.{route, process_message}
use openfix.Session.Accept.{Accepted, validate_message-true}
use openfix.Session.Frame.Handlers.{validate_message-Framed}
use openfix.Session.Quiet.{
  Quiet, Quieted-Framed, handle_resend_request-Quieted, handle_sequence_reset-Quieted,
  handle_logon-Quieted,
}
use openfix.Session.Quiet.Delivery.{IsApplication, Delivers, accept-cases}

module _ (env : Env) (msg : Message) (time : ℕ) where
  -- The message is delivered, and what that takes.
  pub record Delivery (s t : Session) : Type 0 where
    pub type : Bytes
    pub has_type : get_field Fields.msg_type msg.header ≡ some type
    pub accepted : Accepted env msg type time s
    pub application : IsApplication type
    pub logged_on : s.state ≡ SessionState.logon → ⊥
    pub delivers : Delivers env msg type s t

  route-cases :
      (type : Bytes) (s : Session)
      → get_field Fields.msg_type msg.header ≡ some type
      → Accepted env msg type time s
      → Quiet s (route env msg type s).1 ⊎ Delivery s (route env msg type s).1
  unfolding route
  route-cases type s has a = elim (Bool-cases (bytes_eq type Fields.sequence_reset)) [
    | inl e ↦ rw e (inl ((handle_sequence_reset-Quieted env msg).at s))
    | inr e ↦ elim (Bool-cases (bytes_eq type Fields.logon)) [
      | inl f ↦ rw (e, f) (inl ((handle_logon-Quieted env msg).at s))
      | inr f ↦ elim (Bool-cases (bytes_eq type Fields.resend_request)) [
        | inl g ↦ rw (e, f, g) (inl ((handle_resend_request-Quieted env msg).at s))
        | inr g ↦
            rw (e, f, g)
              (elim (accept-cases env msg type s) [
                | inl q ↦ inl q
                | inr (d, own) ↦ inr (record {
                  type = type;
                  has_type = has;
                  accepted = a;
                  application = (own.0, own.1, own.2, own.3, e, f, g);
                  logged_on = λ start. cc (a.fits.logon_first start, f);
                  delivers = d;
                })
              ])
      ]
    ]
  ]

  validated :
      (type : Bytes) (s : Session)
      → get_field Fields.msg_type msg.header ≡ some type
      → Quiet s (process_message env msg time s).1 ⊎ Delivery s (process_message env msg time s).1
  unfolding process_message ◌>>=◌ or_throw pure
  validated type s has = go (validate_message env msg type time s).0 refl
    where
      failed : Quiet s (validate_message env msg type time s).1
      failed = (Quieted-Framed _ (validate_message-Framed env msg type time)).at s

      go :
          (r : Outcome Bool)
          → (validate_message env msg type time s).0 ≡ r
          → Quiet s (process_message env msg time s).1
            ⊎ Delivery s (process_message env msg time s).1
      go (ok true) e =
          let (same, a) = validate_message-true env msg type time s e in
          rw (has, process_message, e, same) (route-cases type s has a)
      go (ok false) e = rw (has, process_message, e) (inl failed)
      go threw e = rw (has, process_message, e) (inl failed)
      go stuck e = rw (has, process_message, e) (inl failed)

  -- Processing a message either delivers nothing, or delivers this message alone, and then: it has
  -- passed every test of the header, the counterparty, the sending time and the original sending
  -- time of a possible duplicate; it is of no type of the
  -- session protocol; the session was logged on; its sequence number is the one that the session
  -- expected; and the session expects the next one.
  pub process_message-Delivery :
      (s : Session)
      → Quiet s (process_message env msg time s).1 ⊎ Delivery s (process_message env msg time s).1
  unfolding process_message ◌>>=◌ or_throw
  process_message-Delivery s = elim (Option-cases (get_field Fields.msg_type msg.header)) [
    | inl e ↦ rw (e, process_message) (inl (record { settings = refl; delivered = refl }))
    | inr (type, e) ↦ validated type s e
  ]
