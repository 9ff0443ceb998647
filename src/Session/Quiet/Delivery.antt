-- ===== src/Session/Quiet/Delivery.antt =====
-- When src/Session.cpp gives an application message to the delegate.
use openfix.Prelude.{
  Bool, true, false, some, ◌∷◌, ◌≡◌, refl, ◌⊎◌, inl, inr, arith, Bytes, bytes_eq, int_suc,
  Bool-cases,
}
use openfix.Fields
use openfix.Message.{Message, get_int_field}
use openfix.Cache
use openfix.Session.State.{
  Event, Session, Env, Outcome, ok, threw, stuck, ◌>>=◌, pure, gets, modify, or_throw, on_cache,
}
use openfix.Session.Validate.{validate_seq_num}
use openfix.Session.Handlers.{tell}
use openfix.Session.Receive.{
  log_out, test_response, receive_logout, receive_heartbeat, receive_test_request, dispatch, accept,
}
use openfix.Session.Rules.{Related-modify}
use openfix.Session.Frame.{deliveries, send_logout-Framed, send_heartbeat-Framed}
use openfix.Session.Quiet.{Quiet, Quieted, quiet_rules, validate_seq_num-Quieted}

Quieted-on_logout : Quieted (modify (tell Event.on_logout))
unfolding tell deliveries
Quieted-on_logout = Related-modify Quiet _ (λ s. ground arith)

Quieted-on_admin_message : (msg : Message) → Quieted (modify (tell (Event.on_admin_message msg)))
unfolding tell deliveries
Quieted-on_admin_message msg = Related-modify Quiet _ (λ s. ground arith)

Quieted-log_out : Quieted (modify log_out)
unfolding log_out deliveries
Quieted-log_out = Related-modify Quiet _ (λ s. ground arith)

-- The types that are no application messages.
abbrev pub IsApplication : Bytes → Type 0
IsApplication type =
    (bytes_eq type Fields.logout ≡ false)
    × (bytes_eq type Fields.heartbeat ≡ false)
    × (bytes_eq type Fields.test_request ≡ false)
    × (bytes_eq type Fields.reject ≡ false)
    × (bytes_eq type Fields.sequence_reset ≡ false)
    × (bytes_eq type Fields.logon ≡ false)
    × (bytes_eq type Fields.resend_request ≡ false)

module _ (env : Env) (msg : Message) (type : Bytes) where
  test_response-Quieted : Quieted (test_response env msg)
  unfolding test_response
  test_response-Quieted = search quiet_rules depth 9

  validate_seq_num-true :
      (s : Session)
      → (validate_seq_num env msg s).0 ≡ ok true
      → (get_int_field Fields.msg_seq_num msg.header ≡ some s.cache.target_seq_num)
        × ((validate_seq_num env msg s).1 ≡ on_cache Cache.next_target s)
  unfolding validate_seq_num ◌>>=◌ gets pure modify or_throw
  validate_seq_num-true s h = ground arith

  receive_logout-Quieted : Quieted (receive_logout env)
  unfolding receive_logout
  receive_logout-Quieted =
      search (quiet_rules, Quieted-on_logout, Quieted-log_out, send_logout-Framed) depth 9

  receive_heartbeat-Quieted : Quieted (receive_heartbeat env msg)
  unfolding receive_heartbeat
  receive_heartbeat-Quieted =
      search (quiet_rules, test_response-Quieted, Quieted-on_admin_message) depth 9

  receive_test_request-Quieted : Quieted (receive_test_request env msg)
  unfolding receive_test_request
  receive_test_request-Quieted = search (quiet_rules, send_heartbeat-Framed) depth 9

  -- Either nothing is delivered, or the message is, and it is none of the session's own.
  abbrev Tells : Session → Session → Type 0
  Tells s t =
      Quiet s t
      ⊎ ((t ≡ tell (Event.on_message msg) s)
          × (bytes_eq type Fields.logout ≡ false)
          × (bytes_eq type Fields.heartbeat ≡ false)
          × (bytes_eq type Fields.test_request ≡ false)
          × (bytes_eq type Fields.reject ≡ false))

  dispatch-Tells : (s : Session) → Tells s (dispatch env msg type s).1
  unfolding dispatch pure modify
  dispatch-Tells s = elim (Bool-cases (bytes_eq type Fields.logout)) [
    | inl a ↦ rw a (inl (receive_logout-Quieted.at s))
    | inr a ↦ elim (Bool-cases (bytes_eq type Fields.heartbeat)) [
      | inl b ↦ rw (a, b) (inl (receive_heartbeat-Quieted.at s))
      | inr b ↦ elim (Bool-cases (bytes_eq type Fields.test_request)) [
        | inl c ↦ rw (a, b, c) (inl (receive_test_request-Quieted.at s))
        | inr c ↦ elim (Bool-cases (bytes_eq type Fields.reject)) [
          | inl d ↦ rw (a, b, c, d) (inl (ground arith))
          | inr d ↦ rw (a, b, c, d) (inr (refl, refl, refl, refl, refl))
        ]
      ]
    ]
  ]

  -- The message is delivered: it has the expected sequence number, it is the next delivery, and
  -- the session expects the number after it.
  pub record Delivers (s t : Session) : Type 0 where
    pub in_sequence : get_int_field Fields.msg_seq_num msg.header ≡ some s.cache.target_seq_num
    pub next : t.cache.target_seq_num ≡ int_suc s.cache.target_seq_num
    pub delivered : deliveries t.events ≡ msg ∷ deliveries s.events

  -- A session's own message is none of these four.
  abbrev pub NotOwn : Type 0
  NotOwn =
      (bytes_eq type Fields.logout ≡ false)
      × (bytes_eq type Fields.heartbeat ≡ false)
      × (bytes_eq type Fields.test_request ≡ false)
      × (bytes_eq type Fields.reject ≡ false)

  Tells-Delivers :
      (s t : Session)
      → get_int_field Fields.msg_seq_num msg.header ≡ some s.cache.target_seq_num
      → Tells (on_cache Cache.next_target s) t
      → Quiet s t ⊎ (Delivers s t × NotOwn)
  unfolding tell Cache.next_target deliveries
  Tells-Delivers s t seq (inl q) = inl (ground arith)
  Tells-Delivers s t seq (inr (e, a, b, c, d)) = elim (Bool-cases s.has_delegate) [
    | inl there ↦ inr (
      record { in_sequence = seq; next = rw e (rw there refl); delivered = rw e (rw there refl) },
      (a, b, c, d),
    )
    | inr absent ↦ inl (rw e (rw absent (record { settings = refl; delivered = refl })))
  ]

  pub accept-cases :
      (s : Session)
      → Quiet s (accept env msg type s).1 ⊎ (Delivers s (accept env msg type s).1 × NotOwn)
  unfolding accept ◌>>=◌ pure
  accept-cases s = go (validate_seq_num env msg s).0 refl
    where
      go :
          (r : Outcome Bool)
          → (validate_seq_num env msg s).0 ≡ r
          → Quiet s (accept env msg type s).1 ⊎ (Delivers s (accept env msg type s).1 × NotOwn)
      go (ok true) e =
          let v = validate_seq_num-true s e in
          rw (e, v.1, accept)
            (Tells-Delivers s _ v.0 (dispatch-Tells (on_cache Cache.next_target s)))
      go (ok false) e = rw (e, accept) (inl ((validate_seq_num-Quieted env msg).at s))
      go threw e = rw (e, accept) (inl ((validate_seq_num-Quieted env msg).at s))
      go stuck e = rw (e, accept) (inl ((validate_seq_num-Quieted env msg).at s))
