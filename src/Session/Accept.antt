-- ===== src/Session/Accept.antt =====
-- The messages that validateMessage of src/Session.cpp accepts.
use openfix.Prelude.{
  ℕ, Bool, true, false, some, ◌≡◌, arith, Bytes, bytes_eq, bytes_eq→eq, ap, Bool-cases,
  Option-cases, ◌⊎◌, inl, inr, ◌∙◌, ◌++◌, codes,
}
use openfix.Fields
use openfix.Message.{Message, has_field, get_field, try_get_bool}
use openfix.Session.State.{SessionState, Session, Env, M, ok, ◌>>=◌, pure, gets, modify, or_throw}
use openfix.Session.Validate.{
  fail, expect_field, validate_parties, validate_state, validate_time, validate_message,
  out_of_threshold,
}

module _ (env : Env) (msg : Message) (type : Bytes) where
  fail-not_true : (reason : Bytes) (s : Session) → (fail env reason s).0 ≡ ok true → ⊥
  unfolding fail ◌>>=◌ gets pure modify
  fail-not_true reason s h = ground arith

  pub record FitsState (s : Session) : Type 0 where
    pub logon_first : s.state ≡ SessionState.logon → bytes_eq type Fields.logon ≡ true
    pub leaving :
        s.state ≡ SessionState.logout
        → (bytes_eq type Fields.logout ≡ true) ⊎ (bytes_eq type Fields.resend_request ≡ true)

  validate_state-true :
      (s : Session)
      → (validate_state env type s).0 ≡ ok true
      → ((validate_state env type s).1 ≡ s) × FitsState s
  unfolding validate_state ◌>>=◌ gets pure
  validate_state-true s h =
      (ground arith, record { logon_first = ground arith; leaving = ground arith })

  validate_time-true :
      (time : ℕ) (s : Session)
      → (validate_time env msg type time s).0 ≡ ok true
      → ((validate_time env msg type time s).1 ≡ s) × FitsState s
  unfolding validate_time ◌>>=◌ gets pure or_throw
  validate_time-true time s h = ground (arith, validate_state-true s)

  -- The sending time of the message is within the threshold of the present.
  pub record IsTimely (time : ℕ) (s : Session) : Type 0 where
    pub text : Bytes
    pub has_text : get_field Fields.sending_time msg.header ≡ some text
    pub near :
        out_of_threshold time (env.parse_utc_timestamp text) s.settings.sending_time_threshold
        ≡ false

  -- A possible duplicate says when it was sent first.
  abbrev pub IsOriginal : Type 0
  IsOriginal =
      try_get_bool Fields.poss_dup_flag msg.header ≡ true
      → has_field Fields.orig_sending_time msg.header ≡ true

  pub record Accepted (time : ℕ) (s : Session) : Type 0 where
    pub numbered : has_field Fields.msg_seq_num msg.header ≡ true
    pub version : get_field Fields.begin_string msg.header ≡ some s.settings.begin_string
    pub sender : get_field Fields.sender_comp_id msg.header ≡ some s.settings.target_comp_id
    pub target : get_field Fields.target_comp_id msg.header ≡ some s.settings.sender_comp_id
    pub timely : IsTimely time s
    pub original : IsOriginal
    pub fits : FitsState s

  validate_time-IsTimely :
      (time : ℕ) (s : Session) → (validate_time env msg type time s).0 ≡ ok true → IsTimely time s
  unfolding validate_time ◌>>=◌ gets pure or_throw
  validate_time-IsTimely time s h = elim (Option-cases (get_field Fields.sending_time msg.header)) [
    | inl e ↦ absurd (ground arith)
    | inr (text, e) ↦ record { text = text; has_text = e; near = ground arith }
  ]

  validate_time-IsOriginal :
      (time : ℕ) (s : Session) → (validate_time env msg type time s).0 ≡ ok true → IsOriginal
  unfolding validate_time ◌>>=◌ gets pure or_throw
  validate_time-IsOriginal time s h dup = ground (arith, h, dup)

  expect_field-true :
      (tag : ℕ) (expected reason : Bytes) (next : M Bool) (s : Session)
      → (expect_field env msg tag expected reason next s).0 ≡ ok true
      → (get_field tag msg.header ≡ some expected)
        × (expect_field env msg tag expected reason next s ≡ next s)
  unfolding expect_field ◌>>=◌ or_throw
  expect_field-true tag expected reason next s h = elim (Option-cases (get_field tag msg.header)) [
    | inl e ↦ absurd (ground arith)
    | inr (text, e) ↦ elim (Bool-cases (bytes_eq text expected)) [
      | inl same ↦ (e ∙ ap some (bytes_eq→eq text expected same), rw (e, or_throw, same))
      | inr other ↦ absurd (ground (arith, fail-not_true (reason ++ text) s))
    ]
  ]

  validate_parties-true :
      (time : ℕ) (s : Session)
      → has_field Fields.msg_seq_num msg.header ≡ true
      → (validate_parties env msg type time s).0 ≡ ok true
      → ((validate_parties env msg type time s).1 ≡ s) × Accepted time s
  unfolding validate_parties
  validate_parties-true time s numbered h =
      let in_time = validate_time env msg type time in
      let to_us =
        expect_field env msg Fields.target_comp_id s.settings.sender_comp_id
          (codes "Failed to validate TargetCompID(56): ") in_time in
      let from_them =
        expect_field env msg Fields.sender_comp_id s.settings.target_comp_id
          (codes "Failed to validate SenderCompID(49): ") to_us in
      let a = expect_field-true Fields.begin_string s.settings.begin_string _ from_them s h in
      let hb = rw a.1 at h in
      let b = expect_field-true Fields.sender_comp_id s.settings.target_comp_id _ to_us s hb in
      let hc = rw b.1 at hb in
      let c = expect_field-true Fields.target_comp_id s.settings.sender_comp_id _ in_time s hc in
      let hd = rw c.1 at hc in
      let d = validate_time-true time s hd in
      (
        rw a.1 (rw b.1 (rw c.1 d.0)),
        record {
          numbered = numbered;
          version = a.0;
          sender = b.0;
          target = c.0;
          timely = validate_time-IsTimely time s hd;
          original = validate_time-IsOriginal time s hd;
          fits = d.1;
        },
      )

  -- A message that passes every test of `validateMessage` has a MsgSeqNum, the BeginString and the
  -- CompIDs of the session, a SendingTime within the threshold, an OrigSendingTime where it is a
  -- possible duplicate, and a type that fits the state; and nothing has changed.
  pub validate_message-true :
      (time : ℕ) (s : Session)
      → (validate_message env msg type time s).0 ≡ ok true
      → ((validate_message env msg type time s).1 ≡ s) × Accepted time s
  unfolding validate_message ◌>>=◌ gets pure
  validate_message-true time s h = elim (Bool-cases (has_field Fields.msg_seq_num msg.header)) [
    | inr absent ↦ absurd (ground arith)
    | inl numbered ↦
        let e : validate_message env msg type time s ≡ validate_parties env msg type time s =
          rw numbered in
        rw e (validate_parties-true time s numbered (rw e at h))
  ]
