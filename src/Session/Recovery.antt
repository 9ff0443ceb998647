-- ===== src/Session/Recovery.antt =====
-- src/Session.cpp: the answer to a resend request, from the cached messages.
use openfix.Prelude.{
  ℕ, ◌/◌, true, List, [], ◌∷◌, ◌==◌, ltb, if◌then◌else◌, Bytes, codes, int_zero, int_suc, int_pred,
}
use openfix.Fields
use openfix.Message.{Message, get_field, set_field}
use openfix.Cache
use openfix.Session.State.{Session, Env, M, ◌>>=◌, ◌>>◌, pure, gets, modify, or_throw, Callback}
use openfix.Session.Send.{send_sequence_reset, internal_send, read_clock}

-- `std::min`
abbrev pub min_int : ℕ → ℕ → ℕ
min_int a b = if ltb b a then b else a

module _ (env : Env) where
  -- The header of a message that is sent again.
  unfoldable pub resent : ℕ → Bytes → Message → Message
  resent now sending_time msg = record msg {
    header = set_field Fields.sending_time (env.utc_timestamp now) (
        set_field Fields.orig_sending_time sending_time
          (set_field Fields.poss_dup_flag (codes "Y") msg.header));
  }

  unfoldable pub resend_now : Bytes → Message → Session → Session
  resend_now sending_time msg s =
      let (now, s') = read_clock env s in
      internal_send env (resent (now / 1000) sending_time msg) Callback.no_callback s'

  unfoldable pub resend : Message → M (Unit {0})
  resend msg = do
    sending_time ←
        or_throw
          (get_field Fields.sending_time (set_field Fields.poss_dup_flag (codes "Y") msg.header))
    modify (resend_now sending_time msg)

  -- The consumer of Session::runMessageRecovery for one parsed message; the result is `ptr`.
  unfoldable pub recover_one : ℕ → Message → Bytes → ℕ → M ℕ
  recover_one seqno msg type ptr = if Fields.is_session_msg type then pure ptr else (do
    (if seqno == ptr then pure tt else send_sequence_reset env ptr seqno true)
    resend msg
    pure (int_suc seqno))

  -- MemoryCache::getMessages over the entries that it has collected and sorted.
  unfoldable pub recover_loop : List (ℕ × Bytes) → ℕ → M ℕ
  recover_loop [] ptr = pure ptr
  recover_loop ((seqno, wire) ∷ entries) ptr = do
    msg ← or_throw (env.parse wire)
    type ← or_throw (get_field Fields.msg_type msg.header)
    ptr' ← recover_one seqno msg type ptr
    recover_loop entries ptr'

  -- Session::runMessageRecovery
  unfoldable pub run_message_recovery : ℕ → ℕ → M (Unit {0})
  run_message_recovery from to = do
    s ← gets (λ s. s)
    let last = min_int to s.cache.sender_seq_num
    ptr ← recover_loop (Cache.get_messages from last s.cache) from
    let ptr' = if ptr == from then ptr else int_pred ptr
    sender ← gets (λ s. s.cache.sender_seq_num)
    let last' = if last == int_zero then sender else last
    if ltb ptr' last' then send_sequence_reset env ptr' last' true else pure tt
