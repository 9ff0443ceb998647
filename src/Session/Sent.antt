-- ===== src/Session/Sent.antt =====
-- What Session::send of src/Session.cpp does to the cache and the wire.
use openfix.Prelude.{
  ℕ, true, false, Option, some, [], ◌∷◌, ◌++◌, ◌==◌, if◌then◌else◌, ◌≡◌, refl, ◌∙◌, arith, Bytes,
  to_chars, int_suc, inl, inr, Bool-cases, ◌/◌,
}
use openfix.Fields
use openfix.LinkedHashMap.{find}
use openfix.LinkedHashMap.Laws.{find-put}
use openfix.Message.{Message, FieldMap, get_field, set_field_view}
use openfix.Message.Order.{get_field-insert_field_view, keeps_order}
use openfix.Message.Serialize.{to_string}
use openfix.Cache
use openfix.Cache.{Cache}
use openfix.Network.Handler.{Sending}
use openfix.Session.State.{Session, Env, Callback, Event, emit}
use openfix.Session.Send.{
  send, internal_send_text, network_send, settle, call_back, terminate, epoch_micros, read_clock,
  populate_message, with_populated, populate_header,
}

call_back-cache : (done : Callback) (s : Session) → (call_back done s).cache ≡ s.cache
unfolding call_back terminate
call_back-cache Callback.no_callback s = refl
call_back-cache (Callback.terminates reason) s = refl
call_back-cache (Callback.client n) s = refl

settle-cache :
    (sending : Sending) (wire : Bytes) (done : Callback) (s : Session)
    → (settle sending wire done s).cache ≡ s.cache
unfolding settle
settle-cache Sending.dropped wire done s = refl
settle-cache Sending.written wire done s =
    call_back-cache done (emit (Event.transmitted wire true) s)
settle-cache Sending.queued wire done s = refl

keeps_order-false : (m : FieldMap) → keeps_order false m ≡ false
unfolding keeps_order
keeps_order-false m = ground arith

module _ (env : Env) where
  internal_send_text-cache :
      (wire : Bytes) (done : Callback) (micros : ℕ) (s : Session)
      → (internal_send_text env wire done micros s).cache ≡ s.cache
  unfolding internal_send_text network_send
  internal_send_text-cache wire done micros s = elim (Bool-cases s.handler.connected) [
    | inl up ↦ rw up (settle-cache _ wire done _)
    | inr down ↦ rw down refl
  ]

  -- A field of the header of a message that is sent.
  abbrev pub stamped_field : Session → ℕ → FieldMap → ℕ → Option Bytes
  stamped_field s epoch_ms header tag =
      if Fields.msg_seq_num == tag
      then some (to_chars s.cache.sender_seq_num)
      else if Fields.sending_time == tag
      then some (env.utc_timestamp epoch_ms)
      else if Fields.target_comp_id == tag
      then some s.settings.target_comp_id
      else if Fields.sender_comp_id == tag
      then some s.settings.sender_comp_id
      else if Fields.begin_string == tag
      then some s.settings.begin_string
      else get_field tag header

  -- What a message that is sent becomes: its header is stamped, the rest is as it was given, its wire
  -- text is kept under its number and waits to be stored, and the number after it is next.
  pub record Sent (msg : Message) (s t : Session) : Type 0 where
    pub stamped : Message
    pub epoch_ms : ℕ
    pub header : (tag : ℕ) → get_field tag stamped.header ≡ stamped_field s epoch_ms msg.header tag
    pub body : stamped.body ≡ msg.body
    pub trailer : stamped.trailer ≡ msg.trailer
    pub kept :
        (k : ℕ)
        → find k t.cache.messages ≡ (
            if s.cache.sender_seq_num == k
            then some (to_string true stamped)
            else find k s.cache.messages)
    pub waiting :
        t.cache.pending_store_seq_nums
        ≡ s.cache.pending_store_seq_nums ++ s.cache.sender_seq_num ∷ []
    pub next_sender : t.cache.sender_seq_num ≡ int_suc s.cache.sender_seq_num
    pub same_target : t.cache.target_seq_num ≡ s.cache.target_seq_num

  set_field_view-get :
      (set tag : ℕ) (value : Bytes) (header : FieldMap)
      → get_field tag (set_field_view set value false header)
        ≡ (if set == tag then some value else get_field tag header)
  unfolding set_field_view
  set_field_view-get set tag value header =
      get_field-insert_field_view set tag value false header (inr (keeps_order-false header))

  with_populated-header :
      (s : Session) (ms : ℕ) (msg : Message) (tag : ℕ)
      → get_field tag (with_populated env s ms msg).header ≡ stamped_field s ms msg.header tag
  unfolding with_populated populate_header
  with_populated-header s ms msg tag =
      rw
        (
          set_field_view-get Fields.msg_seq_num tag (to_chars s.cache.sender_seq_num),
          set_field_view-get Fields.sending_time tag (env.utc_timestamp ms),
          set_field_view-get Fields.target_comp_id tag s.settings.target_comp_id,
          set_field_view-get Fields.sender_comp_id tag s.settings.sender_comp_id,
          set_field_view-get Fields.begin_string tag s.settings.begin_string,
        )
        refl

  -- What `populateMessage` gives, and the cache and settings that stay.
  record Populated (msg : Message) (s : Session) (r : Message × Session) : Type 0 where
    ms : ℕ
    is : r.0 ≡ with_populated env s ms msg
    same_cache : r.1.cache ≡ s.cache

  populate_message-Populated :
      (msg : Message) (ms : ℕ) (s : Session) → Populated msg s (populate_message env msg ms s)
  unfolding populate_message read_clock
  populate_message-Populated msg ms s = elim (Bool-cases (ms == 0)) [
    | inl e ↦ rw e (record { ms = _; is = refl; same_cache = refl })
    | inr e ↦ rw e (record { ms = ms; is = refl; same_cache = refl })
  ]

  epoch_micros-cache : (s : Session) → (epoch_micros env s).1.cache ≡ s.cache
  unfolding epoch_micros read_clock
  epoch_micros-cache s = ground arith

  epoch_micros-settings : (s : Session) → (epoch_micros env s).1.settings ≡ s.settings
  unfolding epoch_micros read_clock
  epoch_micros-settings s = ground arith

  epoch_micros-stamped_field :
      (s : Session) (ms : ℕ) (header : FieldMap) (tag : ℕ)
      → stamped_field (epoch_micros env s).1 ms header tag ≡ stamped_field s ms header tag
  epoch_micros-stamped_field s ms header tag =
      rw (epoch_micros-cache s, epoch_micros-settings s) refl

  -- The message that `send` makes of `msg`.
  abbrev sent : Message → Session → Message
  sent msg s = (populate_message env msg ((epoch_micros env s).0 / 1000) (epoch_micros env s).1).0

  send-cache :
      (msg : Message) (done : Callback) (s : Session)
      → (send env msg done s).cache
        ≡ Cache.next_sender
            (Cache.cache s.cache.sender_seq_num (to_string true (sent msg s)) s.cache)
  unfolding send
  send-cache msg done s =
      let s₁ = (epoch_micros env s).1 in
      let micros = (epoch_micros env s).0 in
      internal_send_text-cache _ done micros _
      ∙ rw ((populate_message-Populated msg (micros / 1000) s₁).same_cache, epoch_micros-cache s)

  -- Whatever becomes of the packet, `send` keeps and counts the message that it is given: in its
  -- header MsgSeqNum is the sender sequence number, SendingTime a time, TargetCompID, SenderCompID
  -- and BeginString are those of the settings, and every other field is as it was; body and trailer
  -- are as they were; the wire text of this message is cached under the sender sequence number and
  -- noted for the store, other cached messages stay, the sender sequence number goes up by one, and
  -- the target sequence number stays.
  pub send-Sent : (msg : Message) (done : Callback) (s : Session) → Sent msg s (send env msg done s)
  unfolding Cache.cache Cache.next_sender with_populated
  send-Sent msg done s =
      let after = send-cache msg done s in
      let s₁ = (epoch_micros env s).1 in
      let p = populate_message-Populated msg ((epoch_micros env s).0 / 1000) s₁ in
      record {
        stamped = sent msg s;
        epoch_ms = p.ms;
        header = λ tag. rw p.is (
            with_populated-header s₁ p.ms msg tag
            ∙ epoch_micros-stamped_field s p.ms msg.header tag);
        body = rw p.is refl;
        trailer = rw p.is refl;
        kept = λ k.
            rw after
              (find-put s.cache.sender_seq_num k (to_string true (sent msg s)) s.cache.messages);
        waiting = rw after refl;
        next_sender = rw after refl;
        same_target = rw after refl;
      }
