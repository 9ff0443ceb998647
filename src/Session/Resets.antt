-- ===== src/Session/Resets.antt =====
-- The target sequence number after a sequence reset, handleSequenceReset of src/Session.cpp.
use openfix.Prelude.{
  ℕ, Bool, true, false, not, ◌&&◌, some, ◌==◌, ltb, leb, if◌then◌else◌, ◌≡◌, refl, arith, int_zero,
  inl, inr, Bool-cases,
}
use openfix.Fields
use openfix.Message.{Message, get_int_field, try_get_bool}
use openfix.Cache
use openfix.Session.State.{
  Session, Env, M, Outcome, continue, ok, threw, stuck, ◌>>=◌, ◌>>◌, pure, gets, modify, or_throw,
  on_cache,
}
use openfix.Session.Validate.{validate_seq_num, enqueue}
use openfix.Session.Handlers.{handle_sequence_reset}
use openfix.Session.Frame.{
  Framed, Framed-bind, Framed-pure, logout-Framed, send_reject-Framed, send_resend_request-Framed,
}

-- The target sequence number that a reset to `new` leaves, from a message with the number `seq`.
unfoldable pub reset_target : Bool → ℕ → ℕ → ℕ → ℕ
reset_target gap_fill new seq target =
    if leb new seq
    then target
    else if ltb new target
    then target
    else if gap_fill && not (seq == target)
    then target
    else new

refuse : (r : Outcome (Unit {0})) (t : Session) → (continue r (λ _. pure false) t).0 ≡ ok true → ⊥
unfolding pure
refuse (ok u) t h = ground (arith, h)
refuse threw t h = ground (arith, h)
refuse stuck t h = ground (arith, h)

-- An action that ends with a refusal.
refused :
    (m : M (Unit {0})) (s : Session)
    → Framed m
    → (((m >> pure false) s).0 ≡ ok true → ⊥)
      × (((m >> pure false) s).1.cache.target_seq_num ≡ s.cache.target_seq_num)
unfolding ◌>>=◌
refused m s framed =
    (refuse (m s).0 (m s).1, ((Framed-bind m _ framed (λ _. Framed-pure false)).at s).target)

module _ (env : Env) (msg : Message) (seq : ℕ) where
  validate_seq_num-next :
      (s : Session)
      → get_int_field Fields.msg_seq_num msg.header ≡ some seq
      → (seq == s.cache.target_seq_num) ≡ true
      → (validate_seq_num env msg s) ≡ (ok true, on_cache Cache.next_target s)
  unfolding validate_seq_num ◌>>=◌ or_throw gets modify pure
  validate_seq_num-next s has e = rw (has, validate_seq_num, or_throw, e) refl

  validate_seq_num-other :
      (s : Session)
      → get_int_field Fields.msg_seq_num msg.header ≡ some seq
      → (seq == s.cache.target_seq_num) ≡ false
      → ((validate_seq_num env msg s).0 ≡ ok true → ⊥)
        × ((validate_seq_num env msg s).1.cache.target_seq_num ≡ s.cache.target_seq_num)
  unfolding validate_seq_num ◌>>=◌ or_throw gets modify pure enqueue
  validate_seq_num-other s has e = elim (Bool-cases (ltb seq s.cache.target_seq_num)) [
    | inl low ↦
        rw (has, validate_seq_num, or_throw, e, low) (refused _ s (logout-Framed env _ true))
    | inr high ↦ elim (Bool-cases (seq == int_zero)) [
      | inl zero_seq ↦
          rw (has, validate_seq_num, or_throw, e, high, zero_seq) (λ h. ground (arith, h), refl)
      | inr early ↦
          rw (has, validate_seq_num, or_throw, e, high, early)
            (refused _ (enqueue seq msg s) (send_resend_request-Framed env _ _))
    ]
  ]

  settled-reset :
      (n : ℕ) (s : Session) (gap_fill : Bool)
      → get_int_field Fields.msg_seq_num msg.header ≡ some seq
      → ((do
        valid ← if gap_fill then validate_seq_num env msg else pure true
        if valid then modify (on_cache (Cache.set_target n)) else pure tt)
          s).1.cache.target_seq_num
        ≡ (if gap_fill && not (seq == s.cache.target_seq_num) then s.cache.target_seq_num else n)
  unfolding ◌>>=◌ modify pure Cache.set_target
  settled-reset n s false has = refl
  settled-reset n s true has = elim (Bool-cases (seq == s.cache.target_seq_num)) [
    | inl e ↦ rw (validate_seq_num-next s has e, e) refl
    | inr e ↦ rw e (
        go (validate_seq_num env msg s).0 (validate_seq_num env msg s).1
          (validate_seq_num-other s has e).0 (validate_seq_num-other s has e).1)
  ]
    where
      go :
          (r : Outcome Bool) (t : Session)
          → (r ≡ ok true → ⊥)
          → t.cache.target_seq_num ≡ s.cache.target_seq_num
          → (continue r
              (λ valid. if valid then modify (on_cache (Cache.set_target n)) else pure tt)
              t).1.cache.target_seq_num
            ≡ s.cache.target_seq_num
      go (ok true) t differs same = absurd (differs refl)
      go (ok false) t differs same = same
      go threw t differs same = same
      go stuck t differs same = same

  -- Every branch of a sequence reset: a NewSeqNo that is not above the message's own number, or
  -- below the target sequence number, leaves the target sequence number as it is, and so does a gap
  -- fill that is not the expected message; otherwise NewSeqNo is the target sequence number.
  pub handle_sequence_reset-target :
      (new : ℕ) (s : Session)
      → get_int_field Fields.new_seq_no msg.body ≡ some new
      → get_int_field Fields.msg_seq_num msg.header ≡ some seq
      → (handle_sequence_reset env msg s).1.cache.target_seq_num
        ≡ reset_target (try_get_bool Fields.gap_fill_flag msg.body) new seq s.cache.target_seq_num
  unfolding handle_sequence_reset ◌>>=◌ or_throw gets reset_target
  handle_sequence_reset-target new s has_new has = elim (Bool-cases (leb new seq)) [
    | inl low ↦
        rw (handle_sequence_reset, has_new, or_throw, has, low, reset_target)
          ((send_reject-Framed env msg _ _).at s).target
    | inr above ↦ elim (Bool-cases (ltb new s.cache.target_seq_num)) [
      | inl below ↦
          rw (handle_sequence_reset, has_new, or_throw, has, above, below, reset_target)
            ((logout-Framed env _ true).at s).target
      | inr next ↦
          rw (handle_sequence_reset, has_new, or_throw, has, above, next)
            (settled-reset new s _ has)
    ]
  ]
