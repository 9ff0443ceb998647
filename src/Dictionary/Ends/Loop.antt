-- ===== src/Dictionary/Ends/Loop.antt =====
-- That the loop of Dictionary::parse, src/Dictionary.cpp, ends: the fuel that the model gives it is
-- enough.
use openfix.Prelude.{
  ℕ, zero, suc, ◌-◌, ◌<◌, ◌≤◌, Bool, true, false, none, some, [], ◌∷◌, Bytes, length, length-drop,
  ◌≡◌, ◌≢◌, arith, inl, inr, Option-cases, Bool-cases,
}
use openfix.Fields
use openfix.Message.{Message, get_field}
use openfix.Message.Serialize.{internal_soh}
use openfix.Dictionary.{Dictionary, get_field_type, is_data, fast_parse_tag}
use openfix.Dictionary.State.{
  MessageState, in_header, in_body, info, root, body_part, trailer_part, Options, Parser, Parsed,
  parsed, parsing_error, field_not_found, undefined, stuck,
}
use openfix.Dictionary.Groups.{nth}
use openfix.Dictionary.Parse.{
  split_at, assignment, top, from_chars_ulong, try_stack, try_current, body_spec, enter_body,
  enter_trailer, phase, unknown_field, dispatch_field, check_tag, data_field, plain_field, field,
  skip_field, round, parse_loop, start, read_fields, verify_length, verify_checksum, finish, parse,
}
use openfix.Dictionary.Ends.{
  Gives, Ends, Gives-bind, Ends-bind, ends_rules, validate_group-Ends, overwrite_stack-Ends,
  set_field_at-Ends, try_set_field-Ends,
}

-- What is behind a separator is shorter.
pub split_at-length :
    (c : ℕ) (s front back : Bytes) → split_at c s ≡ some (front, back) → length back < length s
unfolding split_at
split_at-length c [] front back h = cc
split_at-length c (b ∷ s) front back h = elim (Option-cases (split_at c s)) [
  | inl e ↦ ground (arith, e, h)
  | inr ((f, k), e) ↦ ground (arith, e, h, split_at-length c s f k e)
]

module _ (d : Dictionary) (opts : Options) where
  try_stack-Ends :
      (n tag : ℕ) (value : Bytes) (position : ℕ) (p : Parser)
      → Ends (try_stack d opts n tag value position p)
  unfolding try_stack
  try_stack-Ends zero tag value position p = tt
  try_stack-Ends (suc j) tag value position p = elim (Option-cases (nth j p.stack)) [
    | inl e ↦ rw (try_stack, e) tt
    | inr (g, e) ↦
        rw (try_stack, e)
          (Ends-bind _ _ (try_set_field-Ends d opts g j tag value position p) (λ t.
            elim (Option-cases t.index) [
              | inl f ↦ rw (try_stack, f) (try_stack-Ends j tag value position _)
              | inr (i, f) ↦ rw (try_stack, f) (search (ends_rules, overwrite_stack-Ends) depth 9)
            ]))
  ]

  try_current-Ends :
      (tag : ℕ) (value : Bytes) (position : ℕ) (p : Parser)
      → Ends (try_current d opts tag value position p)
  unfolding try_current
  try_current-Ends tag value position p = elim (Option-cases (top p.stack)) [
    | inl e ↦ rw (try_current, e) tt
    | inr (g, e) ↦ elim (Option-cases g.spec) [
      | inl f ↦ rw (try_current, e, f) tt
      | inr (spec, f) ↦ rw (try_current, e, f) (search (ends_rules, try_stack-Ends) depth 9)
    ]
  ]

  body_spec-Ends : (msg : Message) → Ends (body_spec d opts msg)
  unfolding body_spec
  body_spec-Ends msg = elim (Option-cases (get_field Fields.msg_type msg.header)) [
    | inl e ↦ rw (body_spec, e) (search (ends_rules) depth 9)
    | inr (type, e) ↦ rw (body_spec, e) tt
  ]

  enter_body-Ends :
      (tag : ℕ) (value : Bytes) (position : ℕ) (p : Parser)
      → Ends (enter_body d opts tag value position p)
  unfolding enter_body
  enter_body-Ends tag value position p = Ends-bind _ _ (overwrite_stack-Ends d opts 0 p) (λ q.
      Ends-bind _ _ (body_spec-Ends q.message) (λ spec.
        Ends-bind _ _
          (try_set_field-Ends d opts (info spec (root body_part)) 0 tag value position
            (record q { stack = info spec (root body_part) ∷ []; msg_state = in_body }))
          (λ t. elim (Option-cases t.index) [ inl e ↦ rw e tt | inr (i, e) ↦ rw e tt ])))

  enter_trailer-Ends :
      (tag : ℕ) (value : Bytes) (position : ℕ) (p : Parser)
      → Ends (enter_trailer d opts tag value position p)
  unfolding enter_trailer
  enter_trailer-Ends tag value position p =
      Ends-bind _ _
        (try_set_field-Ends d opts (info (some d.trailer_spec) (root trailer_part)) 0 tag value
          position p)
        (λ t. elim (Option-cases t.index) [
          | inl e ↦ rw e tt
          | inr (i, e) ↦ elim (Option-cases (nth 0 t.parser.stack)) [
            | inl f ↦ rw (e, f) tt
            | inr (g, f) ↦
                rw (e, f) (search (ends_rules, validate_group-Ends, overwrite_stack-Ends) depth 9)
          ]
        ])

  phase-Ends :
      (state : MessageState) (f : Parser → Parsed (Bool × Parser)) (a : Bool × Parser)
      → ((p : Parser) → Ends (f p))
      → Ends (phase d opts state f a)
  unfolding phase
  phase-Ends state f (true, p) h = tt
  phase-Ends state f (false, p) h = search (ends_rules, h) depth 4

  unknown_field-Ends :
      (tag : ℕ) (value : Bytes) (position : ℕ) (a : Bool × Parser)
      → Ends (unknown_field d opts tag value position a)
  unfolding unknown_field
  unknown_field-Ends tag value position (true, p) = tt
  unknown_field-Ends tag value position (false, p) = elim (Option-cases (top p.stack)) [
    | inl e ↦ rw (unknown_field, e) tt
    | inr (g, e) ↦ rw (unknown_field, e) (set_field_at-Ends d opts _ tag value position p)
  ]

  dispatch_field-Ends :
      (tag : ℕ) (value : Bytes) (position : ℕ) (p : Parser)
      → Ends (dispatch_field d opts tag value position p)
  unfolding dispatch_field
  dispatch_field-Ends tag value position p =
      Ends-bind _ _ (try_current-Ends tag value position p) (λ a.
        Ends-bind _ _ (phase-Ends in_header _ a (enter_body-Ends tag value position)) (λ b.
          Ends-bind _ _ (phase-Ends in_body _ b (enter_trailer-Ends tag value position))
            (λ c. unknown_field-Ends tag value position c)))

  -- The text that is left is shorter than n.
  abbrev Shorter : ℕ → Bytes × Parser → Type 0
  Shorter n (next, q) = length next < n

  check_tag-Ends : (tag : ℕ) (p : Parser) → Ends (check_tag d opts tag p)
  unfolding check_tag
  check_tag-Ends tag p = search (ends_rules) depth 9

  plain_field-Shorter :
      (total tag n : ℕ) (after : Bytes) (p : Parser)
      → length after < n
      → Gives (Shorter n) (plain_field d opts total tag after p)
  unfolding plain_field
  plain_field-Shorter total tag n after p h = elim (Option-cases (split_at internal_soh after)) [
    | inl e ↦ rw (plain_field, e) ground arith
    | inr ((value, next), e) ↦
        rw (plain_field, e)
          (Gives-bind (λ _. Unit {0}) (Shorter n) _ _
            (dispatch_field-Ends tag value (total - length next) (record p { data_length = none }))
            (λ q _. omega (arith, split_at-length internal_soh after value next e)))
  ]

  data_field-Shorter :
      (tag m n : ℕ) (after : Bytes) (p : Parser)
      → length after < n
      → Gives (Shorter n) (data_field d opts tag m after p)
  unfolding data_field
  data_field-Shorter tag m n after p h = elim (Option-cases (top p.stack)) [
    | inl e ↦ rw (data_field, e) ground arith
    | inr (g, e) ↦ rw (data_field, e) ground (arith, length-drop (suc m) after)
  ]

  field-Shorter :
      (total tag n : ℕ) (after : Bytes) (p : Parser)
      → length after < n
      → Gives (Shorter n) (field d opts total tag after p)
  unfolding field
  field-Shorter total tag n after p h =
      Gives-bind (λ _. Unit {0}) (Shorter n) _ _ (check_tag-Ends tag p)
        (λ q _. elim (Option-cases q.data_length) [
          | inl e ↦ rw e (plain_field-Shorter total tag n after q h)
          | inr (m, e) ↦ elim (Bool-cases (is_data (get_field_type d tag))) [
            | inl f ↦ rw (e, f) (data_field-Shorter tag m n after q h)
            | inr f ↦ rw (e, f) (plain_field-Shorter total tag n after q h)
          ]
        ])

  skip_field-Shorter :
      (n : ℕ) (after : Bytes) (p : Parser)
      → length after < n
      → Gives (Shorter n) (skip_field d opts after p)
  unfolding skip_field
  skip_field-Shorter n after p h = elim (Option-cases (split_at internal_soh after)) [
    | inl e ↦ rw (skip_field, e) ground arith
    | inr ((value, next), e) ↦
        rw (skip_field, e) ground (arith, split_at-length internal_soh after value next e)
  ]

  round-Shorter :
      (total c : ℕ) (text : Bytes) (p : Parser)
      → Gives (Shorter (length (c ∷ text))) (round d opts total (c ∷ text) p)
  unfolding round
  round-Shorter total c text p = elim (Option-cases (split_at assignment (c ∷ text))) [
    | inl e ↦ rw (round, e) ground arith
    | inr ((name, after), e) ↦
        let h = split_at-length assignment (c ∷ text) name after e in
        elim (Option-cases (fast_parse_tag name)) [
          | inl f ↦ rw (round, e, f) (skip_field-Shorter _ after p h)
          | inr (tag, f) ↦ rw (round, e, f) (field-Shorter total tag _ after p h)
        ]
  ]

  parse_loop-Ends :
      (fuel total : ℕ) (text : Bytes) (p : Parser)
      → length text ≤ fuel
      → Ends (parse_loop d opts fuel total text p)
  unfolding parse_loop
  parse_loop-Ends fuel total [] p h = tt
  parse_loop-Ends zero total (c ∷ text) p h = absurd (omega arith)
  parse_loop-Ends (suc fuel) total (c ∷ text) p h =
      Gives-bind (Shorter (length (c ∷ text))) (λ _. Unit {0}) _ _ (round-Shorter total c text p)
        (λ a k. parse_loop-Ends fuel total a.0 a.1 (omega arith))

  read_fields-Ends : (text : Bytes) → Ends (read_fields d opts text)
  unfolding read_fields
  read_fields-Ends text =
      Ends-bind _ _
        (parse_loop-Ends (length text) (length text) text (start d opts text) (omega arith))
        (overwrite_stack-Ends d opts 0)

  verify_length-Ends : (text : Bytes) (p : Parser) → Ends (verify_length d opts text p)
  unfolding verify_length
  verify_length-Ends text p = elim (Option-cases (get_field Fields.body_length p.message.header)) [
    | inl e ↦ rw (verify_length, e) tt
    | inr (value, e) ↦ elim (Option-cases (from_chars_ulong value)) [
      | inl f ↦ rw (verify_length, e, f) tt
      | inr (n, f) ↦ rw (verify_length, e, f) ground arith
    ]
  ]

  verify_checksum-Ends : (text : Bytes) (p : Parser) → Ends (verify_checksum d opts text p)
  unfolding verify_checksum
  verify_checksum-Ends text p = elim (Option-cases (get_field Fields.check_sum p.message.trailer)) [
    | inl e ↦ rw (verify_checksum, e) tt
    | inr (value, e) ↦ rw (verify_checksum, e) ground arith
  ]

  finish-Ends : (text : Bytes) (p : Parser) → Ends (finish d opts text p)
  unfolding finish
  finish-Ends text p = search (ends_rules, verify_length-Ends, verify_checksum-Ends) depth 12

  Ends→ne : {A : Type 0} (r : Parsed A) → Ends r → r ≢ stuck
  Ends→ne (parsed a) h = cc
  Ends→ne parsing_error h = cc
  Ends→ne field_not_found h = cc
  Ends→ne undefined h = cc
  Ends→ne stuck h = absurd h

  -- The loop over a text ends, whatever the dictionary, the settings and the text are: each round
  -- takes up a part of the text, so that as many rounds as there are bytes are enough.
  pub parse-ne-stuck : (text : Bytes) → parse d opts text ≢ stuck
  unfolding parse
  parse-ne-stuck text =
      Ends→ne (parse d opts text) (Ends-bind _ _ (read_fields-Ends text) (finish-Ends text))
