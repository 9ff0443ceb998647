-- ===== src/Dictionary/Parse.antt =====
-- Dictionary::parse of src/Dictionary.cpp: where a field goes, the loop over the text, and the
-- checks at its end. memchr is a split at the first occurrence.
use openfix.Prelude.{
  ℕ, zero, suc, ◌+◌, ◌-◌, ◌%◌, Bool, true, false, not, ◌&&◌, ◌||◌, Option, none, some, List, [],
  ◌∷◌, ◌==◌, ltb, if◌then◌else◌, Bytes, bytes_eq, length, take, drop, is_digit, leading,
}
use openfix.Fields
use openfix.Checksum.{compute_checksum, format_checksum}
use openfix.Message.{GroupSpec, Message, empty_field_map, get_field, remove_field, set_field_view}
use openfix.Message.Spec.{spec_empty}
use openfix.Message.Serialize.{internal_soh}
use openfix.Dictionary.{Dictionary, get_field_type, is_data, get_message_spec_raw, fast_parse_tag}
use openfix.Dictionary.State.{
  MessageState, in_header, in_body, in_trailer, header_part, body_part, trailer_part, root,
  GroupInfo, info, Options, Parser, Parsed, parsed, parsing_error, field_not_found, undefined,
  stuck, ◌>>=◌, throw_unless, change_map,
}
use openfix.Dictionary.Groups.{
  nth, set_nth, validate_group, overwrite_stack, set_field_at, try_set_field,
}

-- What stands before and behind the first `c`.
unfoldable pub split_at : ℕ → Bytes → Option (Bytes × Bytes)
split_at c [] = none
split_at c (b ∷ s) =
    let rest = split_at c s in
    if b == c
    then some ([], s)
    else elim rest [ none ↦ none | some (front, back) ↦ some (b ∷ front, back) ]

abbrev pub assignment : ℕ
assignment = 61

-- `std::from_chars` of an unsigned long; `none` is an error.
unfoldable pub from_chars_ulong : Bytes → Option ℕ
unfolding leading
from_chars_ulong [] = none
from_chars_ulong (c ∷ s) =
    let n = leading (c ∷ s) 0 in if is_digit c && ltb n 18446744073709551616 then some n else none

abbrev pub top : List GroupInfo → Option GroupInfo
top [] = none
top (g ∷ []) = some g
top (g ∷ h ∷ stack) = top (h ∷ stack)

module _ (d : Dictionary) (opts : Options) where
  -- The loop of dispatchField over the stack from the top: whether an entry took the field.
  unfoldable pub try_stack : ℕ → ℕ → Bytes → ℕ → Parser → Parsed (Bool × Parser)
  unfolding nth set_nth try_set_field overwrite_stack
  try_stack zero tag value position p = parsed (false, p)
  try_stack (suc j) tag value position p = elim (nth j p.stack) [
    | none ↦ undefined
    | some g ↦ do
      t ← try_set_field d opts g j tag value position p
      let p' = record t.parser { stack = set_nth j t.group t.parser.stack }
      elim t.index [
        | none ↦ try_stack j tag value position p'
        | some i ↦ do q ← overwrite_stack d opts (suc i) p'; parsed (true, q)
      ]
  ]

  -- `curSpec().empty()`, and the loop where it is not.
  unfoldable pub try_current : ℕ → Bytes → ℕ → Parser → Parsed (Bool × Parser)
  unfolding try_stack
  try_current tag value position p = elim (top p.stack) [
    | none ↦ undefined
    | some g ↦ elim g.spec [
      | none ↦ undefined
      | some spec ↦
          if spec_empty spec
          then parsed (false, p)
          else try_stack (length p.stack) tag value position p
    ]
  ]

  -- The header to body transition.
  unfoldable pub body_spec : Message → Parsed (Option GroupSpec)
  unfolding get_message_spec_raw
  body_spec msg = elim (get_field Fields.msg_type msg.header) [
    | none ↦ throw_unless opts.relaxed none
    | some type ↦ parsed (get_message_spec_raw d type)
  ]

  unfoldable pub enter_body : ℕ → Bytes → ℕ → Parser → Parsed (Bool × Parser)
  unfolding overwrite_stack body_spec try_set_field
  enter_body tag value position p = do
    q ← overwrite_stack d opts 0 p
    spec ← body_spec q.message
    let g = info spec (root body_part)
    t ←
        try_set_field d opts g 0 tag value position
          (record q { stack = g ∷ []; msg_state = in_body })
    let p' = record t.parser { stack = set_nth 0 t.group t.parser.stack }
    elim t.index [ none ↦ parsed (false, p') | some i ↦ parsed (true, p') ]

  -- The body to trailer transition.
  unfoldable pub enter_trailer : ℕ → Bytes → ℕ → Parser → Parsed (Bool × Parser)
  unfolding nth set_nth validate_group overwrite_stack try_set_field
  enter_trailer tag value position p = do
    t ← try_set_field d opts (info (some d.trailer_spec) (root trailer_part)) 0 tag value position p
    elim t.index [
      | none ↦ parsed (false, t.parser)
      | some i ↦ elim (nth 0 t.parser.stack) [
        | none ↦ undefined
        | some g ↦ do
          msg ← validate_group d opts g.map_at g.spec t.parser.message
          q ← overwrite_stack d opts (suc i) (record t.parser {
            message = msg;
            msg_state = in_trailer;
            stack = set_nth 0 t.group t.parser.stack;
          })
          parsed (true, q)
      ]
    ]

  abbrev pub in_state : MessageState → MessageState → Bool
  in_state in_header in_header = true
  in_state in_body in_body = true
  in_state in_trailer in_trailer = true
  in_state _ _ = false

  -- A phase of dispatchField that is tried in one state and where no phase before took the field.
  unfoldable pub phase :
      MessageState → (Parser → Parsed (Bool × Parser)) → Bool × Parser → Parsed (Bool × Parser)
  phase state f (true, p) = parsed (true, p)
  phase state f (false, p) = if in_state state p.msg_state then f p else parsed (false, p)

  -- The field that no part knows goes to the current map.
  unfoldable pub unknown_field : ℕ → Bytes → ℕ → Bool × Parser → Parsed Parser
  unfolding set_field_at
  unknown_field tag value position (true, p) = parsed p
  unknown_field tag value position (false, p) = elim (top p.stack) [
    | none ↦ undefined
    | some g ↦ set_field_at d opts g.map_at tag value position p
  ]

  -- dispatchField
  unfoldable pub dispatch_field : ℕ → Bytes → ℕ → Parser → Parsed Parser
  unfolding try_current phase enter_body enter_trailer unknown_field
  dispatch_field tag value position p = do
    a ← try_current tag value position p
    b ← phase in_header (enter_body tag value position) a
    c ← phase in_body (enter_trailer tag value position) b
    unknown_field tag value position c

  -- The tags that the first three fields must have.
  unfoldable pub misplaced : ℕ → ℕ → Bool
  misplaced n tag =
      (n == 0 && not (tag == Fields.begin_string))
      || (n == 1 && not (tag == Fields.body_length))
      || (n == 2 && not (tag == Fields.msg_type))

  unfoldable pub check_tag : ℕ → Parser → Parsed Parser
  unfolding misplaced
  check_tag tag p =
      let q = record p { tag_count = p.tag_count + 1; tag = tag } in
      if misplaced p.tag_count tag then throw_unless opts.relaxed q else parsed q

  -- A field whose length the field before it gave: the rest of the text and the parser.
  unfoldable pub data_field : ℕ → ℕ → Bytes → Parser → Parsed (Bytes × Parser)
  data_field tag n after p =
      if ltb (length after) n
      then (if opts.relaxed then undefined else parsing_error)
      else elim (top p.stack) [
        | none ↦ undefined
        | some g ↦ parsed (
          drop (suc n) after,
          record p {
            message = change_map (set_field_view tag (take n after) false) g.map_at p.message;
            data_length = none;
          },
        )
      ]

  -- A field that ends at a separator; `total` is the length of the text. Where there is no
  -- separator the source leaves the loop.
  unfoldable pub plain_field : ℕ → ℕ → Bytes → Parser → Parsed (Bytes × Parser)
  unfolding split_at dispatch_field
  plain_field total tag after p = elim (split_at internal_soh after) [
    | none ↦ throw_unless opts.relaxed ([], p)
    | some (value, next) ↦ do
      q ← dispatch_field tag value (total - length next) (record p { data_length = none })
      parsed (next, q)
  ]

  unfoldable pub field : ℕ → ℕ → Bytes → Parser → Parsed (Bytes × Parser)
  unfolding check_tag data_field plain_field
  field total tag after p = do
    q ← check_tag tag p
    elim q.data_length [
      | none ↦ plain_field total tag after q
      | some n ↦
          if is_data (get_field_type d tag)
          then data_field tag n after q
          else plain_field total tag after q
    ]

  -- A field whose tag is no number is skipped.
  unfoldable pub skip_field : Bytes → Parser → Parsed (Bytes × Parser)
  unfolding split_at
  skip_field after p =
      let next : Bytes = elim (split_at internal_soh after) [ none ↦ [] | some (_, s) ↦ s ] in
      throw_unless opts.relaxed (next, record p { tag_count = p.tag_count + 1 })

  -- One round of the loop, at a text that is not empty.
  unfoldable pub round : ℕ → Bytes → Parser → Parsed (Bytes × Parser)
  unfolding split_at fast_parse_tag field skip_field
  round total text p = elim (split_at assignment text) [
    | none ↦ throw_unless opts.relaxed ([], p)
    | some (name, after) ↦ elim (fast_parse_tag name) [
      | none ↦ skip_field after p
      | some tag ↦ field total tag after p
    ]
  ]

  -- The loop, on fuel.
  unfoldable pub parse_loop : ℕ → ℕ → Bytes → Parser → Parsed Parser
  unfolding round
  parse_loop fuel total [] p = parsed p
  parse_loop zero total (c ∷ text) p = stuck
  parse_loop (suc fuel) total (c ∷ text) p = do
    (next, q) ← round total (c ∷ text) p
    parse_loop fuel total next q

  abbrev pub start : Bytes → Parser
  start text = record {
    message = record {
      header = empty_field_map;
      body = empty_field_map;
      trailer = empty_field_map;
      source_text = text;
    };
    msg_state = in_header;
    stack = info (some d.header_spec) (root header_part) ∷ [];
    data_length = none;
    body_length_start = 0;
    tag_count = 0;
    tag = 0;
  }

  -- The loop and the end of the trailer.
  unfoldable pub read_fields : Bytes → Parsed Parser
  unfolding parse_loop overwrite_stack
  read_fields text = do
    p ← parse_loop (length text) (length text) text (start text)
    overwrite_stack d opts 0 p

  -- `text.size() - bodyLengthStart - 7`, on a size_t.
  unfoldable pub expected_length : Bytes → Parser → ℕ
  expected_length text p =
      (length text + 36893488147419103232 - p.body_length_start - 7) % 18446744073709551616

  -- The verification of the body length, and of the checksum.
  unfoldable pub verify_length : Bytes → Parser → Parsed Parser
  unfolding from_chars_ulong expected_length
  verify_length text p = elim (get_field Fields.body_length p.message.header) [
    | none ↦ field_not_found
    | some value ↦ elim (from_chars_ulong value) [
      | none ↦ parsing_error
      | some n ↦ if expected_length text p == n then parsed p else parsing_error
    ]
  ]

  unfoldable pub verify_checksum : Bytes → Parser → Parsed Parser
  unfolding compute_checksum format_checksum
  verify_checksum text p =
      let sum = format_checksum (compute_checksum (take (length text - 7) text)) in
      elim (get_field Fields.check_sum p.message.trailer) [
        | none ↦ parsing_error
        | some value ↦
            if ltb (length text) 7
            then undefined
            else if p.tag == Fields.check_sum && bytes_eq value sum
            then parsed p
            else parsing_error
      ]

  abbrev pub without_checksum : Message → Message
  without_checksum msg = record msg { trailer = remove_field Fields.check_sum msg.trailer }

  -- What follows the loop.
  unfoldable pub finish : Bytes → Parser → Parsed Message
  unfolding verify_length verify_checksum
  finish text p = do
    _ ← if in_state in_trailer p.msg_state then parsed p else throw_unless opts.relaxed p
    _ ← if opts.relaxed then parsed p else verify_length text p
    _ ← if opts.relaxed then parsed p else verify_checksum text p
    parsed (without_checksum p.message)

  -- Dictionary::parse
  unfoldable pub parse : Bytes → Parsed Message
  unfolding read_fields finish
  parse text = do p ← read_fields text; finish text p
