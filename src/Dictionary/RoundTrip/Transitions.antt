-- ===== src/Dictionary/RoundTrip/Transitions.antt =====
-- The transitions of dispatchField, src/Dictionary.cpp, from one part of a message to the next.
use openfix.Prelude.{
  ℕ, Bool, true, false, not, ◌&&◌, none, some, [], ◌==◌, ◌≡◌, refl, Bytes, inl, inr, Bool-cases,
}
use openfix.Fields
use openfix.Message.{GroupSpec, FieldMap, Message, get_field}
use openfix.Message.Spec.{spec_has_field, spec_empty, m_fields, find_group}
use openfix.Dictionary.{Dictionary, get_message_spec_raw}
use openfix.Dictionary.State.{
  MessageState, in_header, in_body, in_trailer, Part, header_part, body_part, trailer_part, root,
  info, part_of, change_part, Options, Parser, Parsed, parsed, undefined, ◌>>=◌,
}
use openfix.Dictionary.Groups.{
  note_body, try_set_field, overwrite_stack, nth, set_nth, pop_all, from_top, adopt,
  required_present, validate_group,
}
use openfix.Dictionary.Parse.{
  try_current, try_stack, phase, unknown_field, dispatch_field, body_spec, enter_body,
  enter_trailer,
}
use openfix.Dictionary.RoundTrip.Fill.{New}
use openfix.Dictionary.RoundTrip.Part.{
  map_of-root, change_map-root, part_of-change_part, within, put_field, Known, try_set_field-New,
}

module _ (d : Dictionary) (opts : Options) where
  -- A tag that a spec does not have.
  pub record Foreign (spec : GroupSpec) (tag : ℕ) : Type 0 where
    pub no_field : spec_has_field tag spec ≡ false
    pub no_group : find_group tag spec ≡ none

  phase-here :
      (state : MessageState) (f : Parser → Parsed (Bool × Parser)) (p : Parser)
      → p.msg_state ≡ state
      → phase d opts state f (false, p) ≡ f p
  unfolding phase
  phase-here in_header f p h = rw h refl
  phase-here in_body f p h = rw h refl
  phase-here in_trailer f p h = rw h refl

  phase-later :
      (f : Parser → Parsed (Bool × Parser)) (p : Parser)
      → p.msg_state ≡ in_body
      → phase d opts in_header f (false, p) ≡ parsed (false, p)
  unfolding phase
  phase-later f p h = rw h refl

  -- The fields that are required are there.
  abbrev pub Complete : GroupSpec → FieldMap → Type 0
  Complete spec m =
      (opts.validate_required
        && not (required_present (m_fields spec) (adopt opts.reorder_tags spec m)))
      ≡ false

  -- The part is left.
  abbrev pub close : Part → GroupSpec → Parser → Parser
  close part spec p = record p {
    message = change_part (adopt opts.reorder_tags spec) part p.message;
  }

  validate_group-Complete :
      (part : Part) (spec : GroupSpec) (msg : Message)
      → Complete spec (part_of part msg)
      → validate_group d opts (root part) (some spec) msg
        ≡ parsed (change_part (adopt opts.reorder_tags spec) part msg)
  unfolding validate_group
  validate_group-Complete part spec msg h =
      rw
        (
          validate_group,
          change_map-root (adopt opts.reorder_tags spec) part msg,
          map_of-root part (change_part (adopt opts.reorder_tags spec) part msg),
          part_of-change_part (adopt opts.reorder_tags spec) part msg,
          h,
        )
        refl

  pub overwrite_stack-Complete :
      (part : Part) (spec : GroupSpec) (p : Parser)
      → Complete spec (part_of part p.message)
      → overwrite_stack d opts 0 (within part spec p)
        ≡ parsed (record (close part spec p) { stack = [] })
  unfolding overwrite_stack pop_all from_top ◌>>=◌
  overwrite_stack-Complete part spec p h =
      rw (overwrite_stack, validate_group-Complete part spec p.message h) refl

  try_set_field-Foreign :
      (part : Part) (spec : GroupSpec) (j tag : ℕ) (value : Bytes) (position : ℕ) (p : Parser)
      → Foreign spec tag
      → try_set_field d opts (info (some spec) (root part)) j tag value position p
        ≡ parsed (record { index = none; group = info (some spec) (root part); parser = p })
  unfolding try_set_field
  try_set_field-Foreign part spec j tag value position p f = rw (f.no_field, f.no_group) refl

  try_current-Foreign :
      (part : Part) (spec : GroupSpec) (tag : ℕ) (value : Bytes) (position : ℕ) (p : Parser)
      → Foreign spec tag
      → try_current d opts tag value position (within part spec p)
        ≡ parsed (false, within part spec p)
  unfolding try_current try_stack nth set_nth ◌>>=◌
  try_current-Foreign part spec tag value position p f = elim (Bool-cases (spec_empty spec)) [
    | inl e ↦ rw (try_current, e) refl
    | inr e ↦
        rw
          (
            try_current,
            e,
            try_set_field-Foreign part spec 0 tag value position (within part spec p) f,
          )
          refl
  ]

  -- The body is left for the trailer.
  abbrev pub closed : GroupSpec → Parser → Parser
  closed spec p = record (close body_part spec p) { msg_state = in_trailer }

  enter_trailer-New :
      (spec : GroupSpec) (tag : ℕ) (value : Bytes) (position : ℕ) (p : Parser)
      → Complete spec p.message.body
      → Known d opts d.trailer_spec tag
      → New tag value p.message.trailer
      → enter_trailer d opts tag value position (within body_part spec p)
        ≡ parsed (
          true,
          within trailer_part d.trailer_spec
              (note_body d opts tag position (put_field trailer_part tag value (closed spec p))),
        )
  unfolding enter_trailer nth set_nth overwrite_stack pop_all from_top ◌>>=◌
  enter_trailer-New spec tag value position p complete known new =
      let taken =
        try_set_field-New d opts trailer_part d.trailer_spec 0 tag value position
          (within body_part spec p) known new in
      let left =
        validate_group-Complete body_part spec (put_field trailer_part tag value p).message
          complete in
      elim (Bool-cases (tag == Fields.body_length)) [
        | inl e ↦ rw (enter_trailer, taken, e, left) refl
        | inr e ↦ rw (enter_trailer, taken, e, left) refl
      ]

  -- The first field that the body does not have starts the trailer.
  pub dispatch_field-trailer :
      (spec : GroupSpec) (tag : ℕ) (value : Bytes) (position : ℕ) (p : Parser)
      → p.msg_state ≡ in_body
      → Foreign spec tag
      → Complete spec p.message.body
      → Known d opts d.trailer_spec tag
      → New tag value p.message.trailer
      → dispatch_field d opts tag value position (within body_part spec p)
        ≡ parsed (
            within trailer_part d.trailer_spec
              (note_body d opts tag position (put_field trailer_part tag value (closed spec p))))
  unfolding dispatch_field unknown_field ◌>>=◌
  dispatch_field-trailer spec tag value position p state foreign complete known new =
      rw
        (
          dispatch_field,
          try_current-Foreign body_part spec tag value position p foreign,
          phase-later (enter_body d opts tag value position) (within body_part spec p) state,
          phase-here in_body (enter_trailer d opts tag value position) (within body_part spec p)
              state,
          enter_trailer-New spec tag value position p complete known new,
        )
        refl

  module _ (spec : GroupSpec) (type : Bytes) (tag : ℕ) (value : Bytes) (position : ℕ) (p : Parser)
      (known_type : get_message_spec_raw d type ≡ some spec)
      (has_type : get_field Fields.msg_type (adopt opts.reorder_tags d.header_spec p.message.header)
        ≡ some type)
      (complete : Complete d.header_spec p.message.header)
      (foreign : Foreign d.header_spec tag) where
    -- The parser when the header has been left.
    abbrev pub opened : Parser
    opened = record (close header_part d.header_spec p) { msg_state = in_body }

    enter_body-New :
        Known d opts spec tag
        → New tag value p.message.body
        → enter_body d opts tag value position (within header_part d.header_spec p)
          ≡ parsed (
            true,
            within body_part spec
                (note_body d opts tag position (put_field body_part tag value opened)),
          )
    unfolding enter_body body_spec set_nth ◌>>=◌
    enter_body-New known new =
        let taken =
          try_set_field-New d opts body_part spec 0 tag value position
            (within body_part spec opened) known new in
        elim (Bool-cases (tag == Fields.body_length)) [
          | inl e ↦
              rw
                (
                  enter_body,
                  overwrite_stack-Complete header_part d.header_spec p complete,
                  body_spec,
                  has_type,
                  known_type,
                  taken,
                  e,
                )
                refl
          | inr e ↦
              rw
                (
                  enter_body,
                  overwrite_stack-Complete header_part d.header_spec p complete,
                  body_spec,
                  has_type,
                  known_type,
                  taken,
                  e,
                )
                refl
        ]

    -- The first field that the header does not have starts the body.
    pub dispatch_field-body :
        p.msg_state ≡ in_header
        → Known d opts spec tag
        → New tag value p.message.body
        → dispatch_field d opts tag value position (within header_part d.header_spec p)
          ≡ parsed (
              within body_part spec
                (note_body d opts tag position (put_field body_part tag value opened)))
    unfolding dispatch_field unknown_field ◌>>=◌
    dispatch_field-body state known new =
        rw
          (
            dispatch_field,
            try_current-Foreign header_part d.header_spec tag value position p foreign,
            phase-here in_header (enter_body d opts tag value position)
                (within header_part d.header_spec p) state,
            enter_body-New known new,
          )
          refl

    enter_body-Foreign :
        Foreign spec tag
        → enter_body d opts tag value position (within header_part d.header_spec p)
          ≡ parsed (false, within body_part spec opened)
    unfolding enter_body body_spec set_nth ◌>>=◌
    enter_body-Foreign other =
        rw
          (
            enter_body,
            overwrite_stack-Complete header_part d.header_spec p complete,
            body_spec,
            has_type,
            known_type,
            try_set_field-Foreign body_part spec 0 tag value position (within body_part spec opened)
                other,
          )
          refl

    -- Where the body is empty, that field may start the trailer.
    pub dispatch_field-empty_body :
        p.msg_state ≡ in_header
        → Foreign spec tag
        → Complete spec p.message.body
        → Known d opts d.trailer_spec tag
        → New tag value p.message.trailer
        → dispatch_field d opts tag value position (within header_part d.header_spec p)
          ≡ parsed (
              within trailer_part d.trailer_spec (
                note_body d opts tag position
                  (put_field trailer_part tag value (closed spec opened))))
    unfolding dispatch_field unknown_field ◌>>=◌
    dispatch_field-empty_body state other complete_body known new =
        rw
          (
            dispatch_field,
            try_current-Foreign header_part d.header_spec tag value position p foreign,
            phase-here in_header (enter_body d opts tag value position)
                (within header_part d.header_spec p) state,
            enter_body-Foreign other,
            phase-here in_body (enter_trailer d opts tag value position)
                (within body_part spec opened) refl,
            enter_trailer-New spec tag value position opened complete_body known new,
          )
          refl

  -- Where the parser is in the header with no group open, the header is complete (if required fields
  -- are validated), and the dictionary has no message of the type that the header gives, the first
  -- field that the header does not have makes the parser follow a null pointer, also when parsing is
  -- strict.
  pub dispatch_field-unknown_type :
      (type : Bytes) (tag : ℕ) (value : Bytes) (position : ℕ) (p : Parser)
      → get_message_spec_raw d type ≡ none
      → get_field Fields.msg_type (adopt opts.reorder_tags d.header_spec p.message.header)
        ≡ some type
      → Complete d.header_spec p.message.header
      → Foreign d.header_spec tag
      → p.msg_state ≡ in_header
      → dispatch_field d opts tag value position (within header_part d.header_spec p) ≡ undefined
  unfolding dispatch_field enter_body body_spec try_set_field ◌>>=◌
  dispatch_field-unknown_type type tag value position p unknown has_type complete foreign state =
      let crash : enter_body d opts tag value position (within header_part d.header_spec p)
          ≡ undefined =
        rw
          (
            enter_body,
            overwrite_stack-Complete header_part d.header_spec p complete,
            body_spec,
            has_type,
            unknown,
          )
          refl in
      rw
        (
          dispatch_field,
          try_current-Foreign header_part d.header_spec tag value position p foreign,
          phase-here in_header (enter_body d opts tag value position)
              (within header_part d.header_spec p) state,
          crash,
        )
        refl
