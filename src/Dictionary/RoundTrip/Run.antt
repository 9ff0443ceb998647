-- ===== src/Dictionary/RoundTrip/Run.antt =====
-- The loop of Dictionary::parse, src/Dictionary.cpp, over the body and the trailer of a message
-- without repeating groups.
use openfix.Prelude.{
  ℕ, ◌-◌, ◌≤◌, none, some, List, [], ◌∷◌, ◌≡◌, refl, sym, ◌∙◌, arith, Bytes, length,
}
use openfix.Fields
use openfix.Message.{GroupSpec, Message, get_field}
use openfix.Dictionary.{Dictionary, get_message_spec_raw}
use openfix.Dictionary.State.{
  in_header, in_body, in_trailer, Part, header_part, body_part, trailer_part, change_part, Options,
  Parser,
}
use openfix.Dictionary.Groups.{adopt}
use openfix.Dictionary.Parse.{parse_loop}
use openfix.Dictionary.RoundTrip.Fill.{append_field, News, fill}
use openfix.Dictionary.RoundTrip.Wire.{wire, at_field, parse_loop-field}
use openfix.Dictionary.RoundTrip.Part.{
  within, put_field, Behind, after, more, parse_loop-part, placed_late,
}
use openfix.Dictionary.RoundTrip.Transitions.{
  Foreign, Complete, close, closed, dispatch_field-body, dispatch_field-trailer,
  dispatch_field-empty_body,
}

abbrev pub last_tag : List (ℕ × Bytes) → ℕ → ℕ
last_tag [] tag = tag
last_tag ((t, v) ∷ fields) tag = last_tag fields t

-- What the fields of a part change.
pub record Kept (part : Part) (fields : List (ℕ × Bytes)) (p q : Parser) : Type 0 where
  pub message : q.message ≡ change_part (fill fields) part p.message
  pub state : q.msg_state ≡ p.msg_state
  pub start : q.body_length_start ≡ p.body_length_start
  pub plain : p.data_length ≡ none → q.data_length ≡ none
  pub count : p.tag_count ≤ q.tag_count
  pub last : q.tag ≡ last_tag fields p.tag

change_part-nil : (part : Part) (msg : Message) → change_part (fill []) part msg ≡ msg
change_part-nil header_part msg = refl
change_part-nil body_part msg = refl
change_part-nil trailer_part msg = refl

change_part-cons :
    (part : Part) (tag : ℕ) (value : Bytes) (fields : List (ℕ × Bytes)) (msg : Message)
    → change_part (fill fields) part (change_part (append_field tag value) part msg)
      ≡ change_part (fill ((tag, value) ∷ fields)) part msg
change_part-cons header_part tag value fields msg = refl
change_part-cons body_part tag value fields msg = refl
change_part-cons trailer_part tag value fields msg = refl

module _ (d : Dictionary) (opts : Options) where
  pub after-Kept :
      (part : Part) (fields : List (ℕ × Bytes)) (p : Parser)
      → Kept part fields p (after d opts part fields p)
  after-Kept part [] p = record {
    message = sym (change_part-nil part p.message);
    state = refl;
    start = refl;
    plain = λ h. h;
    count = omega arith;
    last = refl;
  }
  after-Kept part ((tag, value) ∷ fields) p =
      let k = after-Kept part fields (put_field part tag value (at_field d opts tag p)) in
      record {
        message = k.message ∙ change_part-cons part tag value fields p.message;
        state = k.state;
        start = k.start;
        plain = λ h. k.plain refl;
        count = omega (arith, k.count);
        last = k.last;
      }

  -- The parser behind the trailer, from the body.
  abbrev pub trailed : GroupSpec → ℕ → Bytes → List (ℕ × Bytes) → Parser → Parser
  trailed spec tag value fields p =
      after d opts trailer_part fields
        (put_field trailer_part tag value (closed d opts spec (at_field d opts tag p)))

  -- The fields of the trailer, from the end of the body.
  parse_loop-trailer :
      (spec : GroupSpec) (tag : ℕ) (value : Bytes) (fields : List (ℕ × Bytes)) (fuel total : ℕ)
      (p : Parser)
      → p.msg_state ≡ in_body
      → p.data_length ≡ none
      → 3 ≤ p.tag_count
      → Foreign d opts spec tag
      → Complete d opts spec p.message.body
      → Behind d opts d.trailer_spec ((tag, value) ∷ fields)
      → News ((tag, value) ∷ fields) p.message.trailer
      → parse_loop d opts
          (more d opts ((tag, value) ∷ fields) fuel)
          total
          (wire ((tag, value) ∷ fields) [])
          (within body_part spec p)
        ≡ parse_loop d opts fuel total []
            (within trailer_part d.trailer_spec (trailed spec tag value fields p))
  parse_loop-trailer spec tag value fields fuel total p state plain late foreign complete behind
        news =
      let next = put_field trailer_part tag value (closed d opts spec (at_field d opts tag p)) in
      let step =
        dispatch_field-trailer d opts spec tag value (total - length (wire fields []))
          (at_field d opts tag p) state foreign complete behind.0.known news.0 in
      parse_loop-field d opts (more d opts fields fuel) total tag value (wire fields [])
        (within body_part spec p) (within trailer_part d.trailer_spec next) behind.0.small
        behind.0.free (placed_late d opts p.tag_count tag late) plain (rw behind.1 at step)
      ∙ parse_loop-part d opts trailer_part d.trailer_spec fields fuel total [] next behind.2 news.1
          (omega arith) refl

  -- What has been read when the loop is behind the trailer, from the end of the header.
  pub record Arrived (spec : GroupSpec) (body trailer : List (ℕ × Bytes)) (p q : Parser)
      : Type 0 where
    pub message : q.message ≡ record p.message {
      header = adopt opts.reorder_tags d.header_spec p.message.header;
      body = adopt opts.reorder_tags spec (fill body p.message.body);
      trailer = fill trailer p.message.trailer;
    }
    pub state : q.msg_state ≡ in_trailer
    pub start : q.body_length_start ≡ p.body_length_start
    pub last : q.tag ≡ last_tag trailer p.tag

  module _ (spec : GroupSpec) (type : Bytes) (p : Parser)
      (known_type : get_message_spec_raw d type ≡ some spec)
      (has_type : get_field Fields.msg_type (adopt opts.reorder_tags d.header_spec p.message.header)
        ≡ some type)
      (complete : Complete d opts d.header_spec p.message.header) (state : p.msg_state ≡ in_header)
      (plain : p.data_length ≡ none) (late : 3 ≤ p.tag_count) (tag : ℕ) (value : Bytes)
      (fields : List (ℕ × Bytes)) (fuel total : ℕ)
      (behind : Behind d opts d.trailer_spec ((tag, value) ∷ fields))
      (news : News ((tag, value) ∷ fields) p.message.trailer)
      (foreign : Foreign d opts spec tag) where
    -- The rest of the loop without a body.
    abbrev pub Reaches : List (ℕ × Bytes) → Parser → Type 0
    Reaches body q =
        (parse_loop d opts (more d opts body (more d opts ((tag, value) ∷ fields) fuel)) total
            (wire body (wire ((tag, value) ∷ fields) [])) (within header_part d.header_spec p)
          ≡ parse_loop d opts fuel total [] (within trailer_part d.trailer_spec q))
        × Arrived spec body ((tag, value) ∷ fields) p q

    abbrev pub first : Parser
    first = put_field trailer_part tag value (
        closed d opts spec
          (record (close d opts header_part d.header_spec (at_field d opts tag p)) {
            msg_state = in_body;
          }))

    pub parse_loop-no_body :
        Foreign d opts d.header_spec tag
        → Complete d opts spec p.message.body
        → Reaches [] (after d opts trailer_part fields first)
    parse_loop-no_body other whole =
        let step =
          dispatch_field-empty_body d opts spec type tag value (total - length (wire fields []))
            (at_field d opts tag p) known_type has_type complete other state foreign whole
            behind.0.known news.0 in
        let k = after-Kept trailer_part fields first in
        (
          parse_loop-field d opts (more d opts fields fuel) total tag value (wire fields [])
                (within header_part d.header_spec p) (within trailer_part d.trailer_spec first)
                behind.0.small behind.0.free (placed_late d opts p.tag_count tag late) plain
                (rw behind.1 at step)
              ∙ parse_loop-part d opts trailer_part d.trailer_spec fields fuel total [] first
                  behind.2 news.1 (omega arith) refl,
          record { message = k.message; state = k.state; start = k.start; last = k.last },
        )

    module _ (b : ℕ) (w : Bytes) (body : List (ℕ × Bytes)) where
      abbrev pub begun : Parser
      begun =
          put_field body_part b w
            (record (close d opts header_part d.header_spec (at_field d opts b p)) {
              msg_state = in_body;
            })

      abbrev pub passed : Parser
      passed = after d opts body_part body begun

      pub parse_loop-some_body :
          Foreign d opts d.header_spec b
          → Behind d opts spec ((b, w) ∷ body)
          → News ((b, w) ∷ body) p.message.body
          → Complete d opts spec (fill ((b, w) ∷ body) p.message.body)
          → Reaches ((b, w) ∷ body) (trailed spec tag value fields passed)
      parse_loop-some_body other inside fresh whole =
          let rest = wire ((tag, value) ∷ fields) [] in
          let step =
            dispatch_field-body d opts spec type b w (total - length (wire body rest))
              (at_field d opts b p) known_type has_type complete other state inside.0.known
              fresh.0 in
          let k = after-Kept body_part body begun in
          let body_is : passed.message.body ≡ fill ((b, w) ∷ body) p.message.body =
            rw k.message refl in
          let trailer_is : passed.message.trailer ≡ p.message.trailer = rw k.message refl in
          let t =
            after-Kept trailer_part fields (
              put_field trailer_part tag value (closed d opts spec (at_field d opts tag passed))) in
          (
            parse_loop-field d opts _ total b w (wire body rest)
                  (within header_part d.header_spec p) (within body_part spec begun) inside.0.small
                  inside.0.free (placed_late d opts p.tag_count b late) plain (rw inside.1 at step)
                ∙ parse_loop-part d opts body_part spec body _ total rest begun inside.2 fresh.1
                    (omega arith) refl
                ∙ parse_loop-trailer spec tag value fields fuel total passed k.state (k.plain refl)
                    (omega (arith, k.count)) foreign (rw body_is whole) behind (rw trailer_is news),
            record {
              message = t.message ∙ rw k.message refl;
              state = t.state;
              start = t.start ∙ k.start;
              last = t.last;
            },
          )
