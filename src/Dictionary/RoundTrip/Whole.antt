-- ===== src/Dictionary/RoundTrip/Whole.antt =====
-- Dictionary::parse of src/Dictionary.cpp over the text that Message::serialize of src/Message.cpp
-- writes.
use openfix.Prelude.{
  ℕ, zero, suc, ◌≤◌, false, none, some, List, [], ◌∷◌, ◌++◌, ◌≡◌, ◌≢◌, refl, ap, ◌∙◌, arith, Bytes,
  length,
}
use openfix.Fields
use openfix.LinkedHashMap.{find, erase}
use openfix.Checksum.{format_checksum}
use openfix.Message.{
  GroupSpec, FieldMap, field_map, get_fields, Message, get_field, remove_field, empty_field_map,
}
use openfix.Message.Serialize.{internal_soh, serialize}
use openfix.Dictionary.{Dictionary, get_message_spec_raw}
use openfix.Dictionary.Digits.{to_chars-Digits}
use openfix.Dictionary.State.{in_header, header_part, trailer_part, Options, Parser, parsed, ◌>>=◌}
use openfix.Dictionary.Groups.{adopt}
use openfix.Dictionary.Parse.{parse_loop, misplaced, start, read_fields, without_checksum, parse}
use openfix.Dictionary.RoundTrip.Fill.{News, fill, Distinct-News, fill-fields}
use openfix.Dictionary.RoundTrip.Wire.{
  wire, Free, append-ne, digits-Free, at_field, parse_loop-field,
}
use openfix.Dictionary.RoundTrip.Part.{
  within, put_field, Behind, after, more, dispatch_field-New, parse_loop-part,
}
use openfix.Dictionary.RoundTrip.Transitions.{Complete, close, overwrite_stack-Complete}
use openfix.Dictionary.RoundTrip.Run.{
  Arrived, after-Kept, last_tag, parse_loop-no_body, parse_loop-some_body,
}
use openfix.Dictionary.RoundTrip.Serialized.{length_value, checksum_value}
use openfix.Dictionary.RoundTrip.Verify.{offset, content_small, Verifiable, finish-Verifiable}
use openfix.Dictionary.RoundTrip.Readable.{
  header_read, trailer_read, FirstForeign, Readable, Present-Complete, enough, erase-trailer_read,
  serialize-wire,
}

pub format_checksum-Free : (c : ℕ) → Free internal_soh (format_checksum c)
unfolding format_checksum
format_checksum-Free c = (ground arith, (ground arith, (ground arith, tt)))

remove_field-fields :
    (tag : ℕ) (m : FieldMap) → get_fields (remove_field tag m) ≡ erase tag (get_fields m)
unfolding remove_field
remove_field-fields tag (field_map fields subs spec seen) = refl

last_tag-append :
    (fs : List (ℕ × Bytes)) (t tag : ℕ) (v : Bytes) → last_tag (fs ++ (t, v) ∷ []) tag ≡ t
last_tag-append [] t tag v = refl
last_tag-append ((k, u) ∷ fs) t tag v = last_tag-append fs t k v

module _ (d : Dictionary) (opts : Options) where
  -- The rest of the loop, from the end of the header.
  parse_loop-rest :
      (spec : GroupSpec) (type : Bytes) (p : Parser)
      → get_message_spec_raw d type ≡ some spec
      → get_field Fields.msg_type (adopt opts.reorder_tags d.header_spec p.message.header)
        ≡ some type
      → Complete d opts d.header_spec p.message.header
      → p.msg_state ≡ in_header
      → p.data_length ≡ none
      → 3 ≤ p.tag_count
      → (body trailer : List (ℕ × Bytes)) (fuel total : ℕ) → trailer ≢ []
      → Behind d opts spec body
      → News body p.message.body
      → Complete d opts spec (fill body p.message.body)
      → Behind d opts d.trailer_spec trailer
      → News trailer p.message.trailer
      → FirstForeign d opts d.header_spec (body ++ trailer)
      → FirstForeign d opts spec trailer
      → (q : Parser) × (parse_loop d opts
            (more d opts body (more d opts trailer fuel))
            total
            (wire body (wire trailer []))
            (within header_part d.header_spec p)
          ≡ parse_loop d opts fuel total [] (within trailer_part d.trailer_spec q))
        × Arrived d opts spec body trailer p q
  parse_loop-rest spec type p kt ht c s pl l body [] fuel total ne b nb w bt nt f g =
      absurd (ne refl)
  parse_loop-rest spec type p kt ht c s pl l [] ((t, v) ∷ tf) fuel total ne b nb w bt nt f g =
      let (e, a) =
        parse_loop-no_body d opts spec type p kt ht c s pl l t v tf fuel total bt nt g f w in
      (_, e, a)
  parse_loop-rest spec type p kt ht c s pl l ((k, u) ∷ body) ((t, v) ∷ tf) fuel total ne b nb w bt
        nt f g =
      let (e, a) =
        parse_loop-some_body d opts spec type p kt ht c s pl l t v tf fuel total bt nt g k u body f
          b nb w in
      (_, e, a)

  parse_loop-nil : (fuel total : ℕ) (p : Parser) → parse_loop d opts fuel total [] p ≡ parsed p
  unfolding parse_loop
  parse_loop-nil zero total p = refl
  parse_loop-nil (suc fuel) total p = refl

  module _ (msg : Message) (begin type : Bytes) (fields : List (ℕ × Bytes)) (spec : GroupSpec)
      (relaxed : opts.relaxed ≡ false) (unsorted : opts.reorder_tags ≡ false)
      (r : Readable d opts msg begin type fields spec) where
    abbrev text : Bytes
    text = serialize internal_soh msg

    abbrev fields_1 : Parser
    fields_1 =
        put_field header_part Fields.begin_string begin
          (at_field d opts Fields.begin_string (start d opts text))

    abbrev fields_2 : Parser
    fields_2 =
        record (put_field header_part Fields.body_length (length_value msg)
          (at_field d opts Fields.body_length fields_1)) {
            body_length_start = offset d opts msg begin type fields spec relaxed r;
          }

    abbrev fields_3 : Parser
    fields_3 = put_field header_part Fields.msg_type type (at_field d opts Fields.msg_type fields_2)

    abbrev headed : Parser
    headed = after d opts header_part fields fields_3

    news : News (header_read msg begin type fields) empty_field_map
    news = Distinct-News (header_read msg begin type fields) r.header_distinct

    -- The loop over the header.
    parse_loop-header :
        (fuel : ℕ)
        → parse_loop d opts
            (more d opts (header_read msg begin type fields) fuel)
            (length text)
            (wire
              (header_read msg begin type fields)
              (wire (get_fields msg.body) (wire (trailer_read msg) [])))
            (within header_part d.header_spec (start d opts text))
          ≡ parse_loop d opts fuel
              (length text)
              (wire (get_fields msg.body) (wire (trailer_read msg) []))
              (within header_part d.header_spec headed)
    unfolding misplaced
    parse_loop-header fuel =
        let rest = wire (get_fields msg.body) (wire (trailer_read msg) []) in
        let n = length text in
        let at = within header_part d.header_spec in
        parse_loop-field d opts _ n Fields.begin_string begin _ (at (start d opts text))
          (at fields_1) r.begin_written.small r.begin_written.free refl refl
          (dispatch_field-New d opts header_part d.header_spec Fields.begin_string begin _
            (at_field d opts Fields.begin_string (start d opts text)) r.begin_written.known news.0)
        ∙ parse_loop-field d opts _ n Fields.body_length (length_value msg) _ (at fields_1)
            (at fields_2) (omega arith)
            (digits-Free internal_soh (length_value msg) refl
              (to_chars-Digits _ (content_small d opts msg begin type fields spec relaxed r)))
            refl refl
            (dispatch_field-New d opts header_part d.header_spec Fields.body_length
              (length_value msg) _ (at_field d opts Fields.body_length fields_1) r.length_known
              news.1.0)
        ∙ parse_loop-field d opts _ n Fields.msg_type type _ (at fields_2) (at fields_3)
            r.type_written.small r.type_written.free refl refl
            (dispatch_field-New d opts header_part d.header_spec Fields.msg_type type _
              (at_field d opts Fields.msg_type fields_2) r.type_written.known news.1.1.0)
        ∙ parse_loop-part d opts header_part d.header_spec fields fuel n rest fields_3
            r.header_written news.1.1.1 (omega arith) refl

    adopt-fields :
        (s : GroupSpec) (m : FieldMap) → get_fields (adopt opts.reorder_tags s m) ≡ get_fields m
    unfolding adopt
    adopt-fields s (field_map old subs old_spec seen) = rw unsorted refl

    abbrev header_map : FieldMap
    header_map = fill (header_read msg begin type fields) empty_field_map

    header_map-fields : get_fields header_map ≡ header_read msg begin type fields
    header_map-fields = fill-fields (header_read msg begin type fields) empty_field_map

    headed-header : headed.message.header ≡ header_map
    headed-header = rw (after-Kept d opts header_part fields fields_3).message refl

    headed-body : headed.message.body ≡ empty_field_map
    headed-body = rw (after-Kept d opts header_part fields fields_3).message refl

    headed-trailer : headed.message.trailer ≡ empty_field_map
    headed-trailer = rw (after-Kept d opts header_part fields fields_3).message refl

    headed-type :
        get_field Fields.msg_type (adopt opts.reorder_tags d.header_spec headed.message.header)
        ≡ some type
    unfolding get_field find
    headed-type =
        rw (headed-header, get_field, adopt-fields d.header_spec header_map, header_map-fields) refl

    headed-Complete : Complete d opts d.header_spec headed.message.header
    headed-Complete = rw headed-header (
        Present-Complete d opts d.header_spec _ header_map unsorted header_map-fields
          r.header_present)

    body-Complete : Complete d opts spec (fill (get_fields msg.body) headed.message.body)
    body-Complete = rw headed-body (
        Present-Complete d opts spec (get_fields msg.body)
          (fill (get_fields msg.body) empty_field_map) unsorted
          (fill-fields (get_fields msg.body) empty_field_map) r.body_present)

    trailer-Behind :
        (fs : List (ℕ × Bytes))
        → Behind d opts d.trailer_spec fs
        → Behind d opts d.trailer_spec (fs ++ (Fields.check_sum, checksum_value msg) ∷ [])
    trailer-Behind [] b = (
      record { known = r.checksum_known; small = omega arith; free = format_checksum-Free _ },
      refl,
      tt,
    )
    trailer-Behind ((t, v) ∷ fs) b = (b.0, b.1, trailer-Behind fs b.2)

    parse_loop-read :
        (q : Parser) × (parse_loop d opts (length text) (length text) text (start d opts text)
          ≡ parsed (within trailer_part d.trailer_spec q))
        × Arrived d opts spec (get_fields msg.body) (trailer_read msg) headed q
    parse_loop-read =
        let n = length text in
        let body = get_fields msg.body in
        let trailer = trailer_read msg in
        let whole = serialize-wire msg begin type fields r.flat in
        let k = after-Kept d opts header_part fields fields_3 in
        let (f, e, le) =
          enough d opts (header_read msg begin type fields) (wire body (wire trailer [])) n
            (rw (← whole) omega arith) in
        let (f', e', le') = enough d opts body (wire trailer []) f le in
        let (f'', e'', le'') = enough d opts trailer [] f' le' in
        let (q, rest, arrived) =
          parse_loop-rest spec type headed r.known_type headed-type headed-Complete k.state
            (k.plain refl) (omega (arith, k.count)) body trailer f'' n
            (append-ne (get_fields msg.trailer) _ []) r.body_written
            (rw headed-body (Distinct-News body r.body_distinct)) body-Complete
            (trailer-Behind (get_fields msg.trailer) r.trailer_written)
            (rw headed-trailer (Distinct-News trailer r.trailer_distinct)) r.leaves_header
            r.leaves_body in
        (
          q,
          ap (λ k. parse_loop d opts k n text (start d opts text)) e
              ∙ ap
                  (λ t.
                    parse_loop d opts (more d opts (header_read msg begin type fields) f) n t
                      (start d opts text))
                  whole
              ∙ parse_loop-header f
              ∙ ap
                  (λ k.
                    parse_loop d opts k n (wire body (wire trailer []))
                      (within header_part d.header_spec headed))
                  (e' ∙ ap (more d opts body) e'')
              ∙ rest
              ∙ parse_loop-nil f'' n (within trailer_part d.trailer_spec q),
          arrived,
        )

    module _ (q : Parser)
        (a : Arrived d opts spec (get_fields msg.body) (trailer_read msg) headed q) where
      arrived-trailer : get_fields q.message.trailer ≡ trailer_read msg
      arrived-trailer =
          rw (a.message, headed-trailer) (fill-fields (trailer_read msg) empty_field_map)

      arrived-Complete : Complete d opts d.trailer_spec q.message.trailer
      arrived-Complete =
          Present-Complete d opts d.trailer_spec (trailer_read msg) q.message.trailer unsorted
            arrived-trailer r.trailer_present

      abbrev ended : Parser
      ended = record (close d opts trailer_part d.trailer_spec q) { stack = [] }

      ended-Verifiable : Verifiable d opts msg begin type fields spec relaxed r ended
      ended-Verifiable = record {
        state = a.state;
        tag =
            a.last
            ∙ last_tag-append (get_fields msg.trailer) Fields.check_sum headed.tag
                (checksum_value msg);
        start = a.start ∙ (after-Kept d opts header_part fields fields_3).start;
        header =
            rw (a.message, headed-header, adopt-fields d.header_spec header_map) header_map-fields;
        body =
            rw
              (
                a.message,
                headed-body,
                adopt-fields spec (fill (get_fields msg.body) empty_field_map),
              )
              (fill-fields (get_fields msg.body) empty_field_map);
        trailer = adopt-fields d.trailer_spec q.message.trailer ∙ arrived-trailer;
      }

    -- A strict parser without reordering reads a flat message back from the text that the serializer
    -- writes for it, if its fields are such that the dictionary can read them (Readable): the header
    -- has gained the body length, and the body and the trailer have the fields that they had.
    pub parse-serialize :
        (m : Message) × (parse d opts (serialize internal_soh msg) ≡ parsed m)
        × (get_fields m.header ≡ header_read msg begin type fields)
        × (get_fields m.body ≡ get_fields msg.body)
        × (get_fields m.trailer ≡ get_fields msg.trailer)
    unfolding parse read_fields remove_field ◌>>=◌
    parse-serialize =
        let (q, e, a) = parse_loop-read in
        let p = ended q a in
        let h = ended-Verifiable q a in
        let closed =
          overwrite_stack-Complete d opts trailer_part d.trailer_spec q (arrived-Complete q a) in
        (
          without_checksum d opts p.message,
          rw (parse, read_fields, e, closed)
              (finish-Verifiable d opts msg begin type fields spec relaxed r p h),
          h.header,
          h.body,
          rw
              (
                remove_field-fields Fields.check_sum
                    (adopt opts.reorder_tags d.trailer_spec q.message.trailer),
                h.trailer,
              )
              (erase-trailer_read msg r.flat.trailer_plain),
        )
