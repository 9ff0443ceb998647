-- ===== src/Dictionary/RoundTrip/Readable.antt =====
-- What makes a message without repeating groups readable for the parser of src/Dictionary.cpp, and
-- its text as the fields that the parser meets.
use openfix.Prelude.{
  ℕ, suc, ◌+◌, ◌-◌, ◌<◌, ◌≤◌, Bool, true, false, none, some, List, [], ◌∷◌, ◌++◌, ◌≡◌, refl, sym,
  ap, ◌∙◌, arith, Bytes, length, length-append, to_chars, digits,
}
use openfix.Fields
use openfix.LinkedHashMap.{find, has, erase}
use openfix.LinkedHashMap.Laws.{Distinct, find-append}
use openfix.Checksum.{format_checksum}
use openfix.Message.{GroupSpec, FieldMap, field_map, no_groups, get_fields, Message, has_field}
use openfix.Message.Spec.{m_fields}
use openfix.Message.Serialize.{
  internal_soh, is_ignored_tag, append_tag_eq, content, unchecked, adjust_checksum, serialize,
}
use openfix.Dictionary.{Dictionary, get_message_spec_raw}
use openfix.Dictionary.State.{Options}
use openfix.Dictionary.Groups.{required_present, adopt}
use openfix.Dictionary.RoundTrip.Wire.{wire}
use openfix.Dictionary.RoundTrip.Part.{Known, Written, Behind, more}
use openfix.Dictionary.RoundTrip.Transitions.{Foreign, Complete}
use openfix.Dictionary.RoundTrip.Serialized.{
  Plain, Flat, content_fields, length_value, checksum_value, wire-append, wire-longer, wire-through,
  content-wire, wire-wire, unchecked-wire,
}

-- The fields of the header and of the trailer as they are written.
abbrev pub header_read : Message → Bytes → Bytes → List (ℕ × Bytes) → List (ℕ × Bytes)
header_read msg begin type fields =
    (Fields.begin_string, begin)
    ∷ (Fields.body_length, length_value msg)
    ∷ (Fields.msg_type, type)
    ∷ fields

abbrev pub trailer_read : Message → List (ℕ × Bytes)
trailer_read msg = get_fields msg.trailer ++ (Fields.check_sum, checksum_value msg) ∷ []

-- The required fields of a spec are among the fields.
abbrev pub Present : GroupSpec → List (ℕ × Bytes) → Type 0
Present spec fields = required_present (m_fields spec) (field_map fields no_groups none []) ≡ true

module _ (d : Dictionary) (opts : Options) where
  abbrev pub FirstForeign : GroupSpec → List (ℕ × Bytes) → Type 0
  FirstForeign spec [] = Unit {0}
  FirstForeign spec ((tag, value) ∷ fields) = Foreign d opts spec tag

  -- A flat message whose fields the specs have, each once and without a separator in its value,
  -- the first of the body not being one of the header, nor the first of the trailer one of the body.
  pub record Readable (msg : Message) (begin type : Bytes) (fields : List (ℕ × Bytes))
      (spec : GroupSpec) : Type 0 where
    pub flat : Flat msg begin type fields
    pub known_type : get_message_spec_raw d type ≡ some spec
    pub begin_written : Written d opts d.header_spec Fields.begin_string begin
    pub length_known : Known d opts d.header_spec Fields.body_length
    pub type_written : Written d opts d.header_spec Fields.msg_type type
    pub header_written : Behind d opts d.header_spec fields
    pub body_written : Behind d opts spec (get_fields msg.body)
    pub trailer_written : Behind d opts d.trailer_spec (get_fields msg.trailer)
    pub checksum_known : Known d opts d.trailer_spec Fields.check_sum
    pub header_distinct : Distinct (header_read msg begin type fields)
    pub body_distinct : Distinct (get_fields msg.body)
    pub trailer_distinct : Distinct (trailer_read msg)
    pub leaves_header : FirstForeign d.header_spec (get_fields msg.body ++ trailer_read msg)
    pub leaves_body : FirstForeign spec (trailer_read msg)
    pub header_present : Present d.header_spec (header_read msg begin type fields)
    pub body_present : Present spec (get_fields msg.body)
    pub trailer_present : Present d.trailer_spec (trailer_read msg)
    pub small : length (serialize internal_soh msg) < 2147483648

  required_present-fields :
      (required : List (ℕ × Bool)) (m n : FieldMap)
      → get_fields m ≡ get_fields n
      → required_present required m ≡ required_present required n
  unfolding required_present has_field
  required_present-fields [] m n h = refl
  required_present-fields ((tag, needed) ∷ required) m n h =
      rw (h, required_present-fields required m n h) refl

  pub Present-Complete :
      (spec : GroupSpec) (fields : List (ℕ × Bytes)) (m : FieldMap)
      → opts.reorder_tags ≡ false
      → get_fields m ≡ fields
      → Present spec fields
      → Complete d opts spec m
  unfolding adopt
  Present-Complete spec fields (field_map old subs s seen) plain h present =
      let e =
        required_present-fields (m_fields spec) (field_map old subs (some spec) seen)
          (field_map fields no_groups none []) h in
      rw (plain, e, present) ground arith

  -- Enough fuel for some fields is one unit for each of them and enough for the rest.
  pub enough :
      (fields : List (ℕ × Bytes)) (rest : Bytes) (n : ℕ)
      → length (wire fields rest) ≤ n
      → (k : ℕ) × (n ≡ more d opts fields k) × (length rest ≤ k)
  enough [] rest n h = (n, refl, h)
  enough ((tag, value) ∷ fields) rest n h =
      let smaller : suc (length (wire fields rest)) ≤ n = omega (
        arith,
        length-append (append_tag_eq tag) (value ++ (internal_soh ∷ wire fields rest)),
        length-append value (internal_soh ∷ wire fields rest),
      ) in
      let (k, e, l) = enough fields rest (n - 1) (omega arith) in (k, rw (← e) (omega arith), l)

Plain-absent : (fields : List (ℕ × Bytes)) → Plain fields → has Fields.check_sum fields ≡ false
unfolding has is_ignored_tag
Plain-absent [] h = refl
Plain-absent ((tag, value) ∷ fields) h = ground (arith, h.0, Plain-absent fields h.1)

erase-last :
    (k : ℕ) (v : Bytes) (m : List (ℕ × Bytes)) → has k m ≡ false → erase k (m ++ (k, v) ∷ []) ≡ m
unfolding erase has
erase-last k v [] h = ground arith
erase-last k v ((j, w) ∷ m) h = ground (arith, erase-last k v m)

-- The checksum at the end of the trailer is found, and taken away.
pub find-trailer_read :
    (msg : Message)
    → Plain (get_fields msg.trailer)
    → find Fields.check_sum (trailer_read msg) ≡ some (checksum_value msg)
unfolding find
find-trailer_read msg h =
    find-append Fields.check_sum (get_fields msg.trailer)
      ((Fields.check_sum, checksum_value msg) ∷ []) (Plain-absent (get_fields msg.trailer) h)

pub erase-trailer_read :
    (msg : Message)
    → Plain (get_fields msg.trailer)
    → erase Fields.check_sum (trailer_read msg) ≡ get_fields msg.trailer
erase-trailer_read msg h =
    erase-last Fields.check_sum (checksum_value msg) (get_fields msg.trailer)
      (Plain-absent (get_fields msg.trailer) h)

module _ (msg : Message) (begin type : Bytes) (fields : List (ℕ × Bytes))
    (flat : Flat msg begin type fields) where
  -- The text behind BodyLength.
  abbrev pub behind_length : Bytes
  behind_length =
      wire ((Fields.msg_type, type) ∷ fields)
        (wire (get_fields msg.body) (wire (trailer_read msg) []))

  abbrev pub checksum_field : Bytes
  checksum_field = wire ((Fields.check_sum, checksum_value msg) ∷ []) []

  pub behind_length-content : behind_length ≡ content_fields msg type fields ++ checksum_field
  behind_length-content =
      let t = wire (get_fields msg.trailer) [] in
      let b = wire (get_fields msg.body) t in
      let trailer : wire (trailer_read msg) [] ≡ t ++ checksum_field =
        wire-wire (get_fields msg.trailer) _ []
        ∙ wire-append (get_fields msg.trailer) checksum_field in
      let body : wire (get_fields msg.body) (wire (trailer_read msg) []) ≡ b ++ checksum_field =
        ap (wire (get_fields msg.body)) trailer
        ∙ wire-through (get_fields msg.body) t checksum_field in
      ap (wire ((Fields.msg_type, type) ∷ fields)) body
      ∙ wire-through ((Fields.msg_type, type) ∷ fields) b checksum_field

  pub serialize-unchecked :
      serialize internal_soh msg ≡ unchecked internal_soh msg ++ checksum_field
  unfolding serialize adjust_checksum append_tag_eq to_chars digits
  serialize-unchecked = refl

  pub serialize-wire :
      serialize internal_soh msg
      ≡ wire
          (header_read msg begin type fields)
          (wire (get_fields msg.body) (wire (trailer_read msg) []))
  serialize-wire =
      serialize-unchecked
      ∙ ap (λ t. t ++ checksum_field) (unchecked-wire msg begin type fields flat)
      ∙ sym (
          wire-through ((Fields.begin_string, begin) ∷ (Fields.body_length, length_value msg) ∷ [])
            (content_fields msg type fields) checksum_field)
      ∙ ap (wire ((Fields.begin_string, begin) ∷ (Fields.body_length, length_value msg) ∷ []))
          (sym behind_length-content)

  checksum_field-length : length checksum_field ≡ 7
  unfolding append_tag_eq to_chars digits format_checksum
  checksum_field-length = refl

  -- The content is what BodyLength counts, and the checksum stands behind it.
  pub behind_length-length : length behind_length ≡ length (content internal_soh msg).out + 7
  behind_length-length = omega (
    arith,
    ap length behind_length-content,
    length-append (content_fields msg type fields) checksum_field,
    checksum_field-length,
    ap length (content-wire msg begin type fields flat),
  )

  pub serialize-longer : length behind_length ≤ length (serialize internal_soh msg)
  serialize-longer = rw serialize-wire (
      wire-longer ((Fields.begin_string, begin) ∷ (Fields.body_length, length_value msg) ∷ [])
        behind_length)

  pub serialize-length :
      length (serialize internal_soh msg) ≡ length (unchecked internal_soh msg) + 7
  serialize-length = omega (
    arith,
    ap length serialize-unchecked,
    length-append (unchecked internal_soh msg) checksum_field,
    checksum_field-length,
  )
