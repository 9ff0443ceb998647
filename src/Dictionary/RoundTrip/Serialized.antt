-- ===== src/Dictionary/RoundTrip/Serialized.antt =====
-- The text that src/Message.cpp writes for a message without repeating groups, as its fields.
use openfix.Prelude.{
  ℕ, ◌≤◌, true, false, List, [], ◌∷◌, ◌++◌, append-nil, append_assoc, ◌≡◌, refl, sym, ap, ◌∙◌,
  arith, Bytes, length, length-append, int, to_chars, digits,
}
use openfix.Fields
use openfix.LinkedHashMap.{find}
use openfix.Checksum.{compute_checksum, format_checksum}
use openfix.Message.{FieldMap, field_map, no_groups, get_fields, get_groups, Message}
use openfix.Message.Serialize.{
  internal_soh, is_ignored_tag, append_tag_eq, append_fields, append_checksum, append_group,
  render_groups, content, begin_prefix, unchecked,
}
use openfix.Dictionary.RoundTrip.Wire.{wire}

-- No field has a tag that the serializer writes by itself.
abbrev pub Plain : List (ℕ × Bytes) → Type 0
Plain [] = Unit {0}
Plain ((tag, value) ∷ fields) = (is_ignored_tag tag ≡ false) × Plain fields

pub wire-append :
    (fields : List (ℕ × Bytes)) (rest : Bytes) → wire fields rest ≡ wire fields [] ++ rest
wire-append [] rest = refl
wire-append ((tag, value) ∷ fields) rest =
    rw
      (
        wire-append fields rest,
        append_assoc (append_tag_eq tag) (value ++ internal_soh ∷ wire fields []) rest,
        append_assoc value (internal_soh ∷ wire fields []) rest,
      )
      refl

pub wire-longer :
    (fields : List (ℕ × Bytes)) (rest : Bytes) → length rest ≤ length (wire fields rest)
wire-longer fields rest =
    rw (wire-append fields rest) omega (arith, length-append (wire fields []) rest)

pub wire-through :
    (fields : List (ℕ × Bytes)) (s rest : Bytes) → wire fields (s ++ rest) ≡ wire fields s ++ rest
wire-through fields s rest =
    wire-append fields (s ++ rest)
    ∙ sym (append_assoc (wire fields []) s rest)
    ∙ ap (λ t. t ++ rest) (sym (wire-append fields s))

pub wire-wire :
    (fields more : List (ℕ × Bytes)) (rest : Bytes)
    → wire (fields ++ more) rest ≡ wire fields (wire more rest)
wire-wire [] more rest = refl
wire-wire ((tag, value) ∷ fields) more rest = rw (wire-wire fields more rest) refl

append_fields-wire :
    (fields : List (ℕ × Bytes))
    → Plain fields
    → (append_fields true internal_soh fields []).out ≡ wire fields []
unfolding append_fields find
append_fields-wire [] h = refl
append_fields-wire ((tag, value) ∷ fields) h =
    rw
      (
        h.0,
        append_fields-wire fields h.1,
        append_assoc (append_tag_eq tag) (value ++ internal_soh ∷ []) (wire fields []),
        append_assoc value (internal_soh ∷ []) (wire fields []),
      )
      refl

append_group-wire :
    (m : FieldMap) (fields : List (ℕ × Bytes))
    → get_groups m ≡ no_groups
    → (append_fields true internal_soh (get_fields m) []).out ≡ wire fields []
    → (append_group true internal_soh m).out ≡ wire fields []
unfolding append_group render_groups append_checksum
append_group-wire (field_map f subs spec seen) fields g h = rw (g, append-nil) h

-- A message whose parts have no groups, and whose header starts with BeginString and MsgType.
pub record Flat (msg : Message) (begin type : Bytes) (fields : List (ℕ × Bytes)) : Type 0 where
  pub header_fields :
      get_fields msg.header ≡ (Fields.begin_string, begin) ∷ (Fields.msg_type, type) ∷ fields
  pub header_groups : get_groups msg.header ≡ no_groups
  pub body_groups : get_groups msg.body ≡ no_groups
  pub trailer_groups : get_groups msg.trailer ≡ no_groups
  pub header_plain : Plain fields
  pub body_plain : Plain (get_fields msg.body)
  pub trailer_plain : Plain (get_fields msg.trailer)

abbrev pub content_fields : Message → Bytes → List (ℕ × Bytes) → Bytes
content_fields msg type fields =
    wire ((Fields.msg_type, type) ∷ fields)
      (wire (get_fields msg.body) (wire (get_fields msg.trailer) []))

-- The value of BodyLength, and of CheckSum.
abbrev pub length_value : Message → Bytes
length_value msg = to_chars (int (length (content internal_soh msg).out))

abbrev pub checksum_value : Message → Bytes
checksum_value msg = format_checksum (compute_checksum (unchecked internal_soh msg))

module _ (msg : Message) (begin type : Bytes) (fields : List (ℕ × Bytes))
    (flat : Flat msg begin type fields) where
  pub content-wire : (content internal_soh msg).out ≡ content_fields msg type fields
  unfolding content append_fields is_ignored_tag
  content-wire =
      let header : (append_group true internal_soh msg.header).out
          ≡ wire ((Fields.msg_type, type) ∷ fields) [] =
        append_group-wire msg.header ((Fields.msg_type, type) ∷ fields) flat.header_groups (
          rw flat.header_fields
            (append_fields-wire ((Fields.msg_type, type) ∷ fields) (refl, flat.header_plain))) in
      let body =
        append_group-wire msg.body _ flat.body_groups (append_fields-wire _ flat.body_plain) in
      let trailer =
        append_group-wire msg.trailer _ flat.trailer_groups
          (append_fields-wire _ flat.trailer_plain) in
      rw (header, body, trailer)
        (sym (
          wire-append ((Fields.msg_type, type) ∷ fields)
            (wire (get_fields msg.body) (wire (get_fields msg.trailer) []))
          ∙ ap (◌++◌ (wire ((Fields.msg_type, type) ∷ fields) []))
              (wire-append (get_fields msg.body) (wire (get_fields msg.trailer) []))))

  begin_prefix-wire :
      (begin_prefix internal_soh msg).out ≡ wire ((Fields.begin_string, begin) ∷ []) []
  unfolding begin_prefix find append_tag_eq to_chars digits
  begin_prefix-wire = rw (begin_prefix, flat.header_fields) refl

  pub unchecked-wire :
      unchecked internal_soh msg
      ≡ wire
          ((Fields.begin_string, begin) ∷ (Fields.body_length, length_value msg) ∷ [])
          (content_fields msg type fields)
  unfolding unchecked append_tag_eq to_chars digits
  unchecked-wire =
      rw (begin_prefix-wire, content-wire)
        (sym (
          wire-append ((Fields.begin_string, begin) ∷ []) (
            wire
              ((Fields.body_length, to_chars (int (length (content_fields msg type fields)))) ∷ [])
              (content_fields msg type fields))))
