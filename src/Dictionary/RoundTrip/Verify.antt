-- ===== src/Dictionary/RoundTrip/Verify.antt =====
-- The verification at the end of Dictionary::parse, src/Dictionary.cpp, for a text that
-- Message::serialize of src/Message.cpp writes.
use openfix.Prelude.{
  ℕ, ◌-◌, ◌<◌, false, List, ◌≡◌, refl, ap, ◌∙◌, arith, Bytes, bytes_eq_refl, length, take,
  take-append_self,
}
use openfix.Fields
use openfix.LinkedHashMap.{find}
use openfix.Message.{GroupSpec, get_fields, Message, get_field}
use openfix.Message.Serialize.{internal_soh, content, unchecked, serialize}
use openfix.Dictionary.{Dictionary}
use openfix.Dictionary.Digits.{from_chars_ulong-to_chars}
use openfix.Dictionary.State.{in_trailer, Options, Parser, parsed, ◌>>=◌}
use openfix.Dictionary.Parse.{
  expected_length, verify_length, verify_checksum, without_checksum, finish,
}
use openfix.Dictionary.RoundTrip.Serialized.{checksum_value}
use openfix.Dictionary.RoundTrip.Readable.{
  header_read, trailer_read, Readable, find-trailer_read, behind_length, serialize-unchecked,
  behind_length-length, serialize-longer, serialize-length,
}

module _ (d : Dictionary) (opts : Options) (msg : Message) (begin type : Bytes)
    (fields : List (ℕ × Bytes)) (spec : GroupSpec) (relaxed : opts.relaxed ≡ false)
    (r : Readable d opts msg begin type fields spec) where
  abbrev pub text : Bytes
  text = serialize internal_soh msg

  abbrev pub offset : ℕ
  offset = length text - length (behind_length msg begin type fields r.flat)

  pub content_small : length (content internal_soh msg).out < 2147483648
  content_small = omega (
    arith,
    behind_length-length msg begin type fields r.flat,
    serialize-longer msg begin type fields r.flat,
    r.small,
  )

  -- What the parser has read at the end.
  pub record Verifiable (p : Parser) : Type 0 where
    pub state : p.msg_state ≡ in_trailer
    pub tag : p.tag ≡ Fields.check_sum
    pub start : p.body_length_start ≡ offset
    pub header : get_fields p.message.header ≡ header_read msg begin type fields
    pub body : get_fields p.message.body ≡ get_fields msg.body
    pub trailer : get_fields p.message.trailer ≡ trailer_read msg

  expected_length-Verifiable :
      (p : Parser)
      → Verifiable p
      → expected_length d opts text p ≡ length (content internal_soh msg).out
  unfolding expected_length
  expected_length-Verifiable p h = omega (
    arith,
    h.start,
    behind_length-length msg begin type fields r.flat,
    serialize-longer msg begin type fields r.flat,
    r.small,
  )

  verify_length-Verifiable : (p : Parser) → Verifiable p → verify_length d opts text p ≡ parsed p
  unfolding verify_length get_field find
  verify_length-Verifiable p h =
      rw
        (
          verify_length,
          h.header,
          from_chars_ulong-to_chars _ content_small,
          expected_length-Verifiable p h,
        )
        ground arith

  unchecked-taken : take (length text - 7) text ≡ unchecked internal_soh msg
  unchecked-taken =
      let n : length text - 7 ≡ length (unchecked internal_soh msg) =
        omega (arith, serialize-length msg begin type fields r.flat) in
      ap (λ k. take k text) n
      ∙ ap (take (length (unchecked internal_soh msg)))
          (serialize-unchecked msg begin type fields r.flat)
      ∙ take-append_self (unchecked internal_soh msg) _

  verify_checksum-Verifiable :
      (p : Parser) → Verifiable p → verify_checksum d opts text p ≡ parsed p
  unfolding verify_checksum get_field
  verify_checksum-Verifiable p h =
      rw
        (
          verify_checksum,
          h.trailer,
          find-trailer_read msg r.flat.trailer_plain,
          unchecked-taken,
          bytes_eq_refl (checksum_value msg),
        )
        ground (arith, h.tag, serialize-length msg begin type fields r.flat)

  pub finish-Verifiable :
      (p : Parser)
      → Verifiable p
      → finish d opts text p ≡ parsed (without_checksum d opts p.message)
  unfolding finish ◌>>=◌
  finish-Verifiable p h =
      rw (verify_length-Verifiable p h, verify_checksum-Verifiable p h, h.state, relaxed) refl
