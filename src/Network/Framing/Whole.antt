-- ===== src/Network/Framing/Whole.antt =====
-- ReadBuffer::read of src/Network.cpp at the text that Message::serialize of src/Message.cpp writes.
use openfix.Prelude.{
  ℕ, ◌-◌, ◌<◌, true, false, some, List, [], ◌∷◌, ◌++◌, append_assoc, ◌==◌, Bytes, All, codes,
  length, length-append, take, drop, drop-append_self, is_empty, is_digit, leading, int, to_chars,
  digits, ◌≡◌, ◌≢◌, refl, sym, ap, ◌∙◌, arith,
}
use openfix.Fields
use openfix.Checksum.{format_checksum}
use openfix.Message.{Message, get_fields}
use openfix.Message.Serialize.{internal_soh, append_tag_eq, content, serialize}
use openfix.Dictionary.Digits.{
  digits-ne, leading-digits, digits-Digits, to_chars-int, to_chars-Digits,
}
use openfix.Dictionary.RoundTrip.Wire.{Free, wire, split_at-append, digits-Free}
use openfix.Dictionary.RoundTrip.Serialized.{
  Flat, length_value, checksum_value, content_fields, content-wire, unchecked-wire, wire-through,
  wire-wire,
}
use openfix.Dictionary.RoundTrip.Readable.{checksum_field, serialize-unchecked}
use openfix.Network.Framing.{
  begin_string_tag, body_length_pattern, strip, find_text, get_tag_value_view, from_chars_length,
  cuts, cut, frame, extract_one, extract,
}
use openfix.Dictionary.RoundTrip.Whole.{format_checksum-Free}
use openfix.Network.Framing.Search.{none-ne}
use openfix.Network.Framing.Grows.{extract_one-Grows, extract_one-begin}
use openfix.Network.Framing.Chunks.{after, extract-after}

-- No byte of the front starts the pattern.
find_text-Free :
    (c : ℕ) (p s x back : Bytes)
    → Free c s
    → strip (c ∷ p) x ≡ some back
    → find_text (c ∷ p) (s ++ x) ≡ some (s, back)
unfolding find_text strip
find_text-Free c p [] [] back f h = absurd (none-ne h)
find_text-Free c p [] (b ∷ x) back f h = rw (find_text, h) refl
find_text-Free c p (b ∷ s) x back f h =
    let other : (c == b) ≡ false = ground (arith, f.0) in
    rw (find_text, strip, other, find_text-Free c p s x back f.1 h) refl

get_tag_value_view-Free :
    (c : ℕ) (p s x value rest : Bytes)
    → Free c s
    → strip (c ∷ p) x ≡ some (value ++ (internal_soh ∷ rest))
    → Free internal_soh value
    → value ≢ []
    → get_tag_value_view (c ∷ p) (s ++ x) ≡ some (value, rest)
unfolding get_tag_value_view
get_tag_value_view-Free c p s x value rest f h free ne =
    rw
      (
        get_tag_value_view,
        find_text-Free c p s x (value ++ (internal_soh ∷ rest)) f h,
        split_at-append internal_soh value rest free,
        not_empty value ne,
      )
      refl
  where
    not_empty : (v : Bytes) → v ≢ [] → is_empty v ≡ false
    not_empty [] k = absurd (k refl)
    not_empty (b ∷ v) k = refl

from_chars_length-leading :
    (s : Bytes) (n : ℕ)
    → s ≢ []
    → All (λ c. is_digit c ≡ true) s
    → leading s 0 ≡ n
    → n < 2147483648
    → from_chars_length s ≡ some n
unfolding from_chars_length
from_chars_length-leading [] n ne k h b = absurd (ne refl)
from_chars_length-leading (c ∷ s) n ne k h b = rw (from_chars_length, h) ground (arith, k.0)

from_chars_length-to_chars :
    (n : ℕ) → n < 2147483648 → from_chars_length (to_chars (int n)) ≡ some n
unfolding leading
from_chars_length-to_chars n h = rw (to_chars-int n h) (
    from_chars_length-leading (digits 10 n []) n (digits-ne 9 n) (digits-Digits 10 n [] tt)
      (leading-digits 10 n [] (omega arith)) h)

format_checksum-ne : (c : ℕ) → format_checksum c ≢ []
unfolding format_checksum
format_checksum-ne c = cc

to_chars-ne : (n : ℕ) → n < 2147483648 → to_chars (int n) ≢ []
to_chars-ne n h = rw (to_chars-int n h) (digits-ne 9 n)

-- The text of some fields ends with a separator.
ends_with :
    (tag : ℕ) (value : Bytes) (fields : List (ℕ × Bytes))
    → (s : Bytes) × (wire ((tag, value) ∷ fields) [] ≡ s ++ internal_soh ∷ [])
ends_with tag value [] =
    (append_tag_eq tag ++ value, sym (append_assoc (append_tag_eq tag) value (internal_soh ∷ [])))
ends_with tag value ((t, v) ∷ fields) =
    let (s, e) = ends_with t v fields in
    let joined : (append_tag_eq tag ++ (value ++ internal_soh ∷ s)) ++ internal_soh ∷ []
        ≡ append_tag_eq tag ++ (value ++ internal_soh ∷ (s ++ internal_soh ∷ [])) =
      rw
        (
          append_assoc (append_tag_eq tag) (value ++ internal_soh ∷ s) (internal_soh ∷ []),
          append_assoc value (internal_soh ∷ s) (internal_soh ∷ []),
        )
        refl in
    (
      append_tag_eq tag ++ (value ++ internal_soh ∷ s),
      ap (λ z. append_tag_eq tag ++ (value ++ internal_soh ∷ z)) e ∙ sym joined,
    )

take_all : (s : Bytes) → take (length s) s ≡ s
take_all [] = refl
take_all (c ∷ s) = ap (◌∷◌ c) (take_all s)

take_whole : (s : Bytes) → take (length s - 0) s ≡ s
take_whole s =
    let size : length s - 0 ≡ length s = omega arith in ap (λ n. take n s) size ∙ take_all s

module _ (msg : Message) (begin type : Bytes) (fields : List (ℕ × Bytes))
    (flat : Flat msg begin type fields) (free : Free internal_soh begin)
    (small : length (content internal_soh msg).out < 2147483648) where
  abbrev ending : Bytes
  ending = checksum_field msg begin type fields flat

  -- The text from its start, with what is behind the body length.
  abbrev shown : Bytes
  shown =
      begin_string_tag
      ++ (begin
          ++ (body_length_pattern
              ++ (length_value msg ++ (internal_soh ∷ (content_fields msg type fields ++ ending)))))

  serialize-shown : serialize internal_soh msg ≡ shown
  unfolding append_tag_eq to_chars digits
  serialize-shown =
      serialize-unchecked msg begin type fields flat
      ∙ ap (λ t. t ++ ending) (unchecked-wire msg begin type fields flat)
      ∙ sym (
          wire-through ((Fields.begin_string, begin) ∷ (Fields.body_length, length_value msg) ∷ [])
            (content_fields msg type fields) ending)

  content_end : (s : Bytes) × (content_fields msg type fields ≡ s ++ internal_soh ∷ [])
  content_end =
      let body = get_fields msg.body in
      let trailer = get_fields msg.trailer in
      let (s, e) = ends_with Fields.msg_type type (fields ++ (body ++ trailer)) in
      (
        s,
        sym (
              wire-wire ((Fields.msg_type, type) ∷ fields) (body ++ trailer) []
              ∙ ap (wire ((Fields.msg_type, type) ∷ fields)) (wire-wire body trailer []))
            ∙ e,
      )

  behind_body :
      drop
        (length (content internal_soh msg).out)
        (internal_soh ∷ (content_fields msg type fields ++ ending))
      ≡ internal_soh ∷ ending
  behind_body =
      let (s, e) = content_end in
      let size : length (content internal_soh msg).out ≡ length (internal_soh ∷ s) = omega (
        arith,
        ap length (content-wire msg begin type fields flat),
        ap length e,
        length-append s (internal_soh ∷ []),
      ) in
      ap (λ n. drop n (internal_soh ∷ (content_fields msg type fields ++ ending))) size
      ∙ ap (λ z. drop (length (internal_soh ∷ s)) (internal_soh ∷ (z ++ ending))) e
      ∙ ap (λ z. drop (length (internal_soh ∷ s)) (internal_soh ∷ z))
          (append_assoc s (internal_soh ∷ []) ending)
      ∙ drop-append_self (internal_soh ∷ s) (internal_soh ∷ ending)

  cut-shown :
      cut shown (length (content internal_soh msg).out) (content_fields msg type fields ++ ending)
      ≡ cuts shown []
  unfolding cut strip append_tag_eq to_chars digits
  cut-shown =
      rw
        (
          cut,
          behind_body,
          get_tag_value_view-Free internal_soh (codes "10=") [] (internal_soh ∷ ending)
              (checksum_value msg) [] tt refl (format_checksum-Free _) (format_checksum-ne _),
        )
        (ap (λ t. cuts t []) (take_whole shown))

  frame-shown : frame shown ≡ cuts shown []
  unfolding frame strip
  frame-shown =
      rw
        (
          frame,
          get_tag_value_view-Free internal_soh (codes "9=") (begin_string_tag ++ begin) _
              (length_value msg) (content_fields msg type fields ++ ending) (refl, (refl, free))
              refl (digits-Free internal_soh (length_value msg) refl (to_chars-Digits _ small))
              (to_chars-ne _ small),
          from_chars_length-to_chars _ small,
        )
        cut-shown

  extract_one-serialize :
      extract_one (serialize internal_soh msg) ≡ cuts (serialize internal_soh msg) []
  extract_one-serialize =
      ap extract_one serialize-shown
      ∙ extract_one-begin _
      ∙ frame-shown
      ∙ ap (λ t. cuts t []) (sym serialize-shown)

  -- The text that the serializer writes for a flat message, whose BeginString has no separator and
  -- whose content is shorter than 2^31 bytes, is cut out of the buffer as one message, whatever
  -- follows it.
  pub extract-serialize :
      (rest : Bytes)
      → extract (serialize internal_soh msg ++ rest)
        ≡ (serialize internal_soh msg ∷ (extract rest).0, (extract rest).1)
  extract-serialize rest =
      let (grown, _) =
        extract_one-Grows (serialize internal_soh msg) rest (cuts (serialize internal_soh msg) [])
          extract_one-serialize in
      extract-after (serialize internal_soh msg ++ rest) ∙ ap (λ o. after o extract) grown
