-- ===== src/Dictionary/RoundTrip/Wire.antt =====
-- The text of fields one behind the other, and what the loop of Dictionary::parse,
-- src/Dictionary.cpp, does with the first of them.
use openfix.Prelude.{
  ℕ, suc, ◌+◌, ◌-◌, ◌<◌, true, false, none, some, List, [], ◌∷◌, ◌++◌, append_assoc, ◌==◌, ◌≡◌, ◌≢◌,
  refl, arith, Bytes, All, length, int, to_chars, is_digit,
}
use openfix.Message.Serialize.{internal_soh, append_tag_eq}
use openfix.Dictionary.{Dictionary}
use openfix.Dictionary.Digits.{to_chars-Digits, fast_parse_tag-to_chars}
use openfix.Dictionary.State.{Options, Parser, parsed, ◌>>=◌}
use openfix.Dictionary.Parse.{
  split_at, assignment, check_tag, misplaced, dispatch_field, plain_field, field, round, parse_loop,
}

-- No byte of the text is c.
abbrev pub Free : ℕ → Bytes → Type 0
Free c = All (λ b. (b == c) ≡ false)

-- The fields, each with its separator, before a text.
abbrev pub wire : List (ℕ × Bytes) → Bytes → Bytes
wire [] rest = rest
wire ((tag, value) ∷ fields) rest =
    append_tag_eq tag ++ (value ++ (internal_soh ∷ wire fields rest))

pub split_at-append :
    (c : ℕ) (s rest : Bytes) → Free c s → split_at c (s ++ c ∷ rest) ≡ some (s, rest)
unfolding split_at
split_at-append c [] rest h = ground arith
split_at-append c (b ∷ s) rest h = rw (split_at-append c s rest h.1, h.0) refl

pub digits-Free :
    (c : ℕ) (s : Bytes) → is_digit c ≡ false → All (λ b. is_digit b ≡ true) s → Free c s
digits-Free c [] out h = tt
digits-Free c (b ∷ s) out h = (ground (arith, out, h.0), digits-Free c s out h.1)

pub append-ne {ℓ} : {A : Type ℓ} (s : List A) (c : A) (rest : List A) → s ++ (c ∷ rest) ≢ []
append-ne [] c rest = cc
append-ne (b ∷ s) c rest = cc

module _ (d : Dictionary) (opts : Options) where
  parse_loop-round :
      (fuel total : ℕ) (text next : Bytes) (p q : Parser)
      → text ≢ []
      → round d opts total text p ≡ parsed (next, q)
      → parse_loop d opts (suc fuel) total text p ≡ parse_loop d opts fuel total next q
  unfolding parse_loop ◌>>=◌
  parse_loop-round fuel total [] next p q ne h = absurd (ne refl)
  parse_loop-round fuel total (c ∷ text) next p q ne h = rw (parse_loop, h) refl

  -- The parser that the field of a tag is given to.
  abbrev pub at_field : ℕ → Parser → Parser
  at_field tag p = record p { tag_count = p.tag_count + 1; tag = tag; data_length = none }

  field-plain :
      (total tag : ℕ) (value rest : Bytes) (p q : Parser)
      → Free internal_soh value
      → misplaced d opts p.tag_count tag ≡ false
      → p.data_length ≡ none
      → dispatch_field d opts tag value (total - length rest) (at_field tag p) ≡ parsed q
      → field d opts total tag (value ++ (internal_soh ∷ rest)) p ≡ parsed (rest, q)
  unfolding field check_tag plain_field ◌>>=◌
  field-plain total tag value rest p q free placed plain h =
      rw (field, placed, plain, plain_field, split_at-append internal_soh value rest free, h) refl

  -- A field whose dispatch gives a parser is taken up by one round of the loop.
  pub parse_loop-field :
      (fuel total tag : ℕ) (value rest : Bytes) (p q : Parser)
      → tag < 2147483648
      → Free internal_soh value
      → misplaced d opts p.tag_count tag ≡ false
      → p.data_length ≡ none
      → dispatch_field d opts tag value (total - length rest) (at_field tag p) ≡ parsed q
      → parse_loop d opts (suc fuel) total (append_tag_eq tag ++ (value ++ (internal_soh ∷ rest))) p
        ≡ parse_loop d opts fuel total rest q
  unfolding append_tag_eq round
  parse_loop-field fuel total tag value rest p q small free placed plain h =
      let after = value ++ (internal_soh ∷ rest) in
      let name = to_chars (int tag) in
      let free_name = digits-Free assignment name refl (to_chars-Digits tag small) in
      rw (append_assoc name (assignment ∷ []) after) (
        parse_loop-round fuel total (name ++ (assignment ∷ after)) rest p q
          (append-ne name assignment after)
          (rw
            (
              round,
              split_at-append assignment name after free_name,
              fast_parse_tag-to_chars tag small,
            )
            (field-plain total tag value rest p q free placed plain h)))
