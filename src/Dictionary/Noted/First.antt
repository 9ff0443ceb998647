-- ===== src/Dictionary/Noted/First.antt =====
-- The first two fields in the loop of Dictionary::parse of src/Dictionary.cpp: strict parsing takes
-- BeginString and BodyLength there, and notes where the second one ends.
use openfix.Prelude.{
  ℕ, zero, suc, ◌+◌, ◌-◌, Bool, true, false, none, some, [], ◌∷◌, ◌==◌, if◌then◌else◌, Bytes,
  length, ◌≡◌, ◌∙◌, sym, ap, refl, arith, inl, inr, Option-cases, Bool-cases,
}
use mathlib.Core.Path.{subst}
use openfix.Fields as Tags
use openfix.Message.Serialize.{internal_soh}
use openfix.Message.Spec.{spec_has_field}
use openfix.Message.Parsing.{set_field_view_or_detect_dup}
use openfix.Dictionary.{Dictionary, get_field_type, is_length, is_data, fast_parse_tag}
use openfix.Dictionary.State.{
  GroupInfo, info, root, header_part, in_header, in_body, Options, Parser, Parsed, parsed,
  parsing_error, field_not_found, undefined, stuck, ◌>>=◌, throw_unless, map_of, change_map,
}
use openfix.Dictionary.Groups.{
  Tried, nth, set_nth, pop_all, overwrite_stack, announce, note_body, handle_repeating_tag,
  try_set_field,
}
use openfix.Dictionary.Parse.{
  split_at, assignment, try_stack, try_current, enter_body, enter_trailer, phase, unknown_field,
  dispatch_field, misplaced, check_tag, plain_field, field, skip_field, round, parse_loop, start,
  read_fields,
}
use openfix.Dictionary.RoundTrip.Part.{spec_has_field-nonempty}
use openfix.Dictionary.Noted.{Keeps, Keeps-bind, Keeps-after, Keeps-throw_unless, Keeps-if}
use openfix.Dictionary.Noted.Loop.{
  Left, IsBehindBodyLength, Inv, Ends, behind-next, separator-Left, parse_loop-Ends,
}

Keeps-weaken :
    {A : Type 0} (Q R : A → Type 0) (m : Parsed A) → ((a : A) → Q a → R a) → Keeps Q m → Keeps R m
Keeps-weaken Q R (parsed a) f h = f a h
Keeps-weaken Q R parsing_error f h = tt
Keeps-weaken Q R field_not_found f h = tt
Keeps-weaken Q R undefined f h = tt
Keeps-weaken Q R stuck f h = tt

module _ (d : Dictionary) (opts : Options) (strict : opts.relaxed ≡ false) where
  -- The entry of the header on the group stack.
  abbrev header : GroupInfo
  header = info (some d.header_spec) (root header_part)

  -- A field of the header was put into its place: no group was opened.
  abbrev Placed : ℕ → ℕ → Parser → Parser → Type 0
  Placed tag position p q =
      (q.stack ≡ header ∷ [])
      × (q.body_length_start ≡ (if tag == Tags.body_length then position else p.body_length_start))
      × (q.tag ≡ p.tag)
      × (q.tag_count ≡ p.tag_count)

  abbrev Same : Parser → Parser → Type 0
  Same p q =
      (q.stack ≡ p.stack)
      × (q.body_length_start ≡ p.body_length_start)
      × (q.tag ≡ p.tag)
      × (q.tag_count ≡ p.tag_count)

  announce-Same :
      (tag : ℕ) (value : Bytes) (p : Parser) → Keeps (Same p) (announce d opts tag value p)
  unfolding announce
  announce-Same tag value p = elim (Option-cases (fast_parse_tag value)) [
    | inl e ↦ rw e (
        Keeps-if (Same p) (is_length (get_field_type d tag)) (throw_unless opts.relaxed p)
          (parsed p) (Keeps-throw_unless (Same p) opts.relaxed p (refl, refl, refl, refl))
          (refl, refl, refl, refl))
    | inr (n, e) ↦ rw e (
        Keeps-if (Same p) (is_length (get_field_type d tag))
          (parsed (record p { data_length = some n })) (parsed p) (refl, refl, refl, refl)
          (refl, refl, refl, refl))
  ]

  abbrev PlacedTried : ℕ → ℕ → Parser → Tried → Type 0
  PlacedTried tag position p t =
      (t.index ≡ some 0) × (t.group ≡ header) × Placed tag position p t.parser

  note_body-Placed :
      (tag position : ℕ) (p q : Parser)
      → p.stack ≡ header ∷ []
      → Same p q
      → Placed tag position p (note_body d opts tag position q)
  note_body-Placed tag position p q h s = elim (Bool-cases (tag == Tags.body_length)) [
    | inl is ↦ rw is (s.0 ∙ h, refl, s.2, s.3)
    | inr other ↦ rw other (s.0 ∙ h, s.1, s.2, s.3)
  ]

  try_set_field-Placed :
      (tag : ℕ) (value : Bytes) (position : ℕ) (p : Parser)
      → spec_has_field tag d.header_spec ≡ true
      → p.stack ≡ header ∷ []
      → Keeps (PlacedTried tag position p) (try_set_field d opts header 0 tag value position p)
  unfolding try_set_field handle_repeating_tag
  try_set_field-Placed tag value position p known h =
      let (seen, m) =
        set_field_view_or_detect_dup tag value (map_of (root header_part) p.message) in
      let p' : Parser = record p { message = change_map (λ _. m) (root header_part) p.message } in
      rw known (
        Keeps-if (PlacedTried tag position p) seen
          (handle_repeating_tag d opts header 0 tag value p)
          (announce d opts tag value p' >>= λ q.
            parsed
              (record { index = some 0; group = header; parser = note_body d opts tag position q }))
          (Keeps-throw-strict _ _)
          (Keeps-bind (Same p') (PlacedTried tag position p) (announce d opts tag value p') _
            (announce-Same tag value p')
            λ q s. (refl, refl, note_body-Placed tag position p' q h s)))
    where
      Keeps-throw-strict : (Q : Tried → Type 0) (t : Tried) → Keeps Q (throw_unless opts.relaxed t)
      Keeps-throw-strict Q t = rw strict tt

  abbrev Taken : ℕ → ℕ → Parser → Bool × Parser → Type 0
  Taken tag position p (b, q) = (b ≡ true) × Placed tag position p q

  overwrite_stack-Same :
      (p : Parser) → p.stack ≡ header ∷ [] → Keeps (Same p) (overwrite_stack d opts 1 p)
  unfolding overwrite_stack
  overwrite_stack-Same p h =
      Keeps-after (Same p) (pop_all d opts _ p.message) _ λ msg. (rw h refl, refl, refl, refl)

  try_current-Placed :
      (tag : ℕ) (value : Bytes) (position : ℕ) (p : Parser)
      → spec_has_field tag d.header_spec ≡ true
      → Keeps
          (Taken tag position p)
          (try_current d opts tag value position (record p { stack = header ∷ [] }))
  unfolding try_current try_stack nth set_nth
  try_current-Placed tag value position p known =
      let p' : Parser = record p { stack = header ∷ [] } in
      rw (spec_has_field-nonempty tag d.header_spec known) (
        Keeps-bind (PlacedTried tag position p') (Taken tag position p)
          (try_set_field d opts header 0 tag value position p') _
          (try_set_field-Placed tag value position p' known refl)
          λ t k.
            let q₀ : Parser = record t.parser { stack = header ∷ [] } in
            rw (k.0, k.1, k.2.0)
              (Keeps-bind (Same q₀) (Taken tag position p) (overwrite_stack d opts 1 q₀) _
                (overwrite_stack-Same q₀ refl)
                λ q s. (refl, (s.0, s.1 ∙ k.2.1, s.2 ∙ k.2.2, s.3 ∙ k.2.3))))

  dispatch_field-Placed :
      (tag : ℕ) (value : Bytes) (position : ℕ) (p : Parser)
      → spec_has_field tag d.header_spec ≡ true
      → p.stack ≡ header ∷ []
      → Keeps (Placed tag position p) (dispatch_field d opts tag value position p)
  unfolding dispatch_field phase unknown_field ◌>>=◌
  dispatch_field-Placed tag value position p known h =
      subst
        (λ s.
          Keeps (Placed tag position p)
            (dispatch_field d opts tag value position (record p { stack = s })))
        (sym h)
        (Keeps-bind (Taken tag position p) (Placed tag position p)
          (try_current d opts tag value position (record p { stack = header ∷ [] })) _
          (try_current-Placed tag value position p known) rest)
    where
      rest :
          (a : Bool × Parser)
          → Taken tag position p a
          → Keeps (Placed tag position p) (
              phase d opts in_header (enter_body d opts tag value position) a >>= λ b.
              phase d opts in_body (enter_trailer d opts tag value position) b >>= λ c.
              unknown_field d opts tag value position c)
      rest (true, q) k = k.1
      rest (false, q) k = absurd (ground arith)

  module _ (text : Bytes) where
    -- Where the first field was a BeginString.
    abbrev First : Bytes × Parser → Type 0
    First (rest, p) =
        Left text rest × (p.stack ≡ header ∷ []) × (p.tag ≡ Tags.begin_string) × (p.tag_count ≡ 1)

    -- The test of the tag of the first or of the second field.
    check_tag-passes :
        (tag n expected : ℕ) (p : Parser)
        → p.tag_count ≡ n
        → (misplaced d opts n tag ≡ false → tag ≡ expected)
        → Keeps
            (λ q.
              (tag ≡ expected)
              × (q.stack ≡ p.stack)
              × (q.tag ≡ tag)
              × (q.tag_count ≡ n + 1)
              × (q.data_length ≡ p.data_length))
            (check_tag d opts tag p)
    unfolding check_tag
    check_tag-passes tag n expected p count right = elim (Bool-cases (misplaced d opts n tag)) [
      | inl wrong ↦ rw (count, wrong, strict) tt
      | inr fits ↦ rw (count, fits) (right fits, refl, refl, refl, refl)
    ]

    first_tag : (tag : ℕ) → misplaced d opts 0 tag ≡ false → tag ≡ Tags.begin_string
    unfolding misplaced
    first_tag tag h = ground (arith, h)

    second_tag : (tag : ℕ) → misplaced d opts 1 tag ≡ false → tag ≡ Tags.body_length
    unfolding misplaced
    second_tag tag h = ground (arith, h)

    -- A field that the header has, which ends at a separator.
    plain_field-Placed :
        (R : Bytes × Parser → Type 0) (rest name after : Bytes) (tag : ℕ) (p : Parser)
        → spec_has_field tag d.header_spec ≡ true
        → p.stack ≡ header ∷ []
        → ((value next : Bytes)
            → split_at internal_soh after ≡ some (value, next)
            → (q : Parser) → Placed tag (length text - length next) p q
            → R (next, q))
        → Keeps R (plain_field d opts (length text) tag after p)
    unfolding plain_field
    plain_field-Placed R rest name after tag p known h k =
        elim (Option-cases (split_at internal_soh after)) [
          | inl e ↦ rw (plain_field, e, strict) tt
          | inr ((value, next), e) ↦
              rw (plain_field, e)
                (Keeps-bind (Placed tag (length text - length next) p) R
                  (dispatch_field d opts tag value (length text - length next)
                    (record p { data_length = none }))
                  _
                  (dispatch_field-Placed tag value (length text - length next)
                    (record p { data_length = none }) known h)
                  (λ q placed. k value next e q placed))
        ]

    module _ (known_begin : spec_has_field Tags.begin_string d.header_spec ≡ true)
        (known_length : spec_has_field Tags.body_length d.header_spec ≡ true)
        (no_data : is_data (get_field_type d Tags.body_length) ≡ false) where
      field-First :
          (rest name after : Bytes) (tag : ℕ) (p : Parser)
          → Left text rest
          → split_at assignment rest ≡ some (name, after)
          → p.stack ≡ header ∷ []
          → p.tag_count ≡ 0
          → p.data_length ≡ none
          → Keeps First (field d opts (length text) tag after p)
      unfolding field
      field-First rest name after tag p left s h zeroth plain =
          Keeps-bind _ First (check_tag d opts tag p) _
            (check_tag-passes tag 0 Tags.begin_string p zeroth (first_tag tag))
            λ q k. rw (k.4 ∙ plain) (
              plain_field-Placed First rest name after tag q
                (subst (λ t. spec_has_field t d.header_spec ≡ true) (sym k.0) known_begin) (k.1 ∙ h)
                λ value next e r placed. (
                  separator-Left d opts text rest name after value next left s e,
                  placed.0,
                  placed.2 ∙ k.2 ∙ k.0,
                  placed.3 ∙ k.3,
                ))

      round-First :
          (rest : Bytes) (p : Parser)
          → Left text rest
          → p.stack ≡ header ∷ []
          → p.tag_count ≡ 0
          → p.data_length ≡ none
          → Keeps First (round d opts (length text) rest p)
      unfolding round skip_field
      round-First rest p left h zeroth plain = elim (Option-cases (split_at assignment rest)) [
        | inl e ↦ rw (round, e, strict) tt
        | inr ((name, after), e) ↦ elim (Option-cases (fast_parse_tag name)) [
          | inl f ↦ rw (round, e, f, strict) tt
          | inr (tag, f) ↦
              rw (round, e, f) (field-First rest name after tag p left e h zeroth plain)
        ]
      ]

      plain_field-Second :
          (rest name after : Bytes) (tag : ℕ) (q : Parser)
          → Left text rest
          → split_at assignment rest ≡ some (name, after)
          → fast_parse_tag name ≡ some tag
          → tag ≡ Tags.body_length
          → q.stack ≡ header ∷ []
          → Keeps (Inv d opts text) (plain_field d opts (length text) tag after q)
      plain_field-Second rest name after tag q left s is body h =
          plain_field-Placed (Inv d opts text) rest name after tag q
            (subst (λ t. spec_has_field t d.header_spec ≡ true) (sym body) known_length) h
            λ value next e r placed. (
              separator-Left d opts text rest name after value next left s e,
              subst (IsBehindBodyLength text) (sym (placed.1 ∙ ground (arith, body)))
                  (behind-next d opts text rest name after value next left s e (is ∙ ap some body)),
            )

      field-Second :
          (rest name after : Bytes) (tag : ℕ) (p : Parser)
          → Left text rest
          → split_at assignment rest ≡ some (name, after)
          → fast_parse_tag name ≡ some tag
          → p.stack ≡ header ∷ []
          → p.tag_count ≡ 1
          → Keeps (Inv d opts text) (field d opts (length text) tag after p)
      unfolding field
      field-Second rest name after tag p left s is h once =
          Keeps-bind _ (Inv d opts text) (check_tag d opts tag p) _
            (check_tag-passes tag 1 Tags.body_length p once (second_tag tag))
            λ q k.
              let go = plain_field-Second rest name after tag q left s is k.0 (k.1 ∙ h) in
              elim (Option-cases q.data_length) [
                | inl e ↦ rw e go
                | inr (m, e) ↦
                    rw (e, subst (λ t. is_data (get_field_type d t) ≡ false) (sym k.0) no_data) go
              ]

      round-Second :
          (rest : Bytes) (p : Parser)
          → Left text rest
          → p.stack ≡ header ∷ []
          → p.tag_count ≡ 1
          → Keeps (Inv d opts text) (round d opts (length text) rest p)
      unfolding round skip_field
      round-Second rest p left h once = elim (Option-cases (split_at assignment rest)) [
        | inl e ↦ rw (round, e, strict) tt
        | inr ((name, after), e) ↦ elim (Option-cases (fast_parse_tag name)) [
          | inl f ↦ rw (round, e, f, strict) tt
          | inr (tag, f) ↦ rw (round, e, f) (field-Second rest name after tag p left e f h once)
        ]
      ]

      -- At the end of the loop: a text that ended after no field or one, or the start is noted.
      abbrev pub Noted : Parser → Type 0
      Noted p = p.tag ≡ Tags.check_sum → IsBehindBodyLength text p.body_length_start

      parse_loop-Second :
          (fuel : ℕ) (rest : Bytes) (p : Parser)
          → First (rest, p)
          → Keeps Noted (parse_loop d opts fuel (length text) rest p)
      unfolding parse_loop
      parse_loop-Second fuel [] p f = λ last. absurd (ground (arith, f.2, last))
      parse_loop-Second zero (c ∷ rest) p f = tt
      parse_loop-Second (suc fuel) (c ∷ rest) p f =
          Keeps-bind (Inv d opts text) Noted (round d opts (length text) (c ∷ rest) p) _
            (round-Second (c ∷ rest) p f.0 f.1 f.3)
            λ a k.
              Keeps-weaken (Ends d opts text strict) Noted
                (parse_loop d opts fuel (length text) a.0 a.1) (λ q e last. e)
                (parse_loop-Ends d opts text strict fuel a.0 a.1 k.0 k.1)

      parse_loop-Noted :
          (fuel : ℕ) (rest : Bytes)
          → Left text rest
          → Keeps Noted (parse_loop d opts fuel (length text) rest (start d opts text))
      unfolding parse_loop
      parse_loop-Noted fuel [] left = λ last. absurd (ground (arith, last))
      parse_loop-Noted zero (c ∷ rest) left = tt
      parse_loop-Noted (suc fuel) (c ∷ rest) left =
          Keeps-bind First Noted (round d opts (length text) (c ∷ rest) (start d opts text)) _
            (round-First (c ∷ rest) (start d opts text) left refl refl refl)
            λ a k. parse_loop-Second fuel a.0 a.1 k

      pub read_fields-Noted : (p : Parser) → read_fields d opts text ≡ parsed p → Noted p
      unfolding read_fields overwrite_stack
      read_fields-Noted p e = subst (Keeps Noted) e (
          Keeps-bind Noted Noted
            (parse_loop d opts (length text) (length text) text (start d opts text)) _
            (parse_loop-Noted (length text) text ([], refl))
            λ q k. Keeps-after Noted (pop_all d opts _ q.message) _ λ msg. k)
