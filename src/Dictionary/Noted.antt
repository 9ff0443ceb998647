-- ===== src/Dictionary/Noted.antt =====
-- Where Dictionary::parse of src/Dictionary.cpp notes that the body of a message starts: what putting
-- a field into its place does to `bodyLengthStart`.
pub mod Loop
pub mod First
use openfix.Prelude.{
  ℕ, zero, suc, ◌+◌, Bool, true, false, not, ◌&&◌, ◌||◌, Option, none, some, List, [], ◌∷◌, ◌==◌,
  ltb, if◌then◌else◌, Bytes, length, ◌≡◌, ◌⊎◌, refl, arith, inl, inr, Option-cases, Bool-cases,
  ==_iff,
}
use openfix.Fields as Tags
use openfix.Message.{GroupSpec, Message, get_field}
use openfix.Message.Spec.{spec_empty, spec_has_field, find_group}
use openfix.Message.Parsing.{get_group_count, set_field_view_or_detect_dup}
use openfix.Dictionary.{Dictionary, get_field_type, is_length, fast_parse_tag}
use openfix.Dictionary.State.{
  Pointer, GroupInfo, info, root, body_part, trailer_part, MessageState, in_header, in_body,
  Options, Parser, Parsed, parsed, parsing_error, field_not_found, undefined, stuck, ◌>>=◌,
  throw_unless, map_of,
}
use openfix.Dictionary.Groups.{
  Tried, nth, pop_all, overwrite_stack, announce, note_body, set_field_at, validate_group,
  handle_repeating_tag, start_group, try_set_field,
}
use openfix.Dictionary.Parse.{
  top, try_stack, try_current, body_spec, enter_body, enter_trailer, phase, unknown_field,
  dispatch_field,
}

-- A result, if there is one, has a property.
abbrev pub Keeps : {A : Type 0} → (A → Type 0) → Parsed A → Type 0
Keeps Q (parsed a) = Q a
Keeps Q _ = Unit {0}

pub Keeps-bind :
    {A B : Type 0} (Q : A → Type 0) (R : B → Type 0) (m : Parsed A) (f : A → Parsed B)
    → Keeps Q m
    → ((a : A) → Q a → Keeps R (f a))
    → Keeps R (m >>= f)
unfolding ◌>>=◌
Keeps-bind Q R (parsed a) f h k = k a h
Keeps-bind Q R parsing_error f h k = tt
Keeps-bind Q R field_not_found f h k = tt
Keeps-bind Q R undefined f h k = tt
Keeps-bind Q R stuck f h k = tt

-- What comes before does not matter.
pub Keeps-after :
    {A B : Type 0} (R : B → Type 0) (m : Parsed A) (f : A → Parsed B)
    → ((a : A) → Keeps R (f a))
    → Keeps R (m >>= f)
unfolding ◌>>=◌
Keeps-after R (parsed a) f k = k a
Keeps-after R parsing_error f k = tt
Keeps-after R field_not_found f k = tt
Keeps-after R undefined f k = tt
Keeps-after R stuck f k = tt

pub Keeps-throw_unless :
    {A : Type 0} (Q : A → Type 0) (b : Bool) (a : A) → Q a → Keeps Q (throw_unless b a)
Keeps-throw_unless Q true a h = h
Keeps-throw_unless Q false a h = tt

pub Keeps-if :
    {A : Type 0} (Q : A → Type 0) (b : Bool) (m n : Parsed A)
    → Keeps Q m
    → Keeps Q n
    → Keeps Q (if b then m else n)
Keeps-if Q true m n h k = h
Keeps-if Q false m n h k = k

pub Keeps-parsed : {A : Type 0} (Q : A → Type 0) (a : A) → Q a → Keeps Q (parsed a)
Keeps-parsed Q a h = h

pub Keeps-undefined : {A : Type 0} (Q : A → Type 0) → Keeps Q undefined
Keeps-undefined Q = tt

pub ruleset keeps_rules = (Keeps-after, Keeps-parsed, Keeps-undefined, Keeps-throw_unless, Keeps-if)

module _ (d : Dictionary) (opts : Options) (start tag position : ℕ) where
  -- The start is the old one, or it is behind this field, which is a BodyLength.
  abbrev pub Notes : ℕ → Type 0
  Notes n = (n ≡ start) ⊎ ((tag ≡ Tags.body_length) × (n ≡ position))

  abbrev pub NotesParser : Parser → Type 0
  NotesParser p = Notes p.body_length_start

  abbrev NotesTried : Tried → Type 0
  NotesTried t = NotesParser t.parser

  abbrev NotesTaken : Bool × Parser → Type 0
  NotesTaken b = NotesParser b.1

  overwrite_stack-NotesParser :
      (keep : ℕ) (p : Parser) → NotesParser p → Keeps NotesParser (overwrite_stack d opts keep p)
  unfolding overwrite_stack
  overwrite_stack-NotesParser keep p h =
      Keeps-after NotesParser (pop_all d opts _ p.message) _ λ msg. h

  announce-NotesParser :
      (value : Bytes) (p : Parser) → NotesParser p → Keeps NotesParser (announce d opts tag value p)
  unfolding announce
  announce-NotesParser value p h = elim (Option-cases (fast_parse_tag value)) [
    | inl e ↦ rw e (search (keeps_rules) depth 9)
    | inr (n, e) ↦ rw e (search (keeps_rules) depth 9)
  ]

  note_body-NotesParser :
      (p : Parser) → NotesParser p → NotesParser (note_body d opts tag position p)
  note_body-NotesParser p h = elim (Bool-cases (tag == Tags.body_length)) [
    | inl is ↦ rw is (inr (ground (arith, is), refl))
    | inr other ↦ rw other h
  ]

  set_field_at-NotesParser :
      (at : Pointer) (value : Bytes) (p : Parser)
      → NotesParser p
      → Keeps NotesParser (set_field_at d opts at tag value position p)
  unfolding set_field_at
  set_field_at-NotesParser at value p h =
      Keeps-bind NotesParser NotesParser (announce d opts tag value p) _
        (announce-NotesParser value p h) λ q k. note_body-NotesParser _ k

  set_field_at-Tried :
      (at : Pointer) (value : Bytes) (p : Parser) (index : Option ℕ) (g : GroupInfo)
      → NotesParser p
      → Keeps NotesTried (
          set_field_at d opts at tag value position p >>= λ q.
          parsed (record { index = index; group = g; parser = q }))
  set_field_at-Tried at value p index g h =
      Keeps-bind NotesParser NotesTried (set_field_at d opts at tag value position p) _
        (set_field_at-NotesParser at value p h) λ q k. k

  announce-Tried :
      (value : Bytes) (p : Parser) (index : Option ℕ) (g : GroupInfo)
      → NotesParser p
      → Keeps NotesTried (
          announce d opts tag value p >>= λ q.
          parsed (record { index = index; group = g; parser = note_body d opts tag position q }))
  announce-Tried value p index g h =
      Keeps-bind NotesParser NotesTried (announce d opts tag value p) _
        (announce-NotesParser value p h) λ q k. note_body-NotesParser q k

  handle_repeating_tag-NotesParser :
      (g : GroupInfo) (j : ℕ) (value : Bytes) (p : Parser)
      → NotesParser p
      → Keeps NotesTried (handle_repeating_tag d opts g j tag value p)
  unfolding handle_repeating_tag
  handle_repeating_tag-NotesParser g zero value p h = search (keeps_rules) depth 9
  handle_repeating_tag-NotesParser g (suc j) value p h = elim (Option-cases (nth j p.stack)) [
    | inl e ↦ rw (handle_repeating_tag, e) (search (keeps_rules) depth 9)
    | inr (below, e) ↦ rw (handle_repeating_tag, e) (search (keeps_rules) depth 9)
  ]

  start_group-NotesParser :
      (g : GroupInfo) (sub : GroupSpec) (j : ℕ) (value : Bytes) (p : Parser)
      → NotesParser p
      → Keeps NotesTried (start_group d opts g sub j tag value position p)
  unfolding start_group
  start_group-NotesParser g sub j value p h = elim (Option-cases (fast_parse_tag value)) [
    | inl e ↦ rw (start_group, e) (search (keeps_rules, handle_repeating_tag-NotesParser) depth 9)
    | inr (n, e) ↦
        rw (start_group, e)
          (search (keeps_rules, handle_repeating_tag-NotesParser, set_field_at-Tried) depth 9)
  ]

  try_set_field-NotesParser :
      (g : GroupInfo) (j : ℕ) (value : Bytes) (p : Parser)
      → NotesParser p
      → Keeps NotesTried (try_set_field d opts g j tag value position p)
  unfolding try_set_field
  try_set_field-NotesParser g j value p h = elim (Option-cases g.spec) [
    | inl e ↦ rw (try_set_field, e) tt
    | inr (spec, e) ↦ elim (Option-cases (find_group tag spec)) [
      | inl f ↦
          rw (try_set_field, e, f)
            (search (keeps_rules, handle_repeating_tag-NotesParser, announce-Tried) depth 9)
      | inr (sub, f) ↦
          rw (try_set_field, e, f)
            (search
              (
                keeps_rules, handle_repeating_tag-NotesParser, announce-Tried,
                start_group-NotesParser,
              )
              depth 9)
    ]
  ]

  -- An entry of the stack that may take the field, and what follows.
  after_try-NotesParser :
      (m : Parsed Tried) (f : Tried → Parsed (Bool × Parser))
      → Keeps NotesTried m
      → ((t : Tried) → NotesTried t → Keeps NotesTaken (f t))
      → Keeps NotesTaken (m >>= f)
  after_try-NotesParser m f h k = Keeps-bind NotesTried NotesTaken m f h k

  overwrite_stack-NotesTaken :
      (keep : ℕ) (p : Parser)
      → NotesParser p
      → Keeps NotesTaken (overwrite_stack d opts keep p >>= λ q. parsed (true, q))
  overwrite_stack-NotesTaken keep p h =
      Keeps-bind NotesParser NotesTaken (overwrite_stack d opts keep p) _
        (overwrite_stack-NotesParser keep p h) λ q k. k

  try_stack-NotesParser :
      (n : ℕ) (value : Bytes) (p : Parser)
      → NotesParser p
      → Keeps NotesTaken (try_stack d opts n tag value position p)
  unfolding try_stack
  try_stack-NotesParser zero value p h = h
  try_stack-NotesParser (suc j) value p h = elim (Option-cases (nth j p.stack)) [
    | inl e ↦ rw (try_stack, e) tt
    | inr (g, e) ↦
        rw (try_stack, e)
          (after_try-NotesParser _ _ (try_set_field-NotesParser g j value p h) (λ t k.
            elim (Option-cases t.index) [
              | inl f ↦ rw (try_stack, f) (try_stack-NotesParser j value _ k)
              | inr (i, f) ↦ rw (try_stack, f) (overwrite_stack-NotesTaken (suc i) _ k)
            ]))
  ]

  try_current-NotesParser :
      (value : Bytes) (p : Parser)
      → NotesParser p
      → Keeps NotesTaken (try_current d opts tag value position p)
  unfolding try_current
  try_current-NotesParser value p h = elim (Option-cases (top p.stack)) [
    | inl e ↦ rw (try_current, e) tt
    | inr (g, e) ↦ elim (Option-cases g.spec) [
      | inl f ↦ rw (try_current, e, f) tt
      | inr (spec, f) ↦
          rw (try_current, e, f)
            (Keeps-if NotesTaken (spec_empty spec) (parsed (false, p))
              (try_stack d opts (length p.stack) tag value position p) h
              (try_stack-NotesParser (length p.stack) value p h))
    ]
  ]

  enter_body-NotesParser :
      (value : Bytes) (p : Parser)
      → NotesParser p
      → Keeps NotesTaken (enter_body d opts tag value position p)
  unfolding enter_body
  enter_body-NotesParser value p h =
      Keeps-bind NotesParser NotesTaken (overwrite_stack d opts 0 p) _
        (overwrite_stack-NotesParser 0 p h)
        λ q k. Keeps-after NotesTaken (body_spec d opts q.message) _ λ spec.
          after_try-NotesParser _ _
            (try_set_field-NotesParser (info spec (root body_part)) 0 value
              (record q { stack = info spec (root body_part) ∷ []; msg_state = in_body }) k)
            λ t l. elim (Option-cases t.index) [ inl e ↦ rw e l | inr (i, e) ↦ rw e l ]

  enter_trailer-NotesParser :
      (value : Bytes) (p : Parser)
      → NotesParser p
      → Keeps NotesTaken (enter_trailer d opts tag value position p)
  unfolding enter_trailer
  enter_trailer-NotesParser value p h =
      after_try-NotesParser _ _
        (try_set_field-NotesParser (info (some d.trailer_spec) (root trailer_part)) 0 value p h)
        λ t k. elim (Option-cases t.index) [
          | inl e ↦ rw e k
          | inr (i, e) ↦ elim (Option-cases (nth 0 t.parser.stack)) [
            | inl f ↦ rw (e, f) tt
            | inr (g, f) ↦
                rw (e, f)
                  (Keeps-after NotesTaken (validate_group d opts g.map_at g.spec t.parser.message) _
                    λ msg. overwrite_stack-NotesTaken (suc i) _ k)
          ]
        ]

  phase-NotesParser :
      (state : MessageState) (f : Parser → Parsed (Bool × Parser)) (a : Bool × Parser)
      → NotesTaken a
      → ((p : Parser) → NotesParser p → Keeps NotesTaken (f p))
      → Keeps NotesTaken (phase d opts state f a)
  unfolding phase
  phase-NotesParser state f (true, p) h k = h
  phase-NotesParser state f (false, p) h k =
      Keeps-if NotesTaken _ (f p) (parsed (false, p)) (k p h) h

  unknown_field-NotesParser :
      (value : Bytes) (a : Bool × Parser)
      → NotesTaken a
      → Keeps NotesParser (unknown_field d opts tag value position a)
  unfolding unknown_field
  unknown_field-NotesParser value (true, p) h = h
  unknown_field-NotesParser value (false, p) h = elim (Option-cases (top p.stack)) [
    | inl e ↦ rw (unknown_field, e) tt
    | inr (g, e) ↦ rw (unknown_field, e) (set_field_at-NotesParser _ value p h)
  ]

  pub dispatch_field-NotesParser :
      (value : Bytes) (p : Parser)
      → NotesParser p
      → Keeps NotesParser (dispatch_field d opts tag value position p)
  unfolding dispatch_field
  dispatch_field-NotesParser value p h =
      Keeps-bind NotesTaken NotesParser (try_current d opts tag value position p) _
        (try_current-NotesParser value p h)
        λ a k.
          Keeps-bind NotesTaken NotesParser
            (phase d opts in_header (enter_body d opts tag value position) a) _
            (phase-NotesParser in_header _ a k (enter_body-NotesParser value))
            λ b l.
              Keeps-bind NotesTaken NotesParser
                (phase d opts in_body (enter_trailer d opts tag value position) b) _
                (phase-NotesParser in_body _ b l (enter_trailer-NotesParser value))
                λ c m. unknown_field-NotesParser value c m
