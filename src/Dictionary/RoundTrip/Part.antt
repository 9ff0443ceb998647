-- ===== src/Dictionary/RoundTrip/Part.antt =====
-- The loop of Dictionary::parse, src/Dictionary.cpp, within one part of a message.
use openfix.Prelude.{
  ℕ, suc, ◌-◌, ◌<◌, ◌≤◌, true, false, none, some, List, [], ◌∷◌, ◌==◌, ◌≡◌, refl, ◌∙◌, arith, Bytes,
  length, inl, inr, Bool-cases,
}
use openfix.Fields
use openfix.LinkedHashMap.{has}
use openfix.Message.{GroupSpec, group_spec, no_specs, sub_spec, FieldMap, Message}
use openfix.Message.Spec.{spec_has_field, spec_empty, build_field_lookup}
use openfix.Message.Serialize.{internal_soh}
use openfix.Dictionary.{Dictionary, get_field_type, is_length}
use openfix.Dictionary.State.{
  Part, header_part, body_part, trailer_part, root, info, part_of, change_part, map_of, change_map,
  Options, Parser, parsed, ◌>>=◌,
}
use openfix.Dictionary.Groups.{
  announce, note_body, try_set_field, overwrite_stack, nth, set_nth, pop_all, from_top,
}
use openfix.Dictionary.Parse.{
  try_current, try_stack, phase, unknown_field, dispatch_field, misplaced, parse_loop,
}
use openfix.Dictionary.RoundTrip.Fill.{append_field, New, News}
use openfix.Dictionary.RoundTrip.Wire.{Free, wire, at_field, parse_loop-field}

pub map_of-root : (part : Part) (msg : Message) → map_of (root part) msg ≡ part_of part msg
unfolding map_of
map_of-root part msg = refl

pub change_map-root :
    (f : FieldMap → FieldMap) (part : Part) (msg : Message)
    → change_map f (root part) msg ≡ change_part f part msg
unfolding change_map
change_map-root f header_part msg = refl
change_map-root f body_part msg = refl
change_map-root f trailer_part msg = refl

pub part_of-change_part :
    (f : FieldMap → FieldMap) (part : Part) (msg : Message)
    → part_of part (change_part f part msg) ≡ f (part_of part msg)
part_of-change_part f header_part msg = refl
part_of-change_part f body_part msg = refl
part_of-change_part f trailer_part msg = refl

change_part-const :
    (f : FieldMap → FieldMap) (part : Part) (msg : Message)
    → change_part (λ _. f (part_of part msg)) part msg ≡ change_part f part msg
change_part-const f header_part msg = refl
change_part-const f body_part msg = refl
change_part-const f trailer_part msg = refl

-- A parser that stands in one part.
abbrev pub within : Part → GroupSpec → Parser → Parser
within part spec p = record p { stack = info (some spec) (root part) ∷ [] }

-- The part gets a field.
abbrev pub put_field : Part → ℕ → Bytes → Parser → Parser
put_field part tag value p = record p {
  message = change_part (append_field tag value) part p.message;
}

pub spec_has_field-nonempty :
    (tag : ℕ) (spec : GroupSpec) → spec_has_field tag spec ≡ true → spec_empty spec ≡ false
unfolding spec_has_field spec_empty build_field_lookup has
spec_has_field-nonempty tag (group_spec [] no_specs ordered order) h = ground arith
spec_has_field-nonempty tag (group_spec (f ∷ fields) no_specs ordered order) h = refl
spec_has_field-nonempty tag (group_spec fields (sub_spec _ _ _) ordered order) h = refl

module _ (d : Dictionary) (opts : Options) where
  -- A field that a spec has, and that announces no data field.
  pub record Known (spec : GroupSpec) (tag : ℕ) : Type 0 where
    pub member : spec_has_field tag spec ≡ true
    pub no_length : is_length (get_field_type d tag) ≡ false

  pub try_set_field-New :
      (part : Part) (spec : GroupSpec) (j tag : ℕ) (value : Bytes) (position : ℕ) (p : Parser)
      → Known spec tag
      → New tag value (part_of part p.message)
      → try_set_field d opts (info (some spec) (root part)) j tag value position p
        ≡ parsed (record {
          index = some j;
          group = info (some spec) (root part);
          parser = note_body d opts tag position (put_field part tag value p);
        })
  unfolding try_set_field announce ◌>>=◌
  try_set_field-New part spec j tag value position p known new =
      rw
        (
          known.member,
          map_of-root part p.message,
          new,
          change_map-root (λ _. append_field tag value (part_of part p.message)) part p.message,
          change_part-const (append_field tag value) part p.message,
          announce,
          known.no_length,
        )
        refl

  try_current-New :
      (part : Part) (spec : GroupSpec) (tag : ℕ) (value : Bytes) (position : ℕ) (p : Parser)
      → Known spec tag
      → New tag value (part_of part p.message)
      → try_current d opts tag value position (within part spec p)
        ≡ parsed
            (true, within part spec (note_body d opts tag position (put_field part tag value p)))
  unfolding try_current try_stack nth set_nth overwrite_stack pop_all from_top ◌>>=◌
  try_current-New part spec tag value position p known new =
      let taken = try_set_field-New part spec 0 tag value position (within part spec p) known new in
      elim (Bool-cases (tag == Fields.body_length)) [
        | inl e ↦ rw (try_current, spec_has_field-nonempty tag spec known.member, taken, e) refl
        | inr e ↦ rw (try_current, spec_has_field-nonempty tag spec known.member, taken, e) refl
      ]

  -- A field of the part is put into it.
  pub dispatch_field-New :
      (part : Part) (spec : GroupSpec) (tag : ℕ) (value : Bytes) (position : ℕ) (p : Parser)
      → Known spec tag
      → New tag value (part_of part p.message)
      → dispatch_field d opts tag value position (within part spec p)
        ≡ parsed (within part spec (note_body d opts tag position (put_field part tag value p)))
  unfolding dispatch_field phase unknown_field ◌>>=◌
  dispatch_field-New part spec tag value position p known new =
      rw (dispatch_field, try_current-New part spec tag value position p known new) refl

  -- A field that is written within a part.
  pub record Written (spec : GroupSpec) (tag : ℕ) (value : Bytes) : Type 0 where
    pub known : Known spec tag
    pub small : tag < 2147483648
    pub free : Free internal_soh value

  -- What the fields are, behind the third of the message.
  abbrev pub Behind : GroupSpec → List (ℕ × Bytes) → Type 0
  Behind spec [] = Unit {0}
  Behind spec ((tag, value) ∷ fields) =
      Written spec tag value × ((tag == Fields.body_length) ≡ false) × Behind spec fields

  abbrev pub after : Part → List (ℕ × Bytes) → Parser → Parser
  after part [] p = p
  after part ((tag, value) ∷ fields) p =
      after part fields (put_field part tag value (at_field d opts tag p))

  -- One unit of fuel for each field.
  abbrev pub more : List (ℕ × Bytes) → ℕ → ℕ
  more [] fuel = fuel
  more (f ∷ fields) fuel = suc (more fields fuel)

  pub placed_late : (n tag : ℕ) → 3 ≤ n → misplaced d opts n tag ≡ false
  unfolding misplaced
  placed_late n tag h = ground arith

  -- The fields of a part are put into it.
  pub parse_loop-part :
      (part : Part) (spec : GroupSpec) (fields : List (ℕ × Bytes)) (fuel total : ℕ) (rest : Bytes)
      (p : Parser)
      → Behind spec fields
      → News fields (part_of part p.message)
      → 3 ≤ p.tag_count
      → p.data_length ≡ none
      → parse_loop d opts (more fields fuel) total (wire fields rest) (within part spec p)
        ≡ parse_loop d opts fuel total rest (within part spec (after part fields p))
  parse_loop-part part spec [] fuel total rest p behind news late plain = refl
  parse_loop-part part spec ((tag, value) ∷ fields) fuel total rest p behind news late plain =
      let position = total - length (wire fields rest) in
      let q = at_field d opts tag p in
      let next = put_field part tag value q in
      let step = dispatch_field-New part spec tag value position q behind.0.known news.0 in
      parse_loop-field d opts (more fields fuel) total tag value (wire fields rest)
        (within part spec p) (within part spec next) behind.0.small behind.0.free
        (placed_late p.tag_count tag late) plain (rw behind.1 at step)
      ∙ parse_loop-part part spec fields fuel total rest next behind.2
          (rw (part_of-change_part (append_field tag value) part p.message) news.1) (omega arith)
          refl
