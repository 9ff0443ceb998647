-- ===== src/Dictionary/Ends.antt =====
-- That the steps of Dictionary::parse end, as the code of src/Dictionary.cpp does, and that a round
-- of its loop takes up some of the text.
pub mod Loop
use openfix.Prelude.{
  ℕ, zero, suc, ◌+◌, ◌*◌, ◌-◌, ◌%◌, ◌<◌, ◌≤◌, Bool, true, false, not, ◌&&◌, ◌||◌, Option, none,
  some, List, [], ◌∷◌, ◌==◌, ltb, if◌then◌else◌, Bytes, length, length-drop, ◌≡◌, refl, arith, inl,
  inr, Option-cases, Bool-cases,
}
use openfix.Message.{GroupSpec, Message, set_field_view, has_field}
use openfix.Message.Spec.{m_fields, spec_empty, spec_has_field, find_group}
use openfix.Message.Parsing.{get_group_count, add_group}
use openfix.Dictionary.{Dictionary, get_field_type, is_length, fast_parse_tag}
use openfix.Dictionary.State.{
  Pointer, GroupInfo, info, Options, Parser, Parsed, parsed, parsing_error, field_not_found,
  undefined, stuck, ◌>>=◌, throw_unless, map_of, change_map,
}
use openfix.Dictionary.Groups.{
  Tried, from_top, nth, required_present, adopt, validate_group, pop_all, overwrite_stack, announce,
  set_field_at, handle_repeating_tag, next_instance, announce_quietly, start_group, try_set_field,
}

-- A result, if there is one, has a property; `stuck` is excluded.
abbrev pub Gives : {A : Type 0} → (A → Type 0) → Parsed A → Type 0
Gives Q (parsed a) = Q a
Gives Q stuck = ⊥
Gives Q _ = Unit {0}

abbrev pub Ends : {A : Type 0} → Parsed A → Type 0
Ends = Gives (λ _. Unit {0})

pub Gives-bind :
    {A B : Type 0} (Q : A → Type 0) (R : B → Type 0) (m : Parsed A) (f : A → Parsed B)
    → Gives Q m
    → ((a : A) → Q a → Gives R (f a))
    → Gives R (m >>= f)
unfolding ◌>>=◌
Gives-bind Q R (parsed a) f h k = k a h
Gives-bind Q R parsing_error f h k = tt
Gives-bind Q R field_not_found f h k = tt
Gives-bind Q R undefined f h k = tt
Gives-bind Q R stuck f h k = absurd h

pub Ends-bind :
    {A B : Type 0} (m : Parsed A) (f : A → Parsed B)
    → Ends m
    → ((a : A) → Ends (f a))
    → Ends (m >>= f)
Ends-bind m f h k = Gives-bind (λ _. Unit {0}) (λ _. Unit {0}) m f h (λ a _. k a)

pub Ends-parsed : {A : Type 0} (a : A) → Ends (parsed a)
Ends-parsed a = tt

pub Ends-undefined : (A : Type 0) → Ends {A = A} undefined
Ends-undefined A = tt

pub Ends-if : {A : Type 0} (b : Bool) (m n : Parsed A) → Ends m → Ends n → Ends (if b then m else n)
Ends-if true m n h k = h
Ends-if false m n h k = k

pub Ends-throw_unless : {A : Type 0} (b : Bool) (a : A) → Ends (throw_unless b a)
Ends-throw_unless true a = tt
Ends-throw_unless false a = tt

pub ruleset ends_rules = (Ends-bind, Ends-parsed, Ends-undefined, Ends-throw_unless, Ends-if)

module _ (d : Dictionary) (opts : Options) where
  pub validate_group-Ends :
      (p : Pointer) (spec : Option GroupSpec) (msg : Message)
      → Ends (validate_group d opts p spec msg)
  unfolding validate_group
  validate_group-Ends p none msg = tt
  validate_group-Ends p (some spec) msg = search (ends_rules) depth 9

  pop_all-Ends : (popped : List GroupInfo) (msg : Message) → Ends (pop_all d opts popped msg)
  unfolding pop_all
  pop_all-Ends [] msg = tt
  pop_all-Ends (g ∷ popped) msg =
      search (ends_rules, validate_group-Ends, pop_all-Ends popped) depth 9

  pub overwrite_stack-Ends : (keep : ℕ) (p : Parser) → Ends (overwrite_stack d opts keep p)
  unfolding overwrite_stack
  overwrite_stack-Ends keep p = search (ends_rules, pop_all-Ends) depth 9

  announce-Ends : (tag : ℕ) (value : Bytes) (p : Parser) → Ends (announce d opts tag value p)
  unfolding announce
  announce-Ends tag value p = ground arith

  pub set_field_at-Ends :
      (p : Pointer) (tag : ℕ) (value : Bytes) (position : ℕ) (q : Parser)
      → Ends (set_field_at d opts p tag value position q)
  unfolding set_field_at
  set_field_at-Ends p tag value position q = search (ends_rules, announce-Ends) depth 9

  handle_repeating_tag-Ends :
      (g : GroupInfo) (j tag : ℕ) (value : Bytes) (p : Parser)
      → Ends (handle_repeating_tag d opts g j tag value p)
  unfolding handle_repeating_tag
  handle_repeating_tag-Ends g zero tag value p = search (ends_rules) depth 9
  handle_repeating_tag-Ends g (suc j) tag value p = elim (Option-cases (nth j p.stack)) [
    | inl e ↦ rw (handle_repeating_tag, e) (search (ends_rules, validate_group-Ends) depth 9)
    | inr (below, e) ↦
        rw (handle_repeating_tag, e) (search (ends_rules, validate_group-Ends) depth 9)
  ]

  start_group-Ends :
      (g : GroupInfo) (sub : GroupSpec) (j tag : ℕ) (value : Bytes) (position : ℕ) (p : Parser)
      → Ends (start_group d opts g sub j tag value position p)
  unfolding start_group
  start_group-Ends g sub j tag value position p = elim (Option-cases (fast_parse_tag value)) [
    | inl e ↦ rw (start_group, e) (search (ends_rules, handle_repeating_tag-Ends) depth 9)
    | inr (n, e) ↦
        rw (start_group, e)
          (search (ends_rules, handle_repeating_tag-Ends, set_field_at-Ends) depth 9)
  ]

  pub try_set_field-Ends :
      (g : GroupInfo) (j tag : ℕ) (value : Bytes) (position : ℕ) (p : Parser)
      → Ends (try_set_field d opts g j tag value position p)
  unfolding try_set_field
  try_set_field-Ends g j tag value position p = elim (Option-cases g.spec) [
    | inl e ↦ rw (try_set_field, e) tt
    | inr (spec, e) ↦ elim (Option-cases (find_group tag spec)) [
      | inl f ↦
          rw (try_set_field, e, f)
            (search (ends_rules, handle_repeating_tag-Ends, announce-Ends) depth 9)
      | inr (sub, f) ↦
          rw (try_set_field, e, f)
            (search (ends_rules, handle_repeating_tag-Ends, announce-Ends, start_group-Ends) depth
              9)
    ]
  ]
