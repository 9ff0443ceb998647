-- ===== src/Dictionary/Groups.antt =====
-- The lambdas of Dictionary::parse, src/Dictionary.cpp, that put a field into its place: group
-- validation, the group stack, repeating groups and the transitions between the message parts.
use openfix.Prelude.{
  ℕ, zero, suc, ◌+◌, Bool, true, false, not, ◌&&◌, ◌||◌, Option, none, some, List, [], ◌∷◌, ◌++◌,
  ◌==◌, ltb, if◌then◌else◌, Bytes, take, drop,
}
use openfix.Fields
use openfix.Message.{GroupSpec, FieldMap, Message, has_field, m_ordered, set_spec, set_field_view}
use openfix.Message.Spec.{m_fields, spec_has_field, find_group}
use openfix.Message.Parsing.{set_field_view_or_detect_dup, get_group_count, add_group, sort_fields}
use openfix.Dictionary.{Dictionary, get_field_type, is_length, fast_parse_tag}
use openfix.Dictionary.State.{
  Pointer, GroupInfo, Options, Parser, Parsed, parsed, undefined, ◌>>=◌, throw_unless, map_of,
  change_map,
}

-- `groupStackBuf[j]`, and an assignment to it. The source has eight entries and does not check j.
unfoldable pub nth : ℕ → List GroupInfo → Option GroupInfo
nth j [] = none
nth zero (g ∷ stack) = some g
nth (suc j) (g ∷ stack) = nth j stack

unfoldable pub set_nth : ℕ → GroupInfo → List GroupInfo → List GroupInfo
set_nth j g [] = []
set_nth zero g (old ∷ stack) = g ∷ stack
set_nth (suc j) g (old ∷ stack) = old ∷ set_nth j g stack

-- The entries that are popped, from the top.
unfoldable pub from_top : List GroupInfo → List GroupInfo
from_top [] = []
from_top (g ∷ stack) = from_top stack ++ g ∷ []

unfoldable pub required_present : List (ℕ × Bool) → FieldMap → Bool
required_present [] m = true
required_present ((tag, required) ∷ fields) m =
    let rest = required_present fields m in
    if required && not (has_field tag m) then false else rest

unfoldable pub adopt : Bool → GroupSpec → FieldMap → FieldMap
unfolding sort_fields
adopt reorder spec m =
    let m' = set_spec (some spec) m in if reorder && m_ordered spec then sort_fields m' else m'

-- What trySetField gives back: the index, where it is not -1, and its group by reference.
pub record Tried : Type 0 where
  pub index : Option ℕ
  pub group : GroupInfo
  pub parser : Parser

module _ (d : Dictionary) (opts : Options) where
  -- validateGroup
  unfoldable pub validate_group : Pointer → Option GroupSpec → Message → Parsed Message
  unfolding adopt required_present
  validate_group p none msg = undefined
  validate_group p (some spec) msg =
      let msg' = change_map (adopt opts.reorder_tags spec) p msg in
      if opts.validate_required && not (required_present (m_fields spec) (map_of p msg'))
      then throw_unless opts.relaxed msg'
      else parsed msg'

  -- The body of overwriteStack, for the entries that it pops.
  unfoldable pub pop_all : List GroupInfo → Message → Parsed Message
  unfolding validate_group
  pop_all [] msg = parsed msg
  pop_all (g ∷ popped) msg = do
    _ ←
        if ltb 0 g.group_tag && ltb g.group_count g.group_max_count
        then throw_unless opts.relaxed msg
        else parsed msg
    msg' ← validate_group g.map_at g.spec msg
    pop_all popped msg'

  -- overwriteStack(keep - 1)
  unfoldable pub overwrite_stack : ℕ → Parser → Parsed Parser
  unfolding pop_all from_top
  overwrite_stack keep p = do
    msg ← pop_all (from_top (drop keep p.stack)) p.message
    parsed (record p { message = msg; stack = take keep p.stack })

  -- The length that a field announces for the data field behind it.
  unfoldable pub announce : ℕ → Bytes → Parser → Parsed Parser
  unfolding get_field_type fast_parse_tag
  announce tag value p =
      if is_length (get_field_type d tag)
      then elim (fast_parse_tag value) [
        | none ↦ throw_unless opts.relaxed p
        | some n ↦ parsed (record p { data_length = some n })
      ]
      else parsed p

  -- `position` is the offset behind the field, its separator included.
  abbrev pub note_body : ℕ → ℕ → Parser → Parser
  note_body tag position p =
      if tag == Fields.body_length then record p { body_length_start = position } else p

  -- setField
  unfoldable pub set_field_at : Pointer → ℕ → Bytes → ℕ → Parser → Parsed Parser
  unfolding announce set_field_view
  set_field_at at_map tag value position p = do
    q ← announce tag value p
    parsed (
        note_body tag position
          (record q { message = change_map (set_field_view tag value false) at_map q.message }))

  -- The new instance of a group, which handleRepeatingTag adds to the map of the entry below.
  unfoldable pub next_instance : GroupInfo → GroupInfo → ℕ → Bytes → Message → Pointer × Message
  unfolding add_group get_group_count set_field_view_or_detect_dup
  next_instance below g tag value msg =
      let count = get_group_count g.group_tag (map_of below.map_at msg) in
      let new : Pointer = record {
        part = below.map_at.part;
        path = below.map_at.path ++ (g.group_tag, count) ∷ [];
      } in
      let added = change_map (add_group g.group_tag) below.map_at msg in
      (new, change_map (λ m. (set_field_view_or_detect_dup tag value m).1) new added)

  unfoldable pub announce_quietly : ℕ → Bytes → Option ℕ → Option ℕ
  unfolding get_field_type fast_parse_tag
  announce_quietly tag value old =
      if is_length (get_field_type d tag)
      then elim (fast_parse_tag value) [ none ↦ old | some n ↦ some n ]
      else old

  -- handleRepeatingTag
  unfoldable pub handle_repeating_tag : GroupInfo → ℕ → ℕ → Bytes → Parser → Parsed Tried
  unfolding nth validate_group next_instance announce_quietly
  handle_repeating_tag g zero tag value p =
      if ltb 0 g.group_tag
      then undefined
      else throw_unless opts.relaxed (record { index = none; group = g; parser = p })
  handle_repeating_tag g (suc j) tag value p =
      if not (ltb 0 g.group_tag) || (g.group_count == g.group_max_count)
      then throw_unless opts.relaxed (record { index = none; group = g; parser = p })
      else do
        msg ← validate_group g.map_at g.spec p.message
        below ← elim (nth j p.stack) [ none ↦ undefined | some below ↦ parsed below ]
        let (new, msg') = next_instance below g tag value msg
        parsed (record {
          index = some (suc j);
          group = record g { map_at = new; group_count = g.group_count + 1 };
          parser = record p {
            message = msg';
            data_length = announce_quietly tag value p.data_length;
          };
        })

  -- The start of a repeating group, for the spec that findGroup gave.
  unfoldable pub start_group : GroupInfo → GroupSpec → ℕ → ℕ → Bytes → ℕ → Parser → Parsed Tried
  unfolding handle_repeating_tag set_field_at
  start_group g sub j tag value position p =
      if ltb 0 (get_group_count tag (map_of g.map_at p.message))
      then handle_repeating_tag g j tag value p
      else elim (fast_parse_tag value) [
        | none ↦ throw_unless opts.relaxed (record { index = none; group = g; parser = p })
        | some n ↦ do
          let entry : GroupInfo = record {
            spec = some sub;
            map_at = record { part = g.map_at.part; path = g.map_at.path ++ (tag, 0) ∷ [] };
            group_tag = tag;
            group_count = 1;
            group_max_count = n;
          }
          q ← set_field_at g.map_at tag value position (record p {
            message = change_map (add_group tag) g.map_at p.message;
            stack = p.stack ++ entry ∷ [];
          })
          parsed (record { index = some (suc j); group = g; parser = q })
      ]

  -- trySetField
  unfoldable pub try_set_field : GroupInfo → ℕ → ℕ → Bytes → ℕ → Parser → Parsed Tried
  unfolding start_group
  try_set_field g j tag value position p = elim g.spec [
    | none ↦ undefined
    | some spec ↦
        if spec_has_field tag spec
        then (let (seen, m) = set_field_view_or_detect_dup tag value (map_of g.map_at p.message) in
            if seen then handle_repeating_tag g j tag value p else do
              q ← announce tag value (record p { message = change_map (λ _. m) g.map_at p.message })
              parsed (record { index = some j; group = g; parser = note_body tag position q }))
        else elim (find_group tag spec) [
          | none ↦ parsed (record { index = none; group = g; parser = p })
          | some sub ↦ start_group g sub j tag value position p
        ]
  ]
