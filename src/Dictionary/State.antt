-- ===== src/Dictionary/State.antt =====
-- The state of Dictionary::parse, src/Dictionary.cpp. A `FieldMap *` is the part of the message
-- that it points into with the path of group instances down to the map, each by its tag and index.
use openfix.Prelude.{ℕ, zero, suc, ◌==◌, Bool, Option, List, [], ◌∷◌, if◌then◌else◌}
use openfix.Message.{
  GroupSpec, FieldMap, field_map, Groups, no_groups, group, Instances, no_instances, instance_of,
  Message, empty_field_map,
}

-- enum class MessageState
pub data MessageState : Type 0 where
  in_header in_body in_trailer : MessageState

pub data Part : Type 0 where
  header_part body_part trailer_part : Part

pub record Pointer : Type 0 where
  pub part : Part
  pub path : List (ℕ × ℕ)

abbrev pub root : Part → Pointer
root part = record { part = part; path = [] }

-- struct ParserGroupInfo
pub record GroupInfo : Type 0 where
  pub spec : Option GroupSpec
  pub map_at : Pointer
  pub group_tag : ℕ
  pub group_count : ℕ
  pub group_max_count : ℕ

-- `{spec, &map}`
abbrev pub info : Option GroupSpec → Pointer → GroupInfo
info spec p = record {
  spec = spec;
  map_at = p;
  group_tag = 0;
  group_count = 0;
  group_max_count = 0;
}

-- The settings that the parser reads, but for LOUD_PARSING, which adds log lines alone.
pub record Options : Type 0 where
  pub relaxed : Bool
  pub validate_required : Bool
  pub reorder_tags : Bool

-- The locals of parse: the message, the group stack from its bottom, the length that a data field
-- will have (`none` is -1), and the last tag.
pub record Parser : Type 0 where
  pub message : Message
  pub msg_state : MessageState
  pub stack : List GroupInfo
  pub data_length : Option ℕ
  pub body_length_start : ℕ
  pub tag_count : ℕ
  pub tag : ℕ

-- The outcome: a result, an exception (MessageParsingError or FieldNotFound), or behaviour that
-- C++ leaves undefined, which is a null pointer followed or a read behind the text. `stuck` is no
-- outcome of the code: the fuel of the loop ran out.
pub data Parsed {ℓ} (A : Type ℓ) : Type ℓ where
  parsed : A → Parsed A
  parsing_error : Parsed A
  field_not_found : Parsed A
  undefined : Parsed A
  stuck : Parsed A

infixl 5 ◌>>=◌
unfoldable pub ◌>>=◌ : {A B : Type 0} → Parsed A → (A → Parsed B) → Parsed B
◌>>=◌ (parsed a) f = f a
◌>>=◌ parsing_error f = parsing_error
◌>>=◌ field_not_found f = field_not_found
◌>>=◌ undefined f = undefined
◌>>=◌ stuck f = stuck

-- TRY_LOG_THROW, and what follows it where parsing is relaxed.
abbrev pub throw_unless {ℓ} : {A : Type ℓ} → Bool → A → Parsed A
throw_unless relaxed rest = if relaxed then parsed rest else parsing_error

-- The map that a pointer points to; a pointer of the parser always has one.
unfoldable pub nth_instance : ℕ → Instances → FieldMap
nth_instance n no_instances = empty_field_map
nth_instance zero (instance_of m rest) = m
nth_instance (suc n) (instance_of m rest) = nth_instance n rest

unfoldable pub instances_of : ℕ → Groups → Instances
instances_of tag no_groups = no_instances
instances_of tag (group key instances rest) =
    if key == tag then instances else instances_of tag rest

unfoldable pub read_path : List (ℕ × ℕ) → FieldMap → FieldMap
unfolding nth_instance instances_of
read_path [] m = m
read_path ((tag, n) ∷ path) (field_map fields subs spec seen) =
    read_path path (nth_instance n (instances_of tag subs))

-- A change of that map.
unfoldable pub change_instance : (FieldMap → FieldMap) → ℕ → Instances → Instances
change_instance f n no_instances = no_instances
change_instance f zero (instance_of m rest) = instance_of (f m) rest
change_instance f (suc n) (instance_of m rest) = instance_of m (change_instance f n rest)

unfoldable pub change_groups : (Instances → Instances) → ℕ → Groups → Groups
change_groups f tag no_groups = no_groups
change_groups f tag (group key instances rest) =
    if key == tag
    then group key (f instances) rest
    else group key instances (change_groups f tag rest)

unfoldable pub change_path : (FieldMap → FieldMap) → List (ℕ × ℕ) → FieldMap → FieldMap
unfolding change_instance change_groups
change_path f [] m = f m
change_path f ((tag, n) ∷ path) (field_map fields subs spec seen) =
    field_map fields (change_groups (change_instance (change_path f path) n) tag subs) spec seen

abbrev pub part_of : Part → Message → FieldMap
part_of header_part msg = msg.header
part_of body_part msg = msg.body
part_of trailer_part msg = msg.trailer

abbrev pub change_part : (FieldMap → FieldMap) → Part → Message → Message
change_part f header_part msg = record msg { header = f msg.header }
change_part f body_part msg = record msg { body = f msg.body }
change_part f trailer_part msg = record msg { trailer = f msg.trailer }

unfoldable pub map_of : Pointer → Message → FieldMap
unfolding read_path
map_of p msg = read_path p.path (part_of p.part msg)

unfoldable pub change_map : (FieldMap → FieldMap) → Pointer → Message → Message
unfolding change_path
change_map f p msg = change_part (change_path f p.path) p.part msg
