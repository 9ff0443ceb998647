-- ===== src/Dictionary/Load.antt =====
-- DictionaryRegistry::load of src/Dictionary.cpp: what it reads, what it keeps while it loads, and
-- how it fails. pugixml is not modelled: a document is what pugixml answers for it.
pub mod Graph
pub mod Build
pub mod Registry
pub mod Lookups
pub mod Toposort
pub mod Sorted
pub mod Consistent
use openfix.Prelude.{
  ℕ, ◌+◌, Bool, true, false, ◌&&◌, Option, none, some, List, [], ◌∷◌, if◌then◌else◌, ◌==◌, leb,
  Bytes, codes, map, bytes_eq, ◌≡◌, ◌⊎◌, inl, inr, refl,
}
use mathlib.Core.Path.{subst}
use openfix.Dictionary.{FieldType, find_key}
use openfix.Message.{GroupSpec, SubSpecs}

-- What `attribute(…)` of a node gives: `as_string()` of the attributes "name", "type" and
-- "msgtype", `as_int(-1)` of "number", where `none` is -1, and `as_bool()` of "required" and
-- "ordered". Other negative numbers are not modelled.
pub record Attributes : Type 0 where
  pub name : Bytes
  pub type : Bytes
  pub message_type : Bytes
  pub number : Option ℕ
  pub required : Bool
  pub ordered : Bool

-- pugi::xml_node: the name of the node, its attributes and its children.
mutual
  pub data Node : Type 0 where
    node : Bytes → Attributes → Nodes → Node

  pub data Nodes : Type 0 where
    no_nodes : Nodes
    next_node : Node → Nodes → Nodes

-- What `child(…)` of the root gives; `none` is an empty node, and no nodes are the children of one.
pub record Fix : Type 0 where
  pub header : Option Node
  pub trailer : Option Node
  pub fields : Nodes
  pub components : Nodes
  pub messages : Nodes

-- The places that throw a DictionaryParsingError; `stuck` is a model loop that ran out of fuel.
pub data LoadError : Type 0 where
  unable_to_load missing_header missing_trailer invalid_field unknown_field_type : LoadError
  multiple_field_definitions component_unnamed component_undefined group_unnamed : LoadError
  group_undefined field_unnamed field_undefined component_name_missing : LoadError
  multiple_component_definitions component_cycle multiple_references_of_field : LoadError
  multiple_references_of_group msg_type_missing redefinition_of_message stuck : LoadError

pub data Loading {ℓ} (A : Type ℓ) : Type ℓ where
  loaded : A → Loading A
  failed : LoadError → Loading A

infixl 5 ◌>>=◌
abbrev pub ◌>>=◌ {ℓ κ} : {A : Type ℓ} {B : Type κ} → Loading A → (A → Loading B) → Loading B
loaded a >>= f = f a
failed e >>= f = failed e

-- What is loaded, if anything is, has a property.
abbrev pub Gives {ℓ κ} : {A : Type ℓ} → (A → Type κ) → Loading A → Type κ
Gives P (loaded a) = P a
Gives P (failed e) = Unit

pub Gives-bind {ℓ κ μ} :
    {A : Type ℓ} {B : Type κ} (Q : B → Type μ) (m : Loading A) (f : A → Loading B)
    → ((a : A) → m ≡ loaded a → Gives Q (f a))
    → Gives Q (m >>= f)
Gives-bind Q (loaded a) f h = h a refl
Gives-bind Q (failed e) f h = tt

pub Gives-loaded {ℓ κ} :
    {A : Type ℓ} (P : A → Type κ) {m : Loading A} {a : A} → m ≡ loaded a → Gives P m → P a
Gives-loaded P e h = subst (Gives P) e h

-- A test that fails on one side.
pub Gives-unless {ℓ κ} :
    {A : Type ℓ} (P : A → Type κ) (test : Bool) (why : LoadError) (m : Loading A)
    → (test ≡ false → Gives P m)
    → Gives P (if test then failed why else m)
Gives-unless P true why m h = tt
Gives-unless P false why m h = h refl

pub Gives-when {ℓ κ} :
    {A : Type ℓ} (P : A → Type κ) (test : Bool) (why : LoadError) (m : Loading A)
    → (test ≡ true → Gives P m)
    → Gives P (if test then m else failed why)
Gives-when P true why m h = h refl
Gives-when P false why m h = tt

-- The order in which the hash maps and sets give their entries, which is not specified.
pub record HashOrder : Type 0 where
  pub field_entries : List (ℕ × Bool) → List (ℕ × Bool)
  pub group_entries : SubSpecs → SubSpecs
  pub graph_entries : List (Bytes × List Bytes) → List (Bytes × List Bytes)
  pub degree_entries : List (Bytes × ℕ) → List (Bytes × ℕ)
  pub name_entries : List Bytes → List Bytes

-- `strcasecmp(a, b) == 0`
abbrev pub to_lower : ℕ → ℕ
to_lower c = if leb 65 c && leb c 90 then c + 32 else c

unfoldable pub strcasecmp_eq : Bytes → Bytes → Bool
strcasecmp_eq a b = bytes_eq (map to_lower a) (map to_lower b)

-- FieldTypes::LOOKUP
unfoldable pub field_type_lookup : List (Bytes × FieldType)
field_type_lookup =
    (codes "UNKNOWN", FieldType.unknown)
    ∷ (codes "INT", FieldType.int)
    ∷ (codes "LENGTH", FieldType.length)
    ∷ (codes "NUMINGROUP", FieldType.num_in_group)
    ∷ (codes "SEQNUM", FieldType.seq_num)
    ∷ (codes "TAGNUM", FieldType.tag_num)
    ∷ (codes "DAYOFMONTH", FieldType.day_of_month)
    ∷ (codes "FLOAT", FieldType.float)
    ∷ (codes "QTY", FieldType.qty)
    ∷ (codes "PRICE", FieldType.price)
    ∷ (codes "PRICEOFFSET", FieldType.price_offset)
    ∷ (codes "AMT", FieldType.amt)
    ∷ (codes "PERCENTAGE", FieldType.percentage)
    ∷ (codes "CHAR", FieldType.char)
    ∷ (codes "BOOLEAN", FieldType.boolean)
    ∷ (codes "STRING", FieldType.string)
    ∷ (codes "MULTIPLEVALUESTRING", FieldType.multiple_value_string)
    ∷ (codes "COUNTRY", FieldType.country)
    ∷ (codes "CURRENCY", FieldType.currency)
    ∷ (codes "EXCHANGE", FieldType.exchange)
    ∷ (codes "MONTHYEAR", FieldType.month_year)
    ∷ (codes "UTCTIMESTAMP", FieldType.utc_timestamp)
    ∷ (codes "UTCTIMEONLY", FieldType.utc_time_only)
    ∷ (codes "UTCDATEONLY", FieldType.utc_date_only)
    ∷ (codes "LOCALMKTDATE", FieldType.local_mkt_date)
    ∷ (codes "DATA", FieldType.data_bytes)
    ∷ []

-- `map[key]` of a map whose entry is there, or is made with a default value.
unfoldable pub get_or {ℓ} : {A : Type ℓ} → A → Bytes → List (Bytes × A) → A
unfolding find_key
get_or default key m = elim (find_key key m) [ none ↦ default | some a ↦ a ]
