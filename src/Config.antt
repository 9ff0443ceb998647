-- ===== src/Config.antt =====
-- src/Config.h: the registry of settings with their types and defaults, the values of a Config, and
-- their loading from texts. Doubles and their reader are parameters. A `std::vector` is a list, and
-- a write behind its end is undefined.
pub mod Typed
pub mod Written
pub mod Declared
use openfix.Prelude.{
  ℕ, zero, suc, ◌+◌, ◌-◌, Bool, true, false, ◌||◌, Option, none, some, List, [], ◌∷◌, ◌++◌, ◌==◌,
  leb, if◌then◌else◌, Bytes, codes, bytes_eq, length, long_zero, is_digit,
}
use openfix.Dictionary.{find_key}
use openfix.Dictionary.Load.{strcasecmp_eq}
use openfix.CpuOrchestrator.{skip_spaces, read_digits}
use openfix.Session.State.{SessionType, acceptor, initiator}

-- The `type_index` of a setting.
pub data SettingType : Type 0 where
  string_type long_type bool_type double_type : SettingType

-- struct Defaults
pub record Defaults (D : Type 0) : Type 0 where
  pub fields : List (Bytes × (SettingType × ℕ))
  pub strings : List Bytes
  pub longs : List ℕ
  pub bools : List Bool
  pub doubles : List D

-- The values of a Config.
pub record Config (D : Type 0) : Type 0 where
  pub string_values : List Bytes
  pub long_values : List ℕ
  pub bool_values : List Bool
  pub double_values : List D

-- struct BaseConfigItem
pub record ConfigItem (A : Type 0) : Type 0 where
  pub name : Bytes
  pub default_val : A
  pub index : ℕ

abbrev pub no_defaults : {D : Type 0} → Defaults D
no_defaults = record { fields = []; strings = []; longs = []; bools = []; doubles = [] }

-- The constructor of Config.
abbrev pub config : {D : Type 0} → Defaults D → Config D
config d = record {
  string_values = d.strings;
  long_values = d.longs;
  bool_values = d.bools;
  double_values = d.doubles;
}

-- `m_fields.insert`: an entry that is there stays.
unfoldable pub insert_setting :
    Bytes → SettingType × ℕ → List (Bytes × (SettingType × ℕ)) → List (Bytes × (SettingType × ℕ))
unfolding find_key
insert_setting name entry fields = elim (find_key name fields) [
  | none ↦ fields ++ (name, entry) ∷ []
  | some old ↦ fields
]

module _ {D : Type 0} where
  unfoldable pub create_string : Bytes → Bytes → Defaults D → Defaults D × ConfigItem Bytes
  unfolding insert_setting
  create_string name value d = (
    record d {
      strings = d.strings ++ value ∷ [];
      fields = insert_setting name (string_type, length d.strings) d.fields;
    },
    record { name = name; default_val = value; index = length d.strings },
  )

  unfoldable pub create_long : Bytes → ℕ → Defaults D → Defaults D × ConfigItem ℕ
  unfolding insert_setting
  create_long name value d = (
    record d {
      longs = d.longs ++ value ∷ [];
      fields = insert_setting name (long_type, length d.longs) d.fields;
    },
    record { name = name; default_val = value; index = length d.longs },
  )

  unfoldable pub create_bool : Bytes → Bool → Defaults D → Defaults D × ConfigItem Bool
  unfolding insert_setting
  create_bool name value d = (
    record d {
      bools = d.bools ++ value ∷ [];
      fields = insert_setting name (bool_type, length d.bools) d.fields;
    },
    record { name = name; default_val = value; index = length d.bools },
  )

  unfoldable pub create_double : Bytes → D → Defaults D → Defaults D × ConfigItem D
  unfolding insert_setting
  create_double name value d = (
    record d {
      doubles = d.doubles ++ value ∷ [];
      fields = insert_setting name (double_type, length d.doubles) d.fields;
    },
    record { name = name; default_val = value; index = length d.doubles },
  )

-- std::stol: `none` where there is no digit and where the number is no long.
long_up : ℕ → Option ℕ
long_up n = if leb n 9223372036854775807 then some (long_zero + n) else none

long_down : ℕ → Option ℕ
long_down n = if leb n 9223372036854775808 then some (long_zero - n) else none

stol_digits : (ℕ → Option ℕ) → Bytes → Option ℕ
unfolding read_digits
stol_digits sign [] = none
stol_digits sign (c ∷ s) = if is_digit c then sign (read_digits (c ∷ s) 0) else none

stol_signed : Bytes → Option ℕ
unfolding stol_digits long_up long_down
stol_signed [] = none
stol_signed (c ∷ s) =
    if c == 45
    then stol_digits long_down s
    else if c == 43
    then stol_digits long_up s
    else stol_digits long_up (c ∷ s)

unfoldable pub stol : Bytes → Option ℕ
unfolding stol_signed skip_spaces
stol s = stol_signed (skip_spaces s)

-- The text of a bool.
unfoldable pub read_bool : Bytes → Bool
unfolding bytes_eq strcasecmp_eq
read_bool value =
    bytes_eq value (codes "1")
    || strcasecmp_eq value (codes "Y")
    || strcasecmp_eq value (codes "true")

-- `values[index]` and `values[index] = value`; `none` is behind the end.
unfoldable pub get_elem? {ℓ} : {A : Type ℓ} → List A → ℕ → Option A
get_elem? [] i = none
get_elem? (x ∷ xs) zero = some x
get_elem? (x ∷ xs) (suc i) = get_elem? xs i

unfoldable pub set_elem? {ℓ} : {A : Type ℓ} → List A → ℕ → A → Option (List A)
set_elem? [] i value = none
set_elem? (x ∷ xs) zero value = some (value ∷ xs)
set_elem? (x ∷ xs) (suc i) value = elim (set_elem? xs i value) [
  | none ↦ none
  | some xs' ↦ some (x ∷ xs')
]

-- Loading ends, throws out of a reader of a number, which leaves the values that were set before,
-- or writes behind the end of a vector.
pub data Loaded (D : Type 0) : Type 0 where
  loaded threw : Config D → Loaded D
  undefined : Loaded D

infixl 5 ◌>>=◌
abbrev pub ◌>>=◌ : {D : Type 0} → Loaded D → (Config D → Loaded D) → Loaded D
loaded c >>= f = f c
threw c >>= f = threw c
undefined >>= f = undefined

module _ {D : Type 0} (stod : Bytes → Option D) where
  -- One setting whose field is known.
  unfoldable pub set_value : SettingType → ℕ → Bytes → Config D → Loaded D
  unfolding set_elem? stol read_bool
  set_value string_type index value c = elim (set_elem? c.string_values index value) [
    | none ↦ undefined
    | some values ↦ loaded (record c { string_values = values })
  ]
  set_value long_type index value c = elim (stol value) [
    | none ↦ threw c
    | some n ↦ elim (set_elem? c.long_values index n) [
      | none ↦ undefined
      | some values ↦ loaded (record c { long_values = values })
    ]
  ]
  set_value bool_type index value c = elim (set_elem? c.bool_values index (read_bool value)) [
    | none ↦ undefined
    | some values ↦ loaded (record c { bool_values = values })
  ]
  set_value double_type index value c = elim (stod value) [
    | none ↦ threw c
    | some x ↦ elim (set_elem? c.double_values index x) [
      | none ↦ undefined
      | some values ↦ loaded (record c { double_values = values })
    ]
  ]

  unfoldable pub set_setting : Defaults D → Bytes → Bytes → Config D → Loaded D
  unfolding find_key set_value
  set_setting d key value c = elim (find_key key d.fields) [
    | none ↦ loaded c
    | some (type, index) ↦ set_value type index value c
  ]

  -- Config::load, over the settings in the order in which their map gives them.
  unfoldable pub load : Defaults D → List (Bytes × Bytes) → Config D → Loaded D
  unfolding set_setting
  load d [] c = loaded c
  load d ((key, value) ∷ settings) c = set_setting d key value c >>= λ c'. load d settings c'

-- SessionSettings::getSessionType; `none` is the exception MisconfiguredSessionError.
unfoldable pub get_session_type : Bytes → Option SessionType
unfolding strcasecmp_eq
get_session_type text =
    if strcasecmp_eq text (codes "initiator")
    then some initiator
    else if strcasecmp_eq text (codes "acceptor")
    then some acceptor
    else none

-- SessionSettings::getSessionID
unfoldable pub get_session_id : Bytes → Bytes → Bytes
get_session_id sender target = sender ++ codes ":" ++ target
