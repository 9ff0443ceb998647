-- ===== src/Session/GapFill.antt =====
-- The sequence number of a gap fill of src/Session.cpp, where the dictionary orders the header.
use openfix.Prelude.{ℕ, some, List, [], ◌∷◌, Bytes}
use openfix.Fields
use openfix.Message.{GroupSpec, FieldMap, field_map, no_groups, Message, set_field}
use openfix.Session.State.{Session}

-- The order of the header in test/FIXDictionary.xml.
abbrev pub fix_header_order : List ℕ
fix_header_order =
    8 ∷ 9 ∷ 35 ∷ 49 ∷ 56 ∷ 115 ∷ 128 ∷ 90 ∷ 91 ∷ 34 ∷ 50 ∷ 142 ∷ 57 ∷ 143 ∷ 116 ∷ 144 ∷ 129 ∷ 145
    ∷ 43 ∷ 97 ∷ 52 ∷ 122 ∷ 212 ∷ 213 ∷ 347 ∷ 369 ∷ 627 ∷ []

abbrev created : GroupSpec → Bytes → FieldMap
created spec type = set_field Fields.msg_type type (field_map [] no_groups (some spec) [])
