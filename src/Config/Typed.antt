-- ===== src/Config/Typed.antt =====
-- src/Config.h: the types and the places of settings.
use openfix.Prelude.{
  ℕ, zero, suc, ◌≤◌, ◌<◌, Bool, Option, some, List, [], ◌∷◌, Bytes, bytes_eq, All, All-append,
  length, length-append, ◌≡◌, inl, inr, refl, ◌∙◌, arith, Bool-cases, Option-cases,
}
use mathlib.Core.Path.{subst}
use openfix.Dictionary.{find_key}
use openfix.Config.{
  SettingType, string_type, long_type, bool_type, double_type, Defaults, no_defaults, Config,
  config, insert_setting, create_string, create_long, create_bool, create_double, set_elem?, Loaded,
  loaded, threw, undefined, ◌>>=◌, set_value, set_setting, load, stol, read_bool,
}

-- A place that there is among the values of a type.
abbrev pub Fits : {D : Type 0} → Config D → SettingType × ℕ → Type 0
Fits c (string_type, i) = i < length c.string_values
Fits c (long_type, i) = i < length c.long_values
Fits c (bool_type, i) = i < length c.bool_values
Fits c (double_type, i) = i < length c.double_values

-- Each field of the registry has such a place.
abbrev pub IsTyped : {D : Type 0} → Defaults D → Type 0
IsTyped d = All (λ e. Fits (config d) e.1) d.fields

-- There are at least as many values of each type.
record Grows {D : Type 0} (c c' : Config D) : Type 0 where
  strings : length c.string_values ≤ length c'.string_values
  longs : length c.long_values ≤ length c'.long_values
  bools : length c.bool_values ≤ length c'.bool_values
  doubles : length c.double_values ≤ length c'.double_values

Fits-Grows :
    {D : Type 0} (c c' : Config D) (e : SettingType × ℕ) → Grows c c' → Fits c e → Fits c' e
Fits-Grows c c' (string_type, i) g h = omega (arith, g.strings, h)
Fits-Grows c c' (long_type, i) g h = omega (arith, g.longs, h)
Fits-Grows c c' (bool_type, i) g h = omega (arith, g.bools, h)
Fits-Grows c c' (double_type, i) g h = omega (arith, g.doubles, h)

All-Grows :
    {D : Type 0} (c c' : Config D) (fields : List (Bytes × (SettingType × ℕ)))
    → Grows c c'
    → All (λ e. Fits c e.1) fields
    → All (λ e. Fits c' e.1) fields
All-Grows c c' [] g h = tt
All-Grows c c' (e ∷ fields) g h = (Fits-Grows c c' e.1 g h.0, All-Grows c c' fields g h.1)

insert_setting-Fits :
    {D : Type 0} (c : Config D) (name : Bytes) (entry : SettingType × ℕ)
    (fields : List (Bytes × (SettingType × ℕ)))
    → Fits c entry
    → All (λ e. Fits c e.1) fields
    → All (λ e. Fits c e.1) (insert_setting name entry fields)
unfolding insert_setting
insert_setting-Fits c name entry fields f h = elim (Option-cases (find_key name fields)) [
  | inl new ↦ rw (new, insert_setting) (All-append (λ e. Fits c e.1) fields _ h (f, tt))
  | inr (old, there) ↦ rw (there, insert_setting) h
]

-- The registries that settings are declared in, one after the other.
pub data Registered {D : Type 0} : Defaults D → Type 0 where
  none_yet : Registered no_defaults
  a_string :
      {d : Defaults D} (name value : Bytes)
      → Registered d
      → Registered (create_string name value d).0
  a_long :
      {d : Defaults D} (name : Bytes) (value : ℕ)
      → Registered d
      → Registered (create_long name value d).0
  a_bool :
      {d : Defaults D} (name : Bytes) (value : Bool)
      → Registered d
      → Registered (create_bool name value d).0
  a_double :
      {d : Defaults D} (name : Bytes) (value : D)
      → Registered d
      → Registered (create_double name value d).0

registered :
    {D : Type 0} (d d' : Defaults D) (name : Bytes) (entry : SettingType × ℕ)
    → Grows (config d) (config d')
    → Fits (config d') entry
    → IsTyped d
    → All (λ e. Fits (config d') e.1) (insert_setting name entry d.fields)
registered d d' name entry g f h =
    insert_setting-Fits (config d') name entry d.fields f
      (All-Grows (config d) (config d') d.fields g h)

pub Registered-IsTyped : {D : Type 0} {d : Defaults D} → Registered d → IsTyped d
unfolding create_string create_long create_bool create_double
Registered-IsTyped none_yet = tt
Registered-IsTyped (a_string {d} name value r) =
    let more = length-append d.strings (value ∷ []) in
    registered d (create_string name value d).0 name (string_type, length d.strings)
      (record {
        strings = omega (arith, more);
        longs = omega (arith, more);
        bools = omega (arith, more);
        doubles = omega (arith, more);
      })
      (omega (arith, more)) (Registered-IsTyped r)
Registered-IsTyped (a_long {d} name value r) =
    let more = length-append d.longs (value ∷ []) in
    registered d (create_long name value d).0 name (long_type, length d.longs)
      (record {
        strings = omega (arith, more);
        longs = omega (arith, more);
        bools = omega (arith, more);
        doubles = omega (arith, more);
      })
      (omega (arith, more)) (Registered-IsTyped r)
Registered-IsTyped (a_bool {d} name value r) =
    let more = length-append d.bools (value ∷ []) in
    registered d (create_bool name value d).0 name (bool_type, length d.bools)
      (record {
        strings = omega (arith, more);
        longs = omega (arith, more);
        bools = omega (arith, more);
        doubles = omega (arith, more);
      })
      (omega (arith, more)) (Registered-IsTyped r)
Registered-IsTyped (a_double {d} name value r) =
    let more = length-append d.doubles (value ∷ []) in
    registered d (create_double name value d).0 name (double_type, length d.doubles)
      (record {
        strings = omega (arith, more);
        longs = omega (arith, more);
        bools = omega (arith, more);
        doubles = omega (arith, more);
      })
      (omega (arith, more)) (Registered-IsTyped r)

-- As many values of each type as the registry has defaults.
pub record HasSizes {D : Type 0} (d : Defaults D) (c : Config D) : Type 0 where
  pub strings : length c.string_values ≡ length d.strings
  pub longs : length c.long_values ≡ length d.longs
  pub bools : length c.bool_values ≡ length d.bools
  pub doubles : length c.double_values ≡ length d.doubles

-- Loading does nothing undefined, and what it leaves has a property.
abbrev pub Leaves : {D : Type 0} → (Config D → Type 0) → Loaded D → Type 0
Leaves P (loaded c) = P c
Leaves P (threw c) = P c
Leaves P undefined = ⊥

set_elem?-length :
    {A : Type 0} (xs : List A) (i : ℕ) (value : A)
    → i < length xs
    → (ys : List A) × (set_elem? xs i value ≡ some ys) × (length ys ≡ length xs)
unfolding set_elem?
set_elem?-length [] i value h = absurd (omega (arith, h))
set_elem?-length (x ∷ xs) zero value h = (value ∷ xs, refl, refl)
set_elem?-length (x ∷ xs) (suc i) value h =
    let (ys, e, l) = set_elem?-length xs i value (omega (arith, h)) in
    (x ∷ ys, rw (e, set_elem?) refl, omega (arith, l))

module _ {D : Type 0} (stod : Bytes → Option D) (d : Defaults D) where
  set_value-HasSizes :
      (type : SettingType) (i : ℕ) (value : Bytes) (c : Config D)
      → Fits (config d) (type, i)
      → HasSizes d c
      → Leaves (HasSizes d) (set_value stod type i value c)
  unfolding set_value
  set_value-HasSizes string_type i value c f h =
      let (ys, e, l) = set_elem?-length c.string_values i value (omega (arith, f, h.strings)) in
      rw (e, set_value)
        (record { strings = l ∙ h.strings; longs = h.longs; bools = h.bools; doubles = h.doubles })
  set_value-HasSizes bool_type i value c f h =
      let (ys, e, l) =
        set_elem?-length c.bool_values i (read_bool value) (omega (arith, f, h.bools)) in
      rw (e, set_value)
        (record { strings = h.strings; longs = h.longs; bools = l ∙ h.bools; doubles = h.doubles })
  set_value-HasSizes long_type i value c f h = elim (Option-cases (stol value)) [
    | inl bad ↦ rw (bad, set_value) h
    | inr (n, good) ↦
        let (ys, e, l) = set_elem?-length c.long_values i n (omega (arith, f, h.longs)) in
        rw (good, set_value)
          (rw e (record {
            strings = h.strings;
            longs = l ∙ h.longs;
            bools = h.bools;
            doubles = h.doubles;
          }))
  ]
  set_value-HasSizes double_type i value c f h = elim (Option-cases (stod value)) [
    | inl bad ↦ rw (bad, set_value) h
    | inr (x, good) ↦
        let (ys, e, l) = set_elem?-length c.double_values i x (omega (arith, f, h.doubles)) in
        rw (good, set_value)
          (rw e (record {
            strings = h.strings;
            longs = h.longs;
            bools = h.bools;
            doubles = l ∙ h.doubles;
          }))
  ]

  find_key-Fits :
      (key : Bytes) (fields : List (Bytes × (SettingType × ℕ))) (entry : SettingType × ℕ)
      → All (λ e. Fits (config d) e.1) fields
      → find_key key fields ≡ some entry
      → Fits (config d) entry
  unfolding find_key
  find_key-Fits key [] entry h e = ground (arith, e)
  find_key-Fits key ((k, x) ∷ fields) entry h e = elim (Bool-cases (bytes_eq k key)) [
    | inl found ↦
        let same : x ≡ entry = ground (arith, e, found) in subst (Fits (config d)) same h.0
    | inr other ↦ find_key-Fits key fields entry h.1 (ground (arith, e, other))
  ]

  set_setting-HasSizes :
      (key value : Bytes) (c : Config D)
      → IsTyped d
      → HasSizes d c
      → Leaves (HasSizes d) (set_setting stod d key value c)
  unfolding set_setting
  set_setting-HasSizes key value c t h = elim (Option-cases (find_key key d.fields)) [
    | inl unknown ↦ rw (unknown, set_setting) h
    | inr ((type, i), there) ↦
        rw (there, set_setting)
          (set_value-HasSizes type i value c (find_key-Fits key d.fields (type, i) t there) h)
  ]

  Leaves-bind :
      (m : Loaded D) (f : Config D → Loaded D)
      → Leaves (HasSizes d) m
      → ((c : Config D) → HasSizes d c → Leaves (HasSizes d) (f c))
      → Leaves (HasSizes d) (m >>= f)
  Leaves-bind (loaded c) f m h = h c m
  Leaves-bind (threw c) f m h = m
  Leaves-bind undefined f m h = m

  load-sizes :
      (settings : List (Bytes × Bytes)) (c : Config D)
      → IsTyped d
      → HasSizes d c
      → Leaves (HasSizes d) (load stod d settings c)
  unfolding load
  load-sizes [] c t h = h
  load-sizes ((key, value) ∷ settings) c t h =
      Leaves-bind (set_setting stod d key value c) _ (set_setting-HasSizes key value c t h)
        λ c' h'. load-sizes settings c' t h'

-- Loading any texts into a Config whose settings have been declared one after the other, also with a
-- name that is declared twice, does nothing undefined, and neither it nor an exception on the way
-- changes how many values of a type there are, which are the declared ones.
pub load-HasSizes :
    {D : Type 0} (stod : Bytes → Option D) (d : Defaults D) (settings : List (Bytes × Bytes))
    → Registered d
    → Leaves (HasSizes d) (load stod d settings (config d))
load-HasSizes stod d settings r =
    load-sizes stod d settings (config d) (Registered-IsTyped r)
      (record { strings = refl; longs = refl; bools = refl; doubles = refl })
