-- ===== src/Config/Written.antt =====
-- src/Config.h: what `Config::load` leaves as values.
use openfix.Prelude.{
  ℕ, zero, suc, Bool, true, false, ◌&&◌, Option, none, some, List, [], ◌∷◌, ◌==◌, if◌then◌else◌,
  Bytes, ◌≡◌, inl, inr, refl, ap, ◌∙◌, arith, Option-cases,
}
use mathlib.Core.Path.{subst}
use openfix.Dictionary.{find_key}
use openfix.Config.{
  SettingType, string_type, long_type, bool_type, double_type, Defaults, Config, config, get_elem?,
  set_elem?, Loaded, loaded, threw, undefined, ◌>>=◌, set_value, set_setting, load, stol, read_bool,
}
use openfix.Config.Typed.{Registered, HasSizes, Leaves, load-HasSizes}

-- A value of a setting.
pub data Value (D : Type 0) : Type 0 where
  a_text : Bytes → Value D
  a_long : ℕ → Value D
  a_bool : Bool → Value D
  a_double : D → Value D

abbrev map_value : {D A : Type 0} → (A → Value D) → Option A → Option (Value D)
map_value f none = none
map_value f (some a) = some (f a)

-- The value at a place of a type.
unfoldable pub value_at : {D : Type 0} → SettingType → ℕ → Config D → Option (Value D)
unfolding get_elem?
value_at string_type i c = map_value a_text (get_elem? c.string_values i)
value_at long_type i c = map_value a_long (get_elem? c.long_values i)
value_at bool_type i c = map_value a_bool (get_elem? c.bool_values i)
value_at double_type i c = map_value a_double (get_elem? c.double_values i)

abbrev same_type : SettingType → SettingType → Bool
same_type string_type string_type = true
same_type long_type long_type = true
same_type bool_type bool_type = true
same_type double_type double_type = true
same_type _ _ = false

some-injective : {A : Type 0} {a b : A} → some a ≡ some b → a ≡ b
some-injective h = cc

get-set :
    {A : Type 0} (xs ys : List A) (i j : ℕ) (a : A)
    → set_elem? xs i a ≡ some ys
    → get_elem? ys j ≡ (if i == j then some a else get_elem? xs j)
unfolding get_elem? set_elem?
get-set [] ys i j a h = ground (arith, h)
get-set (x ∷ xs) ys zero zero a h = subst (λ l. get_elem? l 0 ≡ some a) (some-injective h) refl
get-set (x ∷ xs) ys zero (suc j) a h =
    subst (λ l. get_elem? l (suc j) ≡ get_elem? xs j) (some-injective h) refl ∙ ground arith
get-set (x ∷ xs) ys (suc i) zero a h = elim (Option-cases (set_elem? xs i a)) [
  | inl e ↦ ground (arith, h, e)
  | inr (zs, e) ↦
      let same : (x ∷ zs) ≡ ys = ground (arith, h, e) in
      subst (λ l. get_elem? l 0 ≡ some x) same refl ∙ ground arith
]
get-set (x ∷ xs) ys (suc i) (suc j) a h = elim (Option-cases (set_elem? xs i a)) [
  | inl e ↦ ground (arith, h, e)
  | inr (zs, e) ↦
      let same : (x ∷ zs) ≡ ys = ground (arith, h, e) in
      subst (λ l. get_elem? l (suc j) ≡ (if suc i == suc j then some a else get_elem? xs j)) same
        (get-set xs zs i j a e ∙ ground arith)
]

map_value-if :
    {D A : Type 0} (f : A → Value D) (b : Bool) (o p : Option A)
    → map_value f (if b then o else p) ≡ (if b then map_value f o else map_value f p)
map_value-if f true o p = refl
map_value-if f false o p = refl

module _ {D : Type 0} (stod : Bytes → Option D) where
  -- What a text reads as.
  unfoldable pub read_as : SettingType → Bytes → Option (Value D)
  unfolding read_bool stol
  read_as string_type text = some (a_text text)
  read_as long_type text = map_value a_long (stol text)
  read_as bool_type text = some (a_bool (read_bool text))
  read_as double_type text = map_value a_double (stod text)

  set-string :
      (t : SettingType) (i j : ℕ) (a : Bytes) (c : Config D) (ys : List Bytes)
      → set_elem? c.string_values i a ≡ some ys
      → value_at t j (record c { string_values = ys })
        ≡ (if same_type string_type t && (i == j) then some (a_text a) else value_at t j c)
  unfolding value_at
  set-string string_type i j a c ys e =
      ap (map_value a_text) (get-set c.string_values ys i j a e) ∙ map_value-if a_text (i == j) _ _
  set-string long_type i j a c ys e = refl
  set-string bool_type i j a c ys e = refl
  set-string double_type i j a c ys e = refl

  set-long :
      (t : SettingType) (i j a : ℕ) (c : Config D) (ys : List ℕ)
      → set_elem? c.long_values i a ≡ some ys
      → value_at t j (record c { long_values = ys })
        ≡ (if same_type long_type t && (i == j) then some (a_long a) else value_at t j c)
  unfolding value_at
  set-long long_type i j a c ys e =
      ap (map_value a_long) (get-set c.long_values ys i j a e) ∙ map_value-if a_long (i == j) _ _
  set-long string_type i j a c ys e = refl
  set-long bool_type i j a c ys e = refl
  set-long double_type i j a c ys e = refl

  set-bool :
      (t : SettingType) (i j : ℕ) (a : Bool) (c : Config D) (ys : List Bool)
      → set_elem? c.bool_values i a ≡ some ys
      → value_at t j (record c { bool_values = ys })
        ≡ (if same_type bool_type t && (i == j) then some (a_bool a) else value_at t j c)
  unfolding value_at
  set-bool bool_type i j a c ys e =
      ap (map_value a_bool) (get-set c.bool_values ys i j a e) ∙ map_value-if a_bool (i == j) _ _
  set-bool string_type i j a c ys e = refl
  set-bool long_type i j a c ys e = refl
  set-bool double_type i j a c ys e = refl

  set-double :
      (t : SettingType) (i j : ℕ) (a : D) (c : Config D) (ys : List D)
      → set_elem? c.double_values i a ≡ some ys
      → value_at t j (record c { double_values = ys })
        ≡ (if same_type double_type t && (i == j) then some (a_double a) else value_at t j c)
  unfolding value_at
  set-double double_type i j a c ys e =
      ap (map_value a_double) (get-set c.double_values ys i j a e)
      ∙ map_value-if a_double (i == j) _ _
  set-double string_type i j a c ys e = refl
  set-double long_type i j a c ys e = refl
  set-double bool_type i j a c ys e = refl

  -- Where a step ends, the values are those that are given.
  abbrev Ends : (SettingType → ℕ → Option (Value D)) → Loaded D → Type 0
  Ends v (loaded c) = (t : SettingType) (j : ℕ) → value_at t j c ≡ v t j
  Ends v (threw c) = Unit
  Ends v undefined = Unit

  Ends-same :
      (v w : SettingType → ℕ → Option (Value D)) (m : Loaded D)
      → ((t : SettingType) (j : ℕ) → v t j ≡ w t j)
      → Ends v m
      → Ends w m
  Ends-same v w (loaded c) same h = λ t j. h t j ∙ same t j
  Ends-same v w (threw c) same h = tt
  Ends-same v w undefined same h = tt

  Ends-bind :
      (v w : SettingType → ℕ → Option (Value D)) (m : Loaded D) (f : Config D → Loaded D)
      → Ends v m
      → ((c : Config D) → ((t : SettingType) (j : ℕ) → value_at t j c ≡ v t j) → Ends w (f c))
      → Ends w (m >>= f)
  Ends-bind v w (loaded c) f h k = k c h
  Ends-bind v w (threw c) f h k = tt
  Ends-bind v w undefined f h k = tt

  set_value-Ends :
      (type : SettingType) (i : ℕ) (text : Bytes) (c : Config D)
      → Ends
          (λ t j. if same_type type t && (i == j) then read_as type text else value_at t j c)
          (set_value stod type i text c)
  unfolding set_value read_as
  set_value-Ends string_type i text c = elim (Option-cases (set_elem? c.string_values i text)) [
    | inl e ↦ rw (e, set_value) tt
    | inr (ys, e) ↦ rw (e, set_value) (λ t j. set-string t i j text c ys e)
  ]
  set_value-Ends bool_type i text c =
      elim (Option-cases (set_elem? c.bool_values i (read_bool text))) [
        | inl e ↦ rw (e, set_value) tt
        | inr (ys, e) ↦ rw (e, set_value) (λ t j. set-bool t i j (read_bool text) c ys e)
      ]
  set_value-Ends long_type i text c = elim (Option-cases (stol text)) [
    | inl bad ↦ rw (bad, set_value) tt
    | inr (n, good) ↦ elim (Option-cases (set_elem? c.long_values i n)) [
      | inl e ↦ rw (good, set_value) (rw e tt)
      | inr (ys, e) ↦ rw (good, set_value, e) (λ t j. set-long t i j n c ys e)
    ]
  ]
  set_value-Ends double_type i text c = elim (Option-cases (stod text)) [
    | inl bad ↦ rw (bad, set_value) tt
    | inr (x, good) ↦ elim (Option-cases (set_elem? c.double_values i x)) [
      | inl e ↦ rw (good, set_value) (rw e tt)
      | inr (ys, e) ↦ rw (good, set_value, e) (λ t j. set-double t i j x c ys e)
    ]
  ]

  module _ (d : Defaults D) where
    -- What a place holds once a text was given for a name, and once all texts were, from what it held.
    unfoldable pub written : SettingType → ℕ → Bytes → Bytes → Option (Value D) → Option (Value D)
    unfolding find_key read_as
    written t j key text old = elim (find_key key d.fields) [
      | none ↦ old
      | some (type, i) ↦ if same_type type t && (i == j) then read_as type text else old
    ]

    unfoldable pub last_written :
        SettingType → ℕ → List (Bytes × Bytes) → Option (Value D) → Option (Value D)
    unfolding written
    last_written t j [] old = old
    last_written t j ((key, text) ∷ settings) old =
        last_written t j settings (written t j key text old)

    set_setting-Ends :
        (key text : Bytes) (c : Config D)
        → Ends (λ t j. written t j key text (value_at t j c)) (set_setting stod d key text c)
    unfolding set_setting written
    set_setting-Ends key text c = elim (Option-cases (find_key key d.fields)) [
      | inl unknown ↦ rw (unknown, set_setting, written) (λ t j. refl)
      | inr ((type, i), there) ↦ rw (there, set_setting, written) (set_value-Ends type i text c)
    ]

    load-Ends :
        (settings : List (Bytes × Bytes)) (c : Config D)
        → Ends (λ t j. last_written t j settings (value_at t j c)) (load stod d settings c)
    unfolding load last_written
    load-Ends [] c = λ t j. refl
    load-Ends ((key, text) ∷ settings) c =
        Ends-bind (λ t j. written t j key text (value_at t j c)) _ (set_setting stod d key text c) _
          (set_setting-Ends key text c)
          λ c' h.
            Ends-same _ _ (load stod d settings c') (λ t j. ap (last_written t j settings) (h t j))
              (load-Ends settings c')

-- What loading leaves: the last text that was given for the place of a value, or the default.
abbrev pub Holds :
    {D : Type 0} → (Bytes → Option D) → Defaults D → List (Bytes × Bytes) → Loaded D → Type 0
Holds stod d settings (loaded c) =
    HasSizes d c
    × ((t : SettingType) (j : ℕ)
        → value_at t j c ≡ last_written stod d t j settings (value_at t j (config d)))
Holds stod d settings (threw c) = HasSizes d c
Holds stod d settings undefined = ⊥

both :
    {D : Type 0} (stod : Bytes → Option D) (d : Defaults D) (settings : List (Bytes × Bytes))
    (m : Loaded D)
    → Leaves (HasSizes d) m
    → Ends stod (λ t j. last_written stod d t j settings (value_at t j (config d))) m
    → Holds stod d settings m
both stod d settings (loaded c) sizes ends = (sizes, ends)
both stod d settings (threw c) sizes ends = sizes
both stod d settings undefined sizes ends = sizes

-- Loading texts into a Config whose settings have been declared one after the other, also with a
-- name that is declared twice, writes nothing behind the end of the values. Where no text of a number
-- makes it throw, every value is what the last of the texts reads as whose name stands for the type
-- and the place of the value, or its default where there is none, so that a name that is not declared
-- changes nothing. There are as many values of each type as declared, also where it throws.
pub load-Holds :
    {D : Type 0} (stod : Bytes → Option D) (d : Defaults D) (settings : List (Bytes × Bytes))
    → Registered d
    → Holds stod d settings (load stod d settings (config d))
load-Holds stod d settings r =
    both stod d settings (load stod d settings (config d)) (load-HasSizes stod d settings r)
      (load-Ends stod d settings (config d))
