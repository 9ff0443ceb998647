-- ===== src/Dictionary/Noted/Loop.antt =====
-- The loop of Dictionary::parse of src/Dictionary.cpp: `bodyLengthStart` is behind a BodyLength.
use openfix.Prelude.{
  ℕ, zero, suc, ◌+◌, ◌-◌, false, none, some, List, [], ◌∷◌, ◌++◌, ltb, Bytes, length, length-append,
  take, drop, append_assoc, ◌≡◌, ◌∙◌, sym, ap, refl, arith, inl, inr, Option-cases, Bool-cases,
}
use mathlib.Core.Path.{subst}
use openfix.Fields as Tags
use openfix.Message.Serialize.{internal_soh}
use openfix.Dictionary.{Dictionary, get_field_type, is_data, fast_parse_tag}
use openfix.Dictionary.State.{Options, Parser, parsed, parsing_error, undefined, throw_unless}
use openfix.Dictionary.Parse.{
  split_at, assignment, top, dispatch_field, misplaced, check_tag, data_field, plain_field, field,
  skip_field, round, parse_loop,
}
use openfix.Dictionary.Noted.{Keeps, Keeps-bind, Keeps-if, Notes, dispatch_field-NotesParser}

split_at-parts :
    (c : ℕ) (s front back : Bytes) → split_at c s ≡ some (front, back) → s ≡ front ++ c ∷ back
unfolding split_at
split_at-parts c [] front back h = ground (arith, h)
split_at-parts c (b ∷ s) front back h = elim (Option-cases (split_at c s)) [
  | inl e ↦ ground (arith, e, h)
  | inr ((f, k), e) ↦ ground (arith, e, h, split_at-parts c s f k e)
]

take-drop {ℓ} : {A : Type ℓ} (n : ℕ) (xs : List A) → xs ≡ take n xs ++ drop n xs
take-drop zero xs = refl
take-drop (suc n) [] = refl
take-drop (suc n) (x ∷ xs) = ap (λ l. x ∷ l) (take-drop n xs)

-- A field with its separator.
abbrev pub field_text : Bytes → Bytes → Bytes
field_text name value = name ++ (assignment ∷ (value ++ (internal_soh ∷ [])))

-- The offset is the one behind a field of the text that is a BodyLength.
pub record IsBehindBodyLength (text : Bytes) (offset : ℕ) : Type 0 where
  pub before : Bytes
  pub name : Bytes
  pub value : Bytes
  pub behind : Bytes
  pub split : text ≡ (before ++ field_text name value) ++ behind
  pub is_tag : fast_parse_tag name ≡ some Tags.body_length
  pub at : offset + length behind ≡ length text

-- What is left of a text.
abbrev pub Left : Bytes → Bytes → Type 0
Left text rest = (front : Bytes) × (text ≡ front ++ rest)

-- A field at the start of what is left.
field-split :
    (text rest name after value next : Bytes)
    → Left text rest
    → split_at assignment rest ≡ some (name, after)
    → split_at internal_soh after ≡ some (value, next)
    → (before : Bytes) × (text ≡ (before ++ field_text name value) ++ next)
field-split text rest name after value next (front, e) s t =
    let parts : rest ≡ name ++ (assignment ∷ (value ++ (internal_soh ∷ next))) =
      split_at-parts assignment rest name after s
      ∙ ap (λ l. name ++ (assignment ∷ l)) (split_at-parts internal_soh after value next t) in
    let back : field_text name value ++ next
        ≡ name ++ (assignment ∷ (value ++ (internal_soh ∷ next))) =
      append_assoc name (assignment ∷ (value ++ (internal_soh ∷ []))) next
      ∙ ap (λ l. name ++ (assignment ∷ l)) (append_assoc value (internal_soh ∷ []) next) in
    (
      front,
      e
          ∙ ap (λ l. front ++ l) (parts ∙ sym back)
          ∙ sym (append_assoc front (field_text name value) next),
    )

module _ (d : Dictionary) (opts : Options) (text : Bytes) where
  -- In the middle of the loop: what is left of the text, and where the body starts.
  abbrev pub Inv : Bytes × Parser → Type 0
  Inv (rest, p) = Left text rest × IsBehindBodyLength text p.body_length_start

  -- A field of the text that ends at a separator, as it is put into its place.
  pub behind-next :
      (rest name after value next : Bytes)
      → Left text rest
      → split_at assignment rest ≡ some (name, after)
      → split_at internal_soh after ≡ some (value, next)
      → fast_parse_tag name ≡ some Tags.body_length
      → IsBehindBodyLength text (length text - length next)
  behind-next rest name after value next left s t is =
      let (before, e) = field-split text rest name after value next left s t in
      record {
        before = before;
        name = name;
        value = value;
        behind = next;
        split = e;
        is_tag = is;
        at =
            let size = ap length e in
            omega (arith, size, length-append (before ++ field_text name value) next);
      }

  pub separator-Left :
      (rest name after value next : Bytes)
      → Left text rest
      → split_at assignment rest ≡ some (name, after)
      → split_at internal_soh after ≡ some (value, next)
      → Left text next
  separator-Left rest name after value next left s t =
      let (before, e) = field-split text rest name after value next left s t in
      (before ++ field_text name value, e)

  module _ (strict : opts.relaxed ≡ false) where
    pub strict-throw : {A : Type 0} (Q : A → Type 0) (a : A) → Keeps Q (throw_unless opts.relaxed a)
    strict-throw Q a = rw strict tt

    plain_field-Inv :
        (rest name after : Bytes) (tag : ℕ) (p : Parser)
        → Left text rest
        → split_at assignment rest ≡ some (name, after)
        → fast_parse_tag name ≡ some tag
        → IsBehindBodyLength text p.body_length_start
        → Keeps Inv (plain_field d opts (length text) tag after p)
    unfolding plain_field
    plain_field-Inv rest name after tag p left s is h =
        elim (Option-cases (split_at internal_soh after)) [
          | inl e ↦ rw (plain_field, e) (strict-throw Inv ([], p))
          | inr ((value, next), e) ↦
              rw (plain_field, e)
                (Keeps-bind
                  (λ q.
                    Notes d opts p.body_length_start tag (length text - length next)
                      q.body_length_start)
                  Inv
                  (dispatch_field d opts tag value (length text - length next)
                    (record p { data_length = none }))
                  _
                  (dispatch_field-NotesParser d opts p.body_length_start tag
                    (length text - length next) value (record p { data_length = none }) (inl refl))
                  (λ q k. (
                    separator-Left rest name after value next left s e,
                    noted q.body_length_start rest name after value next tag p left s e is h k,
                  )))
        ]
      where
        noted :
            (n : ℕ) (rest name after value next : Bytes) (tag : ℕ) (p : Parser)
            → Left text rest
            → split_at assignment rest ≡ some (name, after)
            → split_at internal_soh after ≡ some (value, next)
            → fast_parse_tag name ≡ some tag
            → IsBehindBodyLength text p.body_length_start
            → Notes d opts p.body_length_start tag (length text - length next) n
            → IsBehindBodyLength text n
        noted n rest name after value next tag p left s e is h (inl same) =
            subst (IsBehindBodyLength text) (sym same) h
        noted n rest name after value next tag p left s e is h (inr (t, here)) =
            subst (IsBehindBodyLength text) (sym here)
              (behind-next rest name after value next left s e (is ∙ ap some t))

    data-Left :
        (rest name after : Bytes) (n : ℕ)
        → Left text rest
        → split_at assignment rest ≡ some (name, after)
        → Left text (drop (suc n) after)
    data-Left rest name after n (front, left) s =
        let taken : Bytes = name ++ (assignment ∷ take (suc n) after) in
        let parts : rest ≡ taken ++ drop (suc n) after =
          split_at-parts assignment rest name after s
          ∙ ap (λ l. name ++ (assignment ∷ l)) (take-drop (suc n) after)
          ∙ sym (append_assoc name (assignment ∷ take (suc n) after) (drop (suc n) after)) in
        (
          front ++ taken,
          left ∙ ap (λ l. front ++ l) parts ∙ sym (append_assoc front taken (drop (suc n) after)),
        )

    data_field-Inv :
        (rest name after : Bytes) (tag n : ℕ) (p : Parser)
        → Left text rest
        → split_at assignment rest ≡ some (name, after)
        → IsBehindBodyLength text p.body_length_start
        → Keeps Inv (data_field d opts tag n after p)
    unfolding data_field
    data_field-Inv rest name after tag n p (front, left) s h = elim (Option-cases (top p.stack)) [
      | inl e ↦
          rw (data_field, e, strict)
            (Keeps-if Inv (ltb (length after) n) parsing_error undefined tt tt)
      | inr (g, e) ↦
          rw (data_field, e, strict)
            (Keeps-if Inv (ltb (length after) n) parsing_error _ tt
              (data-Left rest name after n (front, left) s, h))
    ]

    check_tag-same :
        (tag : ℕ) (p : Parser)
        → Keeps
            (λ q.
              (q.body_length_start ≡ p.body_length_start)
              × (q.stack ≡ p.stack)
              × (q.data_length ≡ p.data_length))
            (check_tag d opts tag p)
    unfolding check_tag
    check_tag-same tag p =
        Keeps-if _ (misplaced d opts p.tag_count tag)
          (throw_unless opts.relaxed (record p { tag_count = p.tag_count + 1; tag = tag }))
          (parsed (record p { tag_count = p.tag_count + 1; tag = tag })) (strict-throw _ _)
          (refl, refl, refl)

    field-Inv :
        (rest name after : Bytes) (tag : ℕ) (p : Parser)
        → Left text rest
        → split_at assignment rest ≡ some (name, after)
        → fast_parse_tag name ≡ some tag
        → IsBehindBodyLength text p.body_length_start
        → Keeps Inv (field d opts (length text) tag after p)
    unfolding field
    field-Inv rest name after tag p left s is h =
        Keeps-bind
          (λ q.
            (q.body_length_start ≡ p.body_length_start)
            × (q.stack ≡ p.stack)
            × (q.data_length ≡ p.data_length))
          Inv (check_tag d opts tag p) _ (check_tag-same tag p)
          λ q k.
            let h' = subst (IsBehindBodyLength text) (sym k.0) h in
            elim (Option-cases q.data_length) [
              | inl e ↦ rw e (plain_field-Inv rest name after tag q left s is h')
              | inr (m, e) ↦ elim (Bool-cases (is_data (get_field_type d tag))) [
                | inl f ↦ rw (e, f) (data_field-Inv rest name after tag m q left s h')
                | inr f ↦ rw (e, f) (plain_field-Inv rest name after tag q left s is h')
              ]
            ]

    round-Inv :
        (rest : Bytes) (p : Parser)
        → Left text rest
        → IsBehindBodyLength text p.body_length_start
        → Keeps Inv (round d opts (length text) rest p)
    unfolding round skip_field
    round-Inv rest p left h = elim (Option-cases (split_at assignment rest)) [
      | inl e ↦ rw (round, e) (strict-throw Inv ([], p))
      | inr ((name, after), e) ↦ elim (Option-cases (fast_parse_tag name)) [
        | inl f ↦ rw (round, e, f) (strict-throw Inv _)
        | inr (tag, f) ↦ rw (round, e, f) (field-Inv rest name after tag p left e f h)
      ]
    ]

    abbrev pub Ends : Parser → Type 0
    Ends p = IsBehindBodyLength text p.body_length_start

    pub parse_loop-Ends :
        (fuel : ℕ) (rest : Bytes) (p : Parser)
        → Left text rest
        → IsBehindBodyLength text p.body_length_start
        → Keeps Ends (parse_loop d opts fuel (length text) rest p)
    unfolding parse_loop
    parse_loop-Ends fuel [] p left h = h
    parse_loop-Ends zero (c ∷ rest) p left h = tt
    parse_loop-Ends (suc fuel) (c ∷ rest) p left h =
        Keeps-bind Inv Ends (round d opts (length text) (c ∷ rest) p) _
          (round-Inv (c ∷ rest) p left h) λ a k. parse_loop-Ends fuel a.0 a.1 k.0 k.1
