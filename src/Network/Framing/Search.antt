-- ===== src/Network/Framing/Search.antt =====
-- The searches of src/lib/Utils.h and ReadBuffer, src/Network.cpp, when bytes arrive behind.
use openfix.Prelude.{
  ℕ, suc, ◌+◌, ◌<◌, ◌≤◌, Option, none, some, [], ◌∷◌, ◌++◌, ◌==◌, Bytes, length, is_empty, ◌≡◌, ◌≢◌,
  ap, arith, inl, inr, Bool-cases, Option-cases,
}
use openfix.Message.Serialize.{internal_soh}
use openfix.Dictionary.Parse.{split_at}
use openfix.Dictionary.Ends.Loop.{split_at-length}
use openfix.Network.Framing.{strip, find_text, get_tag_value_view}

pub some-injective : {A : Type 0} {a b : A} → some a ≡ some b → a ≡ b
some-injective h = cc

pub none-ne : {A : Type 0} {a : A} → none ≢ some a
none-ne = cc

strip-append : (p s t back : Bytes) → strip p s ≡ some back → strip p (s ++ t) ≡ some (back ++ t)
unfolding strip
strip-append [] s t back h = ground (arith, h)
strip-append (q ∷ p) [] t back h = cc
strip-append (q ∷ p) (c ∷ s) t back h = ground (arith, h, strip-append p s t back)

strip-length : (p s back : Bytes) → strip p s ≡ some back → length s ≡ length p + length back
unfolding strip
strip-length [] s back h = ground (arith, h)
strip-length (q ∷ p) [] back h = cc
strip-length (q ∷ p) (c ∷ s) back h = ground (arith, h, strip-length p s back)

strip-fails : (p s t : Bytes) → strip p s ≡ none → length p ≤ length s → strip p (s ++ t) ≡ none
unfolding strip
strip-fails [] s t h l = absurd cc
strip-fails (q ∷ p) [] t h l = absurd (omega arith)
strip-fails (q ∷ p) (c ∷ s) t h l = ground (arith, h, strip-fails p s t)

-- A match, with bytes that have arrived behind it.
abbrev pub grown : Bytes → Bytes × Bytes → Option (Bytes × Bytes)
grown t (front, back) = some (front, back ++ t)

module _ (q : ℕ) (p : Bytes) where
  pub find_text-length :
      (s front back : Bytes)
      → find_text (q ∷ p) s ≡ some (front, back)
      → length s ≡ length front + (suc (length p) + length back)
  unfolding find_text strip
  find_text-length [] front back h = absurd (none-ne h)
  find_text-length (c ∷ s) front back h = elim (Option-cases (strip (q ∷ p) (c ∷ s))) [
    | inr (b, e) ↦
        let k = some-injective (rw (find_text, e) at h) in
        omega (
          arith,
          strip-length (q ∷ p) (c ∷ s) b e,
          ap (λ (z : Bytes × Bytes). length z.0) k,
          ap (λ (z : Bytes × Bytes). length z.1) k,
        )
    | inl e ↦ elim (Option-cases (find_text (q ∷ p) s)) [
      | inl f ↦ absurd (none-ne (rw (find_text, e, f) at h))
      | inr ((x, y), f) ↦
          let k = some-injective (rw (find_text, e, f) at h) in
          omega (
            arith,
            find_text-length s x y f,
            ap (λ (z : Bytes × Bytes). length z.0) k,
            ap (λ (z : Bytes × Bytes). length z.1) k,
          )
    ]
  ]

  -- The first occurrence stays the first one when bytes arrive behind.
  pub find_text-append :
      (s t front back : Bytes)
      → find_text (q ∷ p) s ≡ some (front, back)
      → find_text (q ∷ p) (s ++ t) ≡ some (front, back ++ t)
  unfolding find_text
  find_text-append [] t front back h = absurd (none-ne h)
  find_text-append (c ∷ s) t front back h = elim (Option-cases (strip (q ∷ p) (c ∷ s))) [
    | inr (b, e) ↦
        let k = some-injective (rw (find_text, e) at h) in
        rw (find_text, strip-append (q ∷ p) (c ∷ s) t b e) (ap (grown t) k)
    | inl e ↦ elim (Option-cases (find_text (q ∷ p) s)) [
      | inl f ↦ absurd (none-ne (rw (find_text, e, f) at h))
      | inr ((x, y), f) ↦
          let k = some-injective (rw (find_text, e, f) at h) in
          let long : suc (length p) ≤ length (c ∷ s) = omega (arith, find_text-length s x y f) in
          rw (find_text, strip-fails (q ∷ p) (c ∷ s) t e long, find_text-append s t x y f)
            (ap (grown t) k)
    ]
  ]

split_at-grown :
    (c : ℕ) (s t front back : Bytes)
    → split_at c s ≡ some (front, back)
    → split_at c (s ++ t) ≡ some (front, back ++ t)
unfolding split_at
split_at-grown c [] t front back h = absurd (none-ne h)
split_at-grown c (b ∷ s) t front back h = elim (Bool-cases (b == c)) [
  | inl e ↦ let k = some-injective (rw (split_at, e) at h) in rw (split_at, e) (ap (grown t) k)
  | inr e ↦ elim (Option-cases (split_at c s)) [
    | inl f ↦ absurd (none-ne (rw (split_at, e, f) at h))
    | inr ((x, y), f) ↦
        let k = some-injective (rw (split_at, e, f) at h) in
        rw (split_at, e, split_at-grown c s t x y f) (ap (grown t) k)
  ]
]

module _ (q : ℕ) (p : Bytes) where
  pub get_tag_value_view-append :
      (s t value next : Bytes)
      → get_tag_value_view (q ∷ p) s ≡ some (value, next)
      → get_tag_value_view (q ∷ p) (s ++ t) ≡ some (value, next ++ t)
  unfolding get_tag_value_view
  get_tag_value_view-append s t value next h = elim (Option-cases (find_text (q ∷ p) s)) [
    | inl e ↦ absurd (none-ne (rw (get_tag_value_view, e) at h))
    | inr ((x, y), e) ↦ elim (Option-cases (split_at internal_soh y)) [
      | inl f ↦ absurd (none-ne (rw (get_tag_value_view, e, f) at h))
      | inr ((v, n), f) ↦ elim (Bool-cases (is_empty v)) [
        | inl g ↦ absurd (none-ne (rw (get_tag_value_view, e, f, g) at h))
        | inr g ↦
            let k = some-injective (rw (get_tag_value_view, e, f, g) at h) in
            rw
              (
                get_tag_value_view,
                find_text-append q p s t x y e,
                split_at-grown internal_soh y t v n f,
                g,
              )
              (ap (grown t) k)
      ]
    ]
  ]

  pub get_tag_value_view-shorter :
      (s value next : Bytes)
      → get_tag_value_view (q ∷ p) s ≡ some (value, next)
      → length next < length s
  unfolding get_tag_value_view
  get_tag_value_view-shorter s value next h = elim (Option-cases (find_text (q ∷ p) s)) [
    | inl e ↦ absurd (none-ne (rw (get_tag_value_view, e) at h))
    | inr ((x, y), e) ↦ elim (Option-cases (split_at internal_soh y)) [
      | inl f ↦ absurd (none-ne (rw (get_tag_value_view, e, f) at h))
      | inr ((v, n), f) ↦ elim (Bool-cases (is_empty v)) [
        | inl g ↦ absurd (none-ne (rw (get_tag_value_view, e, f, g) at h))
        | inr g ↦
            let k = some-injective (rw (get_tag_value_view, e, f, g) at h) in
            omega (
              arith,
              find_text-length q p s x y e,
              split_at-length internal_soh y v n f,
              ap (λ (z : Bytes × Bytes). length z.1) k,
            )
      ]
    ]
  ]
