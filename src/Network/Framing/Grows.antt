-- ===== src/Network/Framing/Grows.antt =====
-- A round of ReadBuffer::read, src/Network.cpp, when bytes arrive behind.
use openfix.Prelude.{
  ℕ, zero, suc, ◌-◌, ◌<◌, ◌≤◌, some, [], ◌∷◌, ◌++◌, Bytes, codes, length, length-append,
  length-drop, take, drop, ◌≡◌, ◌≢◌, refl, sym, ap, ◌∙◌, arith, inl, inr, Option-cases,
}
use openfix.Message.Serialize.{internal_soh}
use openfix.Network.Framing.{
  begin_string_tag, body_length_pattern, checksum_pattern, strip, find_text, get_tag_value_view,
  from_chars_length, Round, waits, skips, cuts, cut, frame, extract_one,
}
use openfix.Network.Framing.Search.{
  find_text-length, find_text-append, get_tag_value_view-append, get_tag_value_view-shorter,
}

waits-ne : {s m r : Bytes} → waits s ≢ cuts m r
waits-ne = cc

waits-skips : {s r : Bytes} → waits s ≢ skips r
waits-skips = cc

skips-ne : {s m r : Bytes} → skips s ≢ cuts m r
skips-ne = cc

waits-injective : {s r : Bytes} → waits s ≡ waits r → s ≡ r
waits-injective h = cc

cuts-injective : {m r n s : Bytes} → cuts m r ≡ cuts n s → (m ≡ n) × (r ≡ s)
cuts-injective h = (cc, cc)

drop-append : (n : ℕ) (s t : Bytes) → n ≤ length s → drop n (s ++ t) ≡ drop n s ++ t
drop-append zero s t h = refl
drop-append (suc n) [] t h = absurd (omega arith)
drop-append (suc n) (c ∷ s) t h = drop-append n s t (omega arith)

take-append : (n : ℕ) (s t : Bytes) → n ≤ length s → take n (s ++ t) ≡ take n s
take-append zero s t h = refl
take-append (suc n) [] t h = absurd (omega arith)
take-append (suc n) (c ∷ s) t h = ap (◌∷◌ c) (take-append n s t (omega arith))

cut-cuts :
    (message : Bytes) (n : ℕ) (next t m rest : Bytes)
    → length next < length message
    → cut message n next ≡ cuts m rest
    → (cut (message ++ t) n (next ++ t) ≡ cuts m (rest ++ t)) × (length rest < length message)
unfolding cut
cut-cuts message n next t m rest l h =
    elim (Option-cases (get_tag_value_view checksum_pattern (drop n (internal_soh ∷ next)))) [
      | inl e ↦ absurd (waits-ne (rw (cut, e) at h))
      | inr ((sum, r), e) ↦
          let short =
            get_tag_value_view-shorter internal_soh (codes "10=") (drop n (internal_soh ∷ next)) sum
              r e in
          let len = length-drop n (internal_soh ∷ next) in
          let k = cuts-injective (rw (cut, e) at h) in
          let d = drop-append n (internal_soh ∷ next) t (omega (arith, short, len)) in
          let g =
            get_tag_value_view-append internal_soh (codes "10=") (drop n (internal_soh ∷ next)) t
              sum r e in
          let size : length (message ++ t) - length (r ++ t) ≡ length message - length r =
            omega (arith, length-append message t, length-append r t) in
          let taken =
            ap (λ k. take k (message ++ t)) size
            ∙ take-append (length message - length r) message t (omega arith) in
          (
            rw (cut, d, g)
                (ap (λ z. cuts z (r ++ t)) (taken ∙ k.0) ∙ ap (λ z. cuts m (z ++ t)) k.1),
            omega (arith, short, len, ap length k.1),
          )
    ]

cut-waits : (message : Bytes) (n : ℕ) (next r : Bytes) → cut message n next ≡ waits r → r ≡ message
unfolding cut
cut-waits message n next r h =
    elim (Option-cases (get_tag_value_view checksum_pattern (drop n (internal_soh ∷ next)))) [
      | inl e ↦ sym (waits-injective (rw (cut, e) at h))
      | inr ((sum, s), e) ↦ absurd (waits-ne (sym (rw (cut, e) at h)))
    ]

cut-skips : (message : Bytes) (n : ℕ) (next r : Bytes) → cut message n next ≢ skips r
unfolding cut
cut-skips message n next r h =
    elim (Option-cases (get_tag_value_view checksum_pattern (drop n (internal_soh ∷ next)))) [
      | inl e ↦ waits-skips (rw (cut, e) at h)
      | inr ((sum, s), e) ↦ skips-ne (sym (rw (cut, e) at h))
    ]

-- What a round decides, it decides in the same way when bytes have arrived behind.
abbrev pub Grows : (Bytes → Round) → Bytes → Bytes → Round → Type 0
Grows step s t (waits r) = step (s ++ t) ≡ step (r ++ t)
Grows step s t (skips r) = (step (s ++ t) ≡ skips (r ++ t)) × (length r < length s)
Grows step s t (cuts m r) = (step (s ++ t) ≡ cuts m (r ++ t)) × (length r < length s)

cut-Grows :
    (s t : Bytes) (n : ℕ) (next : Bytes) (o : Round)
    → cut s n next ≡ o
    → frame (s ++ t) ≡ cut (s ++ t) n (next ++ t)
    → length next < length s
    → Grows frame s t o
cut-Grows s t n next (waits r) h e l = ap (λ z. frame (z ++ t)) (sym (cut-waits s n next r h))
cut-Grows s t n next (skips r) h e l = absurd (cut-skips s n next r h)
cut-Grows s t n next (cuts m r) h e l = let k = cut-cuts s n next t m r l h in (e ∙ k.0, k.1)

frame-Grows : (s t : Bytes) (o : Round) → frame s ≡ o → Grows frame s t o
unfolding frame
frame-Grows s t o h = elim (Option-cases (get_tag_value_view body_length_pattern s)) [
  | inl e ↦ rw (← h, frame, e) refl
  | inr ((value, next), e) ↦
      let g = get_tag_value_view-append internal_soh (codes "9=") s t value next e in
      let short = get_tag_value_view-shorter internal_soh (codes "9=") s value next e in
      elim (Option-cases (from_chars_length value)) [
        | inl f ↦ rw (← h, frame, e, f) (rw (frame, g, f) refl, short)
        | inr (n, f) ↦ cut-Grows s t n next o (rw (frame, e, f) at h) (rw (frame, g, f) refl) short
      ]
]

frame-waits : (s r : Bytes) → frame s ≡ waits r → r ≡ s
unfolding frame
frame-waits s r h = elim (Option-cases (get_tag_value_view body_length_pattern s)) [
  | inl e ↦ sym (waits-injective (rw (frame, e) at h))
  | inr ((value, next), e) ↦ elim (Option-cases (from_chars_length value)) [
    | inl f ↦ absurd (waits-skips (sym (rw (frame, e, f) at h)))
    | inr (n, f) ↦ cut-waits s n next r (rw (frame, e, f) at h)
  ]
]

-- At the start of a message there is no garbage.
pub extract_one-begin :
    (s : Bytes) → extract_one (begin_string_tag ++ s) ≡ frame (begin_string_tag ++ s)
unfolding extract_one find_text strip
extract_one-begin s = refl

extract_one-found :
    (s garbage back : Bytes)
    → find_text begin_string_tag s ≡ some (garbage, back)
    → extract_one s ≡ frame (begin_string_tag ++ back)
unfolding extract_one
extract_one-found s garbage back e = rw (extract_one, e) refl

found-Grows :
    (s t garbage back : Bytes) (o : Round)
    → find_text begin_string_tag s ≡ some (garbage, back)
    → frame (begin_string_tag ++ back) ≡ o
    → Grows extract_one s t o
unfolding extract_one
found-Grows s t garbage back o e h =
    let stepped =
      extract_one-found (s ++ t) garbage (back ++ t)
        (find_text-append 56 (61 ∷ []) s t garbage back e) in
    let size = find_text-length 56 (61 ∷ []) s garbage back e in
    go o (begin_string_tag ++ back) h (omega (arith, size)) stepped (extract_one-begin (back ++ t))
  where
    go :
        (o : Round) (m : Bytes)
        → frame m ≡ o
        → length m ≤ length s
        → extract_one (s ++ t) ≡ frame (m ++ t)
        → extract_one (m ++ t) ≡ frame (m ++ t)
        → Grows extract_one s t o
    go (waits r) m h l e b = e ∙ sym b ∙ ap (λ z. extract_one (z ++ t)) (sym (frame-waits m r h))
    go (skips r) m h l e b = let (k, short) = frame-Grows m t (skips r) h in (e ∙ k, omega arith)
    go (cuts a r) m h l e b = let (k, short) = frame-Grows m t (cuts a r) h in (e ∙ k, omega arith)

pub extract_one-Grows : (s t : Bytes) (o : Round) → extract_one s ≡ o → Grows extract_one s t o
unfolding extract_one
extract_one-Grows s t o h = elim (Option-cases (find_text begin_string_tag s)) [
  | inl e ↦ rw (← h, extract_one, e) refl
  | inr ((garbage, back), e) ↦ found-Grows s t garbage back o e (rw (extract_one, e) at h)
]
