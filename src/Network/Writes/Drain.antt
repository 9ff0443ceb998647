-- ===== src/Network/Writes/Drain.antt =====
-- The bytes that wait in a write buffer of src/Network.cpp, and what `flushWrite` takes of them.
use openfix.Prelude.{
  ℕ, zero, suc, ◌-◌, ◌≤◌, true, List, [], ◌∷◌, ◌++◌, ◌==◌, leb, ◌≡◌, refl, sym, ap, ◌∙◌, arith,
  Bytes, length, take, drop, is_empty, take-append-drop, length-drop, drop-nil, drop-drop,
  append_assoc, append-nil, inl, inr, Bool-cases,
}
use openfix.Network.Writes.{WriteBuffer, concat, vectors, account, refill, write_vectors}

-- What waits, and all that was handed over.
abbrev pub pending : WriteBuffer → Bytes
pending w = vectors w.drain w.offset ++ concat w.queue

abbrev pub stream : WriteBuffer → Bytes
stream w = w.wire ++ pending w

-- The offset is within the first entry.
abbrev pub IsWithin : List Bytes → ℕ → Type 0
IsWithin [] offset = Unit {0}
IsWithin (msg ∷ msgs) offset = offset ≤ length msg

drop-append-le : (k : ℕ) (s t : Bytes) → k ≤ length s → drop k (s ++ t) ≡ drop k s ++ t
drop-append-le zero s t h = refl
drop-append-le (suc k) [] t h = absurd (omega arith)
drop-append-le (suc k) (c ∷ s) t h = drop-append-le k s t (omega arith)

drop-append-ge : (k : ℕ) (s t : Bytes) → length s ≤ k → drop k (s ++ t) ≡ drop (k - length s) t
drop-append-ge k [] t h = ap (λ i. drop i t) (omega arith)
drop-append-ge zero (c ∷ s) t h = absurd (omega arith)
drop-append-ge (suc k) (c ∷ s) t h =
    drop-append-ge k s t (omega arith) ∙ ap (λ i. drop i t) (omega arith)

vectors-zero : (msgs : List Bytes) → vectors msgs 0 ≡ concat msgs
unfolding vectors concat
vectors-zero [] = refl
vectors-zero (msg ∷ msgs) = refl

zero-IsWithin : (msgs : List Bytes) → IsWithin msgs 0
zero-IsWithin [] = tt
zero-IsWithin (msg ∷ msgs) = omega arith

account-vectors :
    (msgs : List Bytes) (offset sent : ℕ)
    → IsWithin msgs offset
    → vectors (account msgs offset sent).0 (account msgs offset sent).1
      ≡ drop sent (vectors msgs offset)
unfolding account vectors concat
account-vectors [] offset sent h = sym (drop-nil sent)
account-vectors (msg ∷ msgs) offset sent h = elim (Bool-cases (sent == 0)) [
  | inl none_sent ↦ (let z : sent ≡ 0 = ground arith in rw z refl)
  | inr some_sent ↦ elim (Bool-cases (leb (length msg - offset) sent)) [
    | inl whole ↦
        rw (some_sent, whole)
          (account-vectors msgs 0 (sent - (length msg - offset)) (zero-IsWithin msgs)
            ∙ ap (drop (sent - (length msg - offset))) (vectors-zero msgs)
            ∙ ap (λ i. drop (sent - i) (concat msgs)) (sym (length-drop offset msg))
            ∙ sym (
                drop-append-ge sent (drop offset msg) (concat msgs)
                  (ground (arith, length-drop offset msg))))
    | inr part ↦
        rw (some_sent, part)
          (sym (
            drop-append-le sent (drop offset msg) (concat msgs)
              (ground (arith, length-drop offset msg))
            ∙ ap (λ t. t ++ concat msgs) (drop-drop sent offset msg)))
  ]
]

account-IsWithin :
    (msgs : List Bytes) (offset sent : ℕ)
    → IsWithin msgs offset
    → IsWithin (account msgs offset sent).0 (account msgs offset sent).1
unfolding account
account-IsWithin [] offset sent h = tt
account-IsWithin (msg ∷ msgs) offset sent h = elim (Bool-cases (sent == 0)) [
  | inl none_sent ↦ rw none_sent h
  | inr some_sent ↦ elim (Bool-cases (leb (length msg - offset) sent)) [
    | inl whole ↦ rw (some_sent, whole) (account-IsWithin msgs 0 _ (zero-IsWithin msgs))
    | inr part ↦ rw (some_sent, part) (ground arith)
  ]
]

pub concat_append : (ms ns : List Bytes) → concat (ms ++ ns) ≡ concat ms ++ concat ns
unfolding concat
concat_append [] ns = refl
concat_append (m ∷ ms) ns = rw (concat_append ms ns, append_assoc m (concat ms) (concat ns)) refl

-- The first entries are the beginning of what waits.
vectors-take :
    (n : ℕ) (msgs : List Bytes) (offset : ℕ)
    → vectors (take (suc n) msgs) offset ++ concat (drop (suc n) msgs) ≡ vectors msgs offset
unfolding vectors concat
vectors-take n [] offset = refl
vectors-take n (msg ∷ msgs) offset =
    append_assoc (drop offset msg) (concat (take n msgs)) (concat (drop n msgs))
    ∙ ap (λ t. drop offset msg ++ t)
        (sym (concat_append (take n msgs) (drop n msgs)) ∙ ap concat (take-append-drop n msgs))

-- What is taken of the beginning, and the rest without it.
pub take-rest : (k : ℕ) (s t : Bytes) → take k s ++ drop (length (take k s)) (s ++ t) ≡ s ++ t
take-rest zero s t = refl
take-rest (suc k) [] t = refl
take-rest (suc k) (c ∷ s) t = ap (λ u. c ∷ u) (take-rest k s t)

pub write_vectors-stream :
    (k : ℕ) (w : WriteBuffer) → IsWithin w.drain w.offset → stream (write_vectors k w) ≡ stream w
unfolding write_vectors
write_vectors-stream k w h =
    let bytes = take k (vectors (take 64 w.drain) w.offset) in
    let all = vectors w.drain w.offset in
    let moved : bytes ++ drop (length bytes) all ≡ all =
      ap (λ t. bytes ++ drop (length bytes) t) (sym (vectors-take 63 w.drain w.offset))
      ∙ take-rest k (vectors (take 64 w.drain) w.offset) (concat (drop 64 w.drain))
      ∙ vectors-take 63 w.drain w.offset in
    elim (Bool-cases (is_empty bytes)) [
      | inl e ↦ rw e refl
      | inr e ↦ rw e (
          ap (λ t. (w.wire ++ bytes) ++ (t ++ concat w.queue))
            (account-vectors w.drain w.offset (length bytes) h)
          ∙ append_assoc w.wire bytes (drop (length bytes) all ++ concat w.queue)
          ∙ ap (λ t. w.wire ++ t)
              (sym (append_assoc bytes (drop (length bytes) all) (concat w.queue))
                ∙ ap (λ t. t ++ concat w.queue) moved))
    ]

pub write_vectors-IsWithin :
    (k : ℕ) (w : WriteBuffer)
    → IsWithin w.drain w.offset
    → IsWithin (write_vectors k w).drain (write_vectors k w).offset
unfolding write_vectors
write_vectors-IsWithin k w h =
    let bytes = take k (vectors (take 64 w.drain) w.offset) in
    elim (Bool-cases (is_empty bytes)) [
      | inl e ↦ rw e h
      | inr e ↦ rw e (account-IsWithin w.drain w.offset (length bytes) h)
    ]

pub is_empty-nil : {A : Type 0} → (xs : List A) → is_empty xs ≡ true → xs ≡ []
is_empty-nil [] h = refl
is_empty-nil (x ∷ xs) h = absurd (ground (arith, h))

pub refill-stream :
    (w : WriteBuffer)
    → IsWithin w.drain w.offset
    → (stream (refill w) ≡ stream w) × IsWithin (refill w).drain (refill w).offset
unfolding refill vectors concat
refill-stream w h = elim (Bool-cases (is_empty w.drain)) [
  | inl e ↦ elim (Bool-cases (is_empty w.queue)) [
    | inl f ↦ rw (e, f) (refl, h)
    | inr f ↦
        rw (e, f)
          (
            ap (λ t. w.wire ++ t) (append-nil (vectors w.queue 0) ∙ vectors-zero w.queue)
                ∙ ap (λ d. w.wire ++ (vectors d w.offset ++ concat w.queue))
                    (sym (is_empty-nil w.drain e)),
            zero-IsWithin w.queue,
          )
  ]
  | inr e ↦ rw e (refl, h)
]
