-- ===== src/Checksum/Simd.antt =====
-- src/Checksum.h: the SSE2 and AVX2 paths of `computeChecksum`. A vector is the list of its 64-bit
-- lanes; `_mm_sad_epu8(v, 0)` sums the eight bytes under each lane, and `_mm_extract_epi16(v, 4 * i)`
-- is the low 16 bits of lane i.
use openfix.Prelude.{
  ℕ, zero, suc, ◌+◌, ◌%◌, ◌<◌, [], ◌∷◌, ◌≡◌, ap, ◌∙◌, arith, Bytes, length, take, drop, length-drop,
  drop-drop, ltb, inl, inr, Bool-cases, Option, none, some, if◌then◌else◌,
}
use openfix.Checksum.{sum_bytes, compute_checksum}

-- The sum of the bytes, `uint8_t` by `uint8_t`.
unfoldable pub total : Bytes → ℕ
total [] = 0
total (b ∷ text) = b + total text

-- One lane of `_mm_sad_epu8(v, zero)`: the eight bytes of `text` from `offset` on.
unfoldable pub sad_lane : ℕ → Bytes → ℕ
unfolding total
sad_lane offset text = total (take 8 (drop offset text))

-- `_mm_add_epi64` on a lane, and `_mm_extract_epi16` of its low bits.
unfoldable pub add_lane : ℕ → ℕ → ℕ
add_lane a b = (a + b) % 18446744073709551616

unfoldable pub extract_lane : ℕ → ℕ
extract_lane v = v % 65536

-- The SSE2 loop, with the two lanes of `vsum`: 16 bytes at a time, then the two lanes collapse and
-- the remaining bytes are added. `none`: the fuel is used up.
unfoldable pub sse2_loop : ℕ → Bytes → ℕ → ℕ → Option ℕ
unfolding sad_lane add_lane extract_lane sum_bytes
sse2_loop zero text v0 v1 = none
sse2_loop (suc fuel) text v0 v1 =
    let rest =
      sse2_loop fuel (drop 16 text) (add_lane v0 (sad_lane 0 text))
        (add_lane v1 (sad_lane 8 text)) in
    if ltb (length text) 16
    then some (sum_bytes text ((extract_lane v0 + extract_lane v1) % 4294967296) % 256)
    else rest

unfoldable pub compute_checksum_sse2 : Bytes → Option ℕ
unfolding sse2_loop
compute_checksum_sse2 text = sse2_loop (suc (length text)) text 0 0

-- The AVX2 path after its loop: the four lanes collapse to two, 16 more bytes are added where they
-- are there, and the remaining bytes.
unfoldable pub avx2_rest : Bytes → ℕ → ℕ
unfolding sad_lane extract_lane sum_bytes
avx2_rest text sum =
    if ltb (length text) 16
    then sum_bytes text sum % 256
    else sum_bytes (drop 16 text)
        ((sum + (extract_lane (sad_lane 0 text) + extract_lane (sad_lane 8 text))) % 4294967296)
      % 256

unfoldable pub avx2_loop : ℕ → Bytes → ℕ → ℕ → ℕ → ℕ → Option ℕ
unfolding sad_lane add_lane extract_lane avx2_rest
avx2_loop zero text v0 v1 v2 v3 = none
avx2_loop (suc fuel) text v0 v1 v2 v3 =
    let rest =
      avx2_loop fuel (drop 32 text) (add_lane v0 (sad_lane 0 text)) (add_lane v1 (sad_lane 8 text))
        (add_lane v2 (sad_lane 16 text)) (add_lane v3 (sad_lane 24 text)) in
    if ltb (length text) 32
    then some (
        avx2_rest text
          ((extract_lane (add_lane v0 v2) + extract_lane (add_lane v1 v3)) % 4294967296))
    else rest

unfoldable pub compute_checksum_avx2 : Bytes → Option ℕ
unfolding avx2_loop
compute_checksum_avx2 text = avx2_loop (suc (length text)) text 0 0 0 0

pub sum_bytes-total : (text : Bytes) (sum : ℕ) → sum_bytes text sum % 256 ≡ (sum + total text) % 256
unfolding sum_bytes total
sum_bytes-total [] sum = omega arith
sum_bytes-total (b ∷ text) sum = omega (arith, sum_bytes-total text ((sum + b) % 4294967296))

total-take-drop : (n : ℕ) (text : Bytes) → total text ≡ total (take n text) + total (drop n text)
unfolding total
total-take-drop zero text = omega arith
total-take-drop (suc n) [] = omega arith
total-take-drop (suc n) (b ∷ text) = omega (arith, total-take-drop n text)

add_lane-mod : (a b c : ℕ) → (add_lane a b + c) % 256 ≡ (a + b + c) % 256
unfolding add_lane
add_lane-mod a b c = omega arith

collapse-mod :
    (a b c : ℕ) → ((extract_lane a + extract_lane b) % 4294967296 + c) % 256 ≡ (a + b + c) % 256
unfolding extract_lane
collapse-mod a b c = omega arith

-- Two lanes hold 16 bytes.
lanes-total : (text : Bytes) → total text ≡ sad_lane 0 text + sad_lane 8 text + total (drop 16 text)
unfolding sad_lane
lanes-total text =
    omega (
      arith,
      total-take-drop 8 text,
      total-take-drop 8 (drop 8 text),
      ap total (drop-drop 8 8 text),
    )

lanes-mod :
    (text : Bytes) (v0 v1 : ℕ)
    → (add_lane v0 (sad_lane 0 text) + add_lane v1 (sad_lane 8 text) + total (drop 16 text)) % 256
      ≡ (v0 + v1 + total text) % 256
lanes-mod text v0 v1 =
    let s0 = sad_lane 0 text in
    let s1 = sad_lane 8 text in
    let back = total (drop 16 text) in
    omega (
      arith,
      lanes-total text,
      add_lane-mod v0 s0 (add_lane v1 s1 + back),
      add_lane-mod v1 s1 (v0 + s0 + back),
    )

sse2_loop-total :
    (fuel : ℕ) (text : Bytes) (v0 v1 : ℕ)
    → length text < fuel
    → sse2_loop fuel text v0 v1 ≡ some ((v0 + v1 + total text) % 256)
unfolding sse2_loop add_lane extract_lane
sse2_loop-total zero text v0 v1 h = absurd (omega arith)
sse2_loop-total (suc fuel) text v0 v1 h =
    let more =
      sse2_loop-total fuel (drop 16 text) (add_lane v0 (sad_lane 0 text))
        (add_lane v1 (sad_lane 8 text)) in
    elim (Bool-cases (ltb (length text) 16)) [
      | inl e ↦ rw e (
          ap some (
            sum_bytes-total text ((extract_lane v0 + extract_lane v1) % 4294967296)
            ∙ collapse-mod v0 v1 (total text)))
      | inr e ↦ rw e (more (ground (arith, length-drop 16 text)) ∙ ap some (lanes-mod text v0 v1))
    ]

-- The SSE2 path gives the checksum of the portable loop, and its loop ends.
pub compute_checksum_sse2-lem :
    (text : Bytes) → compute_checksum_sse2 text ≡ some (compute_checksum text)
unfolding compute_checksum compute_checksum_sse2
compute_checksum_sse2-lem text =
    sse2_loop-total (suc (length text)) text 0 0 (omega arith)
    ∙ ap some (omega (arith, sum_bytes-total text 0))

rest-mod :
    (sum a b c : ℕ)
    → ((sum + (extract_lane a + extract_lane b)) % 4294967296 + c) % 256 ≡ (sum + a + b + c) % 256
unfolding extract_lane
rest-mod sum a b c = omega arith

avx2_rest-total : (text : Bytes) (sum : ℕ) → avx2_rest text sum ≡ (sum + total text) % 256
unfolding avx2_rest
avx2_rest-total text sum = elim (Bool-cases (ltb (length text) 16)) [
  | inl e ↦ rw e (sum_bytes-total text sum)
  | inr e ↦ rw e (
      sum_bytes-total (drop 16 text) _
      ∙ omega (
        arith,
        lanes-total text,
        rest-mod sum (sad_lane 0 text) (sad_lane 8 text) (total (drop 16 text)),
      ))
]

-- Four lanes hold 32 bytes.
quads-total :
    (text : Bytes)
    → total text
      ≡ sad_lane 0 text
        + sad_lane 8 text
        + sad_lane 16 text
        + sad_lane 24 text
        + total (drop 32 text)
unfolding sad_lane
quads-total text = omega (
  arith,
  lanes-total text,
  lanes-total (drop 16 text),
  ap (λ t. total (take 8 t)) (drop-drop 8 16 text),
  ap total (drop-drop 16 16 text),
)

quads-mod :
    (text : Bytes) (v0 v1 v2 v3 : ℕ)
    → (add_lane v0 (sad_lane 0 text)
          + add_lane v1 (sad_lane 8 text)
          + add_lane v2 (sad_lane 16 text)
          + add_lane v3 (sad_lane 24 text)
          + total (drop 32 text))
        % 256
      ≡ (v0 + v1 + v2 + v3 + total text) % 256
quads-mod text v0 v1 v2 v3 =
    let s0 = sad_lane 0 text in
    let s1 = sad_lane 8 text in
    let s2 = sad_lane 16 text in
    let s3 = sad_lane 24 text in
    let back = total (drop 32 text) in
    omega (
      arith,
      quads-total text,
      add_lane-mod v0 s0 (add_lane v1 s1 + add_lane v2 s2 + add_lane v3 s3 + back),
      add_lane-mod v1 s1 (v0 + s0 + add_lane v2 s2 + add_lane v3 s3 + back),
      add_lane-mod v2 s2 (v0 + s0 + v1 + s1 + add_lane v3 s3 + back),
      add_lane-mod v3 s3 (v0 + s0 + v1 + s1 + v2 + s2 + back),
    )

four-mod :
    (v0 v1 v2 v3 c : ℕ)
    → ((extract_lane (add_lane v0 v2) + extract_lane (add_lane v1 v3)) % 4294967296 + c) % 256
      ≡ (v0 + v1 + v2 + v3 + c) % 256
four-mod v0 v1 v2 v3 c =
    collapse-mod (add_lane v0 v2) (add_lane v1 v3) c
    ∙ omega (arith, add_lane-mod v0 v2 (add_lane v1 v3 + c), add_lane-mod v1 v3 (v0 + v2 + c))

avx2_loop-total :
    (fuel : ℕ) (text : Bytes) (v0 v1 v2 v3 : ℕ)
    → length text < fuel
    → avx2_loop fuel text v0 v1 v2 v3 ≡ some ((v0 + v1 + v2 + v3 + total text) % 256)
unfolding avx2_loop
avx2_loop-total zero text v0 v1 v2 v3 h = absurd (omega arith)
avx2_loop-total (suc fuel) text v0 v1 v2 v3 h =
    let more =
      avx2_loop-total fuel (drop 32 text) (add_lane v0 (sad_lane 0 text))
        (add_lane v1 (sad_lane 8 text)) (add_lane v2 (sad_lane 16 text))
        (add_lane v3 (sad_lane 24 text)) in
    elim (Bool-cases (ltb (length text) 32)) [
      | inl e ↦ rw e (ap some (avx2_rest-total text _ ∙ four-mod v0 v1 v2 v3 (total text)))
      | inr e ↦
          rw e (more (ground (arith, length-drop 32 text)) ∙ ap some (quads-mod text v0 v1 v2 v3))
    ]

-- The AVX2 path gives the checksum of the portable loop, and its loop ends.
pub compute_checksum_avx2-lem :
    (text : Bytes) → compute_checksum_avx2 text ≡ some (compute_checksum text)
unfolding compute_checksum compute_checksum_avx2
compute_checksum_avx2-lem text =
    avx2_loop-total (suc (length text)) text 0 0 0 0 (omega arith)
    ∙ ap some (omega (arith, sum_bytes-total text 0))
