-- ===== src/Message/External.antt =====
-- The external text of a message, src/Message.cpp, beside its internal text.
use openfix.Prelude.{
  ℕ, ◌+◌, ◌*◌, true, false, none, some, List, [], ◌∷◌, ◌++◌, ◌≡◌, ◌==◌, refl, ap, arith, Bytes,
  length, length-append, codes, int, to_chars, inl, inr, Bool-cases, Option-cases,
}
use openfix.LinkedHashMap.{find}
use openfix.Fields
use openfix.Checksum.{compute_checksum, format_checksum}
use openfix.Checksum.Simd.{total, sum_bytes-total}
use openfix.Message.{
  FieldMap, field_map, Groups, no_groups, group, Instances, no_instances, instance_of, Message,
  get_fields,
}
use openfix.Message.Serialize.{
  Rendered, internal_soh, external_soh, is_ignored_tag, append_tag_eq, append_fields,
  append_checksum, append_group, render_groups, append_instances, content, begin_prefix, unchecked,
  adjust_checksum, serialize, to_string,
}

-- An internal and an external text that differ in their separators alone.
pub record Twins (a b : Rendered) : Type 0 where
  pub same_length : length b.out ≡ length a.out
  pub same_count : b.soh_count ≡ a.soh_count
  pub shifted : total b.out ≡ total a.out + 123 * a.soh_count

total_append : (s t : Bytes) → total (s ++ t) ≡ total s + total t
unfolding total
total_append [] t = omega arith
total_append (c ∷ s) t = omega (arith, total_append s t)

abbrev empty : Rendered
empty = record { out = []; soh_count = 0 }

abbrev both : Rendered → Rendered → Rendered
both a b = record { out = a.out ++ b.out; soh_count = a.soh_count + b.soh_count }

empty-Twins : Twins empty empty
unfolding total
empty-Twins = ground arith

both-Twins : (a b c d : Rendered) → Twins a b → Twins c d → Twins (both a c) (both b d)
both-Twins a b c d h k = record {
  same_length =
      omega
        (arith, length-append a.out c.out, length-append b.out d.out, h.same_length, k.same_length);
  same_count = omega (arith, h.same_count, k.same_count);
  shifted = omega (arith, total_append a.out c.out, total_append b.out d.out, h.shifted, k.shifted);
}

-- A field: a text with a separator at its end.
abbrev ended : ℕ → Bytes → Bytes → Rendered
ended soh tag v = record { out = tag ++ (v ++ soh ∷ []); soh_count = 1 }

ended-Twins : (tag v : Bytes) → Twins (ended internal_soh tag v) (ended external_soh tag v)
unfolding total
ended-Twins tag v = record {
  same_length = omega (
    arith,
    length-append tag (v ++ 1 ∷ []),
    length-append tag (v ++ 124 ∷ []),
    length-append v (1 ∷ []),
    length-append v (124 ∷ []),
  );
  same_count = refl;
  shifted = omega (
    arith,
    total_append tag (v ++ 1 ∷ []),
    total_append tag (v ++ 124 ∷ []),
    total_append v (1 ∷ []),
    total_append v (124 ∷ []),
  );
}

abbrev lookup : ℕ → List (ℕ × Rendered) → Rendered
lookup k groups = elim (find k groups) [ none ↦ empty | some r ↦ r ]

abbrev TwinGroups : List (ℕ × Rendered) → List (ℕ × Rendered) → Type 0
TwinGroups g h = (k : ℕ) → Twins (lookup k g) (lookup k h)

group-Twins :
    (tag : ℕ) (r q : Rendered) (g h : List (ℕ × Rendered))
    → Twins r q
    → TwinGroups g h
    → TwinGroups ((tag, r) ∷ g) ((tag, q) ∷ h)
unfolding find
group-Twins tag r q g h t ts k = elim (Bool-cases (tag == k)) [
  | inl e ↦ rw (lookup, find, e) t
  | inr e ↦ rw (lookup, find, e) (ts k)
]

append_fields-Twins :
    (fields : List (ℕ × Bytes)) (g h : List (ℕ × Rendered))
    → TwinGroups g h
    → Twins (append_fields true internal_soh fields g) (append_fields true external_soh fields h)
unfolding append_fields
append_fields-Twins [] g h t = empty-Twins
append_fields-Twins ((k, v) ∷ fields) g h t = elim (Bool-cases (is_ignored_tag k)) [
  | inl e ↦ rw e (append_fields-Twins fields g h t)
  | inr e ↦ rw e (
      both-Twins _ _ _ _ (ended-Twins (append_tag_eq k) v)
        (both-Twins _ _ _ _ (t k) (append_fields-Twins fields g h t)))
]

mutual
  unfolding append_group append_checksum render_groups append_instances find

  append_group-Twins :
      (m : FieldMap) → Twins (append_group true internal_soh m) (append_group true external_soh m)
  append_group-Twins (field_map fields subs spec seen) =
      both-Twins _ _ _ _ (append_fields-Twins fields _ _ (render_groups-Twins subs)) empty-Twins

  render_groups-Twins :
      (subs : Groups)
      → TwinGroups (render_groups true internal_soh subs) (render_groups true external_soh subs)
  render_groups-Twins no_groups k = empty-Twins
  render_groups-Twins (group tag instances rest) k =
      group-Twins tag _ _ _ _ (append_instances-Twins instances) (render_groups-Twins rest) k

  append_instances-Twins :
      (instances : Instances)
      → Twins
          (append_instances true internal_soh instances)
          (append_instances true external_soh instances)
  append_instances-Twins no_instances = empty-Twins
  append_instances-Twins (instance_of m rest) =
      both-Twins _ _ _ _ (append_group-Twins m) (append_instances-Twins rest)

content-Twins : (msg : Message) → Twins (content internal_soh msg) (content external_soh msg)
unfolding content
content-Twins msg =
    both-Twins _ _ _ _ (append_group-Twins msg.header)
      (both-Twins _ _ _ _ (append_group-Twins msg.body) (append_group-Twins msg.trailer))

begin_prefix-Twins :
    (msg : Message) → Twins (begin_prefix internal_soh msg) (begin_prefix external_soh msg)
unfolding begin_prefix
begin_prefix-Twins msg = elim (Option-cases (find Fields.begin_string (get_fields msg.header))) [
  | inl e ↦ rw (begin_prefix, e) empty-Twins
  | inr (v, e) ↦ rw (begin_prefix, e) (ended-Twins (codes "8=") v)
]

-- The separators before the checksum.
abbrev separators : ℕ → Message → ℕ
separators soh msg = 1 + (content soh msg).soh_count + (begin_prefix soh msg).soh_count

-- The prefix, the body length and the content.
abbrev framed : ℕ → Rendered → Rendered → Bytes
framed soh prefix body =
    prefix.out ++ (codes "9=" ++ (to_chars (int (length body.out)) ++ (soh ∷ body.out)))

total-framed :
    (soh : ℕ) (prefix body : Rendered)
    → total (framed soh prefix body)
      ≡ total prefix.out
        + (total (codes "9=") + (total (to_chars (int (length body.out))) + (soh + total body.out)))
unfolding total
total-framed soh prefix body =
    let digits = to_chars (int (length body.out)) in
    omega (
      arith,
      total_append prefix.out (codes "9=" ++ (digits ++ (soh ∷ body.out))),
      total_append digits (soh ∷ body.out),
    )

unchecked-shifted :
    (msg : Message)
    → total (unchecked external_soh msg)
      ≡ total (unchecked internal_soh msg) + 123 * separators internal_soh msg
unfolding unchecked
unchecked-shifted msg =
    let p = begin_prefix-Twins msg in
    let c = content-Twins msg in
    omega (
      arith,
      total-framed internal_soh (begin_prefix internal_soh msg) (content internal_soh msg),
      total-framed external_soh (begin_prefix external_soh msg) (content external_soh msg),
      ap (λ n. total (to_chars (int n))) c.same_length,
      p.shifted,
      c.shifted,
    )

checksum-same :
    (msg : Message)
    → adjust_checksum external_soh
        (separators external_soh msg)
        (compute_checksum (unchecked external_soh msg))
      ≡ compute_checksum (unchecked internal_soh msg)
unfolding adjust_checksum compute_checksum
checksum-same msg =
    let counts : separators external_soh msg ≡ separators internal_soh msg =
      omega (arith, (content-Twins msg).same_count, (begin_prefix-Twins msg).same_count) in
    omega (
      arith,
      counts,
      unchecked-shifted msg,
      sum_bytes-total (unchecked external_soh msg) 0,
      sum_bytes-total (unchecked internal_soh msg) 0,
    )

-- The external text of a message, with `|` for SOH, ends with the checksum of the internal text,
-- for every message with whatever groups.
pub to_string-checksum :
    (msg : Message)
    → to_string false msg
      ≡ unchecked external_soh msg
        ++ (codes "10="
            ++ (format_checksum (compute_checksum (unchecked internal_soh msg))
                ++ external_soh ∷ []))
unfolding to_string serialize
to_string-checksum msg = rw (checksum-same msg) refl
