-- ===== src/Message/Serialize.antt =====
-- src/Message.cpp: the wire text of a message.
use openfix.Prelude.{
  ℕ, ◌+◌, ◌*◌, ◌-◌, ◌%◌, Bool, true, ◌&&◌, ◌||◌, none, some, List, [], ◌∷◌, ◌++◌, ◌==◌,
  if◌then◌else◌, Bytes, codes, length, int, to_chars,
}
use openfix.LinkedHashMap.{find}
use openfix.Fields.{begin_string, body_length, check_sum}
use openfix.Checksum.{compute_checksum, format_checksum}
use openfix.Message.{
  FieldMap, field_map, Groups, no_groups, group, Instances, no_instances, instance_of, Message,
  get_fields,
}

-- The separators: INTERNAL_SOH_CHAR and EXTERNAL_SOH_CHAR.
abbrev pub internal_soh : ℕ
internal_soh = 1

abbrev pub external_soh : ℕ
external_soh = 124

unfoldable pub is_ignored_tag : ℕ → Bool
is_ignored_tag tag = (tag == begin_string) || (tag == body_length) || (tag == check_sum)

-- appendTagEq: the tag, by the table or by `to_chars`, and the assignment sign.
unfoldable pub append_tag_eq : ℕ → Bytes
append_tag_eq tag = to_chars (int tag) ++ 61 ∷ []

-- A text and the number of separators in it.
pub record Rendered : Type 0 where
  pub out : Bytes
  pub soh_count : ℕ

abbrev nothing : Rendered
nothing = record { out = []; soh_count = 0 }

abbrev join : Rendered → Rendered → Rendered
join a b = record { out = a.out ++ b.out; soh_count = a.soh_count + b.soh_count }

module _ (skip_ignored : Bool) (soh : ℕ) where
  -- The loop of appendGroup over the fields; the groups come as their texts, by tag.
  unfoldable pub append_fields : List (ℕ × Bytes) → List (ℕ × Rendered) → Rendered
  unfolding is_ignored_tag append_tag_eq
  append_fields [] groups = nothing
  append_fields ((k, v) ∷ fields) groups =
      let rest = append_fields fields groups in
      if skip_ignored && is_ignored_tag k
      then rest
      else join (record { out = append_tag_eq k ++ (v ++ soh ∷ []); soh_count = 1 })
          (join (elim (find k groups) [ none ↦ nothing | some r ↦ r ]) rest)

  -- The checksum that is written once more where ignored tags are not skipped; it is not counted.
  unfoldable pub append_checksum : List (ℕ × Bytes) → Rendered
  unfolding append_tag_eq
  append_checksum fields = if skip_ignored then nothing else elim (find check_sum fields) [
    | none ↦ nothing
    | some v ↦ record { out = append_tag_eq check_sum ++ (v ++ soh ∷ []); soh_count = 0 }
  ]

  -- appendGroup, over the map, its groups and their instances.
  unfoldable mutual
    unfolding append_fields append_checksum

    pub append_group : FieldMap → Rendered
    append_group (field_map fields subs spec seen) =
        join (append_fields fields (render_groups subs)) (append_checksum fields)

    pub render_groups : Groups → List (ℕ × Rendered)
    render_groups no_groups = []
    render_groups (group tag instances rest) =
        (tag, append_instances instances) ∷ render_groups rest

    pub append_instances : Instances → Rendered
    append_instances no_instances = nothing
    append_instances (instance_of m rest) = join (append_group m) (append_instances rest)

-- Message::serializeTo, phase 1: header, body and trailer without the ignored tags.
unfoldable pub content : ℕ → Message → Rendered
unfolding append_group
content soh msg =
    join (append_group true soh msg.header)
      (join (append_group true soh msg.body) (append_group true soh msg.trailer))

-- The BeginString prefix.
unfoldable pub begin_prefix : ℕ → Message → Rendered
begin_prefix soh msg = elim (find begin_string (get_fields msg.header)) [
  | none ↦ nothing
  | some v ↦ record { out = codes "8=" ++ (v ++ soh ∷ []); soh_count = 1 }
]

-- Phase 2: the prefix, the body length and the content.
unfoldable pub unchecked : ℕ → Message → Bytes
unfolding content begin_prefix
unchecked soh msg =
    let body = (content soh msg).out in
    (begin_prefix soh msg).out ++ (codes "9=" ++ (to_chars (int (length body)) ++ (soh ∷ body)))

-- `checksum += count * (INTERNAL_SOH_CHAR - soh_char)` on a `uint8_t`.
unfoldable pub adjust_checksum : ℕ → ℕ → ℕ → ℕ
adjust_checksum soh count checksum =
    if soh == internal_soh then checksum else (checksum + count * (257 - soh)) % 256

unfoldable pub serialize : ℕ → Message → Bytes
unfolding unchecked adjust_checksum
serialize soh msg =
    let text = unchecked soh msg in
    let count = 1 + (content soh msg).soh_count + (begin_prefix soh msg).soh_count in
    text
    ++ (codes "10="
        ++ (format_checksum (adjust_checksum soh count (compute_checksum text)) ++ soh ∷ []))

-- Message::toString(internal)
unfoldable pub to_string : Bool → Message → Bytes
unfolding serialize
to_string internal msg = serialize (if internal then internal_soh else external_soh) msg
