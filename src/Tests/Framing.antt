-- ===== src/Tests/Framing.antt =====
-- Runs of the framing of a connection, and its theorems at bytes that meet their hypotheses.
use openfix.Prelude.{[], ◌∷◌, ◌++◌, ◌<◌, ◌≡◌, refl, arith, Bytes, codes, length, to_chars}
use openfix.LinkedHashMap.{find}
use openfix.Message.Serialize.{
  internal_soh, serialize, content, append_group, append_fields, render_groups, append_checksum,
  append_tag_eq, is_ignored_tag,
}
use openfix.Network.Framing.{
  read_chunks, extract, extract_loop, extract_one, frame, find_text, get_tag_value_view, strip,
}
use openfix.Network.Framing.Chunks.{read_chunks-same}
use openfix.Network.Framing.Whole.{extract-serialize}
use openfix.Dictionary.Parse.{split_at}
use openfix.Tests.Parser.{order, order-Flat}

abbrev wire_rest : Bytes
wire_rest = 1 ∷ codes "9=5" ++ 1 ∷ codes "35=0" ++ 1 ∷ codes "10=161" ++ 1 ∷ []

-- A message in two reads, cut before its body length.
read_chunks-same_example :
    read_chunks (codes "8=FIX.4.2" ∷ wire_rest ∷ []) []
    ≡ read_chunks ((codes "8=FIX.4.2" ++ wire_rest) ∷ []) []
read_chunks-same_example =
    read_chunks-same (codes "8=FIX.4.2" ∷ wire_rest ∷ []) ((codes "8=FIX.4.2" ++ wire_rest) ∷ [])
      refl

order-Content : length (content internal_soh order).out < 2147483648
unfolding content append_group append_fields render_groups append_checksum append_tag_eq
    is_ignored_tag to_chars find
order-Content = omega arith

extract-serialize_example :
    extract (serialize internal_soh order ++ codes "8=FI")
    ≡ (serialize internal_soh order ∷ (extract (codes "8=FI")).0, (extract (codes "8=FI")).1)
extract-serialize_example =
    extract-serialize order (codes "FIX.4.2") (codes "D") ((34, codes "2") ∷ []) order-Flat
      (refl, (refl, (refl, (refl, (refl, (refl, (refl, tt))))))) order-Content (codes "8=FI")

-- A body length without a value makes the loop wait, and keeps what follows from being cut out.
empty_length :
    extract (codes "8=4" ++ 1 ∷ codes "9=" ++ 1 ∷ wire_rest)
    ≡ ([], codes "8=4" ++ 1 ∷ codes "9=" ++ 1 ∷ wire_rest)
unfolding extract extract_loop extract_one frame find_text get_tag_value_view strip split_at
empty_length = refl
