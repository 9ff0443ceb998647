-- ===== src/Tests/Messages.antt =====
-- The theorems on messages, checksums and connections at concrete inputs.
use openfix.Prelude.{
  List, ◌≡◌, ◌++◌, false, [], ◌∷◌, codes, some, refl, inl, true, if◌then◌else◌, ◌==◌,
}
use openfix.LinkedHashMap.{has}
use openfix.Message.{get_field, has_field, insert_field_view}
use openfix.Message.Order.{get_field-insert_field_view}
use openfix.Checksum.{compute_checksum, format_checksum}
use openfix.Message.Serialize.{to_string, unchecked, external_soh, internal_soh}
use openfix.Message.External.{to_string-checksum}
use openfix.Checksum.Simd.{
  compute_checksum_sse2, compute_checksum_avx2, compute_checksum_sse2-lem,
  compute_checksum_avx2-lem,
}
use openfix.Network.Handler.{
  new_handler, send, set_connection, store_invalid, store_unconnected, written, queued, dropped,
}
use openfix.Network.Handler.Sound.{
  connects, begins_invalidate, ends_invalidate, step, steps, steps-send,
}
use openfix.Network.Writes
use openfix.Network.Writes.{WriteBuffer, takes, again}
use openfix.Network.Writes.Drain.{stream}
use openfix.Network.Writes.Stream.{hands, flushes, handed, steps-stream}
use openfix.Tests.Fixture.{order}

get_field-insert_field_view_example :
    get_field 34 (insert_field_view 43 (codes "Y") true order.header)
    ≡ (if 43 == 34 then some (codes "Y") else get_field 34 order.header)
unfolding has_field has
get_field-insert_field_view_example =
    get_field-insert_field_view 43 34 (codes "Y") true order.header (inl refl)

compute_checksum_sse2-lem_example :
    compute_checksum_sse2 (codes "8=FIX.4.2|35=0|49=A|")
    ≡ some (compute_checksum (codes "8=FIX.4.2|35=0|49=A|"))
compute_checksum_sse2-lem_example = compute_checksum_sse2-lem (codes "8=FIX.4.2|35=0|49=A|")

compute_checksum_avx2-lem_example :
    compute_checksum_avx2 (codes "8=FIX.4.2|35=0|49=A|")
    ≡ some (compute_checksum (codes "8=FIX.4.2|35=0|49=A|"))
compute_checksum_avx2-lem_example = compute_checksum_avx2-lem (codes "8=FIX.4.2|35=0|49=A|")

steps-send_example :
    (send true
      (steps
        (connects 7 ∷ begins_invalidate ∷ connects 8 ∷ ends_invalidate ∷ connects 9 ∷ [])
        (new_handler, 0)).0).1
    ≡ (if true then written else queued)
unfolding steps step send set_connection store_invalid store_unconnected
steps-send_example =
    steps-send (connects 7 ∷ begins_invalidate ∷ connects 8 ∷ ends_invalidate ∷ connects 9 ∷ [])
      true refl refl

-- Between the two stores the handler says that it is connected, and drops a packet.
between_stores :
    (send true (steps (connects 7 ∷ begins_invalidate ∷ []) (new_handler, 0)).0).1 ≡ dropped
unfolding steps step send set_connection store_invalid
between_stores = refl

to_string-checksum_example :
    to_string false order
    ≡ unchecked external_soh order
      ++ (codes "10="
          ++ (format_checksum (compute_checksum (unchecked internal_soh order))
              ++ external_soh ∷ []))
to_string-checksum_example = to_string-checksum order

abbrev idle_buffer : WriteBuffer
idle_buffer = record { queue = []; drain = []; offset = 0; valid = true; wire = [] }

abbrev write_steps : List Writes.Stream.Step
write_steps =
    hands true (takes 1) (codes "ab") ∷ hands true again (codes "cd") ∷ flushes (takes 2) ∷ []

steps-stream_example :
    stream (Writes.Stream.steps write_steps idle_buffer) ≡ stream idle_buffer ++ handed write_steps
steps-stream_example = steps-stream write_steps idle_buffer (tt, (tt, (tt, tt))) tt
