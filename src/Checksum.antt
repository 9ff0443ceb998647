-- ===== src/Checksum.antt =====
-- src/Checksum.h: the checksum over bytes by three code paths, and its three digits.
pub mod Simd
use openfix.Prelude.{
  ℕ, zero, suc, ◌+◌, ◌-◌, ◌/◌, ◌%◌, Bool, List, [], ◌∷◌, Bytes, length, take, drop, ltb,
  if◌then◌else◌,
}

-- The portable loop: `uint32_t sum`, one byte at a time.
unfoldable pub sum_bytes : Bytes → ℕ → ℕ
sum_bytes [] sum = sum
sum_bytes (b ∷ data_rest) sum = sum_bytes data_rest ((sum + b) % 4294967296)

-- computeChecksum without SIMD: `sum & 0xFF`.
unfoldable pub compute_checksum : Bytes → ℕ
unfolding sum_bytes
compute_checksum text = sum_bytes text 0 % 256

-- formatChecksum: the three bytes of the buffer.
unfoldable pub format_checksum : ℕ → Bytes
format_checksum c = (48 + c / 100) ∷ (48 + c / 10 % 10) ∷ (48 + c % 10) ∷ []
