-- ===== src/Dictionary/Accept.antt =====
-- What Dictionary::parse of src/Dictionary.cpp has verified of a text that it accepts, and what it
-- does with a message of a type that the dictionary does not have.
use openfix.Prelude.{ℕ, ◌+◌, ◌-◌, ◌%◌, some, ◌≡◌, ◌≤◌, Bytes, length, take}
use openfix.Fields
use openfix.Checksum.{compute_checksum, format_checksum}
use openfix.Message.{Message, get_field}
use openfix.Dictionary.{Dictionary}
use openfix.Dictionary.Noted.Loop.{IsBehindBodyLength}
use openfix.Dictionary.State.{in_trailer, Options, Parser}
use openfix.Dictionary.Parse.{from_chars_ulong}

abbrev u64 : ℕ
u64 = 18446744073709551616

module _ (d : Dictionary) (opts : Options) where
  -- The length, the checksum and the last tag are right; `body_length` is where the text has a
  -- BodyLength, and what is behind it.
  pub record Verified (text : Bytes) (p : Parser) : Type 0 where
    pub in_trailer_state : p.msg_state ≡ in_trailer
    pub body_length : IsBehindBodyLength text p.body_length_start
    pub length_field :
        (value : Bytes) × (n : ℕ) × (get_field Fields.body_length p.message.header ≡ some value)
        × (from_chars_ulong value ≡ some n)
        × ((n + 7) % u64 ≡ length body_length.behind % u64)
    pub checksum_field :
        get_field Fields.check_sum p.message.trailer
        ≡ some (format_checksum (compute_checksum (take (length text - 7) text)))
    pub last_tag : p.tag ≡ Fields.check_sum
    pub long_enough : 7 ≤ length text
