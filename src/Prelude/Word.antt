-- ===== src/Prelude/Word.antt =====
-- The machine integers of the source. An `int` is kept as its excess-2^31 code and a `long` as its
-- excess-2^63 code: the code n stands for n - 2^31 (n - 2^63), so that codes are natural numbers,
-- and the order and equality of ints are those of their codes. Sums wrap as in two's complement.
use Prim.Native.Nat.{ℕ, zero, suc, ◌+◌, ◌-◌, ◌*◌, ◌/◌, ◌%◌, ◌<◌}
use mathlib.Core.Path.{◌≡◌}
use mathlib.Core.Bool.{Bool, ◌&&◌}
use mathlib.Core.List.{[], ◌∷◌}
use native.Mathlib.Omega.{arith}
use openfix.Prelude.Tests.{ltb, leb, ◌==◌, if◌then◌else◌}
use openfix.Prelude.Lists.{Bytes}

-- The code of the int 0, and of a non-negative int.
abbrev pub int_zero : ℕ
int_zero = 2147483648

abbrev pub int : ℕ → ℕ
int n = n + 2147483648

abbrev pub IsInt : ℕ → Type 0
IsInt n = n < 4294967296

-- `n + 1` on an int, which `std::atomic<int>::fetch_add` wraps; and `n - 1`.
unfoldable pub int_suc : ℕ → ℕ
int_suc n = (n + 1) % 4294967296

unfoldable pub int_pred : ℕ → ℕ
int_pred n = (n + 4294967295) % 4294967296

-- The code of the long 0, and of a non-negative long.
abbrev pub long_zero : ℕ
long_zero = 9223372036854775808

abbrev pub long : ℕ → ℕ
long n = n + 9223372036854775808

-- `static_cast<long>(v) * 1000` for an int v.
unfoldable pub seconds_to_millis : ℕ → ℕ
seconds_to_millis v = v * 1000 + long_zero - 2147483648000

-- `static_cast<int>(v / 1000)` for a long v; the quotient is rounded towards 0.
unfoldable pub millis_to_seconds : ℕ → ℕ
millis_to_seconds v =
    if leb long_zero v
    then ((v - long_zero) / 1000 + int_zero) % 4294967296
    else (int_zero + 9223372036854775808 - (long_zero - v) / 1000) % 4294967296

pub millis_to_seconds-seconds_to_millis :
    (v : ℕ) → IsInt v → millis_to_seconds (seconds_to_millis v) ≡ v
unfolding millis_to_seconds seconds_to_millis
millis_to_seconds-seconds_to_millis v h = ground arith

-- Decimal digits, as `std::to_chars` writes a non-negative number below 10 ^ fuel.
unfoldable pub digits : ℕ → ℕ → Bytes → Bytes
digits zero n out = out
digits (suc fuel) n out =
    let rest = digits fuel (n / 10) ((48 + n % 10) ∷ out) in
    if ltb n 10 then (48 + n) ∷ out else rest

-- `std::to_chars` of an int; ten digits are enough.
unfoldable pub to_chars : ℕ → Bytes
unfolding digits
to_chars v =
    if leb int_zero v then digits 10 (v - int_zero) [] else 45 ∷ digits 10 (int_zero - v) []

-- The value of the leading digits; `none` if there is no digit.
abbrev pub is_digit : ℕ → Bool
is_digit c = leb 48 c && leb c 57

unfoldable pub leading : Bytes → ℕ → ℕ
leading [] acc = acc
leading (c ∷ s) acc = let more = leading s (acc * 10 + (c - 48)) in if is_digit c then more else acc

-- `int val = 0; std::from_chars(…, val)`: an optional minus sign and digits; `val` stays 0 where
-- there is no digit and where the number does not fit.
unfoldable pub from_chars : Bytes → ℕ
unfolding leading
from_chars [] = int_zero
from_chars (c ∷ s) =
    if c == 45
    then (let n = leading s 0 in if leb n 2147483648 then int_zero - n else int_zero)
    else (let n = leading (c ∷ s) 0 in if leb n 2147483647 then int n else int_zero)

pub from_chars-IsInt : (s : Bytes) → IsInt (from_chars s)
unfolding from_chars
from_chars-IsInt [] = omega arith
from_chars-IsInt (c ∷ s) = ground arith
