-- ===== src/Text/Number.antt =====
-- `strconv.Atoi`, and the conversion of an `int` to an `int32`.
use Prim.Native.Nat.{◌^◌}
use Prim.Native.Char.{code}
use Prim.Native.String.{[], ◌∷◌}
use buildkit_cli_for_kubectl.Prelude.{
  ℕ, ◌+◌, ◌-◌, ◌*◌, ◌%◌, ◌<◌, String, ◌≡◌, refl, Bool, true, false, ◌&&◌, Option, none, some,
  nat_eq, ltb, leb, if◌then◌else◌, Result, ok, err, Error, external, arith,
}

-- `negsuc n` is -(n + 1).
pub data ℤ : Type 0 where
  pos : ℕ → ℤ
  negsuc : ℕ → ℤ

unfoldable pub digits : ℕ → String → Option ℕ
digits n [] = some n
digits n (c ∷ s) =
    let d = code c in
    let rest = digits (n * 10 + (d - 48)) s in if leb 48 d && leb d 57 then rest else none

abbrev pub syntax_error : Error
syntax_error = external "invalid syntax"

abbrev pub range_error : Error
range_error = external "value out of range"

-- The number -n.
abbrev pub negate : ℕ → ℤ
negate n = if nat_eq n 0 then pos 0 else negsuc (n - 1)

signed : Bool → Option ℕ → Result ℤ
signed negative none = err syntax_error
signed true (some n) = if leb n (2 ^ 63) then ok (negate n) else err range_error
signed false (some n) = if ltb n (2 ^ 63) then ok (pos n) else err range_error

unsigned_digits : String → Option ℕ
unsigned_digits [] = none
unsigned_digits (c ∷ s) = digits 0 (c ∷ s)

unfoldable pub atoi : String → Result ℤ
unfolding digits signed unsigned_digits
atoi [] = err syntax_error
atoi (c ∷ s) =
    if nat_eq (code c) b'-'
    then signed true (unsigned_digits s)
    else if nat_eq (code c) b'+'
    then signed false (unsigned_digits s)
    else signed false (unsigned_digits (c ∷ s))

bits32 : ℤ → ℕ
bits32 (pos n) = n % 2 ^ 32
bits32 (negsuc n) = 2 ^ 32 - 1 - n % 2 ^ 32

from_bits32 : ℕ → ℤ
from_bits32 b = if ltb b (2 ^ 31) then pos b else negsuc (2 ^ 32 - 1 - b)

-- `int32(z)`, which keeps the low 32 bits
unfoldable pub to_int32 : ℤ → ℤ
unfolding bits32 from_bits32
to_int32 z = from_bits32 (bits32 z)

abbrev pub InInt32 : ℤ → Type 0
InInt32 (pos n) = n < 2 ^ 31
InInt32 (negsuc n) = n < 2 ^ 31

pub to_int32-eq_self : (z : ℤ) → InInt32 z → to_int32 z ≡ z
unfolding to_int32
to_int32-eq_self (pos n) h = ground arith
to_int32-eq_self (negsuc n) h = ground arith

-- The order of the integers, as a test.
unfoldable pub int_leb : ℤ → ℤ → Bool
int_leb (pos a) (pos b) = leb a b
int_leb (pos a) (negsuc b) = false
int_leb (negsuc a) (pos b) = true
int_leb (negsuc a) (negsuc b) = leb b a

atoi_test : atoi "-12" ≡ ok (negsuc 11)
unfolding atoi
atoi_test = refl
