-- ===== src/Util/Bytes.antt =====
-- util/int.go: numbers as little endian bytes, and back. A byte is a number below 256.
use mitum.Common.{
  ℕ, zero, suc, ◌+◌, ◌-◌, ◌*◌, ◌/◌, ◌%◌, ◌^◌, ◌<◌, ◌≡◌, refl, ap, List, [], ◌∷◌, ◌++◌, arith, All,
  length, drop, ltb, if◌then◌else◌,
}
use native.Mathlib.Nat.{pow-suc}
use mitum.Common.Int.{ℤ, pos, negsuc, ◌≤ℤ◌}
use mitum.Common.Errors.{Result, ok, err, failed}

abbrev pub Bytes : Type 0
Bytes = List ℕ

-- `binary.Write` of an unsigned number of `k` bytes in `binary.LittleEndian`.
unfoldable pub le_bytes : ℕ → ℕ → Bytes
le_bytes zero n = []
le_bytes (suc k) n = (n % 256) ∷ le_bytes k (n / 256)

-- `binary.Read` of `k` bytes: `none` of them missing, and the rest is not read.
unfoldable pub le_value : ℕ → Bytes → Result ℕ
le_value zero b = ok 0
le_value (suc k) [] = err failed
le_value (suc k) (x ∷ b) = elim (le_value k b) [ ok n ↦ ok (x + 256 * n) | err e ↦ err e ]

unfoldable pub uint8_to_bytes : ℕ → Bytes
uint8_to_bytes i = le_bytes 1 i

unfoldable pub uint64_to_bytes : ℕ → Bytes
uint64_to_bytes i = le_bytes 8 i

unfoldable pub bytes_to_uint64 : Bytes → Result ℕ
bytes_to_uint64 b = le_value 8 b

-- The two's complement of an `int64`, and the `int64` of one.
unfoldable pub int64_bits : ℤ → ℕ
int64_bits (pos n) = n
int64_bits (negsuc n) = 18446744073709551616 - suc n

unfoldable pub int64_of_bits : ℕ → ℤ
int64_of_bits n = if ltb n 9223372036854775808 then pos n else negsuc (18446744073709551616 - suc n)

unfoldable pub int64_to_bytes : ℤ → Bytes
int64_to_bytes i = le_bytes 8 (int64_bits i)

unfoldable pub bytes_to_int64 : Bytes → Result ℤ
bytes_to_int64 b = elim (le_value 8 b) [ ok n ↦ ok (int64_of_bits n) | err e ↦ err e ]

length-le_bytes : (k n : ℕ) → length (le_bytes k n) ≡ k
unfolding le_bytes
length-le_bytes zero n = refl
length-le_bytes (suc k) n = omega (arith, length-le_bytes k (n / 256))

le_bytes-All : (k n : ℕ) → All (λ x. x < 256) (le_bytes k n)
unfolding le_bytes
le_bytes-All zero n = tt
le_bytes-All (suc k) n = (omega arith, le_bytes-All k (n / 256))

le_value-le_bytes :
    (k n : ℕ) (rest : Bytes) → n < 256 ^ k → le_value k (le_bytes k n ++ rest) ≡ ok n
unfolding le_value le_bytes
le_value-le_bytes zero n rest h = ground arith
le_value-le_bytes (suc k) n rest h =
    ground (arith, le_value-le_bytes k (n / 256) rest (omega (arith, pow-suc 256 k, h)))

-- Reading back the eight bytes of a number below 2^64 gives the number, whatever follows them.
pub bytes_to_uint64-uint64_to_bytes :
    (n : ℕ) (rest : Bytes)
    → n < 18446744073709551616
    → bytes_to_uint64 (uint64_to_bytes n ++ rest) ≡ ok n
unfolding bytes_to_uint64 uint64_to_bytes
bytes_to_uint64-uint64_to_bytes n rest h = le_value-le_bytes 8 n rest h

int64_of_bits-int64_bits :
    (i : ℤ)
    → negsuc 9223372036854775807 ≤ℤ i
    → i ≤ℤ pos 9223372036854775807
    → int64_of_bits (int64_bits i) ≡ i
unfolding int64_of_bits int64_bits
int64_of_bits-int64_bits (pos n) lo hi = ground arith
int64_of_bits-int64_bits (negsuc n) lo hi = ground arith

int64_bits-lt : (i : ℤ) → i ≤ℤ pos 9223372036854775807 → int64_bits i < 18446744073709551616
unfolding int64_bits
int64_bits-lt (pos n) hi = omega arith
int64_bits-lt (negsuc n) hi = omega arith

-- Reading back the eight bytes of an int64 gives the int64, whatever follows them.
pub bytes_to_int64-int64_to_bytes :
    (i : ℤ) (rest : Bytes)
    → negsuc 9223372036854775807 ≤ℤ i
    → i ≤ℤ pos 9223372036854775807
    → bytes_to_int64 (int64_to_bytes i ++ rest) ≡ ok i
unfolding bytes_to_int64 int64_to_bytes
bytes_to_int64-int64_to_bytes i rest lo hi =
    rw (le_value-le_bytes 8 (int64_bits i) rest (int64_bits-lt i hi), bytes_to_int64)
      (ap ok (int64_of_bits-int64_bits i lo hi))

-- The bytes of numbers below 2^64 tell them apart, also in front of other bytes.
pub uint64_to_bytes-injective :
    (m n : ℕ) (b c : Bytes)
    → m < 18446744073709551616
    → n < 18446744073709551616
    → uint64_to_bytes m ++ b ≡ uint64_to_bytes n ++ c
    → m ≡ n
uint64_to_bytes-injective m n b c hm hn e = cc (
  bytes_to_uint64-uint64_to_bytes m b hm,
  bytes_to_uint64-uint64_to_bytes n c hn,
  ap bytes_to_uint64 e,
)

drop-le_bytes : (k n : ℕ) (rest : Bytes) → drop k (le_bytes k n ++ rest) ≡ rest
unfolding le_bytes
drop-le_bytes zero n rest = refl
drop-le_bytes (suc k) n rest = drop-le_bytes k (n / 256) rest

pub drop-int64_to_bytes : (i : ℤ) (rest : Bytes) → drop 8 (int64_to_bytes i ++ rest) ≡ rest
unfolding int64_to_bytes
drop-int64_to_bytes i rest = drop-le_bytes 8 (int64_bits i) rest

pub drop-uint64_to_bytes : (n : ℕ) (rest : Bytes) → drop 8 (uint64_to_bytes n ++ rest) ≡ rest
unfolding uint64_to_bytes
drop-uint64_to_bytes n rest = drop-le_bytes 8 n rest
