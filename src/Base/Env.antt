-- ===== src/Base/Env.antt =====
-- What the package base takes from outside of the repository: hashes, signatures, texts of times.
use Prim.Native.Char.{code}
use mitum.Common.{
  ℕ, String, Bool, List, [], ◌∷◌, ◌++◌, Option, none, some, ltb, if◌then◌else◌, length,
}
use mitum.Common.Errors.{Error, invalid}
use mitum.Util.Bytes.{Bytes}

-- A hash by its text (`String()`), which is also the key of the Go maps; "" is the nil hash.
abbrev pub Hash : Type 0
Hash = String

-- An address by its text.
abbrev pub Address : Type 0
Address = String

-- A time in milliseconds, 0 the zero time.
abbrev pub Time : Type 0
Time = ℕ

-- The bytes of an ASCII text.
abbrev pub text_bytes : String → Bytes
text_bytes String.[] = []
text_bytes (String.◌∷◌ c s) = code c ∷ text_bytes s

pub record Env : Type 0 where
  -- The text of the SHA-256 sum.
  pub sha256 : Bytes → Hash
  -- The bytes that a text of a hash stands for (base58).
  pub hash_bytes : Hash → Bytes
  -- The bytes of the text of a time in RFC 3339.
  pub time_bytes : Time → Bytes
  -- Whether a signature of a public key on a message verifies.
  pub verify : String → Bytes → String → Bool

-- util/slice.go: ConcatBytesSlice.
unfoldable pub concat_bytes : List Bytes → Bytes
concat_bytes [] = []
concat_bytes (s ∷ sl) = s ++ concat_bytes sl

-- util/valuehash/bytes.go: a hash has between 1 and 100 bytes.
unfoldable pub hash_is_valid : Env → Hash → Option Error
hash_is_valid env h =
    if ltb (length (env.hash_bytes h)) 1
    then some invalid
    else if ltb 100 (length (env.hash_bytes h))
    then some invalid
    else none
