-- ===== src/Base/Address.antt =====
-- base/string_address.go: the rules of an address, on the codes of its text.
use mitum.Common.{
  ℕ, zero, suc, ◌-◌, ◌≤◌, Bool, true, false, ◌&&◌, ◌||◌, ◌≡◌, [], ◌∷◌, ◌++◌, Option, none, some,
  ltb, leb, ◌==◌, if◌then◌else◌, length, take, drop, arith, sym, length-take,
}
use mitum.Common.Errors.{Error, invalid}
use mitum.Util.Bytes.{Bytes}

abbrev pub address_type_size : ℕ
address_type_size = 3

abbrev pub max_address_size : ℕ
max_address_size = 100

abbrev pub min_address_size : ℕ
min_address_size = 6

-- `[a-zA-Z0-9]`.
unfoldable pub is_alnum : ℕ → Bool
is_alnum c =
    (leb b'a' c && leb c b'z') || ((leb b'A' c && leb c b'Z') || (leb b'0' c && leb c b'9'))

-- `[\w\-\.\!\$\*\@]`.
unfoldable pub is_inner : ℕ → Bool
unfolding is_alnum
is_inner c =
    is_alnum c
    || (c == b'_'
        || (c == b'-' || (c == b'.' || (c == b'!' || (c == b'$' || (c == b'*' || c == b'@'))))))

-- `\s`.
unfoldable pub is_blank : ℕ → Bool
is_blank c = c == 32 || (c == 9 || (c == 10 || (c == 12 || c == 13)))

unfoldable pub has_blank : Bytes → Bool
unfolding is_blank
has_blank [] = false
has_blank (c ∷ p) = is_blank c || has_blank p

-- What follows the first character: inner characters, and an alphanumeric last one.
unfoldable pub matches_rest : Bytes → Bool
unfolding is_inner
matches_rest [] = false
matches_rest (c ∷ []) = is_alnum c
matches_rest (c ∷ d ∷ p) = is_inner c && matches_rest (d ∷ p)

unfoldable pub matches_address : Bytes → Bool
unfolding matches_rest
matches_address [] = false
matches_address (c ∷ p) = is_alnum c && matches_rest p

unfoldable pub equal_bytes : Bytes → Bytes → Bool
equal_bytes [] [] = true
equal_bytes (a ∷ s) (b ∷ t) = (a == b) && equal_bytes s t
equal_bytes _ _ = false

-- `IsValid`, of an address whose hint is `ty` and whose array of bytes agrees with its text.
unfoldable pub is_valid : Bytes → Bytes → Option Error
is_valid ty s =
    let p = take (length s - address_type_size) s in
    let t = drop (length s - address_type_size) s in
    if ltb (length s) min_address_size
    then some invalid
    else if ltb max_address_size (length s)
    then some invalid
    else if has_blank p
    then some invalid
    else if matches_address p
    then (if length ty == address_type_size
        then (if equal_bytes t ty then none else some invalid)
        else some invalid)
    else some invalid

pub equal_bytes→≡ : (s t : Bytes) → equal_bytes s t ≡ true → s ≡ t
unfolding equal_bytes
equal_bytes→≡ [] [] h = cc
equal_bytes→≡ [] (b ∷ t) h = cc
equal_bytes→≡ (a ∷ s) [] h = cc
equal_bytes→≡ (a ∷ s) (b ∷ t) h = ground (arith, equal_bytes→≡ s t)

take-append-drop : (n : ℕ) (s : Bytes) → take n s ++ drop n s ≡ s
take-append-drop zero s = cc
take-append-drop (suc n) [] = cc
take-append-drop (suc n) (c ∷ s) = cc (take-append-drop n s)

-- A valid address is a name of 3 to 97 characters, which starts and ends as the pattern wants,
-- followed by its type.
is_valid_parts :
    (ty s : Bytes)
    → is_valid ty s ≡ none
    → (p : Bytes) × (s ≡ p ++ ty) × (3 ≤ length p) × (length p ≤ 97) × (matches_address p ≡ true)
unfolding is_valid
is_valid_parts ty s h =
    let n : ℕ = length s - address_type_size in
    let same : drop n s ≡ ty = ground (arith, equal_bytes→≡ (drop n s) ty) in
    (
      take n s,
      rw (← same) (sym (take-append-drop n s)),
      ground (arith, length-take n s),
      ground (arith, length-take n s),
      ground arith,
    )
