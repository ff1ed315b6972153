-- ===== src/Base/Majority/Slice/Counts.antt =====
-- The counts that FindMajorityFromSlice makes: each key with the number of its votes.
use mathlib.Core.List.{Permᴰ}
use mitum.Common.{
  ℕ, ◌+◌, ◌≤◌, ◌<◌, ◌≡◌, refl, ap, ◌∙◌, String, List, [], ◌∷◌, string_discrete, arith, count,
  length,
}
use mitum.Common.Dict.{Dict, find, put, values, IsMap, put-IsMap, find-put}
use native.Mathlib.Nat.{mod-eq_of_lt}
use mitum.Base.Majority.{uint_mod, add_uint, insert_desc, sort_desc}
use mitum.Base.Majority.Spec.{total_votes, maximum}
use mitum.Base.Majority.Slice.{or_zero, count_votes}

-- How often a key is voted for.
abbrev pub votes_for : String → List String → ℕ
votes_for k s = count string_discrete k s

abbrev pub recorded : String → Dict String ℕ → ℕ
recorded k m = or_zero (find string_discrete k m)

pub count_votes-IsMap :
    (s : List String) (m : Dict String ℕ)
    → IsMap string_discrete m
    → IsMap string_discrete (count_votes s m)
unfolding count_votes
count_votes-IsMap [] m h = h
count_votes-IsMap (k ∷ s) m h =
    count_votes-IsMap s _ (put-IsMap string_discrete k (add_uint (recorded k m) 1) m h)

total_votes-put :
    (k : String) (n : ℕ) (m : Dict String ℕ)
    → total_votes (values (put string_discrete k n m)) + recorded k m ≡ total_votes (values m) + n
unfolding put find
total_votes-put k n [] = omega arith
total_votes-put k n ((j, c) ∷ m) = ground (arith, total_votes-put k n m)

recorded-le-total_votes : (k : String) (m : Dict String ℕ) → recorded k m ≤ total_votes (values m)
unfolding find
recorded-le-total_votes k [] = omega arith
recorded-le-total_votes k ((j, c) ∷ m) = ground (arith, recorded-le-total_votes k m)

-- The counter of a key does not wrap.
next_count :
    (k : String) (m : Dict String ℕ) (s : List String)
    → total_votes (values m) + length (k ∷ s) < uint_mod
    → add_uint (recorded k m) 1 ≡ recorded k m + 1
next_count k m s h = mod-eq_of_lt (omega (arith, recorded-le-total_votes k m))

pub total_votes-count_votes :
    (s : List String) (m : Dict String ℕ)
    → total_votes (values m) + length s < uint_mod
    → total_votes (values (count_votes s m)) ≡ total_votes (values m) + length s
unfolding count_votes
total_votes-count_votes [] m h = omega arith
total_votes-count_votes (k ∷ s) m h = rw (next_count k m s h) (
    omega (
      arith,
      total_votes-put k (recorded k m + 1) m,
      total_votes-count_votes s (put string_discrete k (recorded k m + 1) m)
          (omega (arith, total_votes-put k (recorded k m + 1) m)),
    ))

pub recorded-count_votes :
    (j : String) (s : List String) (m : Dict String ℕ)
    → total_votes (values m) + length s < uint_mod
    → recorded j (count_votes s m) ≡ recorded j m + votes_for j s
unfolding count_votes
recorded-count_votes j [] m h = omega arith
recorded-count_votes j (k ∷ s) m h = rw (next_count k m s h) (
    ground (
      arith,
      find-put string_discrete k j (recorded k m + 1) m,
      recorded-count_votes j s (put string_discrete k (recorded k m + 1) m)
          (omega (arith, total_votes-put k (recorded k m + 1) m)),
    ))

pub total_votes-perm :
    {xs ys : Dict String ℕ} → Permᴰ xs ys → total_votes (values xs) ≡ total_votes (values ys)
total_votes-perm Permᴰ.nil = refl
total_votes-perm (Permᴰ.cons e p) =
    omega (arith, ap (λ (x : String × ℕ). x.1) e, total_votes-perm p)
total_votes-perm (Permᴰ.swap e f) =
    omega (arith, ap (λ (x : String × ℕ). x.1) e, ap (λ (x : String × ℕ). x.1) f)
total_votes-perm (Permᴰ.trans p q) = total_votes-perm p ∙ total_votes-perm q

total_votes-insert_desc :
    (n : ℕ) (set : List ℕ) → total_votes (insert_desc n set) ≡ n + total_votes set
unfolding insert_desc
total_votes-insert_desc n [] = refl
total_votes-insert_desc n (m ∷ set) = ground (arith, total_votes-insert_desc n set)

pub total_votes-sort_desc : (set : List ℕ) → total_votes (sort_desc set) ≡ total_votes set
unfolding sort_desc
total_votes-sort_desc [] = refl
total_votes-sort_desc (n ∷ set) =
    omega (arith, total_votes-insert_desc n (sort_desc set), total_votes-sort_desc set)

pub maximum-perm : {xs ys : Dict String ℕ} → Permᴰ xs ys → maximum (values xs) ≡ maximum (values ys)
maximum-perm Permᴰ.nil = refl
maximum-perm (Permᴰ.cons e p) = ground (arith, ap (λ (x : String × ℕ). x.1) e, maximum-perm p)
maximum-perm (Permᴰ.swap e f) =
    ground (arith, ap (λ (x : String × ℕ). x.1) e, ap (λ (x : String × ℕ). x.1) f)
maximum-perm (Permᴰ.trans p q) = maximum-perm p ∙ maximum-perm q

pub recorded-le-maximum : (k : String) (m : Dict String ℕ) → recorded k m ≤ maximum (values m)
unfolding find
recorded-le-maximum k [] = omega arith
recorded-le-maximum k ((j, c) ∷ m) = ground (arith, recorded-le-maximum k m)
