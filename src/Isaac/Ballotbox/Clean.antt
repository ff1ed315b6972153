-- ===== src/Isaac/Ballotbox/Clean.antt =====
-- What a box keeps when it is cleaned.
use mathlib.Core.List.{Memᴰ}
use mitum.Common.{
  ◌≡◌, refl, ap, ◌∙◌, ◌⊎◌, inl, inr, List, [], ◌∷◌, none, arith, Bool-cases, Option-cases,
  if◌then◌else◌,
}
use mitum.Common.Dict.{Dict, find, delete, find-delete, find-mem, MapRange, order-mem}
use mitum.Common.Int.{ltb_ℤ, ◌≤ℤ◌, ◌<ℤ◌}
use mitum.Base.Fact.{Height}
use mitum.Isaac.VoteRecords.{VoteRecords}
use mitum.Isaac.Ballotbox.{Key, Key_discrete, Ballotbox, remove_keys, delete_keys, clean}

search_key : (ks : List Key) (k : Key) → Memᴰ k ks ⊎ (Memᴰ k ks → ⊥)
search_key [] k = inr (λ i. elim i [ ])
search_key (j ∷ ks) k = elim (Key_discrete k j) [
  | yes e ↦ inl (Memᴰ.head e)
  | no ne ↦ elim (search_key ks k) [
    | inl i ↦ inl (Memᴰ.tail i)
    | inr q ↦ inr (λ i. elim i [ Memᴰ.head e ↦ ne e | Memᴰ.tail t ↦ q t ])
  ]
]

module _ {Ratio : Type 0} where
  find-delete_keys :
      (ks : List Key) (k : Key) (m : Dict Key (VoteRecords Ratio))
      → (Memᴰ k ks → find Key_discrete k (delete_keys ks m) ≡ none)
        × ((Memᴰ k ks → ⊥) → find Key_discrete k (delete_keys ks m) ≡ find Key_discrete k m)
  unfolding delete_keys
  find-delete_keys [] k m = (λ i. elim i [ ], λ i. refl)
  find-delete_keys (j ∷ ks) k m =
      let (gone, kept) = find-delete_keys ks k (delete Key_discrete j m) in
      elim (Key_discrete j k) [
        | yes e ↦ (
          λ i. elim (search_key ks k) [
            | inl i ↦ gone i
            | inr q ↦ kept q ∙ ground (arith, find-delete Key_discrete j k m)
          ],
          λ i. absurd (i (Memᴰ.head (cc))),
        )
        | no ne ↦ (
          λ i. gone (elim i [ Memᴰ.head e ↦ absurd (ne (cc)) | Memᴰ.tail t ↦ t ]),
          λ i. kept (λ t. i (Memᴰ.tail t)) ∙ ground (arith, find-delete Key_discrete j k m),
        )
      ]

  remove_keys_iff :
      (gh : Height) (k : Key) (m : Dict Key (VoteRecords Ratio))
      → ((v : VoteRecords Ratio) → Memᴰ (k, v) m → k.height ≤ℤ gh → Memᴰ k (remove_keys gh m))
        × (Memᴰ k (remove_keys gh m) → k.height ≤ℤ gh)
  unfolding remove_keys
  remove_keys_iff gh k [] = (λ v i. elim i [ ], λ i. elim i [ ])
  remove_keys_iff gh k ((j, w) ∷ m) =
      let (in_keys, low) = remove_keys_iff gh k m in
      elim (Bool-cases (ltb_ℤ gh j.height)) [
        | inl high ↦ rw high (
          λ v i le. elim i [
            | Memᴰ.head e ↦
                absurd (ground (arith, ap (λ (x : Key × VoteRecords Ratio). x.0.height) e))
            | Memᴰ.tail t ↦ in_keys v t le
          ],
          low,
        )
        | inr here ↦ rw here (
          λ v i le. elim i [
            | Memᴰ.head e ↦ Memᴰ.head (ap (λ (x : Key × VoteRecords Ratio). x.0) e)
            | Memᴰ.tail t ↦ Memᴰ.tail (in_keys v t le)
          ],
          λ i. elim i [
            | Memᴰ.head e ↦ ground (arith, ap (λ (x : Key). x.height) e)
            | Memᴰ.tail t ↦ low t
          ],
        )
      ]

  clean_cases :
      (rng : MapRange) (height : Height) (bb : Ballotbox Ratio) (k : Key)
      → (k.height ≤ℤ height → find Key_discrete k (clean rng height bb).vrs ≡ none)
        × (height <ℤ k.height
            → find Key_discrete k (clean rng height bb).vrs ≡ find Key_discrete k bb.vrs)
        × ((clean rng height bb).latest_ballot ≡ bb.latest_ballot)
  unfolding clean
  clean_cases rng height bb k =
      let listed = rng.order (Key × VoteRecords Ratio) bb.vrs in
      let (in_keys, low) = remove_keys_iff height k listed in
      let (gone, kept) = find-delete_keys (remove_keys height listed) k bb.vrs in
      (
        λ le. elim (search_key (remove_keys height listed) k) [
          | inl i ↦ gone i
          | inr q ↦ kept q ∙ elim (Option-cases (find Key_discrete k bb.vrs)) [
            | inl e ↦ e
            | inr (v, e) ↦
                absurd (q (in_keys v (order-mem rng bb.vrs (find-mem Key_discrete k bb.vrs e)) le))
          ]
        ],
        λ lt. kept (λ i. absurd (omega (arith, low i, lt))),
        refl,
      )

  -- Cleaning up to a height removes the records of that height and of all below, keeps those of every
  -- greater height, and keeps the latest ballot.
  pub clean_lem :
      (rng : MapRange) (height : Height) (bb : Ballotbox Ratio) (k : Key)
      → (find Key_discrete k (clean rng height bb).vrs
          ≡ (if ltb_ℤ height k.height then find Key_discrete k bb.vrs else none))
        × ((clean rng height bb).latest_ballot ≡ bb.latest_ballot)
  clean_lem rng height bb k =
      let (low, high, same) = clean_cases rng height bb k in
      (
        elim (Bool-cases (ltb_ℤ height k.height)) [
          | inl e ↦ rw e (high (ground arith))
          | inr e ↦ rw e (low (ground arith))
        ],
        same,
      )
