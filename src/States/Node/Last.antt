-- ===== src/States/Node/Last.antt =====
-- The last voteproofs of a node, and what SetLastVoteproof does to them.
use mitum.Common.{
  ◌≡◌, refl, sym, ◌∙◌, ◌⊎◌, inl, inr, true, false, Bool-cases, Option-cases, Option, some, List, [],
  ◌∷◌, arith, ◌==◌,
}
use mitum.Common.Int.{pos, ltb_ℤ}
use mitum.Base.Stage.{stage_init}
use mitum.Base.Voteproof.{Voteproof, compare_voteproof}
use mitum.Base.Voteproof.Order.{Later}
use mitum.States.Node.{
  Node, NodeView, StateHandlers, update_last, set_last_voteproof, process_voteproof_internal,
  process_voteproof,
}

module _ {Ratio : Type 0} where
  -- A voteproof that is another one, or later.
  abbrev pub Reaches : Voteproof Ratio → Voteproof Ratio → Type 0
  Reaches m l = (m ≡ l) ⊎ Later m l

  -- From a last voteproof to the next: it does not go back.
  abbrev pub NotBack : Option (Voteproof Ratio) → Option (Voteproof Ratio) → Type 0
  NotBack old new =
      (l : Voteproof Ratio) → old ≡ some l → (m : Voteproof Ratio) × (new ≡ some m) × Reaches m l

  Later-trans : (a b c : Voteproof Ratio) → Later a b → Later b c → Later a c
  Later-trans a b c p q = ground arith

  Reaches-trans : (a b c : Voteproof Ratio) → Reaches a b → Reaches b c → Reaches a c
  Reaches-trans a b c (inl e) q = rw (e) q
  Reaches-trans a b c (inr p) (inl e) = rw (← e) (inr p)
  Reaches-trans a b c (inr p) (inr q) = inr (Later-trans a b c p q)

  pub not-Later :
      (a b : Voteproof Ratio)
      → (ltb_ℤ (compare_voteproof (some a) (some b)) (pos 1) ≡ true)
        ⊎ (Later a b × (ltb_ℤ (compare_voteproof (some a) (some b)) (pos 1) ≡ false))
  unfolding compare_voteproof
  not-Later a b = ground arith

  Later-compares :
      (a b : Voteproof Ratio)
      → Later a b
      → ltb_ℤ (compare_voteproof (some a) (some b)) (pos 1) ≡ false
  unfolding compare_voteproof
  Later-compares a b after = ground arith

module _ {World Ratio : Type 0} where
  -- The last INIT voteproof is of the stage INIT, and the last voteproof has reached it.
  abbrev pub InOrder : Node World Ratio → Type 0
  InOrder n =
      (i : Voteproof Ratio)
      → n.livp ≡ some i
      → (i.stage ≡ stage_init) × ((l : Voteproof Ratio) × (n.lvp ≡ some l) × Reaches l i)

  -- What a call has to do with the last voteproofs to keep them in order.
  abbrev pub Keeps : Node World Ratio → Node World Ratio → Type 0
  Keeps n n' = (InOrder n → InOrder n') × NotBack n.lvp n'.lvp

  pub Keeps-refl : (n : Node World Ratio) → Keeps n n
  Keeps-refl n = (λ h. h, λ l e. (l, e, inl refl))

  pub Keeps-trans : (a b c : Node World Ratio) → Keeps a b → Keeps b c → Keeps a c
  Keeps-trans a b c (ordered, ahead) (ordered', ahead') = (
    λ h. ordered' (ordered h),
    λ l e.
        let (m, p, r) = ahead l e in let (k, q, s) = ahead' m p in (k, q, Reaches-trans k m l s r),
  )

  update_last-Keeps :
      (vp : Voteproof Ratio) (n : Node World Ratio)
      → ((l : Voteproof Ratio) → n.lvp ≡ some l → Later vp l)
      → Keeps n (update_last vp n)
  unfolding update_last
  update_last-Keeps vp n after = elim (Bool-cases (vp.stage == stage_init)) [
    | inl init ↦
        rw (init, update_last)
          (
            λ h i e. let same : vp ≡ i = cc in (ground arith, (vp, refl, inl same)),
            λ l e. (vp, refl, inr (after l e)),
          )
    | inr other ↦
        rw (other, update_last)
          (
            λ h i e.
                let (stage, reached) = h i e in
                let (l, at, r) = reached in
                (stage, (vp, refl, Reaches-trans vp l i (inr (after l at)) r)),
            λ l e. (vp, refl, inr (after l e)),
          )
  ]

  set_last_voteproof-cases :
      (vp : Voteproof Ratio) (n : Node World Ratio)
      → (set_last_voteproof vp n ≡ (false, n))
        ⊎ ((set_last_voteproof vp n ≡ (true, update_last vp n))
            × ((l : Voteproof Ratio) → n.lvp ≡ some l → Later vp l))
  unfolding set_last_voteproof
  set_last_voteproof-cases vp n = elim (Option-cases n.lvp) [
    | inl e ↦ inr (ground arith, λ l q. absurd (ground arith))
    | inr (l, e) ↦ elim (not-Later vp l) [
      | inl old ↦ inl (ground arith)
      | inr (after, new) ↦ inr (ground arith, λ m q. let same : l ≡ m = cc in rw (← same) after)
    ]
  ]

  pub set_last_voteproof-sets :
      (vp : Voteproof Ratio) (n : Node World Ratio)
      → ((l : Voteproof Ratio) → n.lvp ≡ some l → Later vp l)
      → set_last_voteproof vp n ≡ (true, update_last vp n)
  unfolding set_last_voteproof
  set_last_voteproof-sets vp n after = elim (Option-cases n.lvp) [
    | inl e ↦ ground arith
    | inr (l, e) ↦ ground (arith, Later-compares vp l (after l e))
  ]

  pub process_voteproof-internal :
      (view : NodeView World Ratio) (vp : Voteproof Ratio) (n : Node World Ratio)
      → ((l : Voteproof Ratio) → n.lvp ≡ some l → Later vp l)
      → process_voteproof view vp n ≡ process_voteproof_internal view vp n
  unfolding process_voteproof
  process_voteproof-internal view vp n after = elim (Option-cases n.lvp) [
    | inl e ↦ ground arith
    | inr (l, e) ↦ ground (arith, Later-compares vp l (after l e))
  ]

  pub set_last_voteproof-Keeps :
      (vp : Voteproof Ratio) (n : Node World Ratio) → Keeps n (set_last_voteproof vp n).1
  set_last_voteproof-Keeps vp n = elim (set_last_voteproof-cases vp n) [
    | inl e ↦ rw (e) (Keeps-refl n)
    | inr (e, after) ↦ rw (e) (update_last-Keeps vp n after)
  ]

  -- `SetLastVoteproof`, called for one voteproof after the other.
  abbrev pub set_lasts : List (Voteproof Ratio) → Node World Ratio → Node World Ratio
  set_lasts [] n = n
  set_lasts (vp ∷ vps) n = set_lasts vps (set_last_voteproof vp n).1

  pub set_lasts-Keeps :
      (vps : List (Voteproof Ratio)) (n : Node World Ratio) → Keeps n (set_lasts vps n)
  set_lasts-Keeps [] n = Keeps-refl n
  set_lasts-Keeps (vp ∷ vps) n =
      Keeps-trans n (set_last_voteproof vp n).1 (set_lasts vps (set_last_voteproof vp n).1)
        (set_last_voteproof-Keeps vp n) (set_lasts-Keeps vps (set_last_voteproof vp n).1)

  -- A state that processes a voteproof changes the last voteproofs by `SetLastVoteproof` alone.
  pub record SetsLast (h : StateHandlers World Ratio) : Type 0 where
    pub voteproofs_set : Voteproof Ratio → Node World Ratio → List (Voteproof Ratio)
    pub sets_lvp :
        (vp : Voteproof Ratio) (n : Node World Ratio)
        → (h.process_voteproof vp n).0.lvp ≡ (set_lasts (voteproofs_set vp n) n).lvp
    pub sets_livp :
        (vp : Voteproof Ratio) (n : Node World Ratio)
        → (h.process_voteproof vp n).0.livp ≡ (set_lasts (voteproofs_set vp n) n).livp

  -- Nodes with the same last voteproofs.
  pub Keeps-same :
      (n m k : Node World Ratio) → k.lvp ≡ m.lvp → k.livp ≡ m.livp → Keeps n m → Keeps n k
  Keeps-same n m k e f (ordered, ahead) = (
    λ h i q.
        let (stage, reached) = ordered h i (sym f ∙ q) in
        let (l, at, r) = reached in (stage, (l, e ∙ at, r)),
    λ l q. let (o, p, r) = ahead l q in (o, e ∙ p, r),
  )
