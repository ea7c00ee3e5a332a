-- ===== src/Executor/Reconcile.antt =====
-- execution/executor.py, `reconcile`: what an empty list of mismatches means.
use korean_stock_trading_sys.Common.{
  ◌≡◌, ◌⊎◌, refl, subst, inl, inr, true, Bool-cases, ℤ, List, [], ◌∷◌, ◌++◌, String, arith,
}
use text.Mathlib.Text.{◌==◌}
use text.Mathlib.TextEquality.{eq_iff}
use korean_stock_trading_sys.Common.Dict.{Dict, get, contains}
use korean_stock_trading_sys.Executor.Sweep.{qty_of, same_qty, differing, mismatches}

-- Two dictionaries of quantities, in which a missing symbol counts as 0.
abbrev pub Agree : Dict ℤ → Dict ℤ → Type 0
Agree a b = (s : String) → qty_of s a ≡ qty_of s b

same_qty-eq : (x y : ℤ) → same_qty x y ≡ true → x ≡ y
same_qty-eq x y h = ground arith

same_qty_refl : (x : ℤ) → same_qty x x ≡ true
same_qty_refl x = ground arith

eq-same_qty : (x y : ℤ) → x ≡ y → same_qty x y ≡ true
eq-same_qty x y h = subst (λ z. same_qty x z ≡ true) h (same_qty_refl x)

append_nil : (xs ys : List String) → xs ++ ys ≡ [] → (xs ≡ []) × (ys ≡ [])
append_nil [] ys h = (refl, h)
append_nil (x ∷ xs) ys h = cc

module _ (a b seen : Dict ℤ) where
  head_found :
      (j : String) (q : ℤ) (d : Dict ℤ)
      → differing a b seen ((j, q) ∷ d) ≡ []
      → ((contains j seen ≡ true) ⊎ (same_qty (qty_of j a) (qty_of j b) ≡ true))
        × (differing a b seen d ≡ [])
  unfolding differing
  head_found j q d h = elim (Bool-cases (contains j seen)) [
    | inl old ↦ (inl old, ground (arith, old))
    | inr new ↦ elim (Bool-cases (same_qty (qty_of j a) (qty_of j b))) [
      | inl same ↦ (inr same, ground (arith, new, same))
      | inr other ↦ absurd (ground (arith, new, other))
    ]
  ]

  found :
      (d : Dict ℤ) (s : String)
      → differing a b seen d ≡ []
      → contains s d ≡ true
      → (contains s seen ≡ true) ⊎ (same_qty (qty_of s a) (qty_of s b) ≡ true)
  unfolding get
  found [] s h k = cc
  found ((j, q) ∷ d) s h k =
      let (here, rest) = head_found j q d h in
      elim (Bool-cases (j == s)) [
        | inl this ↦
            subst (λ i. (contains i seen ≡ true) ⊎ (same_qty (qty_of i a) (qty_of i b) ≡ true))
              ((eq_iff j s).0 this) here
        | inr other ↦ found d s rest (ground (arith, other))
      ]

  nothing_found : (d : Dict ℤ) → Agree a b → differing a b seen d ≡ []
  unfolding differing
  nothing_found [] h = refl
  nothing_found ((j, q) ∷ d) h = elim (Bool-cases (contains j seen)) [
    | inl old ↦ rw old (nothing_found d h)
    | inr new ↦ rw new (rw (eq-same_qty (qty_of j a) (qty_of j b) (h j)) (nothing_found d h))
  ]

no_seen : (s : String) → contains {V = ℤ} s [] ≡ true → ⊥
unfolding get
no_seen s h = cc

-- The list of mismatches is empty exactly if broker and risk manager hold the same quantity of every
-- symbol, where a missing one counts as 0.
pub mismatches-Agree :
    (a b : Dict ℤ) → (mismatches a b ≡ [] → Agree a b) × (Agree a b → mismatches a b ≡ [])
unfolding mismatches
mismatches-Agree a b = (agree, λ h. rw (nothing_found a b [] a h) (nothing_found a b a b h))
  where
    either :
        (s : String)
        → ((contains {V = ℤ} s [] ≡ true) ⊎ (same_qty (qty_of s a) (qty_of s b) ≡ true))
        → qty_of s a ≡ qty_of s b
    either s (inl k) = absurd (no_seen s k)
    either s (inr k) = same_qty-eq _ _ k

    agree : differing a b [] a ++ differing a b a b ≡ [] → Agree a b
    agree h s =
        let (left, right) = append_nil (differing a b [] a) (differing a b a b) h in
        elim (Bool-cases (contains s a)) [
          | inl k ↦ either s (found a b [] a s left k)
          | inr k ↦ elim (Bool-cases (contains s b)) [
            | inl m ↦ elim (found a b a b s right m) [
              | inl n ↦ absurd (ground (arith, k, n))
              | inr n ↦ same_qty-eq _ _ n
            ]
            | inr m ↦ ground (arith, k, m)
          ]
        ]
