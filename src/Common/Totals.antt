-- ===== src/Common/Totals.antt =====
-- The sum of a measure over the values of a dictionary.
use text.Mathlib.Text.{◌==◌}
use Prim.Native.String.{String}
use mathlib.Core.Path.{◌≡◌, subst}
use mathlib.Core.Logic.{inl, inr}
use mathlib.Core.Option.{none, some, some-injective}
use native.Mathlib.Omega.{arith}
use mathlib.Core.List.{[], ◌∷◌}
use korean_stock_trading_sys.Common.Tests.{Bool-cases}
use korean_stock_trading_sys.Common.Int.{ℤ, pos, ◌+ℤ◌, int_laws, Same}
use korean_stock_trading_sys.Common.Dict.{Dict, get, put, remove}

module _ {ℓ} {V : Type ℓ} (f : V → ℤ) where
  unfoldable pub total : Dict V → ℤ
  total [] = pos 0
  total ((k, v) ∷ d) = f v +ℤ total d

  pub total-put_new :
      (k : String) (v : V) (d : Dict V) → get k d ≡ none → Same (total (put k v d)) (total d +ℤ f v)
  unfolding get put total
  total-put_new k v [] h = omega int_laws
  total-put_new k v ((j, w) ∷ d) h = elim (Bool-cases (j == k)) [
    | inl same ↦ absurd (ground (arith, same))
    | inr other ↦
        let rest : get k d ≡ none = ground (arith, other) in
        rw (other, put, total) (omega (int_laws, total-put_new k v d rest))
  ]

  pub total-remove :
      (k : String) (v : V) (d : Dict V)
      → get k d ≡ some v
      → Same (total (remove k d) +ℤ f v) (total d)
  unfolding get remove total
  total-remove k v [] h = cc
  total-remove k v ((j, w) ∷ d) h = elim (Bool-cases (j == k)) [
    | inl same ↦
        let e : some w ≡ some v = ground (arith, same) in
        rw (same, remove, total)
          (subst (λ x. Same (total d +ℤ f x) (f w +ℤ total d)) (some-injective w v e)
            (omega int_laws))
    | inr other ↦
        let rest : get k d ≡ some v = ground (arith, other) in
        rw (other, remove, total) (omega (int_laws, total-remove k v d rest))
  ]
