-- ===== src/Common/Paired.antt =====
-- Two dictionaries with the same keys in the same order, whose values are related.
use mathlib.Core.Path.{◌≡◌, refl}
use mathlib.Core.Logic.{inl, inr}
use mathlib.Core.Option.{none}
use mathlib.Core.List.{[], ◌∷◌}
use native.Mathlib.Omega.{arith}
use text.Mathlib.Text.{◌==◌}
use Prim.Native.String.{String}
use korean_stock_trading_sys.Common.Tests.{Bool-cases}
use korean_stock_trading_sys.Common.Dict.{Dict, get, put, remove, contains}

module _ {V W : Type 0} (M : V → W → Type 0) where
  abbrev pub Paired : Dict V → Dict W → Type 0
  Paired [] [] = Unit
  Paired ((k, v) ∷ d) ((j, w) ∷ e) = (k ≡ j) × M v w × Paired d e
  Paired _ _ = ⊥

  -- A key that the second has not, the first has not.
  pub Paired-none :
      (k : String) (d : Dict V) (e : Dict W) → Paired d e → get k e ≡ none → get k d ≡ none
  unfolding get
  Paired-none k [] [] s h = refl
  Paired-none k [] (x ∷ e) s h = refl
  Paired-none k (x ∷ d) [] s h = absurd s
  Paired-none k ((i, v) ∷ d) ((j, w) ∷ e) s h = elim (Bool-cases (i == k)) [
    | inl same ↦ ground (arith, same, s.0)
    | inr other ↦ ground (arith, other, s.0, Paired-none k d e s.2)
  ]

  pub contains-Paired :
      (k : String) (d : Dict V) (e : Dict W) → Paired d e → contains k d ≡ contains k e
  unfolding get
  contains-Paired k [] [] s = refl
  contains-Paired k [] (x ∷ e) s = absurd s
  contains-Paired k (x ∷ d) [] s = absurd s
  contains-Paired k ((i, v) ∷ d) ((j, w) ∷ e) s = ground (arith, s.0, contains-Paired k d e s.2)

  pub Paired-put :
      (k : String) (v : V) (w : W) (d : Dict V) (e : Dict W)
      → M v w
      → Paired d e
      → Paired (put k v d) (put k w e)
  unfolding put
  Paired-put k v w [] [] m s = (refl, m, tt)
  Paired-put k v w [] (x ∷ e) m s = absurd s
  Paired-put k v w (x ∷ d) [] m s = absurd s
  Paired-put k v w ((i, v') ∷ d) ((j, w') ∷ e) m s = ground (arith, Paired-put k v w d e m)

  pub Paired-remove :
      (k : String) (d : Dict V) (e : Dict W) → Paired d e → Paired (remove k d) (remove k e)
  unfolding remove
  Paired-remove k [] [] s = tt
  Paired-remove k [] (x ∷ e) s = absurd s
  Paired-remove k (x ∷ d) [] s = absurd s
  Paired-remove k ((i, v') ∷ d) ((j, w') ∷ e) s = ground (arith, Paired-remove k d e)
