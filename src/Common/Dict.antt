-- ===== src/Common/Dict.antt =====
-- A Python `dict` with string keys, in insertion order: a write to a key that is there keeps its
-- place, a new key goes to the end.
use text.Mathlib.Text.{◌==◌}
use text.Mathlib.TextEquality.{eq_iff}
use text.Mathlib.TextPositions.{eq_refl}
use Prim.Native.Nat.{◌+◌}
use Prim.Native.String.{String}
use native.Mathlib.Omega.{arith}
use mathlib.Core.Path.{◌≡◌, refl, subst, ap, sym, ◌∙◌}
use mathlib.Core.Logic.{◌≢◌, inl, inr}
use mathlib.Core.Bool.{Bool, true, false, ◌||◌}
use mathlib.Core.Option.{Option, none, some, some-injective}
use mathlib.Core.List.{List, [], ◌∷◌, ◌++◌}
use korean_stock_trading_sys.Common.Tests.{if◌then◌else◌, is_some, Bool-cases}
use korean_stock_trading_sys.Common.Lists.{length}

abbrev pub Dict {ℓ} : Type ℓ → Type ℓ
Dict V = List (String × V)

-- `k in ks` for a sequence or a set of strings.
unfoldable pub is_in : String → List String → Bool
is_in k [] = false
is_in k (j ∷ js) = j == k || is_in k js

module _ {ℓ} {V : Type ℓ} where
  -- `d.get(k)`
  unfoldable pub get : String → Dict V → Option V
  get k [] = none
  get k ((j, v) ∷ d) = if j == k then some v else get k d

  -- `k in d`
  abbrev pub contains : String → Dict V → Bool
  contains k d = is_some (get k d)

  -- `d[k] = v`
  unfoldable pub put : String → V → Dict V → Dict V
  put k v [] = (k, v) ∷ []
  put k v ((j, w) ∷ d) = if j == k then (j, v) ∷ d else (j, w) ∷ put k v d

  -- `del d[k]`, `d.pop(k, None)`
  unfoldable pub remove : String → Dict V → Dict V
  remove k [] = []
  remove k ((j, w) ∷ d) = if j == k then d else (j, w) ∷ remove k d

  pub get-put_self : (k : String) (v : V) (d : Dict V) → get k (put k v d) ≡ some v
  unfolding get put
  get-put_self k v [] = ground (arith, eq_refl k)
  get-put_self k v ((j, w) ∷ d) = ground (arith, eq_refl k, get-put_self k v d)

  pub get-put_ne : (k j : String) (v : V) (d : Dict V) → j ≢ k → get j (put k v d) ≡ get j d
  unfolding get put
  get-put_ne k j v [] h = ground (arith, eq_iff k j)
  get-put_ne k j v ((i, w) ∷ d) h =
      ground (arith, eq_iff k j, eq_iff i k, eq_iff i j, get-put_ne k j v d h)

  pub get-remove_ne : (k j : String) (d : Dict V) → j ≢ k → get j (remove k d) ≡ get j d
  unfolding get remove
  get-remove_ne k j [] h = refl
  get-remove_ne k j ((i, w) ∷ d) h =
      ground (arith, eq_iff k j, eq_iff i k, eq_iff i j, get-remove_ne k j d h)

  pub length-put_new :
      (k : String) (v : V) (d : Dict V) → get k d ≡ none → length (put k v d) ≡ length d + 1
  unfolding get put
  length-put_new k v [] h = omega arith
  length-put_new k v ((j, w) ∷ d) h = ground (arith, length-put_new k v d)

  pub length-remove :
      (k : String) (d : Dict V) → contains k d ≡ true → length (remove k d) + 1 ≡ length d
  unfolding get remove
  length-remove k [] h = cc
  length-remove k ((j, w) ∷ d) h = ground (arith, length-remove k d)

  pub put-append_new :
      (k : String) (v : V) (d : Dict V) → get k d ≡ none → put k v d ≡ d ++ ((k, v) ∷ [])
  unfolding get put
  put-append_new k v [] h = refl
  put-append_new k v ((j, w) ∷ d) h = ground (arith, put-append_new k v d)

  pub remove-put_ne :
      (j k : String) (v : V) (d : Dict V) → j ≢ k → remove j (put k v d) ≡ put k v (remove j d)
  unfolding put remove
  remove-put_ne j k v [] h = ground (arith, eq_iff k j)
  remove-put_ne j k v ((i, w) ∷ d) h =
      ground (arith, eq_iff k j, eq_iff i k, eq_iff i j, remove-put_ne j k v d h)

  pub contains-put :
      (j k : String) (v : V) (d : Dict V) → contains j d ≡ true → contains j (put k v d) ≡ true
  unfolding get put
  contains-put j k v [] h = cc
  contains-put j k v ((i, w) ∷ d) h = ground (arith, contains-put j k v d)

  -- What is there behind a removal was there before it.
  pub contains-remove :
      (j k : String) (d : Dict V) → contains j (remove k d) ≡ true → contains j d ≡ true
  unfolding get remove
  contains-remove j k [] h = h
  contains-remove j k ((i, w) ∷ d) h = ground (arith, contains-remove j k d)

-- Every value satisfies Q.
module _ {ℓ κ} {V : Type ℓ} (Q : V → Type κ) where
  abbrev pub AllValues : Dict V → Type κ
  AllValues [] = Unit
  AllValues ((k, v) ∷ d) = Q v × AllValues d

  pub AllValues-get : (k : String) (d : Dict V) {v : V} → AllValues d → get k d ≡ some v → Q v
  unfolding get
  AllValues-get k [] h e = cc
  AllValues-get k ((j, w) ∷ d) {v} h e = elim (Bool-cases (j == k)) [
    | inl same ↦
        subst Q
          (some-injective w v (ap (λ (b : Bool). if b then some w else get k d) (sym same) ∙ e)) h.0
    | inr other ↦
        AllValues-get k d h.1 (ap (λ (b : Bool). if b then some w else get k d) (sym other) ∙ e)
  ]

  pub AllValues-put : (k : String) (v : V) (d : Dict V) → Q v → AllValues d → AllValues (put k v d)
  unfolding put
  AllValues-put k v [] q h = (q, tt)
  AllValues-put k v ((j, w) ∷ d) q h = elim (Bool-cases (j == k)) [
    | inl same ↦ rw same (q, h.1)
    | inr other ↦ rw other (h.0, AllValues-put k v d q h.1)
  ]

  pub AllValues-remove : (k : String) (d : Dict V) → AllValues d → AllValues (remove k d)
  unfolding remove
  AllValues-remove k [] h = tt
  AllValues-remove k ((j, w) ∷ d) h = elim (Bool-cases (j == k)) [
    | inl same ↦ rw same h.1
    | inr other ↦ rw other (h.0, AllValues-remove k d h.1)
  ]
