-- ===== src/Common/Keys.antt =====
-- Dictionaries with one entry for each key, and those whose keys another one has too.
use text.Mathlib.Text.{◌==◌}
use text.Mathlib.TextEquality.{eq_iff}
use text.Mathlib.TextPositions.{eq_refl}
use Prim.Native.String.{String}
use mathlib.Core.Path.{◌≡◌, refl, sym, ap, ◌∙◌, subst}
use mathlib.Core.Logic.{◌≢◌, inl, inr, ◌⊎◌}
use mathlib.Core.Bool.{true}
use mathlib.Core.Option.{none}
use mathlib.Core.List.{[], ◌∷◌}
use native.Mathlib.Omega.{arith}
use korean_stock_trading_sys.Common.Tests.{Bool-cases, is_some}
use korean_stock_trading_sys.Common.Lists.{length}
use korean_stock_trading_sys.Common.Dict.{
  Dict, get, put, remove, contains, get-put_ne, get-remove_ne, contains-put, contains-remove,
}

pub same_or_not : (j k : String) → (j ≡ k) ⊎ (j ≢ k)
same_or_not j k = elim (Bool-cases (j == k)) [
  | inl same ↦ inl (ground (arith, eq_iff j k, same))
  | inr other ↦ inr (λ e. ground (arith, eq_iff j k, other, e))
]

module _ {ℓ} {V : Type ℓ} where
  abbrev pub Unique : Dict V → Type ℓ
  Unique [] = Unit
  Unique ((k, v) ∷ d) = (get k d ≡ none) × Unique d

  pub Unique-put : (k : String) (v : V) (d : Dict V) → Unique d → Unique (put k v d)
  unfolding put
  Unique-put k v [] u = (unfold get in refl, tt)
  Unique-put k v ((j, w) ∷ d) u = elim (Bool-cases (j == k)) [
    | inl same ↦ rw (same, put) u
    | inr other ↦
        let different : j ≢ k = λ e. ground (arith, eq_iff j k, other, e) in
        rw (other, put) (get-put_ne k j v d different ∙ u.0, Unique-put k v d u.1)
  ]

  pub get-remove_self : (k : String) (d : Dict V) → Unique d → get k (remove k d) ≡ none
  unfolding get remove
  get-remove_self k [] u = refl
  get-remove_self k ((j, w) ∷ d) u = elim (same_or_not j k) [
    | inl same ↦ ground (arith, eq_iff j k, same, u.0, ap (λ (x : String). get x d) (sym same))
    | inr other ↦ ground (arith, eq_iff j k, other, get-remove_self k d u.1)
  ]

  pub Unique-remove : (k : String) (d : Dict V) → Unique d → Unique (remove k d)
  unfolding remove
  Unique-remove k [] u = tt
  Unique-remove k ((j, w) ∷ d) u = elim (Bool-cases (j == k)) [
    | inl same ↦ rw (same, remove) u.1
    | inr other ↦
        let different : j ≢ k = λ e. ground (arith, eq_iff j k, other, e) in
        rw (other, remove) (get-remove_ne k j d different ∙ u.0, Unique-remove k d u.1)
  ]

-- Each key of the first is one of the second.
abbrev pub Within {ℓ κ} : {V : Type ℓ} {W : Type κ} → Dict V → Dict W → Type 0
Within d e = (k : String) → contains k d ≡ true → contains k e ≡ true

module _ {ℓ κ} {V : Type ℓ} {W : Type κ} where
  pub Within-put_right :
      (k : String) (w : W) (d : Dict V) (e : Dict W) → Within d e → Within d (put k w e)
  Within-put_right k w d e h j held = contains-put j k w e (h j held)

  pub Within-put :
      (k : String) (v : V) (d : Dict V) (e : Dict W)
      → contains k e ≡ true
      → Within d e
      → Within (put k v d) e
  Within-put k v d e there h j held = elim (same_or_not j k) [
    | inl same ↦ subst (λ x. contains x e ≡ true) (sym same) there
    | inr other ↦ h j (sym (ap is_some (get-put_ne k j v d other)) ∙ held)
  ]

  pub Within-remove : (k : String) (d : Dict V) (e : Dict W) → Within d e → Within (remove k d) e
  Within-remove k d e h j held = h j (contains-remove j k d held)

  -- The same key out of both.
  pub Within-remove_both :
      (k : String) (d : Dict V) (e : Dict W)
      → get k (remove k d) ≡ none
      → Within d e
      → Within (remove k d) (remove k e)
  Within-remove_both k d e gone h j held = elim (same_or_not j k) [
    | inl same ↦ absurd cc
    | inr other ↦
        ap is_some (get-remove_ne k j e other)
        ∙ h j (sym (ap is_some (get-remove_ne k j d other)) ∙ held)
  ]

  -- A key that the first does not have can leave the second.
  pub Within-remove_right :
      (k : String) (d : Dict V) (e : Dict W) → get k d ≡ none → Within d e → Within d (remove k e)
  Within-remove_right k d e none_held h j held = elim (same_or_not j k) [
    | inl same ↦ absurd cc
    | inr other ↦ ap is_some (get-remove_ne k j e other) ∙ h j held
  ]

-- Every key satisfies P.
abbrev pub AllKeys {ℓ κ} : {V : Type ℓ} → (String → Type κ) → Dict V → Type κ
AllKeys P [] = Unit
AllKeys P ((k, v) ∷ d) = P k × AllKeys P d

pub Within-AllKeys {ℓ κ} :
    {V : Type ℓ} {W : Type κ} (d : Dict V) (e : Dict W)
    → Within d e
    → AllKeys (λ k. contains k e ≡ true) d
Within-AllKeys [] e h = tt
Within-AllKeys ((k, v) ∷ d) e h = (h k first, Within-AllKeys d e (λ j held. h j (later j held)))
  where
    first : contains k ((k, v) ∷ d) ≡ true
    first = unfold get in ground (arith, eq_refl k)

    later : (j : String) → contains j d ≡ true → contains j ((k, v) ∷ d) ≡ true
    later j held = unfold get in ground arith

-- The keys alone.
module _ {ℓ} {V : Type ℓ} where
  abbrev pub keys : Dict V → Dict (Unit {0})
  keys [] = []
  keys ((k, v) ∷ d) = (k, tt) ∷ keys d

  pub length-keys : (d : Dict V) → length (keys d) ≡ length d
  length-keys [] = refl
  length-keys ((k, v) ∷ d) = omega (arith, length-keys d)

  pub contains-keys : (k : String) (d : Dict V) → contains k (keys d) ≡ contains k d
  unfolding get
  contains-keys k [] = refl
  contains-keys k ((j, v) ∷ d) = ground (arith, contains-keys k d)

  pub keys-put : (k : String) (v : V) (d : Dict V) → keys (put k v d) ≡ put k tt (keys d)
  unfolding put
  keys-put k v [] = refl
  keys-put k v ((j, w) ∷ d) = ground (arith, keys-put k v d)

  pub keys-remove : (k : String) (d : Dict V) → keys (remove k d) ≡ remove k (keys d)
  unfolding remove
  keys-remove k [] = refl
  keys-remove k ((j, w) ∷ d) = ground (arith, keys-remove k d)
