-- ===== src/Storage/Rows.antt =====
-- storage/db.py: the rows of a day in the order in which they are read back.
use korean_stock_trading_sys.Common.{
  ℕ, ◌≡◌, refl, ap, inl, inr, some, Option-cases, false, List, [], ◌∷◌, ◌++◌, All, arith,
}
use korean_stock_trading_sys.Common.Dict.{Dict}
use korean_stock_trading_sys.Storage.{
  OrderRow, OpenPositionRow, DailyPnlSnapshot, key_lt, insert_row, sort_rows, of_session,
  replay_row, replay, tally_row, tally,
}

pub key_lt_self : (a : List ℕ) → key_lt a a ≡ false
unfolding key_lt
key_lt_self [] = refl
key_lt_self (x ∷ xs) = ground (arith, key_lt_self xs)

-- Where b is not above a, and a not above c, b is not above c.
pub key_lt_trans : (a b c : List ℕ) → key_lt a b ≡ false → key_lt c a ≡ false → key_lt c b ≡ false
unfolding key_lt
key_lt_trans a [] [] h k = refl
key_lt_trans a [] (z ∷ zs) h k = refl
key_lt_trans [] (y ∷ ys) c h k = absurd (ground arith)
key_lt_trans (x ∷ xs) (y ∷ ys) [] h k = absurd (ground arith)
key_lt_trans (x ∷ xs) (y ∷ ys) (z ∷ zs) h k = ground (arith, key_lt_trans xs ys zs)

-- No row stands above the key.
abbrev pub UpTo : List ℕ → List OrderRow → Type 0
UpTo k rows = All (λ (row : OrderRow). key_lt k row.filled_at.key ≡ false) rows

pub UpTo-later :
    (k l : List ℕ) (rows : List OrderRow) → UpTo k rows → key_lt l k ≡ false → UpTo l rows
UpTo-later k l [] u h = tt
UpTo-later k l (row ∷ rows) u h =
    (key_lt_trans k row.filled_at.key l u.0 h, UpTo-later k l rows u.1 h)

pub UpTo-snoc :
    (k : List ℕ) (rows : List OrderRow) (row : OrderRow)
    → UpTo k rows
    → row.filled_at.key ≡ k
    → UpTo k (rows ++ (row ∷ []))
UpTo-snoc k [] row u h = (rw h (key_lt_self k), tt)
UpTo-snoc k (x ∷ rows) row u h = (u.0, UpTo-snoc k rows row u.1 h)

pub insert_row_last :
    (row : OrderRow) (rows : List OrderRow)
    → UpTo row.filled_at.key rows
    → insert_row row rows ≡ rows ++ (row ∷ [])
unfolding insert_row
insert_row_last row [] u = refl
insert_row_last row (x ∷ rows) u =
    rw (u.0) (ap (λ (l : List OrderRow). x ∷ l) (insert_row_last row rows u.1))

pub sort_rows-append :
    (done rows more : List OrderRow)
    → sort_rows done (rows ++ more) ≡ sort_rows (sort_rows done rows) more
unfolding sort_rows
sort_rows-append done [] more = refl
sort_rows-append done (row ∷ rows) more = sort_rows-append (insert_row row done) rows more

pub of_session-append :
    (date : ℕ) (rows more : List OrderRow)
    → of_session date (rows ++ more) ≡ of_session date rows ++ of_session date more
unfolding of_session
of_session-append date [] more = refl
of_session-append date (row ∷ rows) more = ground (arith, of_session-append date rows more)

pub replay-snoc :
    (rows : List OrderRow) (row : OrderRow) (d d₁ d₂ : Dict OpenPositionRow)
    → replay rows d ≡ (d₁, 0)
    → replay_row row.side row d₁ ≡ some d₂
    → replay (rows ++ (row ∷ [])) d ≡ (d₂, 0)
unfolding replay
replay-snoc [] row d d₁ d₂ h k = ground arith
replay-snoc (x ∷ rows) row d d₁ d₂ h k = elim (Option-cases (replay_row x.side x d)) [
  | inl bad ↦ absurd (ground (arith, bad))
  | inr (d', good) ↦ rw (good, replay) (replay-snoc rows row d' d₁ d₂ (ground (arith, good)) k)
]

pub tally-snoc :
    (rows : List OrderRow) (row : OrderRow) (s s₁ s₂ : DailyPnlSnapshot)
    → tally rows s ≡ (s₁, 0)
    → tally_row row.side row s₁ ≡ some s₂
    → tally (rows ++ (row ∷ [])) s ≡ (s₂, 0)
unfolding tally
tally-snoc [] row s s₁ s₂ h k = ground arith
tally-snoc (x ∷ rows) row s s₁ s₂ h k = elim (Option-cases (tally_row x.side x s)) [
  | inl bad ↦ absurd (ground (arith, bad))
  | inr (s', good) ↦ rw (good, tally) (tally-snoc rows row s' s₁ s₂ (ground (arith, good)) k)
]
