-- ===== src/Main/Opening.antt =====
-- execution/executor.py, `restore_session` and `start_session`: the lots and counters behind them.
use text.Mathlib.TextEquality.{eq_iff}
use mathlib.Core.List.{append_assoc, append-nil}
use korean_stock_trading_sys.Common.{
  ◌≡◌, refl, sym, ◌∙◌, ap, subst, inl, inr, none, some, Option-cases, List, [], ◌∷◌, ◌++◌, String,
  map, arith,
}
use korean_stock_trading_sys.Common.Dict.{Dict, get, put, remove, put-append_new}
use korean_stock_trading_sys.Common.Paired.{Paired, Paired-none, Paired-put}
use korean_stock_trading_sys.Common.Exec.{ok}
use korean_stock_trading_sys.Decimal.{literal}
use korean_stock_trading_sys.Risk.{PositionRecord, collect}
use korean_stock_trading_sys.Executor.{OpenLot, buy, sell, Side}
use korean_stock_trading_sys.Executor.InSync.{Matches}
use korean_stock_trading_sys.Executor.Restore.{OpenPosition, position_of, lots_of, collect_tail}
use korean_stock_trading_sys.Storage.{
  OrderRow, OpenPositionRow, read_open, replay_row, replay, values,
}
use korean_stock_trading_sys.Main.{as_input}
use korean_stock_trading_sys.Main.Noted.{Book, AsBooked}

-- Each row of a book stands under its symbol.
abbrev pub Keyed : Book → Type 0
Keyed [] = Unit {0}
Keyed ((k, p) ∷ d) = (p.symbol ≡ k) × Keyed d

Keyed-put :
    (k : String) (p : OpenPositionRow) (d : Book) → p.symbol ≡ k → Keyed d → Keyed (put k p d)
unfolding put
Keyed-put k p [] e h = (e, tt)
Keyed-put k p ((j, w) ∷ d) e h = ground (arith, eq_iff j k, Keyed-put k p d e)

Keyed-remove : (k : String) (d : Book) → Keyed d → Keyed (remove k d)
unfolding remove
Keyed-remove k [] h = tt
Keyed-remove k ((j, w) ∷ d) h = ground (arith, Keyed-remove k d)

read_open-symbol :
    (row : OrderRow) (p : OpenPositionRow) → read_open row ≡ some p → p.symbol ≡ row.symbol
unfolding read_open
read_open-symbol row p h = ground arith

Keyed-replay_row :
    (side : Side) (row : OrderRow) (d d' : Book)
    → Keyed d
    → replay_row side row d ≡ some d'
    → Keyed d'
unfolding replay_row
Keyed-replay_row buy row d d' h e = elim (Option-cases (read_open row)) [
  | inl refused ↦ absurd (ground (arith, refused))
  | inr (p, read) ↦
      subst Keyed (ground (arith, read)) (Keyed-put row.symbol p d (read_open-symbol row p read) h)
]
Keyed-replay_row sell row d d' h e = subst Keyed (ground arith) (Keyed-remove row.symbol d h)

pub Keyed-replay : (rows : List OrderRow) (d : Book) → Keyed d → Keyed (replay rows d).0
unfolding replay
Keyed-replay [] d h = h
Keyed-replay (row ∷ rows) d h = elim (Option-cases (replay_row row.side row d)) [
  | inl refused ↦ rw (refused, replay) (Keyed-replay rows d h)
  | inr (d', read) ↦
      rw (read, replay) (Keyed-replay rows d' (Keyed-replay_row row.side row d d' h read))
]

abbrev lot_of : OpenPosition → OpenLot
lot_of p = record { entry_price = p.entry_price; qty = p.qty; stop_price = literal 0 0 }

abbrev pub direct : List OpenPosition → Dict OpenLot
direct [] = []
direct (p ∷ ps) = (p.symbol, lot_of p) ∷ direct ps

new_symbol :
    (p : PositionRecord) (ps : List PositionRecord) (a b : Dict PositionRecord)
    → collect (p ∷ ps) a ≡ ok b
    → get p.symbol a ≡ none
unfolding collect
new_symbol p ps a b e = ground arith

-- Positions that are collected are of different symbols, so their lots stand side by side.
lots_of-direct :
    (ps : List OpenPosition) (d : Dict OpenLot) (a b : Dict PositionRecord)
    → Paired Matches d a
    → collect (map position_of ps) a ≡ ok b
    → lots_of ps d ≡ d ++ direct ps
unfolding lots_of
lots_of-direct [] d a b h e = sym (append-nil d)
lots_of-direct (p ∷ ps) d a b h e =
    let new = new_symbol (position_of p) (map position_of ps) a b e in
    lots_of-direct ps (put p.symbol (lot_of p) d) (put p.symbol (position_of p) a) b
      (Paired-put Matches p.symbol (lot_of p) (position_of p) d a (refl, refl) h)
      (collect_tail (position_of p) (map position_of ps) a b e)
    ∙ ap (λ (l : Dict OpenLot). l ++ direct ps)
        (put-append_new p.symbol (lot_of p) d (Paired-none Matches p.symbol d a h new))
    ∙ append_assoc d ((p.symbol, lot_of p) ∷ []) (direct ps)

direct-AsBooked : (d : Book) → Keyed d → Paired AsBooked (direct (map as_input (values d))) d
direct-AsBooked [] h = tt
direct-AsBooked ((k, p) ∷ d) h = (h.0, (refl, refl), direct-AsBooked d h.1)

-- The lots that are restored from a book stand for it.
pub restored-AsBooked :
    (d : Book) (b : Dict PositionRecord)
    → Keyed d
    → collect (map position_of (map as_input (values d))) [] ≡ ok b
    → Paired AsBooked (lots_of (map as_input (values d)) []) d
restored-AsBooked d b h e =
    subst (λ (l : Dict OpenLot). Paired AsBooked l d)
      (sym (lots_of-direct (map as_input (values d)) [] [] b tt e)) (direct-AsBooked d h)
