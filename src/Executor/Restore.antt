-- ===== src/Executor/Restore.antt =====
-- execution/executor.py, `restore_session`: a session that goes on after a restart of the process.
use korean_stock_trading_sys.Common.{
  ℕ, ◌≡◌, refl, inl, inr, subst, Bool, true, false, Bool-cases, ℤ, Option, none, some, List, [],
  ◌∷◌, ◌++◌, String, if◌then◌else◌, map, arith,
}
use text.Mathlib.Text.{◌==◌}
use korean_stock_trading_sys.Common.Dict.{Dict, contains, put}
use korean_stock_trading_sys.Common.Paired.{Paired, Paired-put}
use korean_stock_trading_sys.Common.Exec.{
  Result, ok, err, Exec, Result-cases, ok-injective, pure, ◌>>◌,
}
use korean_stock_trading_sys.Decimal.{Decimal, literal}
use korean_stock_trading_sys.Clock.{Datetime}
use korean_stock_trading_sys.Symbol.{full_match}
use korean_stock_trading_sys.Risk
use korean_stock_trading_sys.Risk.{
  RiskError, RiskManager, PositionRecord, start_session, collect, restored,
}
use korean_stock_trading_sys.Orb.{
  OrbStrategy, OrbError, restore_long_position, mark_session_closed, reset_session,
}
use korean_stock_trading_sys.Executor.{
  Outside, ExecutorConfig, ExecutorError, restore_failed, OpenLot, Executor,
}
use korean_stock_trading_sys.Executor.Orders.{Method, once, on_risk}
use korean_stock_trading_sys.Executor.InSync.{Matches, InSync, Keeps, kept, bind_keeps}

-- `OpenPositionInput`
pub record OpenPosition : Type 0 where
  pub symbol : String
  pub qty : ℤ
  pub entry_price : Decimal
  pub entry_ts : Datetime

-- What the executor calls of a strategy that is an `ORBStrategy`.
pub record Restorer (S E : Type 0) : Type 0 where
  pub restore_long_position : String → Decimal → Datetime → Exec S E (Unit {0})
  pub mark_session_closed : String → ℕ → Exec S E (Unit {0})
  pub reset_session : List String → S → S

-- `ORBStrategy` as a restorer.
abbrev pub orb_restorer : Restorer OrbStrategy OrbError
orb_restorer = record {
  restore_long_position = restore_long_position;
  mark_session_closed = mark_session_closed;
  reset_session = reset_session;
}

abbrev pub position_of : OpenPosition → PositionRecord
position_of p = record {
  symbol = p.symbol;
  entry_price = p.entry_price;
  qty = p.qty;
  entry_ts = p.entry_ts;
}

-- `{p.symbol: _OpenLot(...) for p in positions}`, with the dictionary so far.
unfoldable pub lots_of : List OpenPosition → Dict OpenLot → Dict OpenLot
lots_of [] d = d
lots_of (p ∷ ps) d =
    lots_of ps (
      put p.symbol (record { entry_price = p.entry_price; qty = p.qty; stop_price = literal 0 0 })
        d)

unfoldable pub is_open : String → List OpenPosition → Bool
is_open s [] = false
is_open s (p ∷ ps) = let rest = is_open s ps in if p.symbol == s then true else rest

-- The closed symbols that are not open too.
unfoldable pub effective_closed : List OpenPosition → List String → List String
effective_closed ps [] = []
effective_closed ps (s ∷ ss) =
    let rest = effective_closed ps ss in if is_open s ps then rest else s ∷ rest

-- A loop that stops at the first raise: whether it came to its end, and the symbols it touched.
abbrev pub Touched : Type 0 → Type 0
Touched S = (Bool × List String) × S

module _ {S E : Type 0} (r : Restorer S E) where
  unfoldable pub restore_longs : List OpenPosition → List String → S → Touched S
  restore_longs [] touched s = ((true, touched), s)
  restore_longs (p ∷ ps) touched s =
      let (o, s') = r.restore_long_position p.symbol p.entry_price p.entry_ts s in
      elim o [
        | ok _ ↦ restore_longs ps (touched ++ (p.symbol ∷ [])) s'
        | err _ ↦ ((false, touched), s')
      ]

  unfoldable pub mark_closed : ℕ → List String → List String → S → Touched S
  mark_closed date [] touched s = ((true, touched), s)
  mark_closed date (k ∷ ks) touched s =
      let (o, s') = r.mark_session_closed k date s in
      elim o [
        | ok _ ↦ mark_closed date ks (touched ++ (k ∷ [])) s'
        | err _ ↦ ((false, touched), s')
      ]

  -- The second loop runs where the first has come to its end.
  abbrev pub then_mark : ℕ → List String → Touched S → Touched S
  then_mark date ks ((true, touched), s) = mark_closed date ks touched s
  then_mark date ks ((false, touched), s) = ((false, touched), s)

module _ (W S E : Type 0) (out : Outside W) (c : ExecutorConfig) (orb : Option (Restorer S E)) where
  abbrev pub Restoring : Type 0
  Restoring = Method W S E out c (Unit {0})

  -- Behind the two loops: on a raise the touched symbols are reset and the manager begins the day
  -- anew.
  abbrev pub rolled_back : Restorer S E → ℕ → ℤ → Touched S → Restoring
  rolled_back r date capital ((true, touched), s) x = (ok tt, record x { strategy = s })
  rolled_back r date capital ((false, touched), s) x = (
    err restore_failed,
    record x { strategy = r.reset_session touched s; risk = (start_session date capital x.risk).1 },
  )

  -- The strategies without a restorer are skipped.
  abbrev pub restore_strategy :
      ℕ → ℤ → List OpenPosition → List String → Option (Restorer S E) → Restoring
  restore_strategy date capital ps closed none x = (ok tt, x)
  restore_strategy date capital ps closed (some r) x =
      rolled_back r date capital
        (then_mark r date (effective_closed ps closed) (restore_longs r ps [] x.strategy)) x

  unfoldable pub subscribe_all : List OpenPosition → Restoring
  subscribe_all [] = pure tt
  subscribe_all (p ∷ ps) = once W S E out c (out.subscribe p.symbol) >> subscribe_all ps

  abbrev pub replace_lots : List OpenPosition → Restoring
  replace_lots ps x = (ok tt, record x { last_processed_bar_time = []; open_lots = lots_of ps [] })

  abbrev pub resume : Restoring
  resume x = (ok tt, record x { halt = false; last_reconcile = none })

  -- The executor's own part.
  abbrev pub commit : List OpenPosition → Restoring
  commit ps = replace_lots ps >> (subscribe_all ps >> resume)

  unfoldable pub restore_session : ℕ → ℤ → List OpenPosition → List String → ℤ → ℤ → Restoring
  restore_session date capital ps closed entries pnl = do
    on_risk W S E out c (Risk.restore_session date capital (map position_of ps) entries pnl)
    restore_strategy date capital ps closed orb
    commit ps

pub collect_tail :
    (p : PositionRecord) (ps : List PositionRecord) (a b : Dict PositionRecord)
    → collect (p ∷ ps) a ≡ ok b
    → collect ps (put p.symbol p a) ≡ ok b
unfolding collect
collect_tail p ps a b e = elim (Bool-cases (full_match p.symbol)) [
  | inr bad ↦ absurd (ground (arith, bad))
  | inl good ↦ elim (Bool-cases (contains p.symbol a)) [
    | inl old ↦ absurd (ground (arith, good, old))
    | inr new ↦ ground (arith, good, new)
  ]
]

lots_collected :
    (ps : List OpenPosition) (d : Dict OpenLot) (a b : Dict PositionRecord)
    → Paired Matches d a
    → collect (map position_of ps) a ≡ ok b
    → Paired Matches (lots_of ps d) b
unfolding lots_of collect
lots_collected [] d a b h e = subst (Paired Matches d) (ok-injective a b e) h
lots_collected (p ∷ ps) d a b h e =
    lots_collected ps _ (put p.symbol (position_of p) a) b
      (Paired-put Matches p.symbol _ _ d a (refl, refl) h)
      (collect_tail (position_of p) (map position_of ps) a b e)

pub risk_restored :
    (date : ℕ) (capital : ℤ) (ps : List PositionRecord) (entries pnl : ℤ) (m : RiskManager)
    → (Risk.restore_session date capital ps entries pnl m).0 ≡ ok tt
    → collect ps [] ≡ ok (Risk.restore_session date capital ps entries pnl m).1.active_positions
unfolding Risk.restore_session
risk_restored date capital ps entries pnl m h = elim (Result-cases (collect ps [])) [
  | inl (e, bad) ↦ absurd (ground (arith, bad))
  | inr (b, good) ↦ ground (arith, good)
]

module _ (W S E : Type 0) (out : Outside W) (c : ExecutorConfig) (orb : Option (Restorer S E)) where
  subscribe_all_keeps : (ps : List OpenPosition) → Keeps InSync (subscribe_all W S E out c orb ps)
  unfolding subscribe_all
  subscribe_all_keeps [] = kept (λ x v. v)
  subscribe_all_keeps (p ∷ ps) =
      bind_keeps (Executor W S) (ExecutorError E) (Unit {0}) (Unit {0}) InSync
        (once W S E out c (out.subscribe p.symbol)) (λ _. subscribe_all W S E out c orb ps)
        (kept (λ x v. v)) (λ _. subscribe_all_keeps ps)

  commit_syncs :
      (ps : List OpenPosition) (x : Executor W S)
      → Paired Matches (lots_of ps []) x.risk.active_positions
      → InSync (commit W S E out c orb ps x).1
  commit_syncs ps x h =
      (bind_keeps (Executor W S) (ExecutorError E) (Unit {0}) (Unit {0}) InSync
          (subscribe_all W S E out c orb ps) (λ _. resume W S E out c orb) (subscribe_all_keeps ps)
          (λ _. kept (λ x v. v))).keep
        (replace_lots W S E out c orb ps x).1 h

  module _ (date : ℕ) (capital : ℤ) (ps : List OpenPosition) (closed : List String)
      (x : Executor W S) where
    looped :
        (r : Restorer S E) (t : Touched S) (y : Executor W S)
        → Paired Matches (lots_of ps []) y.risk.active_positions
        → ((rolled_back W S E out c orb r date capital t >> commit W S E out c orb ps) y).0 ≡ ok tt
        → InSync ((rolled_back W S E out c orb r date capital t >> commit W S E out c orb ps) y).1
    looped r ((true, touched), s) y h e = commit_syncs ps (record y { strategy = s }) h
    looped r ((false, touched), s) y h e = cc

    strategy_restored :
        (o : Option (Restorer S E)) (y : Executor W S)
        → Paired Matches (lots_of ps []) y.risk.active_positions
        → ((restore_strategy W S E out c orb date capital ps closed o >> commit W S E out c orb ps)
            y).0
          ≡ ok tt
        → InSync
            ((restore_strategy W S E out c orb date capital ps closed o
                >> commit W S E out c orb ps)
              y).1
    strategy_restored none y h e = commit_syncs ps y h
    strategy_restored (some r) y h e =
        looped r (then_mark r date (effective_closed ps closed) (restore_longs r ps [] y.strategy))
          y h e

    risk_then :
        (o : Result RiskError (Unit {0}) × RiskManager)
        → (o.0 ≡ ok tt → Paired Matches (lots_of ps []) o.1.active_positions)
        → ((on_risk W S E out c (λ _. o)
              >> (restore_strategy W S E out c orb date capital ps closed orb
                  >> commit W S E out c orb ps))
            x).0
          ≡ ok tt
        → InSync
            ((on_risk W S E out c (λ _. o)
                >> (restore_strategy W S E out c orb date capital ps closed orb
                    >> commit W S E out c orb ps))
              x).1
    risk_then (err e', m) k e = cc
    risk_then (ok _, m) k e = strategy_restored orb (record x { risk = m }) (k refl) e

  -- A restored session that returns has lots and positions in step, whatever they were before.
  pub restore_session-InSync :
      (date : ℕ) (capital : ℤ) (ps : List OpenPosition) (closed : List String) (entries pnl : ℤ)
      (x : Executor W S)
      → (restore_session W S E out c orb date capital ps closed entries pnl x).0 ≡ ok tt
      → InSync (restore_session W S E out c orb date capital ps closed entries pnl x).1
  unfolding restore_session
  restore_session-InSync date capital ps closed entries pnl x e =
      let records = map position_of ps in
      risk_then date capital ps closed x
        (Risk.restore_session date capital records entries pnl x.risk)
        (λ h.
          lots_collected ps [] [] _ tt (risk_restored date capital records entries pnl x.risk h))
        e
