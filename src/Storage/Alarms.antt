-- ===== src/Storage/Alarms.antt =====
-- storage/db.py: the counters of failures and the critical line that each run of failures causes.
use korean_stock_trading_sys.Common.{
  ℕ, ◌+◌, ◌≤◌, ◌≡◌, inl, inr, some, Bool, true, false, Bool-cases, List, [], ◌∷◌, leb, ◌==◌,
  if◌then◌else◌, arith,
}
use korean_stock_trading_sys.Storage.{
  Op, Recorder, on_success, on_failure, maybe_emit_critical, same_op, OrderRow, DailyRow,
  new_recorder, fresh,
}

-- Operations with whether they succeeded, in the order in which they end.
pub noted : List (Op × Bool) → Recorder → Recorder
noted [] r = r
noted ((op, true) ∷ os) r = noted os (on_success op r)
noted ((op, false) ∷ os) r = noted os (on_failure op r)

-- The runs of failures of one operation that reach the threshold, where k failures came before.
unfoldable pub due : Op → ℕ → ℕ → List (Op × Bool) → ℕ
due op threshold k [] = 0
due op threshold k ((o, success) ∷ os) =
    if same_op o op
    then if success
      then due op threshold 0 os
      else (if k + 1 == threshold then 1 else 0) + due op threshold (k + 1) os
    else due op threshold k os

-- How often an operation stands in a log.
pub times_in : Op → List Op → ℕ
times_in op [] = 0
times_in op (o ∷ os) = (if same_op o op then 1 else 0) + times_in op os

-- The flag says whether the run of failures has reached the threshold.
abbrev pub IsMarked : Op → Recorder → Type 0
IsMarked op r = (1 ≤ r.threshold) × ((r.alarms op).emitted ≡ leb r.threshold (r.alarms op).failures)

module _ (op : Op) where
  after_success : (o : Op) (r : Recorder) → IsMarked op r → IsMarked op (on_success o r)
  unfolding on_success
  after_success o r m = ground arith

  after_failure : (o : Op) (r : Recorder) → IsMarked op r → IsMarked op (on_failure o r)
  unfolding on_failure maybe_emit_critical
  after_failure o r m = ground arith

  -- The count of the critical lines, and what is left of the run of failures.
  abbrev Counts : Op → Bool → Recorder → Recorder → Type 0
  Counts o success r r' =
      (r'.threshold ≡ r.threshold)
      × ((r'.alarms op).failures ≡ (
          if same_op o op
          then if success then 0 else (r.alarms op).failures + 1
          else (r.alarms op).failures))
      × (times_in op r'.criticals
          ≡ times_in op r.criticals
            + (if same_op o op
                then if success
                  then 0
                  else if (r.alarms op).failures + 1 == r.threshold
                  then 1
                  else 0
                else 0))

  success_Counts : (o : Op) (r : Recorder) → Counts o true r (on_success o r)
  unfolding on_success
  success_Counts o r = ground arith

  failure_Counts : (o : Op) (r : Recorder) → IsMarked op r → Counts o false r (on_failure o r)
  unfolding on_failure maybe_emit_critical times_in
  failure_Counts o r m = ground arith

  counting :
      (os : List (Op × Bool)) (r : Recorder)
      → IsMarked op r
      → times_in op (noted os r).criticals
        ≡ times_in op r.criticals + due op r.threshold (r.alarms op).failures os
  unfolding noted due
  counting [] r m = omega arith
  counting ((o, true) ∷ os) r m =
      ground (arith, success_Counts o r, counting os (on_success o r) (after_success o r m))
  counting ((o, false) ∷ os) r m =
      ground (arith, failure_Counts o r m, counting os (on_failure o r) (after_failure o r m))

fresh_count :
    (op : Op) (os : List (Op × Bool)) (threshold : ℕ) (orders : List OrderRow)
    (daily : List DailyRow)
    → 1 ≤ threshold
    → times_in op (noted os (fresh threshold orders daily)).criticals ≡ due op threshold 0 os
unfolding times_in
fresh_count op os threshold orders daily h =
    omega (arith, counting op os (fresh threshold orders daily) (h, ground arith))

-- From a fresh recorder, through any successes and failures of the five operations, an operation has
-- caused as many critical lines as it has had runs of failures that reached the threshold.
pub critical_once_a_run :
    (op : Op) (os : List (Op × Bool)) (threshold : ℕ) (orders : List OrderRow)
    (daily : List DailyRow) (r : Recorder)
    → new_recorder threshold orders daily ≡ some r
    → times_in op (noted os r).criticals ≡ due op threshold 0 os
unfolding new_recorder
critical_once_a_run op os threshold orders daily r h = elim (Bool-cases (leb threshold 0)) [
  | inl none_allowed ↦ absurd (ground (arith, none_allowed))
  | inr positive ↦
      let same : fresh threshold orders daily ≡ r = ground (arith, positive) in
      rw (← same) (fresh_count op os threshold orders daily (ground (arith, positive)))
]
