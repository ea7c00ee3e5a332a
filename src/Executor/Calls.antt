-- ===== src/Executor/Calls.antt =====
-- execution/executor.py: `_with_backoff` against the outside, attempt by attempt.
use korean_stock_trading_sys.Common.{ℕ, zero, suc, ◌+◌, ◌*◌, ◌^◌, ◌≤◌, ◌≡◌, refl, arith}
use korean_stock_trading_sys.Common.Exec.{Result, ok, err}
use korean_stock_trading_sys.Executor.{Fault, kis_client_error, Outside, exceeded, with_backoff}

module _ (W A : Type 0) (out : Outside W) (initial : ℕ) (fn : W → Result Fault A × W) where
  -- The outside behind k failed attempts, the first of which is attempt a, and the pauses after them.
  abbrev pub behind : ℕ → ℕ → W → W
  behind zero a w = w
  behind (suc k) a w = behind k (a + 1) (out.sleep (initial * 2 ^ a) (fn w).1)

  -- The first k attempts meet a client error.
  abbrev pub AllFail : ℕ → ℕ → W → Type 0
  AllFail zero a w = Unit
  AllFail (suc k) a w =
      ((fn w).0 ≡ err kis_client_error) × AllFail k (a + 1) (out.sleep (initial * 2 ^ a) (fn w).1)

  -- After k client errors, k at most the number of retries, a success is returned as it is; and where
  -- all of the first attempt and its retries meet a client error the limit is reported. The pause
  -- doubles with each retry.
  pub with_backoff_attempts :
      (n k a : ℕ) (w : W)
      → ((v : A)
          → k ≤ n
          → AllFail k a w
          → (fn (behind k a w)).0 ≡ ok v
          → with_backoff out initial fn n a w ≡ (ok v, (fn (behind k a w)).1))
        × (AllFail (suc n) a w → (with_backoff out initial fn n a w).0 ≡ err exceeded)
  unfolding with_backoff
  with_backoff_attempts n k a w = (returns n k a w, limit n a w)
    where
      returns :
          (n k a : ℕ) (w : W) (v : A)
          → k ≤ n
          → AllFail k a w
          → (fn (behind k a w)).0 ≡ ok v
          → with_backoff out initial fn n a w ≡ (ok v, (fn (behind k a w)).1)
      returns zero zero a w v h f e = rw (e, with_backoff) refl
      returns (suc n) zero a w v h f e = rw (e, with_backoff) refl
      returns zero (suc k) a w v h f e = absurd (omega arith)
      returns (suc n) (suc k) a w v h f e =
          rw (f.0, with_backoff) (returns n k (a + 1) _ v (omega arith) f.1 e)

      limit :
          (n a : ℕ) (w : W)
          → AllFail (suc n) a w
          → (with_backoff out initial fn n a w).0 ≡ err exceeded
      limit zero a w f = rw (f.0, with_backoff) refl
      limit (suc n) a w f = rw (f.0, with_backoff) (limit n (a + 1) _ f.1)
