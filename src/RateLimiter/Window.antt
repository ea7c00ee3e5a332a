-- ===== src/RateLimiter/Window.antt =====
-- broker/rate_limiter.py: how many grants fall into a period.
use korean_stock_trading_sys.Common.{
  ℕ, ◌+◌, ◌-◌, ◌≤◌, ◌<◌, ◌≡◌, refl, ◌⊎◌, inl, inr, sym, subst, false, Bool-cases, List, [], ◌∷◌,
  ◌++◌, ltb, leb, if◌then◌else◌, length, length-append, All, arith,
}
use korean_stock_trading_sys.RateLimiter.{
  Limits, Timing, purge, wait_for_window, wait_for_interval, max, after_wait, admit, acquire,
}

-- What the limiter relies on: there is a time that the clock shows, that a reading does not turn back
-- and that a sleep moves on by its length at least.
pub record Ticks {W : Type 0} (k : Timing W) : Type 0 where
  pub time : W → ℕ
  pub reads : (w : W) → ((k.time_fn w).0 ≡ time w) × (time w ≤ time (k.time_fn w).1)
  pub sleeps : (d : ℕ) (w : W) → time w + d ≤ time (k.sleep_fn d w)

-- The number of grants whose period is not over at t.
unfoldable pub recent : Limits → ℕ → List ℕ → ℕ
recent l t [] = 0
recent l t (s ∷ ss) = (if ltb t (s + l.period) then 1 else 0) + recent l t ss

abbrev IsPast : ℕ → ℕ → Type 0
IsPast now t = t ≤ now

module _ (l : Limits) where
  purge_le : (now : ℕ) (ts : List ℕ) → length (purge l now ts) ≤ length ts
  unfolding purge
  purge_le now [] = omega arith
  purge_le now (t ∷ ts) = ground (arith, purge_le now ts)

  recent-purge :
      (now t : ℕ) (ts : List ℕ)
      → 1 ≤ l.period
      → now ≤ t
      → recent l t (purge l now ts) ≡ recent l t ts
  unfolding purge recent
  recent-purge now t [] hp h = refl
  recent-purge now t (s ∷ ss) hp h = ground (arith, recent-purge now t ss hp h)

  recent_le : (t : ℕ) (ts : List ℕ) → recent l t ts ≤ length ts
  unfolding recent
  recent_le t [] = omega arith
  recent_le t (s ∷ ss) = ground (arith, recent_le t ss)

  recent-append : (t : ℕ) (ts us : List ℕ) → recent l t (ts ++ us) ≡ recent l t ts + recent l t us
  unfolding recent
  recent-append t [] us = omega arith
  recent-append t (s ∷ ss) us = omega (arith, recent-append t ss us)

  purge-IsPast : (now u : ℕ) (ts : List ℕ) → All (IsPast u) ts → All (IsPast u) (purge l now ts)
  unfolding purge
  purge-IsPast now u [] h = tt
  purge-IsPast now u (t ∷ ts) h = ground (arith, purge-IsPast now u ts)

  -- The oldest timestamp that is left is within its period.
  purge_head : (now o : ℕ) (ts rest : List ℕ) → purge l now ts ≡ o ∷ rest → now - o < l.period
  unfolding purge
  purge_head now o [] rest h = cc
  purge_head now o (t ∷ ts) rest h = elim (Bool-cases (leb l.period (now - t))) [
    | inl old ↦ purge_head now o ts rest (ground (arith, old))
    | inr new ↦ ground (arith, new)
  ]

  purge_oldest :
      (now o : ℕ) (rest : List ℕ)
      → o + l.period ≤ now
      → length (purge l now (o ∷ rest)) ≤ length rest
  unfolding purge
  purge_oldest now o rest h = ground (arith, purge_le now rest)

-- Timestamps, all past, no more than the limit.
pub record IsQueue (l : Limits) (now : ℕ) (ts : List ℕ) : Type 0 where
  pub few : length ts ≤ l.max_calls
  pub past : All (IsPast now) ts

module _ (W : Type 0) (k : Timing W) (l : Limits) (c : Ticks k) (hm : 1 ≤ l.max_calls)
    (hp : 1 ≤ l.period) where
  -- A grant: it is in time, its clock goes on, and there is room for it among the timestamps, which
  -- lose nothing that is recent.
  pub record Grant (start : ℕ) (ts : List ℕ) (g : (ℕ × List ℕ) × W) : Type 0 where
    pub later : start ≤ g.0.0
    pub on : g.0.0 ≤ c.time g.1
    pub room : length g.0.1 + 1 ≤ l.max_calls
    pub same : (t : ℕ) → g.0.0 ≤ t → recent l t g.0.1 ≡ recent l t ts
    pub queue : All (IsPast g.0.0) g.0.1

  max_left : (a b : ℕ) → a ≤ max a b
  max_left a b = ground arith

  eq_or_lt : (n m : ℕ) → n ≤ m → (n ≡ m) ⊎ (n + 1 ≤ m)
  eq_or_lt n m h = elim (Bool-cases (leb (n + 1) m)) [
    | inl a ↦ inr (ground arith)
    | inr b ↦ inl (ground arith)
  ]

  -- What a wait is long enough for.
  Enough : ℕ → ℕ → List ℕ → Type 0
  Enough now wait ts =
      (o : ℕ) (rest : List ℕ)
      → ts ≡ o ∷ rest
      → (now - o < l.period) × (length ts ≡ l.max_calls → l.period - (now - o) ≤ wait)

  room_now :
      (now : ℕ) (ts : List ℕ)
      → length ts ≤ l.max_calls
      → Enough now 0 ts
      → length ts + 1 ≤ l.max_calls
  unfolding Enough
  room_now now [] few full = omega (arith, hm)
  room_now now (o ∷ rest) few full = elim (eq_or_lt (length (o ∷ rest)) l.max_calls few) [
    | inr h ↦ h
    | inl e ↦ let (a, b) = full o rest refl in absurd (omega (arith, a, b e))
  ]

  room_later :
      (now now' wait : ℕ) (ts : List ℕ)
      → length ts ≤ l.max_calls
      → All (IsPast now) ts
      → now + wait ≤ now'
      → Enough now wait ts
      → length (purge l now' ts) + 1 ≤ l.max_calls
  unfolding Enough
  room_later now now' wait [] few past h full = omega (arith, hm, purge_le l now' [])
  room_later now now' wait (o ∷ rest) few past h full =
      elim (eq_or_lt (length (o ∷ rest)) l.max_calls few) [
        | inr k ↦ omega (arith, k, purge_le l now' (o ∷ rest))
        | inl e ↦
            let (a, b) = full o rest refl in
            omega (arith, e, purge_oldest l now' o rest (omega (arith, a, b e, past.0, h)))
      ]

  waited :
      (wait now : ℕ) (ts : List ℕ) (w : W)
      → now ≤ c.time w
      → All (IsPast now) ts
      → length ts ≤ l.max_calls
      → Enough now wait ts
      → Grant now ts (after_wait k l wait now ts w)
  waited wait now ts w on past few full = elim (Bool-cases (ltb 0 wait)) [
    | inr none ↦ rw none (record {
      later = omega arith;
      on = on;
      room = room_now now ts few (subst (λ d. Enough now d ts) (is_zero wait none) full);
      same = λ t h. refl;
      queue = past;
    })
    | inl some ↦
        let (shown, on') = c.reads (k.sleep_fn wait w) in
        let slept = c.sleeps wait w in
        rw some (record {
          later = omega (arith, shown, slept, on);
          on = omega (arith, shown, on');
          room = room_later now _ wait ts few past (omega (arith, shown, slept, on)) full;
          same = λ t h. recent-purge l _ t ts hp h;
          queue = purge-IsPast l _ _ ts (older now _ ts (omega (arith, shown, slept, on)) past);
        })
  ]
    where
      is_zero : (n : ℕ) → ltb 0 n ≡ false → n ≡ 0
      is_zero n h = ground arith

      older : (a b : ℕ) (ts : List ℕ) → a ≤ b → All (IsPast a) ts → All (IsPast b) ts
      older a b [] h k = tt
      older a b (t ∷ ts) h k = (omega (arith, h, k.0), older a b ts h k.1)

  -- What the wait of `acquire` is long enough for.
  enough :
      (now : ℕ) (timestamps : List ℕ)
      → Enough now
          (max
            (wait_for_window l now (purge l now timestamps))
            (wait_for_interval l now (purge l now timestamps)))
          (purge l now timestamps)
  unfolding Enough
  enough now timestamps o rest e =
      (purge_head l now o timestamps rest e, λ k. longest o rest (purge l now timestamps) e k)
    where
      window :
          (o : ℕ) (rest : List ℕ)
          → length (o ∷ rest) ≡ l.max_calls
          → wait_for_window l now (o ∷ rest) ≡ l.period - (now - o)
      window o rest k = unfold wait_for_window in ground arith

      longest :
          (o : ℕ) (rest ts : List ℕ)
          → ts ≡ o ∷ rest
          → length ts ≡ l.max_calls
          → l.period - (now - o) ≤ max (wait_for_window l now ts) (wait_for_interval l now ts)
      longest o rest ts e k =
          subst
            (λ ts.
              length ts ≡ l.max_calls
              → l.period - (now - o) ≤ max (wait_for_window l now ts) (wait_for_interval l now ts))
            (sym e)
            (λ m. omega (
              arith,
              window o rest m,
              max_left (wait_for_window l now (o ∷ rest)) (wait_for_interval l now (o ∷ rest)),
            ))
            k

  admit_grants :
      (ts : List ℕ) (w : W) → IsQueue l (c.time w) ts → Grant (c.time w) ts (admit k l ts w)
  unfolding admit
  admit_grants ts w q =
      let (shown, on) = c.reads w in
      let now = (k.time_fn w).0 in
      let kept = purge l now ts in
      let g =
        waited (max (wait_for_window l now kept) (wait_for_interval l now kept)) now kept
          (k.time_fn w).1 (omega (arith, shown, on))
          (purge-IsPast l now now ts (subst (λ t. All (IsPast t) ts) (sym shown) q.past))
          (omega (arith, purge_le l now ts, q.few)) (enough now ts) in
      record {
        later = omega (arith, g.later, shown);
        on = g.on;
        room = g.room;
        same = λ t h.
            omega (arith, g.same t h, recent-purge l now t ts hp (omega (arith, g.later, h)));
        queue = g.queue;
      }

  -- A history of grants, the newest first, with the timestamps and the outside it has led to; between
  -- two calls time may go on.
  pub data Granted : List ℕ → List ℕ → W → Type 0 where
    begin : (w : W) → Granted [] [] w
    idle :
        {h ts : List ℕ} {w : W} → Granted h ts w → (w' : W) → c.time w ≤ c.time w' → Granted h ts w'
    grant :
        {h ts : List ℕ} {w : W}
        → Granted h ts w
        → Granted ((admit k l ts w).0.0 ∷ h) (acquire k l ts w).0 (acquire k l ts w).1

  -- At each grant fewer than `max_calls` of those before it are in their period.
  abbrev pub IsLimited : List ℕ → Type 0
  IsLimited [] = Unit
  IsLimited (t ∷ h) = (recent l t h + 1 ≤ l.max_calls) × IsLimited h

  record Kept (h ts : List ℕ) (w : W) : Type 0 where
    limited : IsLimited h
    queue : IsQueue l (c.time w) ts
    covers : (t : ℕ) → c.time w ≤ t → recent l t h ≤ recent l t ts

  older : (a b : ℕ) (ts : List ℕ) → a ≤ b → All (IsPast a) ts → All (IsPast b) ts
  older a b [] h k = tt
  older a b (t ∷ ts) h k = (omega (arith, h, k.0), older a b ts h k.1)

  snoc-IsPast :
      (a t : ℕ) (ts : List ℕ) → t ≤ a → All (IsPast a) ts → All (IsPast a) (ts ++ (t ∷ []))
  snoc-IsPast a t [] h k = (h, tt)
  snoc-IsPast a t (u ∷ ts) h k = (k.0, snoc-IsPast a t ts h k.1)

  grant-Kept :
      (h ts : List ℕ) (w : W)
      → Kept h ts w
      → Kept ((admit k l ts w).0.0 ∷ h) (acquire k l ts w).0 (acquire k l ts w).1
  unfolding acquire recent
  grant-Kept h ts w v =
      let g = admit_grants ts w v.queue in
      let now = (admit k l ts w).0.0 in
      let left = (admit k l ts w).0.1 in
      record {
        limited = (
          omega
              (arith, v.covers now g.later, g.same now (omega arith), recent_le l now left, g.room),
          v.limited,
        );
        queue = record {
          few = omega (arith, length-append left (now ∷ []), g.room);
          past = snoc-IsPast _ now left g.on (older now _ left g.on g.queue);
        };
        covers = λ t m. omega (
          arith,
          v.covers t (omega (arith, g.later, g.on, m)),
          g.same t (omega (arith, g.on, m)),
          recent-append l t left (now ∷ []),
        );
      }

  granted-Kept : {h ts : List ℕ} {w : W} → Granted h ts w → Kept h ts w
  granted-Kept (begin w) = record {
    limited = tt;
    queue = record { few = omega arith; past = tt };
    covers = λ t h. omega arith;
  }
  granted-Kept (idle {h} {ts} {w} r w' on) =
      let v = granted-Kept r in
      record {
        limited = v.limited;
        queue = record {
          few = v.queue.few;
          past = older (c.time w) (c.time w') ts on v.queue.past;
        };
        covers = λ t m. v.covers t (omega (arith, on, m));
      }
  granted-Kept (grant {h} {ts} {w} r) = grant-Kept h ts w (granted-Kept r)

  -- For limits of at least 1 and a clock that sleeps move on: in any history of grants, with any pauses
  -- between them, at the time of each grant fewer than `max_calls` of the earlier ones are younger than
  -- the period.
  pub granted-IsLimited : {h ts : List ℕ} {w : W} → Granted h ts w → IsLimited h
  granted-IsLimited r = (granted-Kept r).limited
