-- ===== src/RsiMr/Window.antt =====
-- strategy/rsi_mr.py: the buffers of closes against the whole history of a symbol.
use text.Mathlib.Text.{◌==◌}
use mathlib.Core.Option.{some-injective}
use text.Mathlib.TextEquality.{eq_iff}
use Prim.Native.Nat.{ℕ, zero, suc, ◌+◌, ◌-◌, ◌≤◌}
use korean_stock_trading_sys.Common.{
  ◌≡◌, ◌≢◌, refl, sym, ap, ◌∙◌, subst, inl, inr, some, is_some, true, false, Bool-cases, ltb, List,
  [], ◌∷◌, ◌++◌, length, length-append, append-nil, append_assoc, arith, String, if◌then◌else◌,
  Option-cases,
}
use korean_stock_trading_sys.Decimal.{Decimal}
use korean_stock_trading_sys.Common.{pos, ◌≤ℤ◌}
use korean_stock_trading_sys.Common.Dict.{Dict, get, put, is_in, contains, get-put_self, get-put_ne}
use korean_stock_trading_sys.Symbol.{line_match}
use korean_stock_trading_sys.Clock.{is_naive}
use korean_stock_trading_sys.Signal.{MinuteBar}
use korean_stock_trading_sys.RsiMr.{
  RsiMrConfig, RsiMrStrategy, append_bounded, tail, buffer_size, on_bar, is_reversed, new_strategy,
  empty_buffers,
}
use korean_stock_trading_sys.RsiMr.Cases.{on_bar_heard, read_bar_cases, longer}
use korean_stock_trading_sys.RsiMr.Ordered.{
  in_order, in_order-Passes, Heard, on_bar-Heard, Ready, empty_buffers-every,
}

abbrev pub drop : ℕ → List Decimal → List Decimal
drop zero xs = xs
drop (suc n) [] = []
drop (suc n) (x ∷ xs) = drop n xs

drop-nil : (m : ℕ) → drop m [] ≡ []
drop-nil zero = refl
drop-nil (suc m) = refl

-- The last n of a list, or all where there are fewer.
abbrev pub last_of : ℕ → List Decimal → List Decimal
last_of n xs = drop (length xs - n) xs

length-drop : (m : ℕ) (xs : List Decimal) → length (drop m xs) ≡ length xs - m
length-drop zero xs = omega arith
length-drop (suc m) [] = omega arith
length-drop (suc m) (x ∷ xs) = omega (arith, length-drop m xs)

drop-append : (m : ℕ) (xs ys : List Decimal) → m ≤ length xs → drop m (xs ++ ys) ≡ drop m xs ++ ys
drop-append zero xs ys h = refl
drop-append (suc m) [] ys h = absurd (omega arith)
drop-append (suc m) (x ∷ xs) ys h = drop-append m xs ys (omega arith)

tail-drop : (m : ℕ) (xs : List Decimal) → tail (drop m xs) ≡ drop (suc m) xs
tail-drop zero [] = refl
tail-drop zero (x ∷ xs) = refl
tail-drop (suc m) [] = refl
tail-drop (suc m) (x ∷ xs) = tail-drop m xs

abbrev cut : ℕ → List Decimal → List Decimal
cut n zs = if ltb n (length zs) then tail zs else zs

cut-drop :
    (n l : ℕ) (zs : List Decimal) → length zs ≡ l + 1 → cut n (drop (l - n) zs) ≡ last_of n zs
cut-drop n l zs e = elim (Bool-cases (ltb l n)) [
  | inl short ↦
      let none_left : l - n ≡ 0 = ground (arith, short) in
      let fits : ltb n (length zs) ≡ false = ground (arith, short, e) in
      let all : length zs - n ≡ 0 = ground (arith, short, e) in
      rw none_left (rw (fits, cut) (rw all refl))
  | inr long ↦
      let full : ltb n (length (drop (l - n) zs)) ≡ true =
        ground (arith, long, e, length-drop (l - n) zs) in
      let next : suc (l - n) ≡ length zs - n = ground (arith, long, e) in
      rw (full, cut) (tail-drop (l - n) zs ∙ ap (λ k. drop k zs) next)
]

-- A bounded buffer that has the last closes has the last ones behind another close too.
pub append_bounded-last_of :
    (n : ℕ) (x : Decimal) (xs : List Decimal)
    → append_bounded n x (last_of n xs) ≡ last_of n (xs ++ (x ∷ []))
unfolding append_bounded
append_bounded-last_of n x xs =
    ap (cut n) (sym (drop-append (length xs - n) xs (x ∷ []) (omega arith)))
    ∙ cut-drop n (length xs) (xs ++ (x ∷ [])) (omega (arith, length-append xs (x ∷ [])))

-- The closes of one symbol, in order.
unfoldable pub closes_of : String → List MinuteBar → List Decimal
closes_of k [] = []
closes_of k (bar ∷ bars) =
    let rest = closes_of k bars in if bar.symbol == k then bar.close ∷ rest else rest

-- The strategy behind the bars.
unfoldable pub after : List MinuteBar → RsiMrStrategy → RsiMrStrategy
after [] s = s
after (bar ∷ bars) s = after bars (on_bar bar s).1

module _ (c : RsiMrConfig) (positive : pos 1 ≤ℤ c.rsi_period) (k : String) where
  abbrev size : ℕ
  size = buffer_size c

  abbrev Windowed : List Decimal → RsiMrStrategy → Type 0
  Windowed past s = get k s.closes ≡ some (last_of size past)

  on_bar-closes :
      (bar : MinuteBar) (s : RsiMrStrategy) (buf : List Decimal)
      → line_match bar.symbol ≡ true
      → is_naive bar.bar_time ≡ false
      → is_reversed bar s ≡ false
      → get bar.symbol s.closes ≡ some buf
      → (on_bar bar s).1.closes ≡ put bar.symbol (longer bar buf s) s.closes
  on_bar-closes bar s buf good aware on own =
      subst (λ r. r.1.closes ≡ put bar.symbol (longer bar buf s) s.closes)
        (sym (on_bar_heard bar s buf good aware on own))
        (read_bar_cases bar s (λ r. r.1.closes ≡ put bar.symbol (longer bar buf s) s.closes) buf
          (record {
            broken = λ e h. refl;
            quiet = refl;
            left = λ h price reason held. refl;
            entered = λ new free late. refl;
          }))

  -- A close of the symbol, and a bar of another one.
  put-Windowed :
      (bar : MinuteBar) (s : RsiMrStrategy) (past buf : List Decimal) (closes : Dict (List Decimal))
      → s.config ≡ c
      → get bar.symbol s.closes ≡ some buf
      → closes ≡ put bar.symbol (longer bar buf s) s.closes
      → bar.symbol ≡ k
      → Windowed past s
      → get k closes ≡ some (last_of size (past ++ (bar.close ∷ [])))
  put-Windowed bar s past buf closes conf own e same h =
      ap (get k) e
      ∙ subst (λ j. get j (put bar.symbol (longer bar buf s) s.closes) ≡ some (longer bar buf s))
          same (get-put_self bar.symbol (longer bar buf s) s.closes)
      ∙ ap some (
          ap (λ x. append_bounded (buffer_size x) bar.close buf) conf
          ∙ ap (append_bounded size bar.close) had
          ∙ append_bounded-last_of size bar.close past)
    where
      had : buf ≡ last_of size past
      had = some-injective buf (last_of size past) (sym own ∙ ap (λ j. get j s.closes) same ∙ h)

  put-Windowed_ne :
      (bar : MinuteBar) (s : RsiMrStrategy) (past buf : List Decimal) (closes : Dict (List Decimal))
      → closes ≡ put bar.symbol buf s.closes
      → k ≢ bar.symbol
      → Windowed past s
      → get k closes ≡ some (last_of size past)
  put-Windowed_ne bar s past buf closes e other h =
      ap (get k) e ∙ get-put_ne bar.symbol k buf s.closes other ∙ h

  after-Windowed :
      (bars : List MinuteBar) (s : RsiMrStrategy) (past : List Decimal)
      → Ready c s
      → in_order c.universe s.last_bar_time bars ≡ true
      → Windowed past s
      → Windowed (past ++ closes_of k bars) (after bars s)
  unfolding after closes_of
  after-Windowed [] s past ready o h = h ∙ ap (λ xs. some (last_of size xs)) (sym (append-nil past))
  after-Windowed (bar ∷ bars) s past ready o h =
      let p = in_order-Passes c.universe s.last_bar_time bar bars o in
      let period = subst (λ x. pos 1 ≤ℤ x.rsi_period) (sym ready.same_config) positive in
      let own = ready.every bar.symbol p.member in
      let answer = on_bar-Heard bar s period p.spelled p.aware p.onward own in
      let buf = buffer bar s own in
      let closes = on_bar-closes bar s buf.0 p.spelled p.aware p.onward buf.1 in
      let next = answer-Ready bar s ready answer in
      let order = subst (λ t. in_order c.universe t bars ≡ true) (sym answer.timed_at) p.rest in
      elim (Bool-cases (bar.symbol == k)) [
        | inl same ↦ rw same (
            subst (λ xs. Windowed xs (after bars (on_bar bar s).1))
              (append_assoc past (bar.close ∷ []) (closes_of k bars))
              (after-Windowed bars (on_bar bar s).1 (past ++ (bar.close ∷ [])) next order (
                put-Windowed bar s past buf.0 _ ready.same_config buf.1 closes
                  (ground (arith, eq_iff bar.symbol k, same)) h)))
        | inr other ↦ rw other (
            after-Windowed bars (on_bar bar s).1 past next order (
              put-Windowed_ne bar s past _ _ closes
                (λ e. ground (arith, eq_iff bar.symbol k, other, sym e)) h))
      ]
    where
      buffer :
          (bar : MinuteBar) (s : RsiMrStrategy)
          → contains bar.symbol s.closes ≡ true
          → (buf : List Decimal) × (get bar.symbol s.closes ≡ some buf)
      buffer bar s own = elim (Option-cases (get bar.symbol s.closes)) [
        | inl e ↦ absurd (cc (ap is_some e))
        | inr found ↦ found
      ]

      answer-Ready :
          (bar : MinuteBar) (s : RsiMrStrategy)
          → Ready c s
          → Heard bar s (on_bar bar s)
          → Ready c (on_bar bar s).1
      answer-Ready bar s ready answer = record {
        same_config = answer.configured ∙ ready.same_config;
        every = λ j m. answer.buffered j (ready.every j m);
      }

empty_buffers-get :
    (ks : List String) (k : String) → is_in k ks ≡ true → get k (empty_buffers ks) ≡ some []
unfolding empty_buffers get is_in
empty_buffers-get [] k h = cc
empty_buffers-get (j ∷ ks) k h = ground (arith, empty_buffers-get ks k)

-- Behind bars in order, the buffer of a symbol has the last `rsi_period + 1` of all its closes.
pub after-last_of :
    (c : RsiMrConfig) (bars : List MinuteBar) (k : String)
    → pos 1 ≤ℤ c.rsi_period
    → in_order c.universe [] bars ≡ true
    → is_in k c.universe ≡ true
    → get k (after bars (new_strategy c)).closes ≡ some (last_of (buffer_size c) (closes_of k bars))
after-last_of c bars k positive o own =
    after-Windowed c positive k bars (new_strategy c) []
      (record { same_config = refl; every = empty_buffers-every c.universe }) o
      (empty_buffers-get c.universe k own ∙ ap some (sym (drop-nil (0 - buffer_size c))))
