-- ===== src/Symbol.antt =====
-- The stock codes of six digits: `_SYMBOL_RE = re.compile(r"^\d{6}$")` of risk/manager.py and of the
-- strategies. Python's `\d` takes every decimal digit of Unicode (category Nd, version 15.0), and
-- `$` stands at the end or before a last newline.
use Prim.Native.Char.{code}
use korean_stock_trading_sys.Common.{
  ℕ, zero, suc, ◌+◌, Bool, true, false, ◌&&◌, ◌||◌, Option, none, some, List, [], ◌∷◌, String, ltb,
  leb, ◌==◌, if◌then◌else◌, ◌≡◌, refl,
}

-- The zero of each block of ten digits.
abbrev digit_zeros : List ℕ
digit_zeros =
    0x30 ∷ 0x660 ∷ 0x6f0 ∷ 0x7c0 ∷ 0x966 ∷ 0x9e6 ∷ 0xa66 ∷ 0xae6 ∷ 0xb66 ∷ 0xbe6 ∷ 0xc66 ∷ 0xce6
    ∷ 0xd66 ∷ 0xde6 ∷ 0xe50 ∷ 0xed0 ∷ 0xf20 ∷ 0x1040 ∷ 0x1090 ∷ 0x17e0 ∷ 0x1810 ∷ 0x1946 ∷ 0x19d0
    ∷ 0x1a80 ∷ 0x1a90 ∷ 0x1b50 ∷ 0x1bb0 ∷ 0x1c40 ∷ 0x1c50 ∷ 0xa620 ∷ 0xa8d0 ∷ 0xa900 ∷ 0xa9d0
    ∷ 0xa9f0 ∷ 0xaa50 ∷ 0xabf0 ∷ 0xff10 ∷ 0x104a0 ∷ 0x10d30 ∷ 0x11066 ∷ 0x110f0 ∷ 0x11136 ∷ 0x111d0
    ∷ 0x112f0 ∷ 0x11450 ∷ 0x114d0 ∷ 0x11650 ∷ 0x116c0 ∷ 0x11730 ∷ 0x118e0 ∷ 0x11950 ∷ 0x11c50
    ∷ 0x11d50 ∷ 0x11da0 ∷ 0x11f50 ∷ 0x16a60 ∷ 0x16ac0 ∷ 0x16b50 ∷ 0x1d7ce ∷ 0x1d7d8 ∷ 0x1d7e2
    ∷ 0x1d7ec ∷ 0x1d7f6 ∷ 0x1e140 ∷ 0x1e2f0 ∷ 0x1e4f0 ∷ 0x1e950 ∷ 0x1fbf0 ∷ []

in_block : ℕ → List ℕ → Bool
in_block c [] = false
in_block c (z ∷ zs) = (leb z c && ltb c (z + 10)) || in_block c zs

is_digit : ℕ → Bool
unfolding in_block
is_digit c = in_block c digit_zeros

-- What is left of a text behind n digits.
after_digits : ℕ → String → Option String
unfolding is_digit
after_digits zero s = some s
after_digits (suc n) String.[] = none
after_digits (suc n) (String.◌∷◌ c s) =
    let rest = after_digits n s in if is_digit (code c) then rest else none

at_end : String → Bool
at_end String.[] = true
at_end (String.◌∷◌ c s) = false

at_last_newline : String → Bool
at_last_newline String.[] = true
at_last_newline (String.◌∷◌ c String.[]) = code c == b'\n'
at_last_newline (String.◌∷◌ c (String.◌∷◌ d s)) = false

-- `_SYMBOL_RE.fullmatch(s)`
unfoldable pub full_match : String → Bool
unfolding after_digits at_end
full_match s = elim (after_digits 6 s) [ none ↦ false | some rest ↦ at_end rest ]

-- `_SYMBOL_RE.match(s)`
unfoldable pub line_match : String → Bool
unfolding after_digits at_last_newline
line_match s = elim (after_digits 6 s) [ none ↦ false | some rest ↦ at_last_newline rest ]

samsung : full_match "005930" ≡ true
unfolding full_match
samsung = refl

too_short : line_match "00593" ≡ false
unfolding line_match
too_short = refl

full_width : full_match "００５９３０" ≡ true
unfolding full_match
full_width = refl

newline : line_match "005930\n" ≡ true
unfolding line_match
newline = refl

newline_refused : full_match "005930\n" ≡ false
unfolding full_match
newline_refused = refl

-- What `fullmatch` takes, `match` takes too.
pub full_match-line_match : (s : String) → full_match s ≡ true → line_match s ≡ true
unfolding full_match line_match
full_match-line_match s h = elim_rest (after_digits 6 s) h
  where
    elim_rest :
        (o : Option String)
        → elim o [ none ↦ false | some rest ↦ at_end rest ] ≡ true
        → elim o [ none ↦ false | some rest ↦ at_last_newline rest ] ≡ true
    elim_rest none h = cc
    elim_rest (some String.[]) h = refl
    elim_rest (some (String.◌∷◌ c s)) h = cc
