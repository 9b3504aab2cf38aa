-- ===== src/Base/Numbers.antt =====
-- The numbers of JavaScript that are integers or NaN: their sums, comparisons and decimal texts, and
-- `Number.parseInt(text, 10)`. They are exact, which doubles are below 2^53.
pub mod RoundTrip
use Prim.Native.Nat.{ℕ, zero, suc, ◌+◌, ◌-◌, ◌*◌, ◌/◌, ◌%◌, ◌≤◌, ◌<◌}
use Prim.Native.Char.{Char, code}
use Prim.Native.String
use Prim.Native.String.{String}
use Prim.Native.String.append
use mathlib.Core.Path.{◌≡◌, refl, sym, ap, ◌∙◌, subst}
use mathlib.Core.Logic.{inl, inr}
use mathlib.Core.Bool.{Bool, true, false, ◌&&◌, ◌||◌}
use native.Mathlib.Omega.{arith}
use activity_tracker_api.Base.Tests.{◌==◌, ltb, leb, if◌then◌else◌, Bool-cases, ltb→lt, ltb→ge}
use activity_tracker_api.Base.Strings.{strip}
use mathlib.Core.Option.{none, some}
use activity_tracker_api.Base.Int.{ℤ, pos, negsuc, pos_part, neg_part, sub_ℕ, ltb_ℤ}
use activity_tracker_api.Base.Strings.{Lacks, append-Lacks}

pub data Number : Type 0 where
  nan : Number
  int : ℤ → Number

abbrev pub whole : ℕ → Number
whole n = int (pos n)

abbrev pub add : Number → Number → Number
add nan b = nan
add (int a) nan = nan
add (int a) (int b) = int (sub_ℕ (pos_part a + pos_part b) (neg_part a + neg_part b))

-- `a < b`, which NaN never is.
abbrev pub less : Number → Number → Bool
less nan b = false
less (int a) nan = false
less (int a) (int b) = ltb_ℤ a b

abbrev pub is_nan : Number → Bool
is_nan nan = true
is_nan (int a) = false

abbrev pub digit : ℕ → String
digit n =
    if n == 0
    then "0"
    else if n == 1
    then "1"
    else if n == 2
    then "2"
    else if n == 3
    then "3"
    else if n == 4
    then "4"
    else if n == 5
    then "5"
    else if n == 6
    then "6"
    else if n == 7
    then "7"
    else if n == 8
    then "8"
    else "9"

abbrev pub decimal_from : (fuel : ℕ) → ℕ → String
decimal_from zero n = ""
decimal_from (suc fuel) n =
    let front = decimal_from fuel (n / 10) in
    if ltb n 10 then digit n else String.◌++◌ front (digit (n % 10))

-- The decimal print of a natural number; the fuel is one more than it needs digits at most.
abbrev pub decimal : ℕ → String
decimal n = decimal_from (suc n) n

-- `String(x)`.
unfoldable pub to_text : Number → String
to_text nan = "NaN"
to_text (int (pos n)) = decimal n
to_text (int (negsuc n)) = String.◌∷◌ "-" (decimal (suc n))

abbrev pub is_digit : Char → Bool
is_digit c = leb b'0' (code c) && leb (code c) b'9'

-- The number that the digits at the start of a text spell behind `n`.
abbrev pub scan : String → ℕ → ℕ
scan String.[] n = n
scan (String.◌∷◌ c s) n =
    let rest = scan s (n * 10 + (code c - b'0')) in if is_digit c then rest else n

abbrev pub starts_digit : String → Bool
starts_digit String.[] = false
starts_digit (String.◌∷◌ c s) = is_digit c

abbrev pub unsigned : (ℕ → Number) → String → Number
unsigned sign s = if starts_digit s then sign (scan s 0) else nan

abbrev pub negated : ℕ → Number
negated zero = int (pos 0)
negated (suc n) = int (negsuc n)

abbrev pub signed : String → Number
signed String.[] = nan
signed (String.◌∷◌ c s) =
    if code c == b'-'
    then unsigned negated s
    else if code c == b'+'
    then unsigned whole s
    else unsigned whole (String.◌∷◌ c s)

-- The white space and the line ends of ECMAScript.
abbrev pub is_space : ℕ → Bool
is_space c =
    (leb 9 c && leb c 13)
    || c == 32
    || c == 0xa0
    || c == 0x1680
    || (leb 0x2000 c && leb c 0x200a)
    || c == 0x2028
    || c == 0x2029
    || c == 0x202f
    || c == 0x205f
    || c == 0x3000
    || c == 0xfeff

abbrev pub skip_spaces : String → String
skip_spaces String.[] = ""
skip_spaces (String.◌∷◌ c s) =
    let rest = skip_spaces s in if is_space (code c) then rest else String.◌∷◌ c s

unfoldable pub parse_int : String → Number
parse_int s = signed (skip_spaces s)

-- `s.trim()`.
abbrev pub trim_end : String → String
trim_end String.[] = ""
trim_end (String.◌∷◌ c s) =
    let rest = trim_end s in
    elim rest [
      | String.[] ↦ if is_space (code c) then "" else String.◌∷◌ c ""
      | String.◌∷◌ d t ↦ String.◌∷◌ c (String.◌∷◌ d t)
    ]

unfoldable pub trim : String → String
trim s = trim_end (skip_spaces s)

-- The value of a hexadecimal digit, and 16 for any other character.
abbrev hex_value : Char → ℕ
hex_value c =
    let n = code c in
    if is_digit c
    then n - b'0'
    else if leb b'a' n && leb n b'f'
    then n - b'a' + 10
    else if leb b'A' n && leb n b'F'
    then n - b'A' + 10
    else 16

abbrev scan_hex : String → ℕ → ℕ
scan_hex String.[] n = n
scan_hex (String.◌∷◌ c s) n =
    let rest = scan_hex s (n * 16 + hex_value c) in if ltb (hex_value c) 16 then rest else n

abbrev starts_hex : String → Bool
starts_hex String.[] = false
starts_hex (String.◌∷◌ c s) = ltb (hex_value c) 16

abbrev pub unsigned_or_hex : (ℕ → Number) → String → Number
unsigned_or_hex sign s =
    let hex : String → Number =
      λ digits. if starts_hex digits then sign (scan_hex digits 0) else nan in
    elim (strip "0x" s) [
      | some digits ↦ hex digits
      | none ↦ elim (strip "0X" s) [ some digits ↦ hex digits | none ↦ unsigned sign s ]
    ]

abbrev pub signed_or_hex : String → Number
signed_or_hex String.[] = nan
signed_or_hex (String.◌∷◌ c s) =
    if code c == b'-'
    then unsigned_or_hex negated s
    else if code c == b'+'
    then unsigned_or_hex whole s
    else unsigned_or_hex whole (String.◌∷◌ c s)

-- `parseInt(text)`, which reads `0x` as well.
unfoldable pub parse_any_int : String → Number
parse_any_int s = signed_or_hex (skip_spaces s)

prefixes :
    (parse_any_int "0x1F" ≡ whole 31) × (parse_any_int "5433 " ≡ whole 5433) × (trim " a " ≡ "a")
unfolding parse_any_int trim
prefixes = (refl, refl, refl)

signs : (parse_int " -12px" ≡ int (negsuc 11)) × (parse_int "+7" ≡ whole 7) × (parse_int "x7" ≡ nan)
unfolding parse_int
signs = (refl, refl, refl)
