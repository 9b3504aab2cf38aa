-- ===== src/Base/Numbers/RoundTrip.antt =====
-- A number is read back from its decimal print, which is made of digits.
use Prim.Native.Nat.{ℕ, zero, suc, ◌+◌, ◌*◌, ◌/◌, ◌%◌, ◌<◌}
use Prim.Native.Char.{Char, code}
use Prim.Native.String
use Prim.Native.String.{String}
use Prim.Native.String.append
use mathlib.Core.Path.{◌≡◌, refl, sym, ap, ◌∙◌, subst}
use mathlib.Core.Logic.{inl, inr}
use mathlib.Core.Bool.{true, false, ◌&&◌}
use native.Mathlib.Omega.{arith}
use text.Mathlib.TextLemmas.{append_assoc, append-nil}
use activity_tracker_api.Base.Tests.{leb, ◌==◌, ltb, Bool-cases, ltb→lt, ltb→ge}
use activity_tracker_api.Base.Int.{pos, negsuc}
use activity_tracker_api.Base.Strings.{strip-absent, lacks, lacks-Lacks, Lacks, append-Lacks}
use activity_tracker_api.Base.Numbers.{
  Number, nan, int, digit, decimal_from, decimal, to_text, is_digit, scan, starts_digit, unsigned,
  whole, negated, signed, skip_spaces, is_space, parse_int, unsigned_or_hex, signed_or_hex,
  parse_any_int,
}

-- A digit is printed as one character, of a known code point.
digit-char : (n : ℕ) → n < 10 → (c : Char) × (digit n ≡ String.◌∷◌ c "") × (code c ≡ b'0' + n)
digit-char zero h = ("0", refl, refl)
digit-char (suc zero) h = ("1", refl, refl)
digit-char (suc (suc zero)) h = ("2", refl, refl)
digit-char (suc (suc (suc zero))) h = ("3", refl, refl)
digit-char (suc (suc (suc (suc zero)))) h = ("4", refl, refl)
digit-char (suc (suc (suc (suc (suc zero))))) h = ("5", refl, refl)
digit-char (suc (suc (suc (suc (suc (suc zero)))))) h = ("6", refl, refl)
digit-char (suc (suc (suc (suc (suc (suc (suc zero))))))) h = ("7", refl, refl)
digit-char (suc (suc (suc (suc (suc (suc (suc (suc zero)))))))) h = ("8", refl, refl)
digit-char (suc (suc (suc (suc (suc (suc (suc (suc (suc zero))))))))) h = ("9", refl, refl)
digit-char (suc (suc (suc (suc (suc (suc (suc (suc (suc (suc n)))))))))) h =
    absurd (omega (arith, h))

digit-append :
    (n : ℕ) (t : String)
    → n < 10
    → (c : Char) × (String.◌++◌ (digit n) t ≡ String.◌∷◌ c t) × (code c ≡ b'0' + n)
digit-append n t h =
    let (c, printed, coded) = digit-char n h in
    (
      c,
      ap (λ s. String.◌++◌ s t) printed ∙ append.cons c "" t ∙ ap (String.◌∷◌ c) (append.nil t),
      coded,
    )

coded_is_digit : (c : Char) (n : ℕ) → code c ≡ b'0' + n → n < 10 → is_digit c ≡ true
coded_is_digit c n e h = ground (arith, e, h)

scan-digit :
    (n m : ℕ) (t : String) → n < 10 → scan (String.◌++◌ (digit n) t) m ≡ scan t (m * 10 + n)
scan-digit n m t h =
    let (c, printed, coded) = digit-append n t h in
    ap (λ s. scan s m) printed
    ∙ rw (coded_is_digit c n coded h, scan) (ap (scan t) (omega (arith, coded)))

scan-decimal_from :
    (fuel n : ℕ) (t : String) → n < fuel → scan (String.◌++◌ (decimal_from fuel n) t) 0 ≡ scan t n
scan-decimal_from zero n t h = absurd (omega (arith, h))
scan-decimal_from (suc fuel) n t h = elim (Bool-cases (ltb n 10)) [
  | inl small ↦
      rw (small, decimal_from) (scan-digit n 0 t (ltb→lt n 10 small) ∙ ap (scan t) (omega arith))
  | inr large ↦
      rw (large, decimal_from)
        (ap (λ s. scan s 0) (append_assoc (decimal_from fuel (n / 10)) (digit (n % 10)) t)
          ∙ scan-decimal_from fuel (n / 10) (String.◌++◌ (digit (n % 10)) t)
              (omega (arith, h, ltb→ge n 10 large))
          ∙ scan-digit (n % 10) (n / 10) t (omega arith)
          ∙ ap (scan t) (omega arith))
]

starts_digit-decimal_from :
    (fuel n : ℕ) (t : String) → n < fuel → starts_digit (String.◌++◌ (decimal_from fuel n) t) ≡ true
starts_digit-decimal_from zero n t h = absurd (omega (arith, h))
starts_digit-decimal_from (suc fuel) n t h = elim (Bool-cases (ltb n 10)) [
  | inl small ↦
      let (c, printed, coded) = digit-append n t (ltb→lt n 10 small) in
      rw (small, decimal_from)
        (ap starts_digit printed ∙ coded_is_digit c n coded (ltb→lt n 10 small))
  | inr large ↦
      rw (large, decimal_from)
        (ap starts_digit (append_assoc (decimal_from fuel (n / 10)) (digit (n % 10)) t)
          ∙ starts_digit-decimal_from fuel (n / 10) (String.◌++◌ (digit (n % 10)) t)
              (omega (arith, h, ltb→ge n 10 large)))
]

-- What begins with a digit has no white space to skip, and no sign.
skip_spaces-digit : (s : String) → starts_digit s ≡ true → skip_spaces s ≡ s
skip_spaces-digit String.[] h = refl
skip_spaces-digit (String.◌∷◌ c s) h =
    let visible : is_space (code c) ≡ false = ground (arith, h) in rw (visible, skip_spaces) refl

signed-digit : (s : String) → starts_digit s ≡ true → signed s ≡ whole (scan s 0)
signed-digit String.[] h = absurd (cc)
signed-digit (String.◌∷◌ c s) h =
    let no_minus : (code c == b'-') ≡ false = ground (arith, h) in
    let no_plus : (code c == b'+') ≡ false = ground (arith, h) in
    rw (no_minus, no_plus, signed, h, unsigned) refl

pub starts_digit-decimal : (n : ℕ) → starts_digit (decimal n) ≡ true
starts_digit-decimal n =
    ap starts_digit (sym (append-nil (decimal n)))
    ∙ starts_digit-decimal_from (suc n) n "" (omega arith)

scan-decimal : (n : ℕ) → scan (decimal n) 0 ≡ n
scan-decimal n =
    ap (λ s. scan s 0) (sym (append-nil (decimal n))) ∙ scan-decimal_from (suc n) n "" (omega arith)

pub parse_int-decimal : (n : ℕ) → parse_int (decimal n) ≡ whole n
unfolding parse_int
parse_int-decimal n =
    let first = starts_digit-decimal n in
    ap signed (skip_spaces-digit (decimal n) first)
    ∙ signed-digit (decimal n) first
    ∙ ap whole (scan-decimal n)

-- Every number but NaN, and NaN as well, is read back from its print.
pub parse_int-to_text : (x : Number) → parse_int (to_text x) ≡ x
unfolding to_text parse_int
parse_int-to_text nan = refl
parse_int-to_text (int (pos n)) = parse_int-decimal n
parse_int-to_text (int (negsuc n)) =
    rw (starts_digit-decimal (suc n), unsigned) (ap negated (scan-decimal (suc n)))

Lacks-digit : (k n : ℕ) → (leb b'0' k && leb k b'9') ≡ false → n < 10 → Lacks k (digit n)
Lacks-digit k n above h =
    let (c, printed, coded) = digit-char n h in
    subst (Lacks k) (sym printed) (ground (arith, coded, above, h), tt)

Lacks-decimal_from :
    (k fuel n : ℕ) → (leb b'0' k && leb k b'9') ≡ false → Lacks k (decimal_from fuel n)
Lacks-decimal_from k zero n above = tt
Lacks-decimal_from k (suc fuel) n above = elim (Bool-cases (ltb n 10)) [
  | inl small ↦ rw (small, decimal_from) (Lacks-digit k n above (ltb→lt n 10 small))
  | inr large ↦
      rw (large, decimal_from)
        (append-Lacks k (decimal_from fuel (n / 10)) (digit (n % 10))
          (Lacks-decimal_from k fuel (n / 10) above) (Lacks-digit k (n % 10) above (omega arith)))
]

pub Lacks-decimal : (k n : ℕ) → (leb b'0' k && leb k b'9') ≡ false → Lacks k (decimal n)
Lacks-decimal k n above = Lacks-decimal_from k (suc n) n above

-- No letter but the two of NaN stands in the print of a number, and no sign but the minus.
pub Lacks-to_text :
    (k : ℕ) (x : Number)
    → (leb b'0' k && leb k b'9') ≡ false
    → lacks k "-NaN" ≡ true
    → Lacks k (to_text x)
unfolding to_text
Lacks-to_text k nan above h = (lacks-Lacks k "-NaN" h).1
Lacks-to_text k (int (pos n)) above h = Lacks-decimal k n above
Lacks-to_text k (int (negsuc n)) above h =
    ((lacks-Lacks k "-NaN" h).0, Lacks-decimal k (suc n) above)

-- A print has no `x` and no `X`, so it is not taken for a hexadecimal number.
unsigned_or_hex-decimal : (n : ℕ) → unsigned_or_hex whole (decimal n) ≡ whole n
unsigned_or_hex-decimal n =
    let no_x = strip-absent b'x' "0x" (decimal n) tt (Lacks-decimal b'x' n refl) in
    let no_X = strip-absent b'X' "0X" (decimal n) tt (Lacks-decimal b'X' n refl) in
    rw (no_x, no_X, unsigned_or_hex, starts_digit-decimal n, unsigned) (ap whole (scan-decimal n))

signed_or_hex-digit :
    (s : String) → starts_digit s ≡ true → signed_or_hex s ≡ unsigned_or_hex whole s
signed_or_hex-digit String.[] h = absurd (cc)
signed_or_hex-digit (String.◌∷◌ c s) h =
    let no_minus : (code c == b'-') ≡ false = ground (arith, h) in
    let no_plus : (code c == b'+') ≡ false = ground (arith, h) in
    rw (no_minus, no_plus, signed_or_hex) refl

pub parse_any_int-decimal : (n : ℕ) → parse_any_int (decimal n) ≡ whole n
unfolding parse_any_int
parse_any_int-decimal n =
    let first = starts_digit-decimal n in
    ap signed_or_hex (skip_spaces-digit (decimal n) first)
    ∙ signed_or_hex-digit (decimal n) first
    ∙ unsigned_or_hex-decimal n
