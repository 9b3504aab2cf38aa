-- ===== src/Http/Truthy.antt =====
-- Which texts count as true: those with a character, as every printed number has.
use Prim.Native.Char.{Char}
use Prim.Native.String
use Prim.Native.String.append
use text.Mathlib.TextLemmas.{cons≢nil}
use activity_tracker_api.Base.{
  ◌≡◌, ◌∙◌, refl, ap, suc, ℕ, String, true, some, Bool-cases, inl, inr, str_eq, eq_iff,
}
use activity_tracker_api.Base.Int.{pos, negsuc}
use activity_tracker_api.Base.Numbers.{Number, nan, int, to_text, decimal, starts_digit}
use activity_tracker_api.Base.Numbers.RoundTrip.{starts_digit-decimal}
use activity_tracker_api.Http.{is_truthy}

pub cons-is_truthy : (c : Char) (s : String) → is_truthy (some (String.◌∷◌ c s)) ≡ true
cons-is_truthy c s = elim (Bool-cases (str_eq (String.◌∷◌ c s) "")) [
  | inl empty ↦ absurd (cons≢nil ((eq_iff (String.◌∷◌ c s) "").0 empty))
  | inr present ↦ rw present refl
]

starts_digit-is_truthy : (s : String) → starts_digit s ≡ true → is_truthy (some s) ≡ true
starts_digit-is_truthy String.[] h = absurd (cc)
starts_digit-is_truthy (String.◌∷◌ c s) h = cons-is_truthy c s

pub decimal-is_truthy : (n : ℕ) → is_truthy (some (decimal n)) ≡ true
decimal-is_truthy n = starts_digit-is_truthy (decimal n) (starts_digit-decimal n)

pub to_text-is_truthy : (x : Number) → is_truthy (some (to_text x)) ≡ true
unfolding to_text
to_text-is_truthy nan = refl
to_text-is_truthy (int (pos n)) = decimal-is_truthy n
to_text-is_truthy (int (negsuc n)) = cons-is_truthy "-" (decimal (suc n))

-- What ends with something.
pub append-is_truthy :
    (s : String) (c : Char) (t : String) → is_truthy (some (String.◌++◌ s (String.◌∷◌ c t))) ≡ true
append-is_truthy String.[] c t =
    ap (λ u. is_truthy (some u)) (append.nil (String.◌∷◌ c t)) ∙ cons-is_truthy c t
append-is_truthy (String.◌∷◌ d s) c t =
    ap (λ u. is_truthy (some u)) (append.cons d s (String.◌∷◌ c t))
    ∙ cons-is_truthy d (String.◌++◌ s (String.◌∷◌ c t))
