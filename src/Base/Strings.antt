-- ===== src/Base/Strings.antt =====
-- Strings of JavaScript by their characters: a prefix stripped, `startsWith`, `replace(text, "")`
-- and `split` at one character.
use Prim.Native.Nat.{ℕ}
use Prim.Native.Char.{Char, code}
use Prim.Native.String
use Prim.Native.String.{String}
use Prim.Native.String.append
use mathlib.Core.Path.{◌≡◌, refl, sym, ap, ◌∙◌, subst}
use mathlib.Core.Logic.{inl, inr}
use mathlib.Core.Bool.{Bool, true, false}
use mathlib.Core.Option.{Option, none, some}
use mathlib.Core.List.{List, [], ◌∷◌}
use native.Mathlib.Omega.{arith}
use text.Mathlib.TextLemmas.{append-nil}
use activity_tracker_api.Base.Tests.{◌==◌, if◌then◌else◌, Bool-cases}

-- What stands behind a prefix, where the text begins with it.
abbrev pub strip : (prefix text : String) → Option String
strip String.[] s = some s
strip (String.◌∷◌ c p) String.[] = none
strip (String.◌∷◌ c p) (String.◌∷◌ d s) =
    let rest = strip p s in if code c == code d then rest else none

-- `text.startsWith(prefix)`.
abbrev pub begins_with : (prefix text : String) → Bool
begins_with p s = elim (strip p s) [ none ↦ false | some rest ↦ true ]

-- `text.replace(pattern, "")`, which takes the first occurrence out.
abbrev pub remove : (pattern text : String) → String
remove p String.[] = elim (strip p "") [ none ↦ "" | some rest ↦ rest ]
remove p (String.◌∷◌ c s) =
    let rest = remove p s in
    elim (strip p (String.◌∷◌ c s)) [ none ↦ String.◌∷◌ c rest | some behind ↦ behind ]

abbrev pub extend_first : Char → List String → List String
extend_first c [] = String.◌∷◌ c "" ∷ []
extend_first c (part ∷ parts) = String.◌∷◌ c part ∷ parts

-- `text.split(separator)`, the separator by its code point.
unfoldable pub split : (separator : ℕ) → (text : String) → List String
split n String.[] = "" ∷ []
split n (String.◌∷◌ c s) =
    let rest = split n s in if code c == n then "" ∷ rest else extend_first c rest

-- A character with a given code point does not occur, or does.
abbrev pub Lacks : ℕ → String → Type 0
Lacks n String.[] = Unit
Lacks n (String.◌∷◌ c s) = ((code c == n) ≡ false) × Lacks n s

-- The test, for a text that is written out.
abbrev pub lacks : ℕ → String → Bool
lacks n String.[] = true
lacks n (String.◌∷◌ c s) = let rest = lacks n s in if code c == n then false else rest

pub lacks-Lacks : (n : ℕ) (s : String) → lacks n s ≡ true → Lacks n s
lacks-Lacks n String.[] h = tt
lacks-Lacks n (String.◌∷◌ c s) h = (ground (arith, h), lacks-Lacks n s (ground (arith, h)))

abbrev pub Has : ℕ → String → Type 0
Has n String.[] = ⊥
Has n (String.◌∷◌ c s) = elim (code c == n) [ true ↦ Unit | false ↦ Has n s ]

pub append-Lacks : (n : ℕ) (s t : String) → Lacks n s → Lacks n t → Lacks n (String.◌++◌ s t)
append-Lacks n String.[] t h k = subst (Lacks n) (sym (append.nil t)) k
append-Lacks n (String.◌∷◌ c s) t h k =
    subst (Lacks n) (sym (append.cons c s t)) (h.0, append-Lacks n s t h.1 k)

pub strip-append : (p s : String) → strip p (String.◌++◌ p s) ≡ some s
strip-append String.[] s = ap some (append.nil s)
strip-append (String.◌∷◌ c p) s =
    let same : (code c == code c) ≡ true = ground arith in
    ap (strip (String.◌∷◌ c p)) (append.cons c p s) ∙ rw same (strip-append p s)

-- A pattern with a character that the text lacks is no prefix of it.
pub strip-absent : (n : ℕ) (p s : String) → Has n p → Lacks n s → strip p s ≡ none
strip-absent n String.[] s h k = absurd h
strip-absent n (String.◌∷◌ c p) String.[] h k = refl
strip-absent n (String.◌∷◌ c p) (String.◌∷◌ d s) h k = elim (Bool-cases (code c == code d)) [
  | inr other ↦ rw other refl
  | inl same ↦
      let differs : (code c == n) ≡ false = ground arith in
      rw same (strip-absent n p s (rw (differs, Has) at h) k.1)
]

pub remove-stripped : (p s t : String) → strip p s ≡ some t → remove p s ≡ t
remove-stripped p String.[] t h = rw (h, remove) refl
remove-stripped p (String.◌∷◌ c s) t h = rw (h, remove) refl

pub remove-append : (p s : String) → remove p (String.◌++◌ p s) ≡ s
remove-append p s = remove-stripped p (String.◌++◌ p s) s (strip-append p s)

pub remove-absent : (n : ℕ) (p s : String) → Has n p → Lacks n s → remove p s ≡ s
remove-absent n p String.[] h k = rw (strip-absent n p "" h k, remove) refl
remove-absent n p (String.◌∷◌ c s) h k =
    rw (strip-absent n p (String.◌∷◌ c s) h k, remove)
      (ap (String.◌∷◌ c) (remove-absent n p s h k.1))

pub split-append :
    (n : ℕ) (c : Char) (s t : String)
    → (code c == n) ≡ true
    → Lacks n s
    → split n (String.◌++◌ s (String.◌∷◌ c t)) ≡ s ∷ split n t
unfolding split
split-append n c String.[] t e h = ap (split n) (append.nil (String.◌∷◌ c t)) ∙ rw (e, split) refl
split-append n c (String.◌∷◌ d s) t e h =
    ap (split n) (append.cons d s (String.◌∷◌ c t))
    ∙ rw (h.0, split) (ap (extend_first d) (split-append n c s t e h.1))

pub split-whole : (n : ℕ) (s : String) → Lacks n s → split n s ≡ s ∷ []
unfolding split
split-whole n String.[] h = refl
split-whole n (String.◌∷◌ c s) h = rw (h.0, split) (ap (extend_first c) (split-whole n s h.1))

-- The separator as a text of one character, as it is when texts are joined.
pub split-joined :
    (n : ℕ) (c : Char) (s t : String)
    → (code c == n) ≡ true
    → Lacks n s
    → split n (String.◌++◌ s (String.◌++◌ (String.◌∷◌ c "") t)) ≡ s ∷ split n t
split-joined n c s t e h =
    ap (λ u. split n (String.◌++◌ s u)) (append.cons c "" t ∙ ap (String.◌∷◌ c) (append.nil t))
    ∙ split-append n c s t e h

-- A pattern at the end is found where its second character stands nowhere before it.
strip-late :
    (n : ℕ) (c d : Char) (q k : String)
    → (code d == n) ≡ true
    → (code c == n) ≡ false
    → Lacks n k
    → strip (String.◌∷◌ d q) (String.◌++◌ k (String.◌∷◌ c (String.◌∷◌ d q))) ≡ none
strip-late n c d q String.[] here there h =
    let differs : (code d == code c) ≡ false = ground arith in
    ap (strip (String.◌∷◌ d q)) (append.nil (String.◌∷◌ c (String.◌∷◌ d q))) ∙ rw differs refl
strip-late n c d q (String.◌∷◌ x k) here there h =
    let differs : (code d == code x) ≡ false = ground arith in
    ap (strip (String.◌∷◌ d q)) (append.cons x k (String.◌∷◌ c (String.◌∷◌ d q))) ∙ rw differs refl

pub remove-suffix :
    (n : ℕ) (c d : Char) (q k : String)
    → (code d == n) ≡ true
    → (code c == n) ≡ false
    → Lacks n k
    → remove (String.◌∷◌ c (String.◌∷◌ d q)) (String.◌++◌ k (String.◌∷◌ c (String.◌∷◌ d q))) ≡ k
remove-suffix n c d q String.[] here there h =
    let p : String = String.◌∷◌ c (String.◌∷◌ d q) in
    ap (remove p) (append.nil p ∙ sym (append-nil p)) ∙ remove-append p ""
remove-suffix n c d q (String.◌∷◌ x k) here there h =
    let p : String = String.◌∷◌ c (String.◌∷◌ d q) in
    let late = strip-late n c d q k here there h.1 in
    ap (remove p) (append.cons x k p) ∙ elim (Bool-cases (code c == code x)) [
      | inl same ↦
          rw (same, late, remove) (ap (String.◌∷◌ x) (remove-suffix n c d q k here there h.1))
      | inr other ↦ rw (other, remove) (ap (String.◌∷◌ x) (remove-suffix n c d q k here there h.1))
    ]

-- A common beginning does not matter.
pub strip-common : (p q s : String) → strip (String.◌++◌ p q) (String.◌++◌ p s) ≡ strip q s
strip-common String.[] q s =
    ap (λ x. strip x (String.◌++◌ "" s)) (append.nil q) ∙ ap (strip q) (append.nil s)
strip-common (String.◌∷◌ c p) q s =
    let same : (code c == code c) ≡ true = ground arith in
    ap (λ x. strip x (String.◌++◌ (String.◌∷◌ c p) s)) (append.cons c p q)
    ∙ ap (strip (String.◌∷◌ c (String.◌++◌ p q))) (append.cons c p s)
    ∙ rw same (strip-common p q s)
