-- ===== src/Tests/Ciphers.antt =====
-- A cipher for src/utils/crypto.utils.ts that leaves texts as they are.
use Prim.Native.Char.{code}
use activity_tracker_api.Base.{
  ◌==◌, ◌≡◌, refl, String, Bool, true, false, ◌||◌, Option, some, if◌then◌else◌, arith, Result, ok,
  thrown, str_eq, Bool-cases, inl, inr,
}
use activity_tracker_api.Crypto.{HasNoColon, Ciphers, error}

abbrev pub has_colon : String → Bool
has_colon String.[] = false
has_colon (String.◌∷◌ c s) = code c == b':' || has_colon s

pub no_colon_of_test : (s : String) → has_colon s ≡ false → HasNoColon s
no_colon_of_test String.[] h = tt
no_colon_of_test (String.◌∷◌ c s) h = (ground arith, no_colon_of_test s (ground arith))

abbrev pub bit_hex : Bool → String
bit_hex true = "01"
bit_hex false = "00"

pub bit_of_hex : (b : Bool) → str_eq (bit_hex b) "01" ≡ b
bit_of_hex true = refl
bit_of_hex false = refl

pub bit_hex-HasNoColon : (b : Bool) → HasNoColon (bit_hex b)
bit_hex-HasNoColon true = (refl, (refl, tt))
bit_hex-HasNoColon false = (refl, (refl, tt))

-- A text with a colon is refused; the tag is the key.
abbrev pub copy : Bool → String → Result (String × Bool)
copy key text = if has_colon text then thrown (error "colon") else ok (text, key)

abbrev pub reveal : Bool → Bool → String → Result String
reveal true true text = ok text
reveal false false text = ok text
reveal true false text = thrown (error "tag")
reveal false true text = thrown (error "tag")

pub copy-eq-ok :
    (key tag : Bool) (text sealed : String)
    → copy key text ≡ ok (sealed, tag)
    → (has_colon text ≡ false) × (text ≡ sealed) × (key ≡ tag)
copy-eq-ok key tag text sealed e = elim (Bool-cases (has_colon text)) [
  | inl colon ↦
      let h : ◌≡◌ {A = Result (String × Bool)} (thrown (error "colon")) (ok (sealed, tag)) =
        rw colon at e in
      absurd (cc)
  | inr plain ↦
      let h : ◌≡◌ {A = Result (String × Bool)} (ok (text, key)) (ok (sealed, tag)) =
        rw plain at e in
      (plain, cc, cc)
]

pub reveal-same : (key : Bool) (text : String) → reveal key key text ≡ ok text
reveal-same true text = refl
reveal-same false text = refl

abbrev pub bit_cipher : Ciphers
bit_cipher = record {
  Bytes = Bool;
  to_hex = bit_hex;
  from_hex = λ s. str_eq s "01";
  seal = λ key iv text. copy key text;
  unseal = λ key iv tag sealed. reveal key tag sealed;
  from_hex-to_hex = bit_of_hex;
  to_hex-HasNoColon = bit_hex-HasNoColon;
  seal-HasNoColon = λ key iv tag text sealed e.
      let (plain, same, tagged) = copy-eq-ok key tag text sealed e in
      no_colon_of_test sealed (rw⁻¹ same plain);
  unseal-seal = λ key iv tag text sealed e.
      let (plain, same, tagged) = copy-eq-ok key tag text sealed e in
      rw⁻¹ (same, tagged) (reveal-same key text);
}

abbrev pub setting : Option String
setting = some "0123456789abcdef0123456789abcdef0123456789abcdef0123456789abcdef"
