-- ===== src/Crypto.antt =====
-- src/utils/crypto.utils.ts: the key's check, and what `encrypt` writes and `decrypt` reads. The
-- ciphers of Node and bcrypt are parameters.
pub mod RoundTrip
use Prim.Native.Char.{Char, code}
use Prim.Native.String
use activity_tracker_api.Base.{
  ℕ, ◌+◌, ltb, ◌==◌, ◌≡◌, String, Bool, true, false, not, Option, none, some, List, [], ◌∷◌,
  if◌then◌else◌, Error, Result, ok, thrown, ◌>>=◌, catch, refl,
}
use activity_tracker_api.Base.Strings.{Lacks, split}
use activity_tracker_api.Http.{is_truthy}

-- No code point of a text is a colon.
abbrev pub HasNoColon : String → Type 0
HasNoColon = Lacks b':'

-- AES-256-GCM as `node:crypto` has it, on a text in UTF-8: `seal` gives the encrypted bytes in hex and
-- the authentication tag, or throws, and `unseal` checks the tag and gives the text back.
pub record Ciphers : Type 1 where
  pub Bytes : Type 0
  pub to_hex : Bytes → String
  pub from_hex : String → Bytes
  pub seal : (key iv : Bytes) → String → Result (String × Bytes)
  pub unseal : (key iv tag : Bytes) → String → Result String
  pub from_hex-to_hex : (b : Bytes) → from_hex (to_hex b) ≡ b
  pub to_hex-HasNoColon : (b : Bytes) → HasNoColon (to_hex b)
  pub seal-HasNoColon :
      (key iv tag : Bytes) (text sealed : String)
      → seal key iv text ≡ ok (sealed, tag)
      → HasNoColon sealed
  pub unseal-seal :
      (key iv tag : Bytes) (text sealed : String)
      → seal key iv text ≡ ok (sealed, tag)
      → unseal key iv tag sealed ≡ ok text

abbrev pub error : String → Error
error message = record { name = "Error"; message = message }

-- `text.length`, which counts the units of UTF-16.
abbrev pub units : String → ℕ
units String.[] = 0
units (String.◌∷◌ c s) = (if ltb 0xffff (code c) then 2 else 1) + units s

module _ (ciphers : Ciphers) where
  open ciphers use {Bytes, to_hex, from_hex, seal, unseal}

  abbrev pub key_of_length : String → Result Bytes
  key_of_length key =
      if not (units key == 64)
      then thrown (error "ENCRYPTION_KEY must be 64 hex characters (32 bytes)")
      else ok (from_hex key)

  abbrev pub present_key : Bool → String → Result Bytes
  present_key true key = key_of_length key
  present_key false key = thrown (error "ENCRYPTION_KEY environment variable is not set")

  abbrev text_or_empty : Option String → String
  text_or_empty none = ""
  text_or_empty (some key) = key

  -- The argument is `env.ENCRYPTION_KEY`.
  unfoldable pub get_encryption_key : Option String → Result Bytes
  get_encryption_key key = present_key (is_truthy key) (text_or_empty key)

  -- What the two `catch` blocks throw.
  abbrev pub rethrown : {A : Type 0} → String → Result A → Result A
  rethrown prefix (ok a) = ok a
  rethrown prefix (thrown e) = thrown (error (String.◌++◌ prefix e.message))

  abbrev pub combine : String → String → String → String
  combine iv tag sealed =
      String.◌++◌ iv (String.◌++◌ ":" (String.◌++◌ tag (String.◌++◌ ":" sealed)))

  abbrev pub combined : Bytes → String × Bytes → String
  combined iv (sealed, tag) = combine (to_hex iv) (to_hex tag) sealed

  -- `iv` are the random bytes.
  unfoldable pub encrypt : (env_key : Option String) (iv : Bytes) → String → Result String
  encrypt env_key iv text =
      rethrown "Encryption failed: " (
        get_encryption_key env_key >>= λ key.
        seal key iv text >>= λ sealed. ok (combined iv sealed))

  abbrev pub unseal_parts : Bytes → List String → Result String
  unseal_parts key (iv ∷ tag ∷ sealed ∷ []) = unseal key (from_hex iv) (from_hex tag) sealed
  unseal_parts key [] = thrown (error "Invalid encrypted data format")
  unseal_parts key (a ∷ []) = thrown (error "Invalid encrypted data format")
  unseal_parts key (a ∷ b ∷ []) = thrown (error "Invalid encrypted data format")
  unseal_parts key (a ∷ b ∷ c ∷ d ∷ parts) = thrown (error "Invalid encrypted data format")

  unfoldable pub decrypt : (env_key : Option String) → String → Result String
  decrypt env_key data_text =
      rethrown "Decryption failed: "
        (get_encryption_key env_key >>= λ key. unseal_parts key (split b':' data_text))
