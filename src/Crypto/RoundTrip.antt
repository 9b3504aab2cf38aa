-- ===== src/Crypto/RoundTrip.antt =====
-- What `decrypt` of src/utils/crypto.utils.ts makes of what `encrypt` wrote.
use Prim.Native.String
use Prim.Native.String.append
use activity_tracker_api.Base.{
  ◌==◌, ◌≡◌, ◌∙◌, refl, ap, subst, String, Option, none, some, List, [], ◌∷◌, arith, Result, ok,
  thrown, Result-cases, Bool-cases, inl, inr, >>=-eq-ok,
}
use activity_tracker_api.Base.Strings.{split, split-joined, split-whole}
use activity_tracker_api.Http.{is_truthy}
use activity_tracker_api.Crypto.{
  units, HasNoColon, Ciphers, error, get_encryption_key, rethrown, combined, encrypt, unseal_parts,
  decrypt,
}

module _ (ciphers : Ciphers) where
  open ciphers use {Bytes, to_hex, from_hex, seal, unseal}

  split-combined :
      (iv tag : Bytes) (sealed : String)
      → HasNoColon sealed
      → split b':' (combined ciphers iv (sealed, tag)) ≡ to_hex iv ∷ to_hex tag ∷ sealed ∷ []
  split-combined iv tag sealed h =
      split-joined b':' ":" (to_hex iv) (String.◌++◌ (to_hex tag) (String.◌++◌ ":" sealed)) refl
        (ciphers.to_hex-HasNoColon iv)
      ∙ ap (λ l. to_hex iv ∷ l)
          (split-joined b':' ":" (to_hex tag) sealed refl (ciphers.to_hex-HasNoColon tag))
      ∙ ap (λ l. to_hex iv ∷ to_hex tag ∷ l) (split-whole b':' sealed h)

  unseal_parts-sealed :
      (key iv tag : Bytes) (text sealed : String)
      → seal key iv text ≡ ok (sealed, tag)
      → unseal_parts ciphers key (to_hex iv ∷ to_hex tag ∷ sealed ∷ []) ≡ ok text
  unseal_parts-sealed key iv tag text sealed done =
      ap (λ b. unseal key b (from_hex (to_hex tag)) sealed) (ciphers.from_hex-to_hex iv)
      ∙ ap (λ b. unseal key iv b sealed) (ciphers.from_hex-to_hex tag)
      ∙ ciphers.unseal-seal key iv tag text sealed done

  -- What was encrypted decrypts, with the same key setting, to the text that it was made from: the
  -- three parts never contain the colon that separates them.
  pub decrypt-encrypt :
      (env_key : Option String) (iv : Bytes) (text stored : String)
      → encrypt ciphers env_key iv text ≡ ok stored
      → decrypt ciphers env_key stored ≡ ok text
  unfolding encrypt decrypt
  decrypt-encrypt env_key iv text stored e =
      elim (Result-cases (get_encryption_key ciphers env_key)) [
        | inr (err, bad_key) ↦
            let h : thrown (error (String.◌++◌ "Encryption failed: " err.message)) ≡ ok stored =
              rw (bad_key, encrypt) at e in
            absurd (cc)
        | inl (key, good_key) ↦ elim (Result-cases (seal key iv text)) [
          | inr (err, failed) ↦
              let h : thrown (error (String.◌++◌ "Encryption failed: " err.message)) ≡ ok stored =
                rw (good_key, failed, encrypt) at e in
              absurd (cc)
          | inl ((sealed, tag), done) ↦
              let h : ok (combined ciphers iv (sealed, tag)) ≡ ok stored =
                rw (good_key, done, encrypt) at e in
              let same : combined ciphers iv (sealed, tag) ≡ stored = cc in
              let parts =
                split-combined iv tag sealed
                  (ciphers.seal-HasNoColon key iv tag text sealed done) in
              subst (λ x. decrypt ciphers env_key x ≡ ok text) same
                (rw (good_key, parts, unseal_parts-sealed key iv tag text sealed done, decrypt)
                  refl)
        ]
      ]

  unseal_parts-eq-ok :
      (key : Bytes) (parts : List String) (text : String)
      → unseal_parts ciphers key parts ≡ ok text
      → (iv tag sealed : String) × (parts ≡ iv ∷ tag ∷ sealed ∷ [])
        × (unseal key (from_hex iv) (from_hex tag) sealed ≡ ok text)
  unseal_parts-eq-ok key [] text e = absurd (cc)
  unseal_parts-eq-ok key (a ∷ []) text e = absurd (cc)
  unseal_parts-eq-ok key (a ∷ b ∷ []) text e = absurd (cc)
  unseal_parts-eq-ok key (a ∷ b ∷ c ∷ []) text e = (a, b, c, refl, e)
  unseal_parts-eq-ok key (a ∷ b ∷ c ∷ d ∷ parts) text e = absurd (cc)

  rethrown-eq-ok :
      {A : Type 0} (prefix : String) (r : Result A) (a : A)
      → rethrown ciphers prefix r ≡ ok a
      → r ≡ ok a
  rethrown-eq-ok prefix (ok b) a e = e
  rethrown-eq-ok prefix (thrown err) a e = absurd (cc)

  get_encryption_key-eq-ok :
      (env_key : Option String) (key : Bytes)
      → get_encryption_key ciphers env_key ≡ ok key
      → (setting : String) × (env_key ≡ some setting)
        × (units setting ≡ 64)
        × (from_hex setting ≡ key)
  unfolding get_encryption_key
  get_encryption_key-eq-ok none key e = absurd (cc)
  get_encryption_key-eq-ok (some setting) key e = elim (Bool-cases (is_truthy (some setting))) [
    | inr empty ↦
        let h : thrown (error "ENCRYPTION_KEY environment variable is not set") ≡ ok key =
          rw empty at e in
        absurd (cc)
    | inl present ↦ elim (Bool-cases (units setting == 64)) [
      | inr short ↦
          let h : thrown (error "ENCRYPTION_KEY must be 64 hex characters (32 bytes)") ≡ ok key =
            rw (present, short) at e in
          absurd (cc)
      | inl long ↦
          let h : ok (from_hex setting) ≡ ok key = rw (present, long) at e in
          (setting, refl, ground arith, cc)
    ]
  ]

  -- `decrypt` returns only for data of exactly three parts between colons, with a key that is set and
  -- has 64 characters, and what it returns is what the cipher gives back for these parts.
  decrypt-eq-ok :
      (env_key : Option String) (data_text text : String)
      → decrypt ciphers env_key data_text ≡ ok text
      → (setting : String) × (env_key ≡ some setting)
        × (units setting ≡ 64)
        × (iv tag sealed : String) × (split b':' data_text ≡ iv ∷ tag ∷ sealed ∷ [])
        × (unseal (from_hex setting) (from_hex iv) (from_hex tag) sealed ≡ ok text)
  unfolding decrypt
  decrypt-eq-ok env_key data_text text e =
      let inner = rethrown-eq-ok "Decryption failed: " _ text e in
      let (key, good_key, unsealed) =
        >>=-eq-ok (get_encryption_key ciphers env_key)
          (λ key. unseal_parts ciphers key (split b':' data_text)) inner in
      let (setting, is_set, long, made) = get_encryption_key-eq-ok env_key key good_key in
      let (iv, tag, sealed, parts, opened) =
        unseal_parts-eq-ok key (split b':' data_text) text unsealed in
      (setting, is_set, long, iv, tag, sealed, parts, rw made opened)
