-- ===== src/Auth/Tokens.antt =====
-- src/utils/auth.utils.ts: signing, verifying and refreshing tokens. `jsonwebtoken` is a parameter.
use activity_tracker_api.Base.{
  ℕ, ◌+◌, ◌*◌, ◌==◌, ◌<◌, ◌≡◌, ◌↔◌, refl, String, Bool, true, false, ◌&&◌, Option, none, some,
  Option-cases, inl, inr, arith, ltb, if◌then◌else◌, Error, Result, ok, thrown,
}

pub record JwtPayload : Type 0 where
  pub client_id : String
  pub email : String
  pub name : String

pub record JwtVerifyResult : Type 0 where
  pub payload : JwtPayload
  pub expired : Bool

-- What `jwt.verify` does: it returns the payload, or throws `TokenExpiredError` or another error.
pub data Verification : Type 0 where
  valid : JwtPayload → Verification
  token_expired : Error → Verification
  invalid : Error → Verification

-- What `jwt.decode` reads: the payload and the claim `exp`, in seconds.
pub record Decoded : Type 0 where
  pub payload : JwtPayload
  pub exp : Option ℕ

-- The library with the secret, the issuer, the audience and the lifetime that the code passes.
pub record Jwt : Type 0 where
  pub sign : JwtPayload → Result String
  pub verify : String → Verification
  pub decode : String → Option Decoded

module _ (jwt : Jwt) where
  unfoldable pub generate_jwt : JwtPayload → Result String
  generate_jwt payload = jwt.sign payload

  -- An expired token is decoded all the same, to tell whose it was.
  unfoldable pub verify_jwt : String → Result JwtVerifyResult
  verify_jwt token = elim (jwt.verify token) [
    | valid payload ↦ ok (record { payload = payload; expired = false })
    | token_expired e ↦ elim (jwt.decode token) [
      | none ↦ thrown e
      | some decoded ↦ ok (record { payload = decoded.payload; expired = true })
    ]
    | invalid e ↦ thrown e
  ]

  unfoldable pub decode_jwt : String → Option Decoded
  decode_jwt token = jwt.decode token

  abbrev pub five_minutes : ℕ
  five_minutes = 5 * 60 * 1000

  -- `exp * 1000 - now` is below five minutes and above 0; `now` may be past the expiration.
  abbrev pub is_about_to_expire : (exp now : ℕ) → Bool
  is_about_to_expire exp now = ltb (exp * 1000) (now + five_minutes) && ltb now (exp * 1000)

  -- The catch of `generateJWT` answers `null`.
  abbrev pub or_null : Result String → Option String
  or_null (ok token) = some token
  or_null (thrown e) = none

  abbrev pub refresh_decoded : (now : ℕ) → JwtPayload → Option ℕ → Option String
  refresh_decoded now payload none = none
  refresh_decoded now payload (some exp) =
      if exp == 0
      then none
      else if is_about_to_expire exp now
      then or_null (generate_jwt payload)
      else none

  unfoldable pub refresh_jwt_if_needed : (now : ℕ) → String → Option String
  unfolding generate_jwt
  refresh_jwt_if_needed now token = elim (jwt.decode token) [
    | none ↦ none
    | some decoded ↦ refresh_decoded now decoded.payload decoded.exp
  ]

  refresh_decoded-some :
      (now : ℕ) (payload : JwtPayload) (o : Option ℕ) (renewed : String)
      → refresh_decoded now payload o ≡ some renewed
      → (exp : ℕ) × (o ≡ some exp)
        × (now < exp * 1000)
        × (exp * 1000 < now + 300000)
        × (jwt.sign payload ≡ ok renewed)
  unfolding generate_jwt
  refresh_decoded-some now payload none renewed e = cc
  refresh_decoded-some now payload (some exp) renewed e =
      (exp, refl, ground arith, ground arith, ground arith)

  -- A token is renewed exactly when it can be decoded, carries an expiration that is less than five
  -- minutes away and not reached, and signing works; the new token is for the same client.
  refresh_iff :
      (now : ℕ) (token renewed : String)
      → (refresh_jwt_if_needed now token ≡ some renewed) ↔ (
          (d : Decoded) × (exp : ℕ) × (jwt.decode token ≡ some d)
          × (d.exp ≡ some exp)
          × (now < exp * 1000)
          × (exp * 1000 < now + 300000)
          × (jwt.sign d.payload ≡ ok renewed))
  unfolding refresh_jwt_if_needed
  refresh_iff now token renewed = (
    λ e. elim (Option-cases (jwt.decode token)) [
      | inl no_token ↦ let h : none ≡ some renewed = rw (no_token, refresh_jwt_if_needed) at e in cc
      | inr (d, decoded) ↦
          let h : refresh_decoded now d.payload d.exp ≡ some renewed =
            rw (decoded, refresh_jwt_if_needed) at e in
          let (exp, has, later, soon, signed) =
            refresh_decoded-some now d.payload d.exp renewed h in
          (d, exp, decoded, has, later, soon, signed)
    ],
    λ (d, exp, decoded, has, later, soon, signed).
        rw (decoded, has, refresh_jwt_if_needed) (ground arith),
  )
