-- ===== src/Auth/Token.antt =====
-- Access tokens: frontend/src/utils/token.ts. `decode` is `jwtDecode`, whose exception is `none`;
-- the expiry is `none` where the claim is no finite number, and times are counted from the epoch.
use rs_recruitment.Base.{String, ℕ, ◌*◌, ltb, Option, none, some, if◌then◌else◌}

pub data UserRole : Type 0 where
  admin company candidate : UserRole

pub record JwtPayload : Type 0 where
  pub sub : String
  pub email : String
  pub role : UserRole
  pub exp : Option ℕ

pub data TokenInspection : Type 0 where
  valid : JwtPayload → TokenInspection
  expired invalid : TokenInspection

abbrev pub Decode : Type 0
Decode = String → Option JwtPayload

module _ (decode : Decode) where
  -- `now` is `Date.now()`, in milliseconds.
  unfoldable pub inspect_token : ℕ → String → TokenInspection
  inspect_token now token = elim (decode token) [
    | none ↦ invalid
    | some payload ↦ elim payload.exp [
      | none ↦ invalid
      | some exp ↦ if ltb (exp * 1000) now then expired else valid payload
    ]
  ]

  abbrev pub if_valid : TokenInspection → Option JwtPayload
  if_valid (valid payload) = some payload
  if_valid expired = none
  if_valid invalid = none

  abbrev pub store_after : TokenInspection → Option String → Option String
  store_after (valid payload) stored = stored
  store_after expired stored = none
  store_after invalid stored = none

  -- The payload, and the stored token afterwards: `removeToken` takes out whatever is stored.
  unfoldable pub decode_token : ℕ → String → Option String → Option JwtPayload × Option String
  unfolding inspect_token
  decode_token now token stored =
      (if_valid (inspect_token now token), store_after (inspect_token now token) stored)
