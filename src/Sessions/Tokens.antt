-- ===== src/Sessions/Tokens.antt =====
-- The tokens of a session (internal/server/auth.go). The signing of a token is a parameter: it is that of
-- a JWT library.
use kokumi.Clock.{Time, Duration, add, is_zero}
use kokumi.Prelude.Result.{Result, ok, err, and_then}
use kokumi.Prelude.{String, Bool, true, ◌||◌, List, ltb, ◌=?◌, if◌then◌else◌}

-- Identity
pub record Identity : Type 0 where
  pub subject : String
  pub email : String
  pub groups : List String
  pub provider : String
  pub issuer : String
  pub username : String

-- sessionState
pub record SessionState : Type 0 where
  pub id : String
  pub auth_time : Time
  pub provider_check_at : Time
  pub provider_session_id : String

-- An authenticator: the admin's name and the lifetimes of tokens.
pub record Authenticator : Type 0 where
  pub username : String
  pub access_ttl : Duration
  pub session_ttl : Duration
  pub idle_ttl : Duration

pub data TokenType : Type 0 where
  access_type refresh_type : TokenType

-- What a token carries.
pub record Claims : Type 0 where
  pub token_type : TokenType
  pub identity : Identity
  pub session : SessionState
  pub issued_at : Time
  pub expires_at : Time

-- verifiedToken
pub record VerifiedToken : Type 0 where
  pub identity : Identity
  pub session : SessionState
  pub expires : Time

-- sessionTokens
pub record SessionTokens : Type 0 where
  pub access_token : String
  pub access_expires_at : Time
  pub refresh_token : String
  pub refresh_expires_at : Time

-- The earlier time, which replaces the other one only if it is before it.
abbrev pub sooner : Time → Time → Time
sooner a b = if ltb a b then a else b

unfoldable pub session_end : Authenticator → SessionState → Time
session_end a s = add s.auth_time a.session_ttl

unfoldable pub idle_deadline : Authenticator → Time → SessionState → Time → Bool → Time
unfolding session_end
idle_deadline a now s previous active =
    sooner (session_end a s)
      (if active then add now a.idle_ttl else sooner previous (add now a.idle_ttl))

abbrev pub claims_of : TokenType → Time → Identity → SessionState → Time → Claims
claims_of type now id s expires = record {
  token_type = type;
  identity = id;
  session = s;
  issued_at = now;
  expires_at = expires;
}

abbrev pub tokens_of : String → Time → String → Time → SessionTokens
tokens_of access access_until refresh refresh_until = record {
  access_token = access;
  access_expires_at = access_until;
  refresh_token = refresh;
  refresh_expires_at = refresh_until;
}

unfoldable pub issue_tokens :
    (Claims → Result String)
    → Authenticator
    → Time
    → Identity
    → SessionState
    → Time
    → Result SessionTokens
issue_tokens sign a now id s idle_until =
    if id.subject =? ""
    then err "identity has no subject"
    else if (s.id =? "") || is_zero s.auth_time
    then err "session has no ID or sign-in time"
    else let access_expires : Time = sooner idle_until (add now a.access_ttl) in
      and_then (sign (claims_of access_type now id s access_expires)) (λ access.
        and_then (sign (claims_of refresh_type now id s idle_until))
          (λ refresh. ok (tokens_of access access_expires refresh idle_until)))

unfoldable pub sign_in_tokens :
    (Claims → Result String) → Authenticator → Identity → SessionState → Result SessionTokens
unfolding issue_tokens idle_deadline
sign_in_tokens sign a id s =
    issue_tokens sign a s.auth_time id s (idle_deadline a s.auth_time s 0 true)
