-- ===== src/Sessions/Manager.antt =====
-- What the sessions of the server rest on (internal/server/sessions.go, provider_token.go, auth.go): the
-- answers of the JWT library, of the OIDC provider and of the sealing of its tokens, and the results of
-- a session operation.
use kokumi.Clock.{Time, is_zero}
use kokumi.Prelude.Result.{Result}
use kokumi.Sessions.Ended.{EndedSessions}
use kokumi.Sessions.Tokens.{
  Identity, SessionState, Authenticator, TokenType, access_type, refresh_type, Claims,
  VerifiedToken, SessionTokens,
}
use kokumi.Prelude.{
  String, Bool, true, false, not, ◌||◌, Option, none, some, List, [], ◌∷◌, ◌=?◌, if◌then◌else◌,
}

-- providerToken
pub record ProviderToken : Type 0 where
  pub refresh_token : String
  pub session_id : String

-- providerCheck
pub record ProviderCheck : Type 0 where
  pub identity : Identity
  pub next : Time
  pub refresh_token : String

-- What checkSession of the provider returns: a check, errProviderEndedSession, or another error.
pub data ProviderAnswer : Type 0 where
  stays_signed_in : ProviderCheck → ProviderAnswer
  refused : ProviderAnswer
  not_reached : ProviderAnswer

-- The OIDC provider; `end_session_url` is "" where it cannot be built.
pub record Provider : Type 0 where
  pub check_session : String → Identity → ProviderAnswer
  pub sign_out_at_provider : Bool
  pub end_session_url : String

-- authManager. `jwt` is the library's parse of a token that is signed with the key, issued by
-- tokenIssuer and not expired; a sign-in time that it lacks is the zero time.
pub record Manager : Type 0 where
  pub authenticator : Option Authenticator
  pub admin_login_enabled : Bool
  pub verify_credentials : String → String → Bool
  pub sign : Claims → Result String
  pub jwt : String → Option Claims
  pub seal : ProviderToken → Result String
  pub open_sealed : String → Option ProviderToken
  pub provider : Option Provider
  pub entry_key : String → List String → String
  pub ended : Option EndedSessions

pub data SessionError : Type 0 where
  auth_unavailable admin_login_disabled invalid_credentials session_invalid : SessionError
  session_ended provider_unavailable provider_ended_session tokens_failed : SessionError

-- A cookie that is set until a time, or cleared.
pub data Cookie : Type 0 where
  refresh_cookie provider_token_cookie id_token_cookie : String → Time → Cookie
  clear_refresh clear_provider_token clear_id_token : Cookie
  reauth_cookie : Cookie

-- browserSession
pub record BrowserSession : Type 0 where
  pub refresh_token : String
  pub provider_token : String
  pub id_token : String

-- sessionResult
pub record SessionResult : Type 0 where
  pub tokens : Option SessionTokens
  pub cookies : List Cookie
  pub end_session_url : String

-- What an operation returns.
pub record Outcome : Type 0 where
  pub result : SessionResult
  pub error : Option SessionError

abbrev pub no_result : SessionResult
no_result = record { tokens = none; cookies = []; end_session_url = "" }

abbrev pub refuse : SessionError → Outcome
refuse e = record { result = no_result; error = some e }

abbrev pub clear_session_cookies : List Cookie
clear_session_cookies = clear_refresh ∷ clear_provider_token ∷ clear_id_token ∷ []

abbrev pub same_type : TokenType → TokenType → Bool
same_type access_type access_type = true
same_type refresh_type refresh_type = true
same_type _ _ = false

-- parseToken behind the library's parse.
unfoldable pub verified : TokenType → Claims → Option VerifiedToken
verified type c =
    if not (same_type c.token_type type)
    then none
    else if c.identity.subject =? ""
    then none
    else if (c.session.id =? "") || is_zero c.session.auth_time
    then none
    else some (record { identity = c.identity; session = c.session; expires = c.expires_at })

unfoldable pub parse_token : Manager → String → TokenType → Option VerifiedToken
unfolding verified
parse_token m raw type = elim (m.jwt raw) [ none ↦ none | some c ↦ verified type c ]

abbrev pub new_provider_token_cookie : String → Time → Cookie
new_provider_token_cookie sealed expires =
    if sealed =? "" then clear_provider_token else provider_token_cookie sealed expires

-- The provider's refresh token of the session; `none` is an error.
unfoldable pub provider_token_of : Manager → String → SessionState → Option String
provider_token_of m sealed s = if sealed =? "" then none else elim (m.open_sealed sealed) [
  | none ↦ none
  | some t ↦ if t.session_id =? s.id then some t.refresh_token else none
]
