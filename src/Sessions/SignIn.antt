-- ===== src/Sessions/SignIn.antt =====
-- start, signInAdmin, startSession and endSession of internal/server/sessions.go. The ID of a new session
-- is random, and is given.
use kokumi.Clock.{Time}
use kokumi.Prelude.Result.{Result, ok, err}
use kokumi.Sessions.Ended.{EndedSessions, ended_session_key, record_entry, provider_oidc}
use kokumi.Sessions.Manager.{
  Provider, Manager, auth_unavailable, admin_login_disabled, invalid_credentials, tokens_failed,
  Cookie, refresh_cookie, id_token_cookie, clear_id_token, reauth_cookie, BrowserSession,
  SessionResult, Outcome, no_result, refuse, clear_session_cookies, parse_token,
  new_provider_token_cookie,
}
use kokumi.Sessions.Tokens.{
  Identity, SessionState, Authenticator, refresh_type, VerifiedToken, SessionTokens, session_end,
  sign_in_tokens,
}
use kokumi.Prelude.{
  String, Bool, false, not, ◌&&◌, ◌||◌, Option, none, some, [], ◌∷◌, ◌++◌, ◌=?◌, if◌then◌else◌,
}

-- signIn
pub record SignIn : Type 0 where
  pub identity : Identity
  pub provider_session_id : String
  pub id_token : String
  pub provider_refresh_token : String
  pub provider_check_at : Time

-- newSessionState, with the provider's session.
abbrev pub new_session : String → Time → SignIn → SessionState
new_session id now given = record {
  id = id;
  auth_time = now;
  provider_check_at = 0;
  provider_session_id = given.provider_session_id;
}

-- The session and the sealed token of `start`, from the sealing of the provider's refresh token.
abbrev pub with_sealed : SessionState → Time → Result String → SessionState × String
with_sealed s check_at (err e) = (s, "")
with_sealed s check_at (ok sealed) = (record s { provider_check_at = check_at }, sealed)

unfoldable pub sealed_session : Manager → SessionState → SignIn → SessionState × String
sealed_session m s given =
    if given.provider_refresh_token =? ""
    then (s, "")
    else with_sealed s given.provider_check_at
        (m.seal (record { refresh_token = given.provider_refresh_token; session_id = s.id }))

-- newIDTokenCookie; `fits` tells that the token is not too large for a cookie.
abbrev pub new_id_token_cookie : (String → Bool) → String → Time → Cookie
new_id_token_cookie fits token until =
    if (token =? "") || not (fits token) then clear_id_token else id_token_cookie token until

unfoldable pub started_with :
    (String → Bool)
    → Authenticator
    → SignIn
    → SessionState × String
    → Result SessionTokens
    → Outcome
started_with fits a given s (err e) = refuse tokens_failed
started_with fits a given (s, sealed) (ok tokens) = record {
  result = record {
    tokens = some tokens;
    cookies =
        refresh_cookie tokens.refresh_token tokens.refresh_expires_at
        ∷ new_provider_token_cookie sealed tokens.refresh_expires_at
        ∷ new_id_token_cookie fits given.id_token (session_end a s)
        ∷ [];
    end_session_url = "";
  };
  error = none;
}

unfoldable pub start : Manager → (String → Bool) → Authenticator → String → Time → SignIn → Outcome
unfolding started_with sealed_session
start m fits a id now given =
    let s = sealed_session m (new_session id now given) given in
    started_with fits a given s (sign_in_tokens m.sign a given.identity s.0)

abbrev pub admin_sign_in : String → SignIn
admin_sign_in username = record {
  identity = record {
    subject = username;
    email = "";
    groups = [];
    provider = "admin";
    issuer = "";
    username = "";
  };
  provider_session_id = "";
  id_token = "";
  provider_refresh_token = "";
  provider_check_at = 0;
}

unfoldable pub sign_in_admin : Manager → (String → Bool) → String → Time → String → String → Outcome
unfolding start
sign_in_admin m fits id now username password = elim m.authenticator [
  | none ↦ refuse auth_unavailable
  | some a ↦
      if not m.admin_login_enabled
      then refuse admin_login_disabled
      else if not (m.verify_credentials username password)
      then refuse invalid_credentials
      else start m fits a id now (admin_sign_in a.username)
]

unfoldable pub start_session : Manager → (String → Bool) → String → Time → SignIn → Outcome
unfolding start
start_session m fits id now given = elim m.authenticator [
  | none ↦ refuse auth_unavailable
  | some a ↦ start m fits a id now given
]

-- The record of ended sessions behind a sign-out, with what its patch returns; a nil record stays.
abbrev pub note_ended : Time → String → Option String → Option EndedSessions → Option EndedSessions
note_ended now key patched none = none
note_ended now key patched (some e) = some (record_entry now key now patched e).0

unfoldable pub ended_by :
    Manager → Time → Option String → Option VerifiedToken → Option EndedSessions
unfolding record_entry
ended_by m now patched none = m.ended
ended_by m now patched (some t) =
    note_ended now (ended_session_key m.entry_key t.session.id) patched m.ended

abbrev pub is_of_provider : Option VerifiedToken → Bool
is_of_provider none = false
is_of_provider (some t) = t.identity.provider =? provider_oidc

-- The token of the browser, while authentication can be resolved.
unfoldable pub browser_token : Manager → BrowserSession → Option VerifiedToken
browser_token m b = elim m.authenticator [
  | none ↦ none
  | some _ ↦ parse_token m b.refresh_token refresh_type
]

unfoldable pub sign_out_result : Option Provider → Bool → SessionResult
sign_out_result none oidc_session = record no_result { cookies = clear_session_cookies }
sign_out_result (some p) oidc_session =
    if oidc_session && p.sign_out_at_provider
    then record {
      tokens = none;
      cookies = clear_session_cookies ++ reauth_cookie ∷ [];
      end_session_url = p.end_session_url;
    }
    else record no_result { cookies = clear_session_cookies }

-- endSession: its result, and the manager behind it. The provider's token is revoked besides.
unfoldable pub end_session :
    Manager → Time → Option String → BrowserSession → SessionResult × Manager
unfolding ended_by browser_token sign_out_result
end_session m now patched b = (
  sign_out_result m.provider (not (b.id_token =? "") || is_of_provider (browser_token m b)),
  record m { ended = ended_by m now patched (browser_token m b) },
)
