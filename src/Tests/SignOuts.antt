-- ===== src/Tests/SignOuts.antt =====
-- A session of an OIDC user that is refreshed, and one that signs out (internal/server/sessions.go).
use kokumi.Clock.{second, Time, add}
use kokumi.Prelude.Int.{pos}
use kokumi.Prelude.Result.{ok}
use kokumi.Sessions.Bounds.{Refreshed, refresh_session-Refreshed}
use kokumi.Sessions.Ended.{EndedSessions, lookup, update, ended, ended_at_provider}
use kokumi.Sessions.Manager.{Manager, BrowserSession, parse_token, verified}
use kokumi.Sessions.Refresh.{
  refresh_session, refresh_parsed, refresh_running, issue_refreshed, after_issue, is_ended,
}
use kokumi.Sessions.SignIn.{end_session}
use kokumi.Sessions.SignOut.{end_session-refused}
use kokumi.Sessions.Update.{IsFresh, lookup-update}
use kokumi.Sessions.Tokens.{
  Identity, SessionState, Authenticator, Claims, refresh_type, VerifiedToken, SessionTokens,
  tokens_of, session_end, idle_deadline, issue_tokens,
}
use kokumi.Prelude.{or_else, ◌*◌, ◌≡◌, refl, true, false, none, some, [], ◌∷◌, ◌=?◌}

abbrev user : Identity
user = record {
  subject = "ada";
  email = "ada@example.org";
  groups = [];
  provider = "oidc";
  issuer = "https://login";
  username = "ada";
}

abbrev session : SessionState
session = record {
  id = "s1";
  auth_time = 1_000 * second;
  provider_check_at = 0;
  provider_session_id = "p1";
}

abbrev lifetimes : Authenticator
lifetimes = record {
  username = "admin";
  access_ttl = pos (300 * second);
  session_ttl = pos (86_400 * second);
  idle_ttl = pos (3_600 * second);
}

abbrev claims : Claims
claims = record {
  token_type = refresh_type;
  identity = user;
  session = session;
  issued_at = 1_000 * second;
  expires_at = 4_600 * second;
}

abbrev token : VerifiedToken
token = record { identity = user; session = session; expires = 4_600 * second }

abbrev no_ends : EndedSessions
no_ends = record { entries = []; pending = [] }

abbrev server : Manager
server = record {
  authenticator = some lifetimes;
  admin_login_enabled = false;
  verify_credentials = λ username password. false;
  sign = λ c. ok "signed";
  jwt = λ raw. some claims;
  seal = λ t. ok "sealed";
  open_sealed = λ raw. none;
  provider = none;
  entry_key = λ prefix parts. prefix;
  ended = some no_ends;
}

abbrev browser : BrowserSession
browser = record { refresh_token = "refresh-1"; provider_token = ""; id_token = "" }

parsed : parse_token server "refresh-1" refresh_type ≡ some token
unfolding parse_token verified ◌=?◌
parsed = refl

abbrev new_tokens : SessionTokens
new_tokens = tokens_of "signed" (2_300 * second) "signed" (5_600 * second)

refreshed : (refresh_session server (2_000 * second) browser true).result.tokens ≡ some new_tokens
unfolding refresh_session refresh_parsed refresh_running issue_refreshed after_issue is_ended ended
    ended_at_provider parse_token verified issue_tokens idle_deadline session_end add lookup ◌=?◌
refreshed = refl

refresh_session-Refreshed_example : Refreshed server (2_000 * second) browser true new_tokens
refresh_session-Refreshed_example =
    refresh_session-Refreshed server (2_000 * second) browser true new_tokens refreshed

end_session-refused_example :
    (refresh_session
      (end_session server (2_000 * second) none browser).1
      (2_100 * second)
      browser
      true).result.tokens
    ≡ none
end_session-refused_example =
    end_session-refused server lifetimes no_ends (2_000 * second) (2_100 * second) browser browser
      token token true refl refl parsed parsed refl

abbrev lagging : EndedSessions
lagging = record {
  entries = ("ksid.s1", 2_000 * second) ∷ [];
  pending = ("ksid.s1", 2_000 * second) ∷ [];
}

is_pending : lookup "ksid.s1" lagging.pending ≡ some (2_000 * second)
unfolding lookup ◌=?◌
is_pending = refl

held : lookup "ksid.s1" lagging.entries ≡ some (2_000 * second)
unfolding lookup ◌=?◌
held = refl

is_fresh : IsFresh (2_030 * second) (2_000 * second)
unfolding kokumi.Clock.sub
is_fresh = refl

lookup-update_example :
    lookup "ksid.s1" (update (2_030 * second) [] lagging).entries
    ≡ or_else (lookup "ksid.s1" []) (some (2_000 * second))
lookup-update_example =
    lookup-update (2_030 * second) [] lagging "ksid.s1" (2_000 * second) (2_000 * second) is_pending
      is_fresh held
