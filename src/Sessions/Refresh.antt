-- ===== src/Sessions/Refresh.antt =====
-- refreshSession and checkAtProvider of internal/server/sessions.go.
use kokumi.Clock.{Time, is_zero}
use kokumi.Prelude.Result.{Result, ok, err}
use kokumi.Sessions.Ended.{ended}
use kokumi.Sessions.Manager.{
  ProviderCheck, stays_signed_in, refused, not_reached, Manager, SessionError, auth_unavailable,
  session_invalid, session_ended, provider_unavailable, provider_ended_session, tokens_failed,
  Cookie, refresh_cookie, BrowserSession, Outcome, no_result, refuse, clear_session_cookies,
  parse_token, new_provider_token_cookie, provider_token_of,
}
use kokumi.Sessions.Tokens.{
  Identity, SessionState, Authenticator, refresh_type, VerifiedToken, SessionTokens, session_end,
  idle_deadline, issue_tokens,
}
use kokumi.Prelude.{
  String, Bool, false, not, Option, none, some, List, [], ◌∷◌, ltb, ◌=?◌, if◌then◌else◌,
}

-- `end`, the function of refreshSession.
unfoldable pub end_with : SessionError → Outcome
end_with e = record {
  result = record no_result { cookies = clear_session_cookies };
  error = some e;
}

-- The ended sessions of the manager; a nil record ends nothing.
unfoldable pub is_ended : Manager → VerifiedToken → Bool
is_ended m t = elim m.ended [ none ↦ false | some e ↦ ended m.entry_key e t ]

-- What a check at the provider gives, or its error.
pub data Checked : Type 0 where
  check_passed : ProviderCheck → Checked
  check_failed : SessionError → Checked

unfoldable pub check_at_provider : Manager → String → Identity → Checked
check_at_provider m token id = elim m.provider [
  | none ↦ check_failed session_ended
  | some p ↦ elim (p.check_session token id) [
    | stays_signed_in c ↦ check_passed c
    | refused ↦ check_failed provider_ended_session
    | not_reached ↦ check_failed provider_unavailable
  ]
]

abbrev pub issued : SessionTokens → List Cookie → Outcome
issued tokens more = record {
  result = record {
    tokens = some tokens;
    cookies = refresh_cookie tokens.refresh_token tokens.refresh_expires_at ∷ more;
    end_session_url = "";
  };
  error = none;
}

-- refreshSession behind the sealing of the provider's refresh token.
unfoldable pub after_seal : SessionTokens → Result String → Outcome
unfolding end_with
after_seal tokens (err e) = end_with session_ended
after_seal tokens (ok sealed) =
    issued tokens (new_provider_token_cookie sealed tokens.refresh_expires_at ∷ [])

-- refreshSession behind issueTokens; `provider_refresh` is "" for a session that is not checked.
unfoldable pub after_issue : Manager → SessionState → String → Result SessionTokens → Outcome
unfolding after_seal
after_issue m s provider_refresh (err e) = refuse tokens_failed
after_issue m s provider_refresh (ok tokens) =
    if provider_refresh =? ""
    then issued tokens []
    else after_seal tokens (m.seal (record { refresh_token = provider_refresh; session_id = s.id }))

-- refreshSession behind its checks.
unfoldable pub issue_refreshed :
    Manager
    → Authenticator
    → Time
    → VerifiedToken
    → Bool
    → Identity
    → SessionState
    → String
    → Outcome
unfolding after_issue
issue_refreshed m a now t active id s provider_refresh =
    after_issue m s provider_refresh
      (issue_tokens m.sign a now id s (idle_deadline a now s t.expires active))

abbrev pub with_check : Time → SessionState → SessionState
with_check at s = record s { provider_check_at = at }

-- refreshSession behind checkAtProvider.
unfoldable pub after_check :
    Manager → Authenticator → Time → VerifiedToken → Bool → Checked → Outcome
unfolding issue_refreshed end_with
after_check m a now t active (check_failed provider_unavailable) = refuse provider_unavailable
after_check m a now t active (check_failed e) = end_with e
after_check m a now t active (check_passed c) =
    issue_refreshed m a now t active c.identity (with_check c.next t.session) c.refresh_token

-- refreshSession behind providerTokenOf.
unfoldable pub check_when_due :
    Manager → Authenticator → Time → VerifiedToken → Bool → Option String → Outcome
unfolding after_check issue_refreshed end_with check_at_provider
check_when_due m a now t active none = end_with session_invalid
check_when_due m a now t active (some token) =
    if ltb now t.session.provider_check_at
    then issue_refreshed m a now t active t.identity t.session token
    else after_check m a now t active (check_at_provider m token t.identity)

-- refreshSession of a session that is not over.
unfoldable pub refresh_running :
    Manager → Authenticator → Time → VerifiedToken → BrowserSession → Bool → Outcome
unfolding check_when_due issue_refreshed
refresh_running m a now t b active =
    if is_zero t.session.provider_check_at
    then issue_refreshed m a now t active t.identity t.session ""
    else check_when_due m a now t active (provider_token_of m b.provider_token t.session)

-- refreshSession behind parseToken.
unfoldable pub refresh_parsed :
    Manager → Authenticator → Time → Option VerifiedToken → BrowserSession → Bool → Outcome
unfolding refresh_running end_with
refresh_parsed m a now none b active = end_with session_invalid
refresh_parsed m a now (some t) b active =
    if not (ltb now (session_end a t.session))
    then end_with session_invalid
    else if is_ended m t
    then end_with session_ended
    else refresh_running m a now t b active

unfoldable pub refresh_session : Manager → Time → BrowserSession → Bool → Outcome
unfolding refresh_parsed
refresh_session m now b active = elim m.authenticator [
  | none ↦ refuse auth_unavailable
  | some a ↦ refresh_parsed m a now (parse_token m b.refresh_token refresh_type) b active
]
