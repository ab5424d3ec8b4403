-- ===== src/Sessions/Bounds.antt =====
-- How long the tokens of a session last (internal/server/sessions.go and auth.go).
use kokumi.Clock.{Time, add, is_zero}
use kokumi.Prelude.Result.{Result, ok, err, and_then}
use kokumi.Sessions.Manager.{
  admin_login_disabled, invalid_credentials, provider_ended_session, Manager, BrowserSession,
  Outcome, SessionError, session_invalid, session_ended, provider_unavailable, refuse, parse_token,
  provider_token_of, auth_unavailable, tokens_failed,
}
use kokumi.Sessions.Refresh.{
  end_with, is_ended, Checked, check_passed, check_failed, check_at_provider, issued, after_seal,
  after_issue, issue_refreshed, with_check, after_check, check_when_due, refresh_running,
  refresh_parsed, refresh_session,
}
use kokumi.Sessions.Tokens.{
  Identity, SessionState, Authenticator, Claims, refresh_type, access_type, VerifiedToken,
  SessionTokens, sooner, session_end, idle_deadline, claims_of, tokens_of, issue_tokens,
}
use kokumi.Prelude.{
  ◌≤◌, ◌<◌, String, ◌≡◌, refl, sym, ap, ◌∙◌, Bool, true, false, not, ◌||◌, Option, none, some, [],
  arith, ltb, ◌=?◌, if◌then◌else◌,
}

-- Tokens that are issued for a session until a time.
record IsIssued (sign : Claims → Result String) (s : SessionState) (until : Time)
    (tk : SessionTokens) : Type 0 where
  pub refresh_until : tk.refresh_expires_at ≡ until
  pub access_within : tk.access_expires_at ≤ until
  pub claims : Claims
  pub signed : sign claims ≡ ok tk.refresh_token
  pub of_session : claims.session ≡ s
  pub expires : claims.expires_at ≡ until

sooner-le : (x y : Time) → (sooner x y ≤ x) × (sooner x y ≤ y)
sooner-le x y = ground arith

module _ (sign : Claims → Result String) (now : Time) (id : Identity) (s : SessionState)
    (until : Time) where
  signed-IsIssued :
      (access_until : Time) (access : Result String) (refresh : Result String) (tk : SessionTokens)
      → access_until ≤ until
      → sign (claims_of refresh_type now id s until) ≡ refresh
      → and_then access (λ x. and_then refresh (λ y. ok (tokens_of x access_until y until))) ≡ ok tk
      → IsIssued sign s until tk
  signed-IsIssued access_until (err e) refresh tk l f g = ground (arith, g)
  signed-IsIssued access_until (ok x) (err e) tk l f g = ground (arith, g)
  signed-IsIssued access_until (ok x) (ok y) tk l f g = record {
    refresh_until = ground (arith, g);
    access_within = ground (arith, g, l);
    claims = claims_of refresh_type now id s until;
    signed = ground (arith, g, f);
    of_session = refl;
    expires = refl;
  }

  issue_tokens-IsIssued :
      (a : Authenticator) (tk : SessionTokens)
      → issue_tokens sign a now id s until ≡ ok tk
      → IsIssued sign s until tk
  unfolding issue_tokens
  issue_tokens-IsIssued a tk e = by_tests (id.subject =? "") ((s.id =? "") || is_zero s.auth_time) e
    where
      access_until : Time
      access_until = sooner until (add now a.access_ttl)

      by_tests :
          (no_subject no_session : Bool)
          → (if no_subject
              then err "identity has no subject"
              else if no_session
              then err "session has no ID or sign-in time"
              else and_then (sign (claims_of access_type now id s access_until)) (λ x.
                and_then
                  (sign (claims_of refresh_type now id s until))
                  (λ y. ok (tokens_of x access_until y until))))
            ≡ ok tk
          → IsIssued sign s until tk
      by_tests true no_session f = ground (arith, f)
      by_tests false true f = ground (arith, f)
      by_tests false false f =
          signed-IsIssued access_until (sign (claims_of access_type now id s access_until))
            (sign (claims_of refresh_type now id s until)) tk
            (sooner-le until (add now a.access_ttl)).0 refl f

-- The tokens of an outcome.
abbrev Gives : Outcome → SessionTokens → Type 0
Gives o tk = o.result.tokens ≡ some tk

seal-Gives :
    (issue sealed_tokens : SessionTokens) (r : Result String)
    → Gives (after_seal issue r) sealed_tokens
    → ok issue ≡ ok sealed_tokens
unfolding after_seal end_with
seal-Gives issue tk (err e) g = ground (arith, g)
seal-Gives issue tk (ok sealed) g = ground (arith, g)

issue-Gives :
    (m : Manager) (s : SessionState) (provider_refresh : String) (r : Result SessionTokens)
    (tk : SessionTokens)
    → Gives (after_issue m s provider_refresh r) tk
    → r ≡ ok tk
unfolding after_issue
issue-Gives m s provider_refresh (err e) tk g = ground (arith, g)
issue-Gives m s provider_refresh (ok issue) tk g =
    by_test (provider_refresh =? "")
      (m.seal (record { refresh_token = provider_refresh; session_id = s.id })) g
  where
    by_test :
        (unchecked : Bool) (sealed : Result String)
        → Gives (if unchecked then issued issue [] else after_seal issue sealed) tk
        → ok issue ≡ ok tk
    by_test true sealed f = ground (arith, f)
    by_test false sealed f = seal-Gives issue tk sealed f

-- New tokens of a session that runs: they are no longer than its end, than the idle time from now and,
-- without activity, than the token that they replace.
pub record IsRefreshed (m : Manager) (now : Time) (active : Bool) (a : Authenticator)
    (t : VerifiedToken) (tk : SessionTokens) : Type 0 where
  pub within_session : tk.refresh_expires_at ≤ session_end a t.session
  pub within_idle : tk.refresh_expires_at ≤ add now a.idle_ttl
  pub not_extended : active ≡ false → tk.refresh_expires_at ≤ t.expires
  pub access_within : tk.access_expires_at ≤ tk.refresh_expires_at
  pub claims : Claims
  pub signed : m.sign claims ≡ ok tk.refresh_token
  pub same_session : claims.session.id ≡ t.session.id
  pub same_sign_in : claims.session.auth_time ≡ t.session.auth_time
  pub expires : claims.expires_at ≡ tk.refresh_expires_at

idle_deadline-bounds :
    (a : Authenticator) (now : Time) (s : SessionState) (previous : Time) (active : Bool)
    → (idle_deadline a now s previous active ≤ session_end a s)
      × (idle_deadline a now s previous active ≤ add now a.idle_ttl)
      × (active ≡ false → idle_deadline a now s previous active ≤ previous)
unfolding idle_deadline
idle_deadline-bounds a now s previous true =
    ground (arith, sooner-le (session_end a s) (add now a.idle_ttl))
idle_deadline-bounds a now s previous false = ground (
  arith,
  sooner-le (session_end a s) (sooner previous (add now a.idle_ttl)),
  sooner-le previous (add now a.idle_ttl),
)

module _ (m : Manager) (a : Authenticator) (now : Time) (t : VerifiedToken) (active : Bool)
    (tk : SessionTokens) where
  abbrev Refreshes : Outcome → Type 0
  Refreshes o = Gives o tk → IsRefreshed m now active a t tk

  issue_refreshed-Refreshes :
      (id : Identity) (s : SessionState) (provider_refresh : String)
      → s.id ≡ t.session.id
      → s.auth_time ≡ t.session.auth_time
      → Refreshes (issue_refreshed m a now t active id s provider_refresh)
  unfolding issue_refreshed session_end
  issue_refreshed-Refreshes id s provider_refresh same_id same_time = λ g.
      let until : Time = idle_deadline a now s t.expires active in
      let made : IsIssued m.sign s until tk =
        issue_tokens-IsIssued m.sign now id s until a tk
          (issue-Gives m s provider_refresh (issue_tokens m.sign a now id s until) tk g) in
      let (in_session, in_idle, in_previous) = idle_deadline-bounds a now s t.expires active in
      record {
        within_session = rw made.refresh_until (rw (sym same_time) in_session);
        within_idle = rw made.refresh_until in_idle;
        not_extended = rw made.refresh_until in_previous;
        access_within = rw made.refresh_until made.access_within;
        claims = made.claims;
        signed = made.signed;
        same_session = ap (λ (x : SessionState). x.id) made.of_session ∙ same_id;
        same_sign_in = ap (λ (x : SessionState). x.auth_time) made.of_session ∙ same_time;
        expires = made.expires ∙ sym made.refresh_until;
      }

  refuses : (e : SessionError) → Refreshes (refuse e)
  refuses e = λ g. ground (arith, g)

  ends : (e : SessionError) → Refreshes (end_with e)
  unfolding end_with
  ends e = λ g. ground (arith, g)

  after_check-Refreshes : (c : Checked) → Refreshes (after_check m a now t active c)
  unfolding after_check
  after_check-Refreshes (check_passed c) =
      issue_refreshed-Refreshes c.identity (with_check c.next t.session) c.refresh_token refl refl
  after_check-Refreshes (check_failed e) = by_error e
    where
      by_error : (e : SessionError) → Refreshes (after_check m a now t active (check_failed e))
      by_error auth_unavailable = ends auth_unavailable
      by_error admin_login_disabled = ends admin_login_disabled
      by_error invalid_credentials = ends invalid_credentials
      by_error session_invalid = ends session_invalid
      by_error session_ended = ends session_ended
      by_error provider_unavailable = refuses provider_unavailable
      by_error provider_ended_session = ends provider_ended_session
      by_error tokens_failed = ends tokens_failed

  due-Refreshes : (token : Option String) → Refreshes (check_when_due m a now t active token)
  unfolding check_when_due
  due-Refreshes none = ends session_invalid
  due-Refreshes (some token) = by_test (ltb now t.session.provider_check_at)
    where
      by_test :
          (early : Bool)
          → Refreshes (
              if early
              then issue_refreshed m a now t active t.identity t.session token
              else after_check m a now t active (check_at_provider m token t.identity))
      by_test true = issue_refreshed-Refreshes t.identity t.session token refl refl
      by_test false = after_check-Refreshes (check_at_provider m token t.identity)

  running-Refreshes : (b : BrowserSession) → Refreshes (refresh_running m a now t b active)
  unfolding refresh_running
  running-Refreshes b = by_test (is_zero t.session.provider_check_at)
    where
      by_test :
          (unchecked : Bool)
          → Refreshes (
              if unchecked
              then issue_refreshed m a now t active t.identity t.session ""
              else check_when_due m a now t active (provider_token_of m b.provider_token t.session))
      by_test true = issue_refreshed-Refreshes t.identity t.session "" refl refl
      by_test false = due-Refreshes (provider_token_of m b.provider_token t.session)

-- Where the tokens of a refresh come from.
pub record Refreshed (m : Manager) (now : Time) (b : BrowserSession) (active : Bool)
    (tk : SessionTokens) : Type 0 where
  pub authenticator : Authenticator
  pub resolved : m.authenticator ≡ some authenticator
  pub token : VerifiedToken
  pub parsed : parse_token m b.refresh_token refresh_type ≡ some token
  pub running : now < session_end authenticator token.session
  pub not_ended : is_ended m token ≡ false
  pub bounded : IsRefreshed m now active authenticator token tk

no_tokens : {tk : SessionTokens} (e : SessionError) → Gives (end_with e) tk → ⊥
unfolding end_with
no_tokens e g = ground (arith, g)

parsed-Refreshed :
    (m : Manager) (a : Authenticator) (now : Time) (r : Option VerifiedToken) (b : BrowserSession)
    (active : Bool) (tk : SessionTokens)
    → m.authenticator ≡ some a
    → parse_token m b.refresh_token refresh_type ≡ r
    → Gives (refresh_parsed m a now r b active) tk
    → Refreshed m now b active tk
unfolding refresh_parsed
parsed-Refreshed m a now none b active tk e f g = absurd (no_tokens session_invalid g)
parsed-Refreshed m a now (some t) b active tk e f g =
    by_tests (ltb now (session_end a t.session)) (is_ended m t) refl refl g
  where
    by_tests :
        (runs over : Bool)
        → ltb now (session_end a t.session) ≡ runs
        → is_ended m t ≡ over
        → Gives
            (if not runs
              then end_with session_invalid
              else if over
              then end_with session_ended
              else refresh_running m a now t b active)
            tk
        → Refreshed m now b active tk
    by_tests false over p q h = absurd (no_tokens session_invalid h)
    by_tests true true p q h = absurd (no_tokens session_ended h)
    by_tests true false p q h = record {
      authenticator = a;
      resolved = e;
      token = t;
      parsed = f;
      running = ground (arith, p);
      not_ended = q;
      bounded = running-Refreshes m a now t active tk b h;
    }

-- When a refresh gives tokens: authentication was available, the browser's refresh token was valid,
-- its session was neither over nor ended, and the new refresh token is of the same session and
-- sign-in, lasts no longer than the session and than the idle time from now, without activity no
-- longer than the token that it replaces, and no shorter than the new access token.
pub refresh_session-Refreshed :
    (m : Manager) (now : Time) (b : BrowserSession) (active : Bool) (tk : SessionTokens)
    → (refresh_session m now b active).result.tokens ≡ some tk
    → Refreshed m now b active tk
unfolding refresh_session
refresh_session-Refreshed m now b active tk g = by_manager m.authenticator refl g
  where
    by_manager :
        (o : Option Authenticator)
        → m.authenticator ≡ o
        → Gives
            (elim o [
              | none ↦ refuse auth_unavailable
              | some a ↦
                  refresh_parsed m a now (parse_token m b.refresh_token refresh_type) b active
            ])
            tk
        → Refreshed m now b active tk
    by_manager none e h = ground (arith, h)
    by_manager (some a) e h =
        parsed-Refreshed m a now (parse_token m b.refresh_token refresh_type) b active tk e refl h
