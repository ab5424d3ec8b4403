-- ===== src/Sessions/SignOut.antt =====
-- What holds once a session ended (internal/server/ended_sessions.go and sessions.go).
use kokumi.Clock.{Time}
use kokumi.Sessions.Ended.{
  Entries, EndedSessions, lookup, is_recorded, ended_session_key, ended, record_entry,
}
use kokumi.Sessions.Manager.{Manager, BrowserSession, session_invalid, session_ended, parse_token}
use kokumi.Sessions.Refresh.{end_with, is_ended, refresh_running, refresh_parsed, refresh_session}
use kokumi.Sessions.SignIn.{ended_by, browser_token, end_session}
use kokumi.Sessions.Tokens.{Authenticator, refresh_type, VerifiedToken, session_end}
use kokumi.Prelude.{
  String, ◌≡◌, refl, sym, ap, ◌∙◌, Bool, true, false, not, Option, none, some, List, ◌∷◌, ltb,
  =?_iff, if◌then◌else◌,
}

-- A key with an entry.
abbrev IsRecorded : String → Entries → Type 0
IsRecorded key l = is_recorded (lookup key l) ≡ true

recorded-ended :
    (entry_key : String → List String → String) (e : EndedSessions) (t : VerifiedToken)
    → IsRecorded (ended_session_key entry_key t.session.id) e.entries
    → ended entry_key e t ≡ true
unfolding ended
recorded-ended entry_key e t r = rw r refl

IsRecorded-head :
    (key k : String) (at : Time) (l : Entries) → k ≡ key → IsRecorded key ((k, at) ∷ l)
unfolding lookup
IsRecorded-head key k at l e = rw ((=?_iff k key).1 e) refl

-- A refresh of an ended session gives nothing.
parsed_ended :
    (m : Manager) (a : Authenticator) (now : Time) (t : VerifiedToken) (b : BrowserSession)
    (active : Bool)
    → is_ended m t ≡ true
    → (refresh_parsed m a now (some t) b active).result.tokens ≡ none
unfolding refresh_parsed end_with
parsed_ended m a now t b active e = by_test (ltb now (session_end a t.session))
  where
    by_test :
        (runs : Bool)
        → (if not runs
            then end_with session_invalid
            else if is_ended m t
            then end_with session_ended
            else refresh_running m a now t b active).result.tokens
          ≡ none
    by_test false = refl
    by_test true = rw e refl

parse_same :
    (m : Manager) (ends : Option EndedSessions) (raw : String)
    → parse_token (record m { ended = ends }) raw refresh_type ≡ parse_token m raw refresh_type
unfolding parse_token
parse_same m ends raw = refl

-- The record of ended sessions behind a sign-out.
abbrev with_ended : Manager → Time → EndedSessions → VerifiedToken → EndedSessions
with_ended m now e t = (record_entry now (ended_session_key m.entry_key t.session.id) now none e).0

ended_by-some :
    (m : Manager) (a : Authenticator) (e : EndedSessions) (now : Time) (b : BrowserSession)
    (t : VerifiedToken)
    → m.authenticator ≡ some a
    → m.ended ≡ some e
    → parse_token m b.refresh_token refresh_type ≡ some t
    → ended_by m now none (browser_token m b) ≡ some (with_ended m now e t)
unfolding ended_by browser_token parse_token
ended_by-some m a e now b t f g p = rw f (rw p (rw g refl))

signed_out-ended :
    (m : Manager) (a : Authenticator) (e : EndedSessions) (now : Time) (b : BrowserSession)
    (t u : VerifiedToken)
    → m.authenticator ≡ some a
    → m.ended ≡ some e
    → parse_token m b.refresh_token refresh_type ≡ some t
    → u.session.id ≡ t.session.id
    → is_ended (record m { ended = ended_by m now none (browser_token m b) }) u ≡ true
unfolding is_ended record_entry
signed_out-ended m a e now b t u f g p same = rw (ended_by-some m a e now b t f g p) (
    recorded-ended m.entry_key (with_ended m now e t) u (
      IsRecorded-head (ended_session_key m.entry_key u.session.id)
        (ended_session_key m.entry_key t.session.id) now e.entries
        (ap (ended_session_key m.entry_key) (sym same))))

-- Signing out ends the session at once: while authentication is available, there is a record of ended
-- sessions and its patch succeeds, a sign-out with a valid refresh token leaves a server that gives no
-- tokens for any valid refresh token of the same session, at any later time, and whatever other
-- cookies come with it.
pub end_session-refused :
    (m : Manager) (a : Authenticator) (e : EndedSessions) (now later : Time)
    (b copy : BrowserSession) (t u : VerifiedToken) (active : Bool)
    → m.authenticator ≡ some a
    → m.ended ≡ some e
    → parse_token m b.refresh_token refresh_type ≡ some t
    → parse_token m copy.refresh_token refresh_type ≡ some u
    → u.session.id ≡ t.session.id
    → (refresh_session (end_session m now none b).1 later copy active).result.tokens ≡ none
unfolding refresh_session end_session
end_session-refused m a e now later b copy t u active f g p q same = rw f (
    rw (parse_same m (ended_by m now none (browser_token m b)) copy.refresh_token ∙ q) (
      parsed_ended (record m { ended = ended_by m now none (browser_token m b) }) a later u copy
        active (signed_out-ended m a e now b t u f g p same)))
