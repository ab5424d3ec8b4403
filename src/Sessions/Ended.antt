-- ===== src/Sessions/Ended.antt =====
-- The record of the sessions that ended (internal/server/ended_sessions.go). A map is the list of its
-- writes, newest first. The calls of a server are its steps on the record, one at a time, as its mutex
-- makes them.
use kokumi.Clock.{Time, Duration, second, sub}
use kokumi.Prelude.Int.{pos, ltb_ℤ}
use kokumi.Sessions.Tokens.{Identity, SessionState, VerifiedToken}
use kokumi.Prelude.{
  ◌*◌, String, Bool, true, false, not, ◌&&◌, ◌||◌, Option, none, some, List, [], ◌∷◌, ltb, ◌=?◌,
  if◌then◌else◌,
}

abbrev pub Entries : Type 0
Entries = List (String × Time)

-- endedSessions
pub record EndedSessions : Type 0 where
  pub entries : Entries
  pub pending : Entries

unfoldable pub lookup : String → Entries → Option Time
lookup key [] = none
lookup key ((k, at) ∷ l) = if k =? key then some at else lookup key l

unfoldable pub delete : String → Entries → Entries
delete key [] = []
delete key ((k, at) ∷ l) = let rest = delete key l in if k =? key then rest else (k, at) ∷ rest

abbrev pub is_recorded : Option Time → Bool
is_recorded none = false
is_recorded (some at) = true

-- The time of the entry is after the sign-in.
abbrev pub is_after : Time → Option Time → Bool
is_after auth_time none = false
is_after auth_time (some at) = ltb auth_time at

-- pendingEntryTTL
abbrev pub pending_entry_ttl : Duration
pending_entry_ttl = pos (60 * second)

abbrev pub provider_oidc : String
provider_oidc = "oidc"

-- `entry_key` is a prefix before entryHash of the parts.
module _ (entry_key : String → List String → String) where
  abbrev pub ended_session_key : String → String
  ended_session_key sid = entry_key "ksid." (sid ∷ [])

  abbrev pub ended_provider_session_key : String → String → String
  ended_provider_session_key issuer sid = entry_key "sid." (issuer ∷ sid ∷ [])

  abbrev pub ended_provider_user_key : String → String → String
  ended_provider_user_key issuer subject = entry_key "sub." (issuer ∷ subject ∷ [])

  unfoldable pub ended_at_provider : EndedSessions → Identity → SessionState → Bool
  unfolding lookup
  ended_at_provider e id s =
      if not (s.provider_session_id =? "")
        && is_recorded
            (lookup (ended_provider_session_key id.issuer s.provider_session_id) e.entries)
      then true
      else is_after s.auth_time (lookup (ended_provider_user_key id.issuer id.subject) e.entries)

  unfoldable pub ended : EndedSessions → VerifiedToken → Bool
  unfolding ended_at_provider lookup
  ended e t =
      if is_recorded (lookup (ended_session_key t.session.id) e.entries)
      then true
      else if not (t.identity.provider =? provider_oidc)
      then false
      else ended_at_provider e t.identity t.session

-- The entries of a ConfigMap: `parse` is time.Parse of RFC 3339.
unfoldable pub entries_of : (String → Option Time) → List (String × String) → Entries
entries_of parse [] = []
entries_of parse ((key, value) ∷ l) = elim (parse value) [
  | none ↦ entries_of parse l
  | some at ↦ (key, at) ∷ entries_of parse l
]

-- The round of the loop of `update` for a key that is pending: `at` is its entry so far, the zero time
-- of a missing one.
abbrev pub or_zero : Option Time → Time
or_zero none = 0
or_zero (some at) = at

abbrev pub is_settled : Time → Time → Entries → String → Bool
is_settled now recorded entries key =
    is_recorded (lookup key entries) || ltb_ℤ pending_entry_ttl (sub now recorded)

-- The loop of `update` over the keys that are pending, each with its first write; it leaves the
-- entries and what stays pending.
unfoldable pub keep_pending : Time → Entries → Entries → Entries → Entries → EndedSessions
unfolding lookup delete
keep_pending now before [] entries pending = record { entries = entries; pending = pending }
keep_pending now before ((key, recorded) ∷ l) entries pending =
    if is_settled now recorded entries key
    then keep_pending now before l entries (delete key pending)
    else keep_pending now before l ((key, or_zero (lookup key before)) ∷ entries) pending

-- The keys of a map, each with its value.
unfoldable pub items : Entries → Entries
unfolding delete
items [] = []
items ((k, at) ∷ l) = (k, at) ∷ delete k (items l)

unfoldable pub update : Time → Entries → EndedSessions → EndedSessions
unfolding keep_pending items
update now delivered e = keep_pending now e.entries (items e.pending) delivered e.pending

-- `record`; `patched` is what the patch of the ConfigMap returns.
unfoldable pub record_entry :
    Time → String → Time → Option String → EndedSessions → EndedSessions × Option String
record_entry now key at (some error) e = (e, some error)
record_entry now key at none e =
    (record { entries = (key, at) ∷ e.entries; pending = (key, now) ∷ e.pending }, none)

-- The keys that `prune` drops from the ConfigMap.
unfoldable pub expired_from : Time → Duration → Entries → List String
expired_from now session_ttl [] = []
expired_from now session_ttl ((key, at) ∷ l) =
    let rest = expired_from now session_ttl l in
    if ltb_ℤ session_ttl (sub now at) then key ∷ rest else rest

unfoldable pub expired : Time → Duration → EndedSessions → List String
unfolding expired_from items
expired now session_ttl e = expired_from now session_ttl (items e.entries)
