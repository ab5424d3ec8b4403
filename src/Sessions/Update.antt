-- ===== src/Sessions/Update.antt =====
-- What an update of the record of ended sessions keeps (internal/server/ended_sessions.go).
use kokumi.Clock.{Time, sub}
use kokumi.Prelude.Int.{ltb_ℤ}
use kokumi.Sessions.Ended.{
  Entries, EndedSessions, lookup, delete, is_settled, keep_pending, items, update, or_zero,
  pending_entry_ttl,
}
use mathlib.Core.Option.{some-injective}
use mathlib.Core.Path.{subst}
use kokumi.Prelude.{
  or_else, String, ◌≡◌, refl, sym, ap, ◌∙◌, ◌≢◌, Bool, true, false, Option, none, some, [], ◌∷◌,
  arith, ◌=?◌, =?_iff, if◌then◌else◌, =?_ne,
}

lookup-cons :
    (key k : String) (at : Time) (l : Entries) → k ≢ key → lookup key ((k, at) ∷ l) ≡ lookup key l
unfolding lookup
lookup-cons key k at l n = ground (arith, =?_iff k key)

lookup-head :
    (key k : String) (at : Time) (l : Entries) → k ≡ key → lookup key ((k, at) ∷ l) ≡ some at
unfolding lookup
lookup-head key k at l e = rw ((=?_iff k key).1 e) refl

-- A key that is recorded at most pendingEntryTTL ago.
abbrev pub IsFresh : Time → Time → Type 0
IsFresh now recorded = ltb_ℤ pending_entry_ttl (sub now recorded) ≡ false

-- What the loop of `update` leaves behind a round for a key `k`, by whether it is settled.
abbrev behind : Time → Entries → Entries → Entries → Entries → String → Bool → EndedSessions
behind now before l entries pending k true = keep_pending now before l entries (delete k pending)
behind now before l entries pending k false =
    keep_pending now before l ((k, or_zero (lookup k before)) ∷ entries) pending

keep_pending-cons :
    (now : Time) (before l entries pending : Entries) (k : String) (recorded : Time)
    → keep_pending now before ((k, recorded) ∷ l) entries pending
      ≡ behind now before l entries pending k (is_settled now recorded entries k)
unfolding keep_pending
keep_pending-cons now before l entries pending k recorded =
    by_test (is_settled now recorded entries k)
  where
    by_test :
        (settled : Bool)
        → (if settled
            then keep_pending now before l entries (delete k pending)
            else keep_pending now before l ((k, or_zero (lookup k before)) ∷ entries) pending)
          ≡ behind now before l entries pending k settled
    by_test true = refl
    by_test false = refl

-- The entries behind a loop of `update` hold what they held before it.
keep_pending_kept :
    (now : Time) (before l entries pending : Entries) (key : String) (t : Time)
    → lookup key entries ≡ some t
    → lookup key (keep_pending now before l entries pending).entries ≡ some t
unfolding keep_pending
keep_pending_kept now before [] entries pending key t e = e
keep_pending_kept now before ((k, recorded) ∷ l) entries pending key t e =
    rw (keep_pending-cons now before l entries pending k recorded) (
      by_test (is_settled now recorded entries k) refl
        (λ more left. keep_pending_kept now before l more left key t))
  where
    unsettled-ne : is_settled now recorded entries k ≡ false → k ≢ key
    unsettled-ne q same =
        let found : lookup k entries ≡ some t =
          subst (λ x. lookup x entries ≡ some t) (sym same) e in
        let settled : is_settled now recorded entries k ≡ true = rw found refl in
        ground (arith, settled, q)

    by_test :
        (settled : Bool)
        → is_settled now recorded entries k ≡ settled
        → ((more left : Entries)
            → lookup key more ≡ some t
            → lookup key (keep_pending now before l more left).entries ≡ some t)
        → lookup key (behind now before l entries pending k settled).entries ≡ some t
    by_test true q rest = rest entries (delete k pending) e
    by_test false q rest =
        rest ((k, or_zero (lookup k before)) ∷ entries) pending
          (lookup-cons key k (or_zero (lookup k before)) entries (unsettled-ne q) ∙ e)

-- A pending key that is fresh is there behind the loop, as it was there or as it was before.
keep_pending_fresh :
    (now : Time) (before l entries pending : Entries) (key : String) (recorded at : Time)
    → lookup key l ≡ some recorded
    → IsFresh now recorded
    → lookup key before ≡ some at
    → lookup key (keep_pending now before l entries pending).entries
      ≡ or_else (lookup key entries) (some at)
unfolding keep_pending lookup
keep_pending_fresh now before [] entries pending key recorded at p f b = absurd (ground (arith, p))
keep_pending_fresh now before ((k, first) ∷ l) entries pending key recorded at p f b =
    rw (keep_pending-cons now before l entries pending k first) (
      by_tests (k =? key) (is_settled now first entries k) refl refl p
        (λ more left q. keep_pending_fresh now before l more left key recorded at q f b))
  where
    more : Entries
    more = (k, or_zero (lookup k before)) ∷ entries

    -- The key itself: it is settled by the entry that is there, or gets the time it had before.
    by_entry :
        (o : Option Time) (settled : Bool)
        → lookup key entries ≡ o
        → is_settled now first entries k ≡ settled
        → k ≡ key
        → first ≡ recorded
        → lookup key (behind now before l entries pending k settled).entries ≡ or_else o (some at)
    by_entry (some t) true e q same r =
        keep_pending_kept now before l entries (delete k pending) key t e
    by_entry (some t) false e q same r =
        let settled : is_settled now first entries k ≡ true = rw (same, e) refl in
        ground (arith, settled, q)
    by_entry none true e q same r =
        let unsettled : is_settled now first entries k ≡ false = rw (same, e, r, f) refl in
        ground (arith, unsettled, q)
    by_entry none false e q same r =
        keep_pending_kept now before l more pending key at
          (lookup-head key k (or_zero (lookup k before)) entries same ∙ ap some (rw (same, b) refl))

    by_tests :
        (same settled : Bool)
        → (k =? key) ≡ same
        → is_settled now first entries k ≡ settled
        → (if same then some first else lookup key l) ≡ some recorded
        → ((more left : Entries)
            → lookup key l ≡ some recorded
            → lookup key (keep_pending now before l more left).entries
              ≡ or_else (lookup key more) (some at))
        → lookup key (behind now before l entries pending k settled).entries
          ≡ or_else (lookup key entries) (some at)
    by_tests true settled n q p rest =
        by_entry (lookup key entries) settled refl q ((=?_iff k key).0 n)
          (some-injective first recorded p)
    by_tests false true n q p rest = rest entries (delete k pending) p
    by_tests false false n q p rest =
        rest more pending p
        ∙ ap (λ o. or_else o (some at))
            (lookup-cons key k (or_zero (lookup k before)) entries (=?_ne k key n))

lookup-delete : (key k : String) (l : Entries) → k ≢ key → lookup key (delete k l) ≡ lookup key l
unfolding lookup delete
lookup-delete key k [] n = refl
lookup-delete key k ((j, at) ∷ l) n =
    ground (arith, lookup-delete key k l n, =?_iff j key, =?_iff j k)

lookup-items : (key : String) (l : Entries) → lookup key (items l) ≡ lookup key l
unfolding lookup items
lookup-items key [] = refl
lookup-items key ((k, at) ∷ l) = by_test (k =? key) refl (lookup-items key l)
  where
    by_test :
        (same : Bool)
        → (k =? key) ≡ same
        → lookup key (items l) ≡ lookup key l
        → (if same then some at else lookup key (delete k (items l)))
          ≡ (if same then some at else lookup key l)
    by_test true e rest = refl
    by_test false e rest = lookup-delete key k (items l) (=?_ne k key e) ∙ rest

-- When a server holds an entry that it recorded at most pendingEntryTTL ago and that is still pending,
-- then behind every update from the watch its time is the one that the ConfigMap delivers for the key,
-- or else the time that the server held.
pub lookup-update :
    (now : Time) (delivered : Entries) (e : EndedSessions) (key : String) (recorded at : Time)
    → lookup key e.pending ≡ some recorded
    → IsFresh now recorded
    → lookup key e.entries ≡ some at
    → lookup key (update now delivered e).entries ≡ or_else (lookup key delivered) (some at)
unfolding update
lookup-update now delivered e key recorded at p f h =
    keep_pending_fresh now e.entries (items e.pending) delivered e.pending key recorded at
      (lookup-items key e.pending ∙ p) f h

-- The time of an entry of a ConfigMap that the watch delivers is there behind the update.
update-delivered :
    (now : Time) (delivered : Entries) (e : EndedSessions) (key : String) (t : Time)
    → lookup key delivered ≡ some t
    → lookup key (update now delivered e).entries ≡ some t
unfolding update
update-delivered now delivered e key t r =
    keep_pending_kept now e.entries (items e.pending) delivered e.pending key t r
