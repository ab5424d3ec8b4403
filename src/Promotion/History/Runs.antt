-- ===== src/Promotion/History/Runs.antt =====
-- Any sequence of operations on an empty history (internal/promotion/history.go).
use kokumi.Prelude.{
  ℕ, suc, ◌≤◌, ◌<◌, String, ◌≡◌, refl, ◌≢◌, ◌&&◌, List, [], ◌∷◌, arith, if◌then◌else◌, All,
}
use kokumi.Clock.{Time, second}
use kokumi.Promotion.History.{
  Entry, History, Observation, open_entry, start, drop, observe, record_deployment, running,
  promoted,
}
use kokumi.Promotion.History.Invariant.{
  IsWell, IsPast, open_entry-IsWell, start-IsWell, drop-IsWell, observe-IsWell,
  record_deployment-IsWell,
}

-- One operation, as a stage makes it.
pub data Move : Type 0 where
  open_for : (candidate : Entry) (now : Time) → second ≤ now → Move
  start_under : (r : String) → r ≢ "" → Move
  drop_pending : Move
  observe_at : (o : Observation) (now : Time) → second ≤ now → Move
  record_of : (digest : String) (at : Time) (r : String) → 0 < at → Move

unfoldable pub perform : Move → History → History
perform (open_for candidate now t) h = open_entry candidate now h
perform (start_under r n) h = start r h
perform drop_pending h = drop h
perform (observe_at o now t) h = (observe o now h).0
perform (record_of digest at r p) h = record_deployment digest at r h

unfoldable pub run : List Move → History → History
run [] h = h
run (m ∷ ms) h = run ms (perform m h)

pub perform-IsWell : (m : Move) (h : History) → IsWell h → IsWell (perform m h)
unfolding perform
perform-IsWell (open_for candidate now t) h w = open_entry-IsWell candidate now h t w
perform-IsWell (start_under r n) h w = start-IsWell r h n w
perform-IsWell drop_pending h w = drop-IsWell h w
perform-IsWell (observe_at o now t) h w = observe-IsWell o now h t w
perform-IsWell (record_of digest at r p) h w = record_deployment-IsWell digest at r h p w

pub run_from-IsWell : (ms : List Move) (h : History) → IsWell h → IsWell (run ms h)
unfolding run
run_from-IsWell [] h w = w
run_from-IsWell (m ∷ ms) h w = run_from-IsWell ms (perform m h) (perform-IsWell m h w)

pub empty-IsWell : IsWell []
empty-IsWell = record { fits = omega arith; orderly = tt; coherent = tt }

-- How many entries are promoted and run.
abbrev pub live : History → ℕ
live [] = 0
live (e ∷ h) = if promoted e && running e then suc (live h) else live h

live_past : (h : History) → All IsPast h → live h ≡ 0
live_past [] a = refl
live_past (e ∷ h) a = ground (arith, live_past h a.1)

live_well : (h : History) → IsWell h → live h ≤ 1
live_well [] w = omega arith
live_well (e ∷ []) w = ground arith
live_well (e ∷ d ∷ h) w = ground (arith, live_past h)

-- Whatever operations a stage makes on its history, from the empty one on, at instants of at least a
-- second after the zero time and with records that are not empty: the history keeps at most 16
-- entries, at most the first is pending, the entries behind the deployed one are over, every entry
-- has started and has an end reason exactly when it is over, and only an entry that was healthy has a
-- deployment record.
pub run-IsWell : (ms : List Move) → IsWell (run ms [])
run-IsWell ms = run_from-IsWell ms [] empty-IsWell

-- At most one promoted entry of a history that a stage reaches runs.
pub run_one_live : (ms : List Move) → live (run ms []) ≤ 1
run_one_live ms = live_well (run ms []) (run-IsWell ms)
