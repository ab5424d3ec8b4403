-- ===== src/Serving/Status/RoundTrip.antt =====
-- The history that the status stores (internal/controller/serving_controller.go, historyOf and
-- setHistory).
use kokumi.Promotion.History.{Entry, History}
use kokumi.Serving.Status.{ServingStatus, entry_from, entry_to, history_of, entries_of, set_history}
use kokumi.Prelude.{◌≡◌, refl, [], ◌∷◌, arith, =?_iff}

entry_from-entry_to : (e : Entry) → entry_from (entry_to e) ≡ e
unfolding entry_from entry_to
entry_from-entry_to e = ground (arith, =?_iff e.registry "")

history_of-entries_of : (h : History) → history_of (entries_of h) ≡ h
unfolding history_of entries_of
history_of-entries_of [] = refl
history_of-entries_of (e ∷ h) = cc (entry_from-entry_to e, history_of-entries_of h)

-- The history that is written to the status of a Serving is the one that is read back from it.
pub history_of-set_history :
    (h : History) (s : ServingStatus) → history_of (set_history h s).history ≡ h
unfolding set_history
history_of-set_history h s = history_of-entries_of h
