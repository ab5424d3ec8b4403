-- ===== src/Prelude/Options.antt =====
-- Values that may be missing.
use mathlib.Core.Option.{Option, none, some}

-- The first value, or else the second.
abbrev pub or_else {ℓ} : {A : Type ℓ} → Option A → Option A → Option A
or_else (some v) rest = some v
or_else none rest = rest
