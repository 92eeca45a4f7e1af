-- ===== src/Delivery/Engine.antt =====
-- The engine as a state machine: one call of a public method, or one sweep of the watchdog, is one
-- step, under whatever its collaborators answer and whatever the clock reads.
use abcmovies.Base.{ℕ, Bool, List, [], ◌∷◌, Text}
use abcmovies.Delivery.Session.{Engine}
use abcmovies.Delivery.Start.{Wiring, StartRequest, start}
use abcmovies.Delivery.Ending.{
  revoke_account, revoke_all_on_account, revoke_others_on_account, apply_account_cap, complete,
}
use abcmovies.Delivery.Liveness.{heartbeat, progress, sweep}

pub data Call : Type 0 where
  starts : StartRequest → Call
  heartbeats : Text → Text → Call
  progresses : Text → ℕ → Call
  revokes_account : Text → Text → Text → Call
  revokes_all : Text → Call
  revokes_others : Text → Text → List Text → Call
  applies_cap : Text → Text → Bool → Call
  completes : Text → Call
  sweeps : Call

unfoldable pub step : Engine → Wiring → ℕ → Call → Engine
step e w now (starts req) = (start e w req now).0
step e w now (heartbeats id member) = (heartbeat e id member now).0
step e w now (progresses id percent) = (progress e id percent now).0
step e w now (revokes_account provider account member) =
    (revoke_account e provider account member).0
step e w now (revokes_all account) = (revoke_all_on_account e account).0
step e w now (revokes_others provider account keep) =
    (revoke_others_on_account e provider account keep).0
step e w now (applies_cap provider account enforce) =
    (apply_account_cap e w provider account enforce).0
step e w now (completes id) = (complete e w id).0
step e w now sweeps = sweep e now

unfoldable pub run : Engine → List (Wiring × ℕ × Call) → Engine
run e [] = e
run e ((w, now, c) ∷ calls) = run (step e w now c) calls
