-- ===== src/Driver/Signals.antt =====
-- The signals of the console, and the end of the process.
use treiber.Base.{ℕ, zero, suc, Bool, true, false, Option, some, ◌>>=◌}
use treiber.Driver.{Application, shutdown}

-- The signals of the console.
data Signal : Type 0 where
  ctrl_c : Signal
  ctrl_close : Signal
  ctrl_break : Signal
  ctrl_logoff : Signal
  ctrl_shutdown : Signal
  other : Signal

-- What a handler does to the process: it returns, or it ends it with `exit`.
pub data Ending {ℓ} (A : Type ℓ) : Type ℓ where
  returns : A → Ending A
  exits : Ending A

-- `exit` calls the handlers of `atexit` before the process ends.
unfoldable pub run_exit_handlers : ℕ → Application → Option Application
unfolding shutdown
run_exit_handlers zero app = some app
run_exit_handlers (suc n) app = do app' ← shutdown app; run_exit_handlers n app'

-- `handleCtrlSignal`
handle_ctrl_signal : Signal → Application → Option (Ending Bool × Application)
unfolding shutdown run_exit_handlers
handle_ctrl_signal ctrl_c app = do
  app' ← run_exit_handlers app.exit_handlers app
  some (exits, app')
handle_ctrl_signal ctrl_close app = some (returns true, app)
handle_ctrl_signal ctrl_break app = some (returns false, app)
handle_ctrl_signal ctrl_logoff app = some (returns false, app)
handle_ctrl_signal ctrl_shutdown app = do app' ← shutdown app; some (returns false, app')
handle_ctrl_signal other app = some (returns false, app)
