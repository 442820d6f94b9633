-- ===== src/Protocol/States.antt =====
-- The states in which messages leave the driver.
use text.Mathlib.Text.{◌==◌ as str_eq}
use Prim.Native.String.{String}
use mathlib.Core.Path.{subst}
use mathlib.Core.Bool.{false≢true}
use mathlib.Core.Option.{some-injective}
use treiber.Base.{
  ℕ, suc, ◌≡◌, sym, ◌∙◌, ◌⊎◌, inl, inr, true, Option, none, some, List, if◌then◌else◌, Bool-cases,
}
use treiber.Driver.Signals.{run_exit_handlers}
use treiber.Driver.{Environment, Application, is_running, is_starting_up, init_run, run, shutdown}
use treiber.Driver.Phases.{Stopped, Pending, Settled, Settled-Stopped, is_running-Stopped}
use treiber.Driver.Start.{Started-Ready, Started-Settled, init_run_outcome}
use treiber.Driver.Stop.{shutdown-Settled, run-Settled, run_exit_handlers-Stopped}
use treiber.Protocol.{
  Outcome, Message, data_state, start_driver, after_init, stop_driver, stop_loop,
  parse_deamon_state_put_message, run_connection,
}
use treiber.Protocol.Dispatch.{Kept, still, run_connection-Gives}
use treiber.Protocol.Gives.{Gives, bind-Gives, if-Gives, sum-Gives, Gives-elim}
use treiber.Protocol.Document.{Json, Rapidjson}

unanswered : (app : Application) → Stopped app ⊎ Pending app → Settled app
unanswered app (inl s) = inl s
unanswered app (inr p) = inr (inr p)

start_driver-Gives :
    (env : Environment) (app : Application)
    → Settled app
    → Gives (Kept Settled) (start_driver env app)
unfolding start_driver after_init
start_driver-Gives env app s =
    if-Gives (Kept Settled) (is_starting_up app) _ _ (λ _. still Settled app s)
      (λ _.
        if-Gives (Kept Settled) (is_running app) _ _ (λ _. still Settled app s)
          (λ n. bind-Gives (Kept Settled) (init_run env app) _ (λ r e.
            let st = init_run_outcome env app r (Settled-Stopped app s n).idle e in
            if-Gives (Kept Settled) r.0 _ _
              (λ ok. bind-Gives (Kept Settled) (run env r.1) _ (λ a f.
                still Settled a (
                  run-Settled env app.held r.1 a (Started-Ready env.no_return app.held r st ok) f)))
              (λ _.
                still Settled r.1 (unanswered r.1 (Started-Settled env.no_return app.held r st))))))

stop_driver-Gives : (app : Application) → Settled app → Gives (Kept Settled) (stop_driver app)
unfolding stop_driver
stop_driver-Gives app s =
    if-Gives (Kept Settled) (is_starting_up app) _ _ (λ _. still Settled app s)
      (λ _.
        if-Gives (Kept Settled) (is_running app) _ _
          (λ _. bind-Gives (Kept Settled) (shutdown app) _ (λ a e.
            let k = inl (shutdown-Settled app a s e) in
            if-Gives (Kept Settled) (is_running a) _ _ (λ _. still Settled a k)
              (λ _. still Settled a k)))
          (λ _. still Settled app s))

-- A round leaves the driver stopped.
round-Stopped :
    (app app' : Application)
    → Settled app
    → (if is_running app then shutdown app else some app) ≡ some app'
    → Stopped app'
round-Stopped app app' s e = elim (Bool-cases (is_running app)) [
  | inl r ↦ shutdown-Settled app app' s (rw r at e)
  | inr r ↦ subst Stopped (some-injective app app' (rw r at e)) (Settled-Stopped app s r)
]

-- The loop has ended, with the driver stopped.
abbrev LoopStopped : Option (List Message × Application) → Type 0
LoopStopped none = ⊥
LoopStopped (some r) = Stopped r.1

-- The loop ends in its first round.
stop_loop-Gives :
    (fuel : ℕ) (app : Application) → Settled app → Gives LoopStopped (stop_loop (suc fuel) app)
unfolding stop_loop
stop_loop-Gives fuel app s =
    bind-Gives LoopStopped (if is_running app then shutdown app else some app) _ (λ app' e.
      let k = round-Stopped app app' s e in
      bind-Gives LoopStopped (if is_running app' then stop_loop fuel app' else some none) _
        (λ rest f.
          if-Gives LoopStopped (is_running app') _ _
            (λ r. absurd (false≢true (sym (is_running-Stopped app' k) ∙ r))) (λ _. k)))

loop_end :
    (app : Application) (rounds : Option (List Message × Application))
    (r : List Message × Application)
    → Settled app
    → stop_loop 1 app ≡ some rounds
    → rounds ≡ some r
    → Stopped r.1
loop_end app rounds r s e f =
    subst LoopStopped f
      (Gives-elim LoopStopped (stop_loop 1 app) rounds (stop_loop-Gives 0 app s) e)

parse_deamon_state_put_message-Gives :
    (doc : Json) (app : Application)
    → Settled app
    → Gives (Kept Settled) (parse_deamon_state_put_message doc app)
unfolding parse_deamon_state_put_message
parse_deamon_state_put_message-Gives doc app s =
    bind-Gives (Kept Settled) (data_state "The Put request needs a \"data\" member" doc) _ (λ g _.
      sum-Gives (Kept Settled) g _ _ (λ _. still Settled app s)
        (λ state.
          if-Gives (Kept Settled) (str_eq state "stopped") _ _
            (λ _. bind-Gives (Kept Settled) (stop_loop 1 app) _ (λ rounds e.
              bind-Gives (Kept Settled) rounds _ (λ r f.
                bind-Gives (Kept Settled) (run_exit_handlers r.1.exit_handlers r.1) _ (λ a k.
                  let done = loop_end app rounds r s e f in
                  let stopped : Stopped a =
                    subst Stopped
                      (some-injective r.1 a
                        (sym (run_exit_handlers-Stopped r.1.exit_handlers r.1 done) ∙ k))
                      done in
                  (inl stopped, λ _. stopped)))))
            (λ _. still Settled app s)))

-- A new file changes nothing of a state.
with_file :
    (app : Application) (f : Option (List ℕ)) → Settled app → Settled (record app { conf_file = f })
with_file app f (inl s) = inl (record { idle = s.idle; exited = s.exited; settled = s.settled })
with_file app f (inr (inl (h, r))) = inr (
    inl (
      h,
      record {
        started = r.started;
        settled = r.settled;
        configured = r.configured;
        working = r.working;
      },
    ))
with_file app f (inr (inr p)) =
    inr (inr (record { idle = p.idle; started = p.started; unsettled = p.unsettled }))

-- Lines of a connection that are handled without undefined behaviour leave a stopped, running or pending
-- driver in one of these states again, and in the stopped one where they end the process: whatever the
-- parser and the system's answers. Undefined are a member that is looked for in what is no object, the
-- end of the process of a pending driver, and a stored configuration that cannot be read.
pub run_connection-Settled :
    (lib : Rapidjson) (lines : List (Environment × String)) (app : Application) (o : Outcome)
    → Settled app
    → run_connection lib lines app ≡ some o
    → Settled o.app × (o.ended ≡ true → Stopped o.app)
run_connection-Settled lib lines app o s e =
    Gives-elim (Kept Settled) (run_connection lib lines app) o
      (run_connection-Gives Settled start_driver-Gives stop_driver-Gives
        parse_deamon_state_put_message-Gives with_file lib lines app s)
      e
