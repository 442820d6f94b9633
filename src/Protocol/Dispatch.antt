-- ===== src/Protocol/Dispatch.antt =====
-- What every message and every connection keeps of the driver, where the handlers that start and stop it
-- keep it.
use text.Mathlib.Text.{◌==◌ as str_eq}
use Prim.Native.String.{String}
use mathlib.Core.Bool.{false≢true}
use treiber.Base.{ℕ, ◌≡◌, true, false, Option, some, List, [], ◌∷◌, not, ◌||◌}
use treiber.AppConfig.{read, write}
use treiber.Driver.{Environment, Application}
use treiber.Driver.Phases.{Stopped}
use treiber.Protocol.{
  Outcome, data_state, start_driver, stop_driver, parse_driver_state_put_message,
  parse_deamon_state_put_message, parse_connection_state_put_message, parse_config_put_message,
  parse_put_message, parse_get_message, parse_document, parse_message, run_connection,
  change_config,
}
use treiber.Protocol.Gives.{
  Gives, bind-Gives, if-Gives, sum-Gives, found-Gives, option-Gives, Gives-elim,
}
use treiber.Protocol.Document.{Json, Rapidjson, as_object, as_string, member_of}

-- The driver is left as `Inv` says, and stopped where the process ends.
abbrev pub Kept : (Application → Type 0) → Outcome → Type 0
Kept Inv o = Inv o.app × (o.ended ≡ true → Stopped o.app)

-- The process goes on.
pub still :
    (Inv : Application → Type 0) (app : Application)
    → Inv app
    → Inv app × (false ≡ true → Stopped app)
still Inv app s = (s, λ e. absurd (false≢true e))

module _ (Inv : Application → Type 0)
    (starts : (env : Environment) (app : Application)
      → Inv app
      → Gives (Kept Inv) (start_driver env app))
    (stops : (app : Application) → Inv app → Gives (Kept Inv) (stop_driver app))
    (ends : (doc : Json) (app : Application)
      → Inv app
      → Gives (Kept Inv) (parse_deamon_state_put_message doc app))
    (files : (app : Application) (f : Option (List ℕ))
      → Inv app
      → Inv (record app { conf_file = f })) where
  parse_driver_state_put_message-Gives :
      (env : Environment) (doc : Json) (app : Application)
      → Inv app
      → Gives (Kept Inv) (parse_driver_state_put_message env doc app)
  unfolding parse_driver_state_put_message
  parse_driver_state_put_message-Gives env doc app s =
      bind-Gives (Kept Inv) (data_state "The Put request needs a \"type\" member" doc) _ (λ g _.
        sum-Gives (Kept Inv) g _ _ (λ _. still Inv app s)
          (λ state.
            if-Gives (Kept Inv) (str_eq state "running") _ _ (λ _. starts env app s)
              (λ _.
                if-Gives (Kept Inv) (str_eq state "stopped") _ _ (λ _. stops app s)
                  (λ _. still Inv app s))))

  parse_connection_state_put_message-Gives :
      (doc : Json) (app : Application)
      → Inv app
      → Gives (Kept Inv) (parse_connection_state_put_message doc app)
  unfolding parse_connection_state_put_message
  parse_connection_state_put_message-Gives doc app s =
      bind-Gives (Kept Inv) (data_state "The Put request needs a \"data\" member" doc) _ (λ g _.
        sum-Gives (Kept Inv) g _ _ (λ _. still Inv app s)
          (λ state.
            if-Gives (Kept Inv) (str_eq state "closed") _ _ (λ _. still Inv app s)
              (λ _. still Inv app s)))

  parse_config_put_message-Gives :
      (lib : Rapidjson) (doc : Json) (app : Application)
      → Inv app
      → Gives (Kept Inv) (parse_config_put_message lib doc app)
  unfolding parse_config_put_message
  parse_config_put_message-Gives lib doc app s =
      bind-Gives (Kept Inv) (member_of as_object "data" doc) _ (λ g _.
        found-Gives (Kept Inv) g _ _ _ (still Inv app s) (still Inv app s) (λ ms.
          bind-Gives (Kept Inv) app.conf_file _ (λ file _.
            bind-Gives (Kept Inv) (read file) _ (λ c _.
              bind-Gives (Kept Inv) (change_config lib doc c.0) _
                (λ c' _. still Inv _ (files app (some (write c')) s))))))

  parse_put_message-Gives :
      (lib : Rapidjson) (env : Environment) (doc : Json) (app : Application)
      → Inv app
      → Gives (Kept Inv) (parse_put_message lib env doc app)
  unfolding parse_put_message
  parse_put_message-Gives lib env doc app s =
      bind-Gives (Kept Inv) (member_of as_string "on" doc) _ (λ g _.
        found-Gives (Kept Inv) g _ _ _ (still Inv app s) (still Inv app s) (λ on.
          if-Gives (Kept Inv) (str_eq on "driver.state") _ _
            (λ _. parse_driver_state_put_message-Gives env doc app s)
            (λ _.
              if-Gives (Kept Inv) (str_eq on "deamon.state") _ _ (λ _. ends doc app s)
                (λ _.
                  if-Gives (Kept Inv) (str_eq on "connection.state") _ _
                    (λ _. parse_connection_state_put_message-Gives doc app s)
                    (λ _.
                      if-Gives (Kept Inv) (str_eq on "config") _ _
                        (λ _. parse_config_put_message-Gives lib doc app s)
                        (λ _. still Inv app s))))))

  parse_get_message-Gives :
      (doc : Json) (app : Application) → Inv app → Gives (Kept Inv) (parse_get_message doc app)
  unfolding parse_get_message
  parse_get_message-Gives doc app s = bind-Gives (Kept Inv) (member_of as_string "on" doc) _ (λ g _.
      found-Gives (Kept Inv) g _ _ _ (still Inv app s) (still Inv app s) (λ on.
        if-Gives (Kept Inv) (str_eq on "adapter.names") _ _ (λ _. still Inv app s)
          (λ _. still Inv app s)))

  parse_document-Gives :
      (lib : Rapidjson) (env : Environment) (doc : Json) (app : Application)
      → Inv app
      → Gives (Kept Inv) (parse_document lib env doc app)
  unfolding parse_document
  parse_document-Gives lib env doc app s =
      bind-Gives (Kept Inv) (member_of as_string "type" doc) _ (λ g _.
        found-Gives (Kept Inv) g _ _ _ (still Inv app s) (still Inv app s) (λ type.
          if-Gives (Kept Inv) (str_eq type "Get") _ _ (λ _. parse_get_message-Gives doc app s)
            (λ _.
              if-Gives (Kept Inv) (str_eq type "Put") _ _
                (λ _. parse_put_message-Gives lib env doc app s)
                (λ _.
                  if-Gives (Kept Inv) (str_eq type "Delete") _ _ (λ _. still Inv app s)
                    (λ _. still Inv app s)))))

  parse_message-Gives :
      (lib : Rapidjson) (env : Environment) (line : String) (app : Application)
      → Inv app
      → Gives (Kept Inv) (parse_message lib env line app)
  unfolding parse_message
  parse_message-Gives lib env line app s =
      option-Gives (Kept Inv) (lib.parse line) _ _ (still Inv app s)
        (λ doc. parse_document-Gives lib env doc app s)

  pub run_connection-Gives :
      (lib : Rapidjson) (lines : List (Environment × String)) (app : Application)
      → Inv app
      → Gives (Kept Inv) (run_connection lib lines app)
  unfolding run_connection
  run_connection-Gives lib [] app s = still Inv app s
  run_connection-Gives lib (l ∷ lines) app s =
      if-Gives (Kept Inv) (str_eq l.1 "") _ _ (λ _. still Inv app s)
        (λ _. bind-Gives (Kept Inv) (parse_message lib l.0 l.1 app) _ (λ o e.
          let k =
            Gives-elim (Kept Inv) (parse_message lib l.0 l.1 app) o
              (parse_message-Gives lib l.0 l.1 app s) e in
          if-Gives (Kept Inv) (o.ended || not o.running) _ _ (λ _. k)
            (λ _. bind-Gives (Kept Inv) (run_connection lib lines o.app) _ (λ rest f.
              Gives-elim (Kept Inv) (run_connection lib lines o.app) rest
                (run_connection-Gives lib lines o.app k.0) f))))
