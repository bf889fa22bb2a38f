-- ===== src/Database.antt =====
-- src/database/database.module.ts: the options of the connection, and what is logged of its events.
use nestjs_jwt.Prelude.{ℕ, ◌≡◌, refl, ap₂, String, Option, none, some, List, [], ◌∷◌, ◌++◌, map}
use nestjs_jwt.Common.Json.{Json, str, Fields, get}
use nestjs_jwt.Config.Namespaces.{DatabaseConfig}
use nestjs_jwt.Logger.{AppLogger, set_context, log, warn, error, Printed, call, payload}

pub record MongooseOptions : Type 0 where
  pub uri : Option String
  pub server_selection_timeout_ms : ℕ

unfoldable pub mongoose_options : DatabaseConfig → MongooseOptions
mongoose_options config = record { uri = config.uri; server_selection_timeout_ms = 10000 }

-- What `connection.on` listens to; an error has a stack or none.
pub data ConnectionEvent : Type 0 where
  connected disconnected reconnected : ConnectionEvent
  failed : (stack : Option String) → ConnectionEvent

-- `connectionFactory`: what the listener of an event prints.
unfoldable pub on : AppLogger → String → ConnectionEvent → Printed
on l now connected = call l now (log (str "MongoDB connection established") none)
on l now disconnected = call l now (warn (str "MongoDB connection lost") none)
on l now reconnected = call l now (log (str "MongoDB reconnected") none)
on l now (failed stack) = call l now (error (str "MongoDB connection error") stack none)

-- The events of a connection with their times, with the logger that the factory is given.
unfoldable pub watch : AppLogger → List (String × ConnectionEvent) → List Fields
watch l [] = []
watch l ((now, e) ∷ es) = (on (set_context "DatabaseModule" l) now e).out ++ watch l es

abbrev level_of : ConnectionEvent → String
level_of connected = "LOG"
level_of disconnected = "WARN"
level_of reconnected = "LOG"
level_of (failed stack) = "ERROR"

-- The time, the level and the context of a printed object.
abbrev stamp : Fields → Option Json × Option Json × Option Json
stamp p = (get "timestamp" p, get "level" p, get "context" p)

-- Every event of the connection is logged once and in order, with its time and level, under the context of
-- the module.
pub watch-stamp :
    (l : AppLogger) (es : List (String × ConnectionEvent))
    → map stamp (watch l es)
      ≡ map (λ (now, e). (some (str now), some (str (level_of e)), some (str "DatabaseModule"))) es
unfolding watch on call payload get set_context
watch-stamp l [] = refl
watch-stamp l ((now, connected) ∷ es) = ap₂ ◌∷◌ refl (watch-stamp l es)
watch-stamp l ((now, disconnected) ∷ es) = ap₂ ◌∷◌ refl (watch-stamp l es)
watch-stamp l ((now, reconnected) ∷ es) = ap₂ ◌∷◌ refl (watch-stamp l es)
watch-stamp l ((now, failed stack) ∷ es) = ap₂ ◌∷◌ refl (watch-stamp l es)
