-- ===== src/Server.antt =====
-- What `net/http` gives a handler and what the middlewares of internal/api/middlewares and of
-- internal/metrics/metrics.go make of it; the chain is that of cmd/api/server.go.
pub mod Layers
pub mod Sanitizing
pub mod Chain
pub mod Twice
pub mod Closed
pub mod Labels
mod Tests
use student_system_go.Common.{
  ℕ, String, Bool, true, false, ◌||◌, not, Option, none, some, List, [], ◌∷◌, ◌++◌, ◌==◌,
  if◌then◌else◌,
}
use student_system_go.Common.Text.{◌<>◌}
use student_system_go.Query.{Params}
use student_system_go.Limiter.{Counters}

-- A call of a method of `http.ResponseWriter`.
pub data Action : Type 0 where
  set_header : String → String → Action
  write_header : ℕ → Action
  write : String → Action

-- `http.Error`
abbrev pub http_error : ℕ → String → List Action
http_error status message =
    set_header "Content-Type" "text/plain; charset=utf-8"
    ∷ set_header "X-Content-Type-Options" "nosniff"
    ∷ write_header status
    ∷ write (message <> "\n")
    ∷ []

-- The writer of a response: the headers, the newest first, the status with the headers as they were when
-- it was sent, and what was written after it.
pub record Writer : Type 0 where
  pub headers : List (String × String)
  pub start : Option (ℕ × List (String × String))
  pub body : String

abbrev pub fresh_writer : Writer
fresh_writer = record { headers = []; start = none; body = "" }

-- A status is sent once; a later one is superfluous.
abbrev pub starts : ℕ → Option (ℕ × List (String × String)) → Writer → Writer
starts status none w = record w { start = some (status, w.headers) }
starts status (some s) w = w

-- A response with the status 204 or 304 has no body.
abbrev pub appends : String → Option (ℕ × List (String × String)) → Writer → Writer
appends bytes none w = w
appends bytes (some (status, headers)) w =
    if (status == 204) || (status == 304) then w else record w { body = w.body <> bytes }

abbrev pub perform : Action → Writer → Writer
perform (set_header k v) w = record w { headers = (k, v) ∷ w.headers }
perform (write_header status) w = starts status w.start w
perform (write bytes) w = let v = starts 200 w.start w in appends bytes v.start v

unfoldable pub perform_all : List Action → Writer → Writer
perform_all [] w = w
perform_all (a ∷ acts) w = perform_all acts (perform a w)

-- A request, of which the middlewares change the URL, the body, the form, the context and the pattern
-- of the route. `none` as a body is one that cannot be read; `claims` are those that the JWT check has put
-- into the context; `times` is when the limiter of a name asks for the time.
pub record Request (C : Type 0) : Type 0 where
  pub method : String
  pub path : String
  pub query : Params
  pub origin : String
  pub accept_encoding : String
  pub content_type : String
  pub forwarded_for : String
  pub real_ip : String
  pub remote_addr : String
  pub cookie : Option String
  pub body : Option String
  pub form : Params
  pub claims : Option C
  pub pattern : String
  pub times : String → ℕ × ℕ

-- What a handler has done to the response, how it left the request, and whether it panicked.
pub record Ran (C : Type 0) : Type 0 where
  pub actions : List Action
  pub left : Request C
  pub panicked : Bool

-- The labels of a request in the metrics: the method, the path and the status.
abbrev pub Labels : Type 0
Labels = String × String × ℕ

-- What is shared by the requests: the counters of the limiters, the metrics, and the state of the routes.
pub record Site (redis : Counters) (S : Type 0) : Type 0 where
  pub counters : redis.S
  pub recorded : List Labels
  pub app : S

-- `http.Handler`
abbrev pub Served : (C W : Type 0) → Type 0
Served C W = Request C → W → Ran C × W

abbrev pub answers : {C : Type 0} → Request C → List Action → Ran C
answers r acts = record { actions = acts; left = r; panicked = false }

module _ {C W : Type 0} where
  abbrev pub before : List Action → Ran C × W → Ran C × W
  before acts (n, w) = (record n { actions = acts ++ n.actions }, w)

  -- `ApplyMiddlewares` of pkg/utils/middlewaresutils.go: the last one is the outermost.
  unfoldable pub apply_middlewares : Served C W → List (Served C W → Served C W) → Served C W
  apply_middlewares handler [] = handler
  apply_middlewares handler (middleware ∷ middlewares) =
      apply_middlewares (middleware handler) middlewares
