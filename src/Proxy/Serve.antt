-- ===== src/Proxy/Serve.antt =====
-- `serve`: the accept loop, and the task of a connection, which is known by its number.
use pgfault.Base.{ℕ, if◌then◌else◌, ◌==◌, String, Option, none, List, [], ◌∷◌, ◌++◌, Bytes}
use pgfault.Base.Result.{Result, ok, err}
use pgfault.Base.Word.{u64_succ}
use pgfault.Trace.{lifecycle}
use pgfault.Proxy.Effects.{Effect, ProxyError, recorded}
use pgfault.Proxy.Relay.{Input}
use pgfault.Proxy.Connect.{World, Connected, relayed, connection}

pub data Happening : Type 0 where
  accepted : Happening
  accept_failed : Happening
  finished : ℕ → Happening
  panicked : ℕ → Happening
  shutdown : Happening

-- `stopped`: `serve` returned, and all tasks were aborted. `failed`: it returned an error.
pub data Server : Type 0 where
  serving : ℕ → List ℕ → Server
  stopped : Server
  failed : Server

unfoldable pub without : ℕ → List ℕ → List ℕ
without id [] = []
without id (t ∷ ts) = if t == id then ts else t ∷ without id ts

unfoldable pub step : Happening → Server → Server
unfolding without
step accepted (serving n tasks) = serving (u64_succ n) (tasks ++ u64_succ n ∷ [])
step accept_failed (serving n tasks) = failed
step (finished id) (serving n tasks) = serving n (without id tasks)
step (panicked id) (serving n tasks) = failed
step shutdown (serving n tasks) = stopped
step _ stopped = stopped
step _ failed = failed

-- The loop, over what happens.
abbrev pub steps : List Happening → Server → Server
steps [] s = s
steps (h ∷ hs) s = steps hs (step h s)

unfoldable pub serve : List Happening → Server
unfolding step
serve hs = steps hs (serving 0 [])

-- What a task records when its connection is over. `error_text` is how an error is printed.
abbrev pub closed : (ProxyError → String) → ℕ → Result ProxyError Connected → List Effect
closed error_text id (err e) = recorded (lifecycle id "connection.closed" (error_text e)) ∷ []
closed error_text id (ok Connected.cancelled) = recorded (lifecycle id "connection.closed" "") ∷ []
closed error_text id (ok (relayed none)) = recorded (lifecycle id "connection.closed" "") ∷ []
closed error_text id (ok _) = []

-- The effects of a task so far.
unfoldable pub task :
    (Bytes → String)
    → (String → Option ℕ)
    → (ProxyError → String)
    → ℕ
    → World
    → List (Result ProxyError Bytes)
    → List Input
    → List Effect
task digest parse_duration error_text id e packets inputs =
    let (w, r) = connection digest parse_duration id e packets inputs [] in
    w ++ closed error_text id r
