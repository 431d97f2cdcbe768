-- ===== src/Cli/Start.antt =====
-- `Recorder::create` of crates/pgfault-trace/src/lib.rs, the listener, and the server that these
-- start.
use pgfault.Base.{ℕ, if◌then◌else◌, Bool, true, false, String, Option, none, some, List, str_eq}
use pgfault.Base.Result.{Result, ok, err}
use pgfault.Base.Logged.{Logged, pure, fail, tell, ◌>>=◌, ◌>>◌}
use pgfault.Scenario.{Scenario}
use pgfault.Proxy.Tls.{TlsConfig}
use pgfault.Cli.{
  Act, CliError, Outside, M, made_dirs, opened, bound, served, directories, file, binding,
}

-- A result of the libraries, as a step of the program.
abbrev pub lift {ℓ} :
    {E : Type 0} {A : Type ℓ} {Acceptor Connector : Type 0}
    → (E → CliError)
    → Result E A
    → Logged (Act Acceptor Connector) CliError A
lift wrap (ok a) = pure a
lift wrap (err e) = fail (wrap e)

-- `if !b { bail!(e) }`
abbrev pub require :
    {Acceptor Connector : Type 0} → CliError → Bool → M Acceptor Connector (Unit {0})
require e true = pure tt
require e false = fail e

module _ {Acceptor Connector : Type 0} (o : Outside) where
  abbrev pub make_parent : Option String → M Acceptor Connector (Unit {0})
  make_parent none = pure tt
  make_parent (some parent) =
      if str_eq parent ""
      then pure tt
      else (do require (directories parent) (o.make_dirs parent); tell (made_dirs parent))

  -- `Recorder::create`
  unfoldable pub create : String → M Acceptor Connector (Unit {0})
  create path = do
    make_parent (o.parent path)
    require (file path) (o.open_new path)
    tell (opened path)

  -- `bind`, with the port that it comes to.
  unfoldable pub bind : String → M Acceptor Connector ℕ
  bind listen = elim (o.bind listen) [
    | none ↦ fail (binding listen)
    | some port ↦ (do tell (bound listen); pure port)
  ]

  -- The trace, the listener and the server, in this order.
  unfoldable pub start :
      String
      → String
      → List Scenario
      → String
      → TlsConfig Acceptor Connector
      → M Acceptor Connector ℕ
  unfolding create bind
  start listen upstream scenarios path tls = do
    create path
    port ← bind listen
    tell (served (record { upstream = upstream; scenarios = scenarios; trace = path; tls = tls }))
    pure port
