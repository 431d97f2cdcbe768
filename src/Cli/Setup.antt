-- ===== src/Cli/Setup.antt =====
-- `TlsArgs::into_config`, and the loading of scenarios.
use pgfault.Base.{if◌then◌else◌, Bool, String, Option, none, some, List, [], ◌∷◌, Bytes}
use pgfault.Base.Result.{Result, ok, ◌>>=◌}
use pgfault.Scenario.{Scenario}
use pgfault.Scenario.Load.{LoadError, load}
use pgfault.Proxy.Tls.{Rustls, TlsConfig, TlsError, frontend_acceptor, upstream_connector}
use pgfault.Cli.{TlsArgs, Outside}

module _ {Cert Key Roots Acceptor Connector : Type 0}
    (lib : Rustls Cert Key Roots Acceptor Connector) (read : String → Option Bytes) where
  abbrev pub frontend_config : Option String → Option String → Result TlsError (Option Acceptor)
  frontend_config (some cert) (some key) = do
    acceptor ← frontend_acceptor lib read cert key
    ok (some acceptor)
  frontend_config (some cert) none = ok none
  frontend_config none key = ok none

  -- `then` and `transpose`
  abbrev pub upstream_config : Bool → Bool → Option String → Result TlsError (Option Connector)
  upstream_config upstream_tls insecure ca =
      if upstream_tls
      then (do connector ← upstream_connector lib read insecure ca; ok (some connector))
      else ok none

  unfoldable pub into_config : TlsArgs → Result TlsError (TlsConfig Acceptor Connector)
  into_config args = do
    frontend ← frontend_config args.tls_cert args.tls_key
    upstream ← upstream_config args.upstream_tls args.upstream_tls_insecure args.upstream_ca
    ok (record { frontend = frontend; upstream = upstream })

-- `iter().map(Scenario::load).collect()`
unfoldable pub load_all : Outside → List String → Result LoadError (List Scenario)
unfolding load
load_all o [] = ok []
load_all o (path ∷ paths) = do
  s ← load o.parse_duration o.read_to_string o.from_yaml path
  ss ← load_all o paths
  ok (s ∷ ss)
