-- ===== src/Cli/Served.antt =====
-- The servers that the program starts: what their configuration has come through.
use pgfault.Base.{
  ◌≡◌, ap, subst, ◌∙◌, Bool, true, false, ◌&&◌, String, Option, none, some, List, [], ◌∷◌, All,
  arith,
}
use pgfault.Base.Result.{ok, >>=-eq-ok}
use pgfault.Base.{Bytes}
use pgfault.Scenario.{Scenario}
use pgfault.Scenario.Validate.{is_some, validate}
use pgfault.Scenario.Load.{load, load-validate}
use pgfault.Proxy.Tls.{
  Rustls, TlsConfig, no_verify, trusting, frontend_acceptor, with_ca, upstream_connector,
}
use pgfault.Cli.{TlsArgs, Outside}
use pgfault.Cli.Setup.{into_config, frontend_config, upstream_config, load_all}

-- TLS to the server, exactly if it is wanted, and with its certificate judged unless that is not
-- wanted.
abbrev pub Judged :
    {Cert Key Roots Acceptor Connector : Type 0}
    → Rustls Cert Key Roots Acceptor Connector
    → Bool
    → Bool
    → Option Connector
    → Type 0
Judged lib false insecure none = Unit {0}
Judged lib false insecure (some k) = ⊥
Judged lib true insecure none = ⊥
Judged lib true true (some k) = k ≡ lib.client_config no_verify
Judged {Roots = Roots} lib true false (some k) = (r : Roots) × (k ≡ lib.client_config (trusting r))

module _ {Cert Key Roots Acceptor Connector : Type 0}
    (lib : Rustls Cert Key Roots Acceptor Connector) (read : String → Option Bytes) where
  -- TLS to clients, exactly if there are a certificate and a key, and to the server as it is wanted.
  pub record IsConfigured (args : TlsArgs) (c : TlsConfig Acceptor Connector) : Type 0 where
    pub to_clients : is_some c.frontend ≡ (is_some args.tls_cert && is_some args.tls_key)
    pub to_server : Judged lib args.upstream_tls args.upstream_tls_insecure c.upstream

  upstream_connector-Judged :
      (insecure : Bool) (ca : Option String) (k : Connector)
      → upstream_connector lib read insecure ca ≡ ok k
      → Judged lib true insecure (some k)
  unfolding upstream_connector
  upstream_connector-Judged true ca k h = cc
  upstream_connector-Judged false ca k h =
      let (roots, e, done) = >>=-eq-ok (with_ca lib read ca) _ h in (roots, cc)

  frontend_config-some :
      (cert key : Option String) (f : Option Acceptor)
      → frontend_config lib read cert key ≡ ok f
      → is_some f ≡ (is_some cert && is_some key)
  frontend_config-some none key f h = ground arith
  frontend_config-some (some cert) none f h = ground arith
  frontend_config-some (some cert) (some key) f h =
      let (acceptor, e, done) = >>=-eq-ok (frontend_acceptor lib read cert key) _ h in ground arith

  upstream_config-Judged :
      (wanted insecure : Bool) (ca : Option String) (u : Option Connector)
      → upstream_config lib read wanted insecure ca ≡ ok u
      → Judged lib wanted insecure u
  upstream_config-Judged false insecure ca none h = tt
  upstream_config-Judged false insecure ca (some k) h = let bad : ⊥ = cc in bad
  upstream_config-Judged true insecure ca none h =
      let (k, e, done) = >>=-eq-ok (upstream_connector lib read insecure ca) _ h in
      let bad : ⊥ = cc in bad
  upstream_config-Judged true insecure ca (some k) h =
      let (k1, e, done) = >>=-eq-ok (upstream_connector lib read insecure ca) _ h in
      let same : k1 ≡ k = cc in upstream_connector-Judged insecure ca k (e ∙ ap ok same)

  pub into_config-IsConfigured :
      (args : TlsArgs) (c : TlsConfig Acceptor Connector)
      → into_config lib read args ≡ ok c
      → IsConfigured args c
  unfolding into_config
  into_config-IsConfigured args c h =
      let (frontend, e, rest) =
        >>=-eq-ok (frontend_config lib read args.tls_cert args.tls_key) _ h in
      let (upstream, e', done) =
        >>=-eq-ok
          (upstream_config lib read args.upstream_tls args.upstream_tls_insecure args.upstream_ca) _
          rest in
      let same : record { frontend = frontend; upstream = upstream } ≡ c = cc in
      subst (IsConfigured args) same (record {
        to_clients = frontend_config-some args.tls_cert args.tls_key frontend e;
        to_server =
            upstream_config-Judged args.upstream_tls args.upstream_tls_insecure args.upstream_ca
              upstream e';
      })

pub load_all-validate :
    (o : Outside) (paths : List String) (ss : List Scenario)
    → load_all o paths ≡ ok ss
    → All (λ s. validate o.parse_duration s ≡ ok tt) ss
unfolding load_all
load_all-validate o [] [] h = tt
load_all-validate o [] (s ∷ ss) h = let bad : ⊥ = cc in elim bad [ ]
load_all-validate o (path ∷ paths) ss h =
    let (s, e, rest) = >>=-eq-ok (load o.parse_duration o.read_to_string o.from_yaml path) _ h in
    let (more, e', done) = >>=-eq-ok (load_all o paths) _ rest in
    let same : s ∷ more ≡ ss = cc in
    subst (All (λ s. validate o.parse_duration s ≡ ok tt)) same (
      load-validate o.parse_duration o.read_to_string o.from_yaml path s e,
      load_all-validate o paths more e',
    )
