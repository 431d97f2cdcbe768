-- ===== src/Cli/Acts.antt =====
-- The acts of the program: a server is started with a valid configuration only.
use pgfault.Base.{
  ℕ, if◌then◌else◌, ◌≡◌, refl, Bool, true, false, String, Option, none, some, List, [], ◌∷◌, ◌++◌,
  All, All-append, is_empty, Bytes, str_eq,
}
use pgfault.Base.Result.{Result, ok, err}
use pgfault.Base.Logged.{pure, fail, tell, continue, ◌>>=◌, ◌>>◌}
use pgfault.Scenario.{Scenario}
use pgfault.Scenario.Validate
use pgfault.Proxy.Tls.{Rustls, TlsConfig}
use pgfault.Cli.{
  TlsArgs, Command, run, replay, validate, probe, Config, Act, CliError, Outside, Output, M, served,
  made_dirs, opened, bound, executed, queried, printed, directories, file, binding, empty_command,
  running,
}
use pgfault.Cli.Start.{lift, require, make_parent, create, bind, start}
use pgfault.Cli.Main.{
  print_all, print_stream, print_rows, ground_truth, exit_line, command_line, verify_query, verify,
  execute, report,
}
use pgfault.Cli.Served.{IsConfigured}

-- A step of the program adds acts that satisfy the predicate only.
module _ {Acceptor Connector : Type 0} (P : Act Acceptor Connector → Type 0) where
  abbrev pub Adds : {A : Type 0} → M Acceptor Connector A → Type 0
  Adds m = (w : List (Act Acceptor Connector)) → All P w → All P (m w).0

  Adds-continue :
      {A B : Type 0} (p : List (Act Acceptor Connector) × Result CliError A)
      (f : A → M Acceptor Connector B)
      → All P p.0
      → ((a : A) → Adds (f a))
      → All P (continue p f).0
  Adds-continue (w, ok a) f h k = k a w h
  Adds-continue (w, err e) f h k = h

  pub Adds-bind :
      {A : Type 0} (B : Type 0) (m : M Acceptor Connector A) (f : A → M Acceptor Connector B)
      → Adds m
      → ((a : A) → Adds (f a))
      → Adds (m >>= f)
  Adds-bind B m f h k w all = Adds-continue (m w) f (h w all) k

  Adds-tell : (e : Act Acceptor Connector) → P e → Adds (tell e)
  Adds-tell e h w all = All-append P w (e ∷ []) all (h, tt)

  -- An act, and what follows it.
  pub Adds-act :
      {A : Type 0} (e : Act Acceptor Connector) (m : M Acceptor Connector A)
      → P e
      → Adds m
      → Adds (tell e >> m)
  Adds-act e m h k w all = k (w ++ e ∷ []) (Adds-tell e h w all)

  pub Adds-require : (e : CliError) (b : Bool) → Adds (require e b)
  Adds-require e true w all = all
  Adds-require e false w all = all

  Adds-if :
      {A : Type 0} (b : Bool) (x y : M Acceptor Connector A)
      → Adds x
      → Adds y
      → Adds (if b then x else y)
  Adds-if true x y h k = h
  Adds-if false x y h k = k

  pub Adds-pure : {A : Type 0} (a : A) → Adds (pure a)
  Adds-pure a w all = all

  pub Adds-fail : (A : Type 0) (e : CliError) → Adds {A = A} (fail e)
  Adds-fail A e w all = all

  pub Adds-option :
      {A B : Type 0} (x : Option A) (m : M Acceptor Connector B) (f : A → M Acceptor Connector B)
      → Adds m
      → ((a : A) → Adds (f a))
      → Adds (elim x [ none ↦ m | some a ↦ f a ])
  Adds-option none m f h k = h
  Adds-option (some a) m f h k = k a

  -- What follows a result may use that it is this result.
  pub Adds-lift :
      {E A B : Type 0} (wrap : E → CliError) (r : Result E A) (f : A → M Acceptor Connector B)
      → ((a : A) → r ≡ ok a → Adds (f a))
      → Adds (lift wrap r >>= f)
  Adds-lift wrap (ok a) f k w all = k a refl w all
  Adds-lift wrap (err e) f k w all = all

-- The arguments for TLS of a command that starts a server.
abbrev pub tls_of : Command → Option TlsArgs
tls_of (run args) = some args.tls
tls_of (replay args) = some args.tls
tls_of (probe args) = some args.tls
tls_of (validate path) = none

module _ {Cert Key Roots Acceptor Connector : Type 0}
    (lib : Rustls Cert Key Roots Acceptor Connector) (read : String → Option Bytes)
    (o : Outside) where
  -- A server's scenarios are valid, and its TLS is what the arguments ask for. A command without
  -- such arguments starts none.
  abbrev pub Serves : Option TlsArgs → Config Acceptor Connector → Type 0
  Serves none c = ⊥
  Serves (some args) c =
      All (λ s. Validate.validate o.parse_duration s ≡ ok tt) c.scenarios
      × IsConfigured lib read args c.tls

  abbrev pub IsServed : Option TlsArgs → Act Acceptor Connector → Type 0
  IsServed t (served c) = Serves t c
  IsServed t _ = Unit {0}

  make_parent-Adds :
      (t : Option TlsArgs) (parent : Option String) → Adds (IsServed t) (make_parent o parent)
  make_parent-Adds t none = Adds-pure (IsServed t) tt
  make_parent-Adds t (some parent) =
      Adds-if (IsServed t) (str_eq parent "") _ _ (λ w all. all)
        (Adds-bind (IsServed t) Unit (require (directories parent) (o.make_dirs parent)) _
          (Adds-require (IsServed t) (directories parent) (o.make_dirs parent))
          (λ u. Adds-tell (IsServed t) (made_dirs parent) tt))

  create-Adds : (t : Option TlsArgs) (path : String) → Adds (IsServed t) (create o path)
  unfolding create
  create-Adds t path =
      Adds-bind (IsServed t) Unit (make_parent o (o.parent path)) _
        (make_parent-Adds t (o.parent path))
        (λ u.
          Adds-bind (IsServed t) Unit (require (file path) (o.open_new path)) _
            (Adds-require (IsServed t) (file path) (o.open_new path))
            (λ v. Adds-tell (IsServed t) (opened path) tt))

  bind-Adds : (t : Option TlsArgs) (listen : String) → Adds (IsServed t) (bind o listen)
  unfolding bind
  bind-Adds t listen =
      Adds-option (IsServed t) (o.bind listen) _ _ (Adds-fail (IsServed t) ℕ (binding listen))
        (λ port. Adds-act (IsServed t) (bound listen) (pure port) tt (Adds-pure (IsServed t) port))

  pub start-Adds :
      (args : TlsArgs) (listen upstream : String) (ss : List Scenario) (path : String)
      (tls : TlsConfig Acceptor Connector)
      → All (λ s. Validate.validate o.parse_duration s ≡ ok tt) ss
      → IsConfigured lib read args tls
      → Adds (IsServed (some args)) (start o listen upstream ss path tls)
  unfolding start
  start-Adds args listen upstream ss path tls valid configured =
      let P = IsServed (some args) in
      let c : Config Acceptor Connector = record {
        upstream = upstream;
        scenarios = ss;
        trace = path;
        tls = tls;
      } in
      Adds-bind P ℕ (create o path) _ (create-Adds (some args) path) (λ u.
        Adds-bind P ℕ (bind o listen) _ (bind-Adds (some args) listen)
          (λ port. Adds-act P (served c) (pure port) (valid, configured) (Adds-pure P port)))

  print_all-Adds :
      (t : Option TlsArgs) (lines : List String) → Adds (IsServed t) (print_all o lines)
  unfolding print_all
  print_all-Adds t [] = Adds-pure (IsServed t) tt
  print_all-Adds t (line ∷ lines) =
      Adds-act (IsServed t) (printed line) (print_all o lines) tt (print_all-Adds t lines)

  print_rows-Adds :
      (t : Option TlsArgs) (r : Result String (List String)) → Adds (IsServed t) (print_rows o r)
  print_rows-Adds t (err text) = Adds-tell (IsServed t) _ tt
  print_rows-Adds t (ok rows) =
      Adds-if (IsServed t) (is_empty rows) _ _ (Adds-tell (IsServed t) _ tt) (print_all-Adds t rows)

  pub verify-Adds :
      (t : Option TlsArgs) (sql dsn : Option String) → Adds (IsServed t) (verify o sql dsn)
  unfolding verify
  verify-Adds t none dsn = Adds-pure (IsServed t) tt
  verify-Adds t (some sql) none = Adds-pure (IsServed t) tt
  verify-Adds t (some sql) (some dsn) =
      let rows = print_rows o (verify_query o dsn sql) in
      Adds-act (IsServed t) (printed (ground_truth sql)) (tell (queried dsn sql) >> rows) tt (
        Adds-act (IsServed t) (queried dsn sql) rows tt
          (print_rows-Adds t (verify_query o dsn sql)))

  pub execute-Adds :
      (t : Option TlsArgs) (command : List String) → Adds (IsServed t) (execute o command)
  unfolding execute
  execute-Adds t [] = Adds-fail (IsServed t) Output empty_command
  execute-Adds t (program ∷ args) =
      Adds-option (IsServed t) (o.execute program args) _ _
        (Adds-fail (IsServed t) Output (running program))
        (λ output.
          Adds-act (IsServed t) (executed (program ∷ args)) (pure output) tt
            (Adds-pure (IsServed t) output))

  print_stream-Adds :
      (t : Option TlsArgs) (name : String) (bytes : Bytes)
      → Adds (IsServed t) (print_stream o name bytes)
  print_stream-Adds t name bytes =
      Adds-if (IsServed t) (is_empty bytes) _ _ (Adds-pure (IsServed t) tt)
        (Adds-tell (IsServed t) _ tt)

  pub report-Adds :
      (t : Option TlsArgs) (command : List String) (output : Output)
      → Adds (IsServed t) (report o command output)
  unfolding report
  report-Adds t command output =
      let err_ = print_stream o "stderr" output.stderr in
      let streams = print_stream o "stdout" output.stdout >> err_ in
      let code = printed (exit_line output) in
      Adds-act (IsServed t) (printed (command_line command)) (tell code >> streams) tt (
        Adds-act (IsServed t) code streams tt (
          Adds-bind (IsServed t) Unit (print_stream o "stdout" output.stdout) _
            (print_stream-Adds t "stdout" output.stdout)
            (λ u. print_stream-Adds t "stderr" output.stderr)))
