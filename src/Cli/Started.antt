-- ===== src/Cli/Started.antt =====
-- `main`: the servers that it starts have valid scenarios, and the TLS that is asked for.
use pgfault.Base.{
  ℕ, ◌≡◌, String, Option, none, some, Option-cases, inl, inr, arith, List, [], map, All, Bytes,
}
use pgfault.Base.Result.{ok}
use pgfault.Base.Logged.{pure, ◌>>◌}
use Prim.Native.String.{◌++◌}
use pgfault.Scenario.{Scenario}
use pgfault.Scenario.Validate
use pgfault.Scenario.Load.{load}
use pgfault.Trace
use pgfault.Trace.Replay.{replay_lem}
use pgfault.Proxy.Tls.{Rustls}
use pgfault.Cli.{
  TlsArgs, Command, run, replay, validate, probe, ProbeArgs, Outside, stopped, printed, loading,
  setting_up, serving,
}
use pgfault.Cli.Text.{substitute}
use pgfault.Cli.Setup.{into_config, load_all}
use pgfault.Cli.Start.{require, start}
use pgfault.Cli.Main.{
  execute, report, verify, probed, trace_path, exit_code, run_probe, run_server, replayed, main,
}
use pgfault.Cli.Served.{load_all-validate, into_config-IsConfigured}
use pgfault.Cli.Acts.{
  Adds, Adds-bind, Adds-act, Adds-require, Adds-pure, Adds-lift, IsServed, tls_of, start-Adds,
  verify-Adds, execute-Adds, report-Adds,
}

module _ {Cert Key Roots Acceptor Connector : Type 0}
    (lib : Rustls Cert Key Roots Acceptor Connector) (read : String → Option Bytes)
    (o : Outside) where
  abbrev AllValid : List Scenario → Type 0
  AllValid ss = All (λ s. Validate.validate o.parse_duration s ≡ ok tt) ss

  run_server-Adds :
      (listen upstream : String) (ss : List Scenario) (trace : Option String) (args : TlsArgs)
      → AllValid ss
      → Adds (IsServed lib read o (some args)) (run_server lib read o listen upstream ss trace args)
  unfolding run_server
  run_server-Adds listen upstream ss trace args valid =
      let P = IsServed lib read o (some args) in
      let path = trace_path o trace in
      Adds-lift P setting_up (into_config lib read args) _ (λ tls e.
        Adds-bind P (Option ℕ) (start o listen upstream ss path tls) _
          (start-Adds lib read o args listen upstream ss path tls valid
            (into_config-IsConfigured lib read args tls e))
          (λ port.
            Adds-bind P (Option ℕ) (require serving o.serves) _ (Adds-require P serving o.serves)
              (λ u. Adds-pure P {A = Option ℕ} none)))

  -- What a probe does behind the start of its server.
  probed-Adds :
      (args : ProbeArgs) (command : List String)
      → Adds (IsServed lib read o (some args.tls)) (probed o args command)
  unfolding probed
  probed-Adds args command =
      let P = IsServed lib read o (some args.tls) in
      Adds-bind P ℕ (execute o command) _ (execute-Adds lib read o (some args.tls) command)
        (λ output.
          let shown =
            report o command output
            >> (verify o args.verify_sql args.verify_dsn >> pure (exit_code output.code)) in
          Adds-act P stopped (require serving o.serves >> shown) tt (
            Adds-bind P ℕ (require serving o.serves) _ (Adds-require P serving o.serves) (λ u.
              Adds-bind P ℕ (report o command output) _
                (report-Adds lib read o (some args.tls) command output)
                (λ v.
                  Adds-bind P ℕ (verify o args.verify_sql args.verify_dsn) _
                    (verify-Adds lib read o (some args.tls) args.verify_sql args.verify_dsn)
                    (λ x. Adds-pure P (exit_code output.code))))))

  run_probe-Adds :
      (args : ProbeArgs) → Adds (IsServed lib read o (some args.tls)) (run_probe lib read o args)
  unfolding run_probe
  run_probe-Adds args =
      let P = IsServed lib read o (some args.tls) in
      let path = trace_path o args.trace in
      Adds-lift P loading (load_all o args.scenario) _ (λ ss e.
        Adds-lift P setting_up (into_config lib read args.tls) _ (λ tls e'.
          Adds-bind P ℕ (start o args.listen args.upstream ss path tls) _
            (start-Adds lib read o args.tls args.listen args.upstream ss path tls
              (load_all-validate o args.scenario ss e)
              (into_config-IsConfigured lib read args.tls tls e'))
            (λ port. probed-Adds args (map (substitute port) args.command))))

  replayed-AllValid : (path : String) (ss : List Scenario) → replayed o path ≡ ok ss → AllValid ss
  unfolding replayed
  replayed-AllValid path ss h = elim (Option-cases (o.read_lines path)) [
    | inl missing ↦ let bad : ⊥ = cc in elim bad [ ]
    | inr (lines, found) ↦
        let e : Trace.replay o.parse_duration o.from_json o.to_json lines ≡ ok ss = ground arith in
        (replay_lem o.parse_duration o.from_json o.to_json lines ss e).1
  ]

  -- Whatever the command, the machine and the libraries are, every server that the program
  -- starts has valid scenarios only, has TLS for its clients exactly if a certificate and a key
  -- are given, has TLS to the server exactly if it is wanted, and judges the server's
  -- certificate unless the arguments waive it. A `validate` starts no server.
  pub main-IsServed :
      (command : Command)
      → All (IsServed lib read o (tls_of command)) (main lib read o command []).0
  unfolding main
  main-IsServed (validate path) =
      let P = IsServed lib read o none in
      Adds-lift P loading (load o.parse_duration o.read_to_string o.from_yaml path) _
        (λ s e.
          Adds-act P {A = Option ℕ} (printed ("valid: " ++ s.name)) (pure none) tt
            (Adds-pure P {A = Option ℕ} none))
        [] tt
  main-IsServed (probe args) =
      let P = IsServed lib read o (some args.tls) in
      Adds-bind P (Option ℕ) (run_probe lib read o args) _ (run_probe-Adds args)
        (λ code. Adds-pure P (some code)) [] tt
  main-IsServed (run args) =
      let P = IsServed lib read o (some args.tls) in
      Adds-lift P loading (load_all o args.scenario) _
        (λ ss e.
          run_server-Adds args.listen args.upstream ss args.trace args.tls
            (load_all-validate o args.scenario ss e))
        [] tt
  main-IsServed (replay args) =
      let P = IsServed lib read o (some args.tls) in
      Adds-lift P (λ e. e) (replayed o args.trace) _
        (λ ss e.
          run_server-Adds args.listen args.upstream ss args.output_trace args.tls
            (replayed-AllValid args.trace ss e))
        [] tt
