-- ===== src/Proxy/Replayed.antt =====
-- The trace of a run under valid scenarios, replayed.
use pgfault.Base.{
  ℕ, ◌==◌, ◌≡◌, refl, sym, ap, ◌∙◌, ◌||◌, String, Option, none, some, List, [], ◌∷◌, ◌++◌,
  append-nil, append_assoc, map, Bytes, nat_eq, string_eq, bytes_eq_instance,
}
use pgfault.Wire.{Frame, tag}
use pgfault.State.{forwarded}
use pgfault.State.Frontend.{frontend}
use pgfault.State.Backend.{backend, completion_boundary}
use pgfault.Scenario.{Side}
use pgfault.Trace.{Record, fault, semantic, lifecycle, record_line}
use pgfault.Trace.Returns.{faults_in}
use pgfault.Proxy.Effects.{
  Effect, to_client, to_upstream, recorded, slept, reset, shut_down, connected,
}
use pgfault.Proxy.Apply.{Disposition}
use pgfault.Proxy.Relay.{
  Connection, Input, client, server, client_closed, server_closed, client_broken, server_broken,
  on_client, on_server, on_input, run, forward, after_forward, gates, faults,
}
use pgfault.Proxy.Outcome.{Leaves, Leaves-continue, Leaves-if}
use pgfault.Proxy.Faults.{faults_of}
use pgfault.Proxy.Transparent.{rest_of}
use pgfault.Proxy.Pinnable.{
  Pinnable, Ready, Going, Pinnable-concat, apply-Going, deliver-Going, Going-if,
}

-- The trace file, behind the records.
abbrev pub written : (Record → String) → List Record → List String → List String
written show [] file = file
written show (r ∷ rs) file = written show rs (record_line show r file)

-- The records of effects, in order.
abbrev pub record_of : Effect → List Record
record_of (recorded r) = r ∷ []
record_of _ = []

abbrev pub records_of : List Effect → List Record
records_of [] = []
records_of (e ∷ w) = record_of e ++ records_of w

pub written-map :
    (show : Record → String) (rs : List Record) (file : List String)
    → written show rs file ≡ file ++ map show rs
unfolding record_line
written-map show [] file = sym (append-nil file)
written-map show (r ∷ rs) file =
    written-map show rs (file ++ show r ∷ []) ∙ append_assoc file (show r ∷ []) (map show rs)

pub faults_in-records_of : (w : List Effect) → faults_in (records_of w) ≡ faults_of w
faults_in-records_of [] = refl
faults_in-records_of (recorded (fault e s) ∷ w) = ap (◌∷◌ (e, s)) (faults_in-records_of w)
faults_in-records_of (recorded (semantic e) ∷ w) = faults_in-records_of w
faults_in-records_of (recorded (lifecycle id event detail) ∷ w) = faults_in-records_of w
faults_in-records_of (to_client b ∷ w) = faults_in-records_of w
faults_in-records_of (to_upstream b ∷ w) = faults_in-records_of w
faults_in-records_of (slept n ∷ w) = faults_in-records_of w
faults_in-records_of (reset side ∷ w) = faults_in-records_of w
faults_in-records_of (shut_down side ∷ w) = faults_in-records_of w
faults_in-records_of (connected ∷ w) = faults_in-records_of w

module _ (digest : Bytes → String) (parse_duration : String → Option ℕ) (id : ℕ) where
  after_forward-Going :
      (f : Frame) (c : Connection) (w : List Effect)
      → Ready parse_duration w c
      → Leaves
          (Going parse_duration)
          (Pinnable parse_duration)
          (after_forward digest parse_duration id f c w)
  unfolding after_forward
  after_forward-Going f c w k =
      Leaves-if (Going parse_duration) (Pinnable parse_duration) (tag f == b'Q' || tag f == b'E') _
        _ w
        (λ query.
          apply-Going parse_duration ((forwarded c.state).1 ∷ []) c.matchers (faults c) _ w k.1 k.0
            (λ a v valid p.
              Going-if parse_duration a.1.disposition.disconnect
                (some (record c {
                  state = (forwarded c.state).0;
                  matchers = a.0;
                  truncate = a.1.truncate;
                }))
                v (p, valid)))
        (λ other. k)

  forward-Going :
      (f : Frame) (d : Disposition) (c : Connection) (w : List Effect)
      → Ready parse_duration w c
      → Leaves
          (Going parse_duration)
          (Pinnable parse_duration)
          (forward digest parse_duration id f d c w)
  unfolding forward
  forward-Going f d c w k =
      Leaves-if (Going parse_duration) (Pinnable parse_duration) d.disconnect _ _ w (λ ended. k.0)
        (λ more.
          Leaves-if (Going parse_duration) (Pinnable parse_duration) d.suppress _ _ w
            (λ drop. Going-if parse_duration (tag f == b'X') (some c) w k)
            (λ send.
              Leaves-continue (Going parse_duration) (Going parse_duration)
                (Pinnable parse_duration)
                (after_forward digest parse_duration id f c (w ++ to_upstream f.bytes ∷ [])) _
                (after_forward-Going f c (w ++ to_upstream f.bytes ∷ [])
                  (Pinnable-concat parse_duration w (to_upstream f.bytes) refl k.0, k.1))
                (λ o v going. Going-if parse_duration (tag f == b'X') o v going)))

  on_input-Going :
      (i : Input) (c : Connection) (w : List Effect)
      → Ready parse_duration w c
      → Leaves
          (Going parse_duration)
          (Pinnable parse_duration)
          (on_input digest parse_duration id i c w)
  unfolding on_input on_client on_server
  on_input-Going (client f) c w k =
      apply-Going parse_duration (frontend digest f c.state).1 c.matchers (faults c) _ w k.1 k.0
        (λ a v valid p.
          forward-Going f a.1.disposition
            (record c {
              state = (frontend digest f c.state).0;
              matchers = a.0;
              truncate = a.1.truncate;
            })
            v (p, valid))
  on_input-Going (server f) c w k =
      apply-Going parse_duration (backend f c.state).1 c.matchers (faults c) _ w k.1 k.0
        (λ a v valid p.
          Leaves-if (Going parse_duration) (Pinnable parse_duration) a.1.disposition.disconnect _ _
            v (λ ended. p)
            (λ more.
              deliver-Going parse_duration id f (gates c.matchers (completion_boundary f c.state))
                a.1.disposition.suppress
                (record c {
                  state = (backend f c.state).0;
                  matchers = a.0;
                  truncate = a.1.truncate;
                })
                v (p, valid)))
  on_input-Going client_closed c w k =
      Pinnable-concat parse_duration w (shut_down Side.upstream) refl k.0
  on_input-Going server_closed c w k =
      Pinnable-concat parse_duration w (shut_down Side.frontend) refl k.0
  on_input-Going (client_broken e) c w k = k.0
  on_input-Going (server_broken e) c w k = k.0

  resume-Going :
      (is : List Input) (o : Option Connection) (w : List Effect)
      → ((c : Connection)
          → Ready parse_duration w c
          → Leaves
              (Going parse_duration)
              (Pinnable parse_duration)
              (run digest parse_duration id is c w))
      → Going parse_duration w o
      → Leaves
          (Going parse_duration)
          (Pinnable parse_duration)
          (rest_of parse_duration digest id is o w)
  resume-Going is none w k going = going
  resume-Going is (some c) w k going = k c going

  pub run-Going :
      (is : List Input) (c : Connection) (w : List Effect)
      → Ready parse_duration w c
      → Leaves
          (Going parse_duration)
          (Pinnable parse_duration)
          (run digest parse_duration id is c w)
  unfolding run
  run-Going [] c w k = k
  run-Going (i ∷ is) c w k =
      Leaves-continue (Going parse_duration) (Going parse_duration) (Pinnable parse_duration)
        (on_input digest parse_duration id i c w) _ (on_input-Going i c w k)
        (λ o v going. resume-Going is o v (λ c1 k1. run-Going is c1 v k1) going)
