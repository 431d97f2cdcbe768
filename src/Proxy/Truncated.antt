-- ===== src/Proxy/Truncated.antt =====
-- A result that a scenario cuts: from the frame at which the scenario fires to the end.
use pgfault.Base.{
  ℕ, zero, suc, ◌≤◌, ◌<◌, ◌==◌, ==_iff, ◌≡◌, refl, sym, ap, ◌∙◌, subst, true, false, String, Option,
  none, some, List, [], ◌∷◌, ◌++◌, map, append-nil, append_assoc, any, arith, Bytes, length, take,
  All, nat_eq, string_eq, bytes_eq_instance,
}
use pgfault.Base.Result.{ok}
use pgfault.Wire.{Frame, tag}
use pgfault.Scenario.Matcher.{Matcher}
use pgfault.State.{ConnectionState}
use pgfault.State.Backend.{backend, completion_boundary}
use pgfault.Proxy.Effects.{Effect}
use pgfault.Proxy.Relay.{
  Connection, server, on_server, on_input, run, deliver, pass_on, hold, gates, faults,
}
use pgfault.Proxy.Sent.{downstream, downstream-append}
use pgfault.Proxy.Faults.{Fault, fired, suppresses_at, disconnects_at, truncation, observed_all}
use pgfault.Proxy.Fired.{apply-fired}
use pgfault.Proxy.Cut.{AllValid, AllValid-AllTimed, observed_all-AllValid}
use pgfault.Proxy.Silent.{Silent, apply-IsSilent}
use pgfault.Proxy.Outcome.{Leaves}
use pgfault.Proxy.Transparent.{run-ended, run-goes_on}

-- The faults let a frame pass.
abbrev pub LetsPass : List Fault → Type 0
LetsPass fs = (any suppresses_at fs ≡ false) × (any disconnects_at fs ≡ false)

-- What fires at the frames lets them pass, and cuts nothing anew.
abbrev pub LetPass : List Frame → ConnectionState → List Matcher → Type 0
LetPass [] s ms = Unit {0}
LetPass (f ∷ fs) s ms =
    let at_frame = fired (backend f s).1 ms in
    LetsPass at_frame
    × ((t : Option ℕ) → truncation at_frame t ≡ t)
    × LetPass fs (backend f s).0 (observed_all (backend f s).1 ms)

abbrev pub IsRow : Frame → Type 0
IsRow f = (tag f == b'D') ≡ true

-- A frame that is no command tag is behind no gate.
no_gate :
    (f : Frame) (s : ConnectionState) (ms : List Matcher)
    → (tag f == b'C') ≡ false
    → gates ms (completion_boundary f s) ≡ false
unfolding completion_boundary
no_gate f s ms other = rw other refl

module _ (digest : Bytes → String) (parse_duration : String → Option ℕ) (id : ℕ) where
  -- The connection that the frame is delivered on.
  abbrev behind : Frame → Connection → Option ℕ → Connection
  behind f c t = record c {
    state = (backend f c.state).0;
    matchers = observed_all (backend f c.state).1 c.matchers;
    truncate = t;
  }

  -- A frame that passes: what `apply` leaves, and the delivery.
  passes :
      (f : Frame) (c : Connection) (w : List Effect)
      → AllValid parse_duration c.matchers
      → (tag f == b'C') ≡ false
      → LetsPass (fired (backend f c.state).1 c.matchers)
      → (v : List Effect) × Silent w v
        × (on_server digest parse_duration id f c w
            ≡ deliver id f false false
                (behind f c (truncation (fired (backend f c.state).1 c.matchers) c.truncate))
                v)
  unfolding on_server
  passes f c w valid other (shown, stays) =
      let es = (backend f c.state).1 in
      let (v, y, runs, k) =
        apply-fired parse_duration es c.matchers (faults c) w
          (AllValid-AllTimed parse_duration c.matchers valid) in
      let silent =
        subst (Leaves (λ v a. Silent w v) (λ v. Silent w v)) runs
          (apply-IsSilent parse_duration es c.matchers (faults c) w) in
      let suppressed : y.disposition.suppress ≡ false = k.suppressed ∙ shown in
      let open_ : y.disposition.disconnect ≡ false = k.disconnected ∙ stays in
      (
        v,
        silent,
        rw (runs, open_, suppressed, no_gate f c.state c.matchers other, k.truncated) refl,
      )

  -- A row is sent, and the last of them ends the connection.
  row_sent :
      (f : Frame) (c : Connection) (v : List Effect) (n : ℕ)
      → IsRow f
      → c.held ≡ []
      → c.truncate ≡ some (suc (suc n))
      → let p = deliver id f false false c v in
        (p.1 ≡ ok (some (record c { truncate = some (suc n) })))
        × (downstream p.0 ≡ downstream v ++ f.bytes ∷ [])
  unfolding deliver pass_on hold
  row_sent f c v n row free left =
      let no_ready : (tag f == b'Z') ≡ false = ground (arith, ==_iff (tag f) b'D') in
      rw (row, left, no_ready, free) (refl, simp (downstream-append, append-nil))

  row_last :
      (f : Frame) (c : Connection) (v : List Effect)
      → IsRow f
      → c.held ≡ []
      → c.truncate ≡ some 1
      → let p = deliver id f false false c v in
        (p.1 ≡ ok none) × (downstream p.0 ≡ downstream v ++ f.bytes ∷ [])
  unfolding deliver pass_on hold
  row_last f c v row free left =
      let no_ready : (tag f == b'Z') ≡ false = ground (arith, ==_iff (tag f) b'D') in
      rw (row, left, no_ready, free) (refl, simp (downstream-append, append-nil))

  row_cut :
      (f : Frame) (c : Connection) (v : List Effect)
      → IsRow f
      → c.truncate ≡ some 0
      → let p = deliver id f false false c v in (p.1 ≡ ok none) × (downstream p.0 ≡ downstream v)
  unfolding deliver
  row_cut f c v row left = rw (row, left) (refl, simp (downstream-append, append-nil))

  -- A frame that is neither a row nor a `Z` is sent.
  other_sent :
      (f : Frame) (c : Connection) (v : List Effect)
      → (tag f == b'D') ≡ false
      → (tag f == b'Z') ≡ false
      → c.held ≡ []
      → let p = deliver id f false false c v in
        (p.1 ≡ ok (some c)) × (downstream p.0 ≡ downstream v ++ f.bytes ∷ [])
  unfolding deliver pass_on hold
  other_sent f c v no_row no_ready free =
      rw (no_row, no_ready, free) (refl, simp (downstream-append, append-nil))

  -- The deliveries of rows, in a run.
  rows_cut :
      (fs : List Frame) (n : ℕ) (c : Connection) (w : List Effect)
      → AllValid parse_duration c.matchers
      → c.held ≡ []
      → c.truncate ≡ some n
      → All IsRow fs
      → LetPass fs c.state c.matchers
      → 0 < length fs
      → n ≤ length fs
      → let p = run digest parse_duration id (map server fs) c w in
        (p.1 ≡ ok none) × (downstream p.0 ≡ downstream w ++ take n (map (λ f. f.bytes) fs))
  unfolding run on_input
  rows_cut [] n c w valid free left rows pass some_row enough =
      let bad : ⊥ = omega arith in elim bad [ ]
  rows_cut (f ∷ fs) zero c w valid free left (row, rows) (lets, keeps, pass) some_row enough =
      let no_tag : (tag f == b'C') ≡ false = ground (arith, ==_iff (tag f) b'D') in
      let (v, silent, is_) = passes f c w valid no_tag lets in
      let (ends, cut) = row_cut f (behind f c _) v row (keeps c.truncate ∙ left) in
      let q = on_server digest parse_duration id f c w in
      let ended : q.1 ≡ ok none = ap (λ p. p.1) is_ ∙ ends in
      rw (run-ended parse_duration digest id (map server fs) q ended)
        (refl, ap (λ p. downstream p.0) is_ ∙ cut ∙ silent.1 ∙ sym (append-nil (downstream w)))
  rows_cut (f ∷ fs) (suc zero) c w valid free left (row, rows) (lets, keeps, pass) some_row enough =
      let no_tag : (tag f == b'C') ≡ false = ground (arith, ==_iff (tag f) b'D') in
      let (v, silent, is_) = passes f c w valid no_tag lets in
      let (ends, cut) = row_last f (behind f c _) v row free (keeps c.truncate ∙ left) in
      let q = on_server digest parse_duration id f c w in
      let ended : q.1 ≡ ok none = ap (λ p. p.1) is_ ∙ ends in
      rw (run-ended parse_duration digest id (map server fs) q ended)
        (refl, ap (λ p. downstream p.0) is_ ∙ cut ∙ ap (λ t. t ++ f.bytes ∷ []) silent.1)
  rows_cut (f ∷ fs) (suc (suc n)) c w valid free left (row, rows) (lets, keeps, pass) some_row
        enough =
      let no_tag : (tag f == b'C') ≡ false = ground (arith, ==_iff (tag f) b'D') in
      let (v, silent, is_) = passes f c w valid no_tag lets in
      let (goes, sent) = row_sent f (behind f c _) v n row free (keeps c.truncate ∙ left) in
      let q = on_server digest parse_duration id f c w in
      let on : q.1 ≡ ok (some (behind f c (some (suc n)))) = ap (λ p. p.1) is_ ∙ goes in
      let so_far : downstream q.0 ≡ downstream w ++ f.bytes ∷ [] =
        ap (λ p. downstream p.0) is_ ∙ sent ∙ ap (λ t. t ++ f.bytes ∷ []) silent.1 in
      let (ends, cut) =
        rows_cut fs (suc n) (behind f c (some (suc n))) q.0
          (observed_all-AllValid parse_duration (backend f c.state).1 c.matchers valid) free refl
          rows pass (omega arith) (omega arith) in
      rw (run-goes_on parse_duration digest id (map server fs) q (behind f c (some (suc n))) on) (
        ends,
        cut
            ∙ rw
                (
                  so_far,
                  append_assoc (downstream w) (f.bytes ∷ []) (take (suc n) (map (λ f. f.bytes) fs)),
                )
                refl,
      )

  -- With valid matchers and nothing held: when the faults that fire at a `T` frame let it pass
  -- and leave a truncation to `n` rows, the frames behind it are rows, and what fires at the
  -- rows lets them pass and cuts nothing anew, then, if at least one row and at least `n` rows
  -- come, the client gets the `T` frame and exactly the first `n` rows, and the connection ends.
  pub result_truncated :
      (t : Frame) (fs : List Frame) (n : ℕ) (c : Connection) (w : List Effect)
      → AllValid parse_duration c.matchers
      → c.held ≡ []
      → tag t ≡ b'T'
      → LetsPass (fired (backend t c.state).1 c.matchers)
      → truncation (fired (backend t c.state).1 c.matchers) c.truncate ≡ some n
      → All IsRow fs
      → LetPass fs (backend t c.state).0 (observed_all (backend t c.state).1 c.matchers)
      → 0 < length fs
      → n ≤ length fs
      → let p = run digest parse_duration id (map server (t ∷ fs)) c w in
        (p.1 ≡ ok none)
        × (downstream p.0 ≡ downstream w ++ t.bytes ∷ take n (map (λ f. f.bytes) fs))
  unfolding run on_input
  result_truncated t fs n c w valid free start lets sets rows pass some_row enough =
      let no_tag : (tag t == b'C') ≡ false = rw start refl in
      let no_row : (tag t == b'D') ≡ false = rw start refl in
      let no_ready : (tag t == b'Z') ≡ false = rw start refl in
      let (v, silent, is_) = passes t c w valid no_tag lets in
      let c1 = behind t c (truncation (fired (backend t c.state).1 c.matchers) c.truncate) in
      let (goes, sent) = other_sent t c1 v no_row no_ready free in
      let q = on_server digest parse_duration id t c w in
      let on : q.1 ≡ ok (some c1) = ap (λ p. p.1) is_ ∙ goes in
      let so_far : downstream q.0 ≡ downstream w ++ t.bytes ∷ [] =
        ap (λ p. downstream p.0) is_ ∙ sent ∙ ap (λ x. x ++ t.bytes ∷ []) silent.1 in
      let (ends, cut) =
        rows_cut fs n c1 q.0
          (observed_all-AllValid parse_duration (backend t c.state).1 c.matchers valid) free sets
          rows pass some_row enough in
      rw (run-goes_on parse_duration digest id (map server fs) q c1 on) (
        ends,
        cut
            ∙ rw
                (
                  so_far,
                  append_assoc (downstream w) (t.bytes ∷ []) (take n (map (λ f. f.bytes) fs)),
                )
                refl,
      )
