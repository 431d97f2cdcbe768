-- ===== src/Proxy/Within.antt =====
-- `hold`, `release`, `pass_on` and `deliver`: what they write to the client, and hold for it, is what
-- came from the server.
use mathlib.Core.List.{Sublist, nil-sublist, sublist-append_left}
use mathlib.Core.List.Sublist
use pgfault.Base.{
  subst, ℕ, ◌+◌, ltb, ◌==◌, if◌then◌else◌, ◌≡◌, refl, sym, Bool, true, false, not, ◌||◌, Option,
  none, some, List, [], ◌∷◌, ◌++◌, map, append-nil, append_assoc, arith, Bytes, length, is_empty,
  nat_eq, string_eq, bytes_eq_instance,
}
use pgfault.Base.Result.{Result, ok, err}
use pgfault.Wire.{Frame, tag}
use pgfault.Scenario.{Side}
use pgfault.Trace.{lifecycle}
use pgfault.Proxy.Effects.{Effect, ProxyError, M, continue, to_client, recorded, reset}
use pgfault.Proxy.Relay.{
  Connection, deliver, pass_on, hold, release, cut_here, cuts, one_less, gate_limit,
}
use pgfault.Proxy.Sent.{
  upstream, downstream, upstream-append, downstream-append, write_all-eq, downstream-map,
  upstream-map,
}
use pgfault.Proxy.Outcome.{Leaves}
use pgfault.Proxy.Silent.{Silent, Silent-concat, Silent-trans}

-- What was written to the sides, with what is still held for the client, is a sublist of these.
abbrev pub Within : List Bytes → List Bytes → List Bytes → List Effect → Type 0
Within ups downs held w = Sublist (upstream w) ups × Sublist (downstream w ++ held) downs

abbrev pub held_of : Option Connection → List Bytes
held_of none = []
held_of (some c) = c.held

-- The same of what a function comes to.
abbrev pub IsSound :
    List Bytes → List Bytes → List Effect × Result ProxyError (Option Connection) → Type 0
IsSound ups downs = Leaves (λ w o. Within ups downs (held_of o) w) (λ w. Within ups downs [] w)

abbrev pub IsHolding : List Bytes → List Bytes → List Effect × Result ProxyError Connection → Type 0
IsHolding ups downs = Leaves (λ w c. Within ups downs c.held w) (λ w. Within ups downs [] w)

pub IsHolding-if :
    (ups downs : List Bytes) (b : Bool) (x y : M Connection) (w : List Effect)
    → (b ≡ true → IsHolding ups downs (x w))
    → (b ≡ false → IsHolding ups downs (y w))
    → IsHolding ups downs ((if b then x else y) w)
IsHolding-if ups downs true x y w h k = h refl
IsHolding-if ups downs false x y w h k = k refl

pub IsSound-if :
    (ups downs : List Bytes) (b : Bool) (x y : M (Option Connection)) (w : List Effect)
    → (b ≡ true → IsSound ups downs (x w))
    → (b ≡ false → IsSound ups downs (y w))
    → IsSound ups downs ((if b then x else y) w)
IsSound-if ups downs true x y w h k = h refl
IsSound-if ups downs false x y w h k = k refl

pub IsSound-then :
    (ups downs : List Bytes) (p : List Effect × Result ProxyError Connection)
    (f : Connection → M (Option Connection))
    → IsHolding ups downs p
    → ((c : Connection) (w : List Effect) → Within ups downs c.held w → IsSound ups downs (f c w))
    → IsSound ups downs (continue p f)
IsSound-then ups downs (w, ok c) f h k = k c w h
IsSound-then ups downs (w, err e) f h k = h

pub drop_held :
    (ups downs held : List Bytes) (w : List Effect)
    → Within ups downs held w
    → Within ups downs [] w
drop_held ups downs held w (u, d) =
    (u, Sublist.trans (Sublist.append (Sublist.refl (downstream w)) (nil-sublist held)) d)

pub Within-Silent :
    (ups downs held : List Bytes) (w v : List Effect)
    → Silent w v
    → Within ups downs held w
    → Within ups downs held v
Within-Silent ups downs held w v (u, d) h = rw (u, d) h

-- One more frame of the server.
pub grown :
    (ups downs held : List Bytes) (b : Bytes) (w : List Effect)
    → Within ups downs held w
    → Within ups (downs ++ b ∷ []) (held ++ b ∷ []) w
grown ups downs held b w (u, d) =
    (u, rw (← append_assoc (downstream w) held (b ∷ [])) (Sublist.append d (Sublist.refl (b ∷ []))))

pub unchanged :
    (ups downs held : List Bytes) (b : Bytes) (w : List Effect)
    → Within ups downs held w
    → Within ups (downs ++ b ∷ []) held w
unchanged ups downs held b w (u, d) = (u, Sublist.trans d (sublist-append_left downs (b ∷ [])))

-- What was held is written to the client, and the new frame behind it.
pub written :
    (ups downs held : List Bytes) (b : Bytes) (w : List Effect)
    → Within ups downs held w
    → Within ups (downs ++ b ∷ []) [] (w ++ map to_client held ++ to_client b ∷ [])
written ups downs held b w (u, d) =
    let ends = w ++ map to_client held ++ to_client b ∷ [] in
    let same : upstream ends ≡ upstream w = simp (upstream-append, upstream-map, append-nil) in
    let more : downstream ends ++ [] ≡ downstream w ++ held ++ b ∷ [] =
      simp (downstream-append, downstream-map, append-nil, append_assoc) in
    (rw same u, rw more (Sublist.append d (Sublist.refl (b ∷ []))))

pub release-false :
    (f : Frame) (c : Connection) (w : List Effect)
    → release f false c w ≡ (
      w ++ map to_client c.held ++ to_client f.bytes ∷ [],
      ok (record c { held = []; held_size = 0; truncate = none }),
    )
unfolding release
release-false f c w = rw (write_all-eq c.held w) refl

pub release-IsHolding :
    (f : Frame) (suppress : Bool) (c : Connection) (ups downs : List Bytes) (w : List Effect)
    → Within ups downs c.held w
    → IsHolding ups (downs ++ f.bytes ∷ []) (release f suppress c w)
unfolding release
release-IsHolding f true c ups downs w h =
    drop_held ups (downs ++ f.bytes ∷ []) c.held w (unchanged ups downs c.held f.bytes w h)
release-IsHolding f false c ups downs w h =
    subst (IsHolding ups (downs ++ f.bytes ∷ [])) (sym (release-false f c w))
      (written ups downs c.held f.bytes w h)

-- Where nothing is held, the frame is written at once.
pub passed :
    (ups downs held : List Bytes) (b : Bytes) (w : List Effect)
    → not (is_empty held) ≡ false
    → Within ups downs held w
    → Within ups (downs ++ b ∷ []) held (w ++ to_client b ∷ [])
passed ups downs [] b w free h =
    subst (λ v. Within ups (downs ++ b ∷ []) [] (v ++ to_client b ∷ [])) (append-nil w)
      (written ups downs [] b w h)
passed ups downs (x ∷ held) b w free h = let bad : ⊥ = cc in elim bad [ ]

pub hold-IsHolding :
    (f : Frame) (gate : Bool) (c : Connection) (ups downs : List Bytes) (w : List Effect)
    → Within ups downs c.held w
    → IsHolding ups (downs ++ f.bytes ∷ []) (hold f gate c w)
unfolding hold
hold-IsHolding f gate c ups downs w h =
    let downs1 = downs ++ f.bytes ∷ [] in
    let same = unchanged ups downs c.held f.bytes w h in
    IsHolding-if ups downs1 (gate || not (is_empty c.held)) _ _ w
      (λ behind.
        IsHolding-if ups downs1 (ltb gate_limit (c.held_size + length f.bytes)) _ _ w
          (λ big. drop_held ups downs1 c.held w same) (λ fits. grown ups downs c.held f.bytes w h))
      (λ passes. passed ups downs c.held f.bytes w (ground arith) h)

pub pass_on-IsHolding :
    (f : Frame) (gate suppress : Bool) (c : Connection) (ups downs : List Bytes) (w : List Effect)
    → Within ups downs c.held w
    → IsHolding ups (downs ++ f.bytes ∷ []) (pass_on f gate suppress c w)
unfolding pass_on
pass_on-IsHolding f gate suppress c ups downs w h =
    let downs1 = downs ++ f.bytes ∷ [] in
    IsHolding-if ups downs1 (tag f == b'Z') _ _ w
      (λ ready. release-IsHolding f suppress c ups downs w h)
      (λ other.
        IsHolding-if ups downs1 suppress _ _ w (λ gone. unchanged ups downs c.held f.bytes w h)
          (λ sent. hold-IsHolding f gate c ups downs w h))

pub cut-IsSound :
    (id : ℕ) (ups downs held : List Bytes) (w : List Effect)
    → Within ups downs held w
    → IsSound ups downs (cut_here id w)
cut-IsSound id ups downs held w h =
    let w1 = w ++ reset Side.frontend ∷ [] in
    let w2 = w1 ++ recorded (lifecycle id "result.truncated" "") ∷ [] in
    let silent =
      Silent-trans w w1 w2 (Silent-concat w (reset Side.frontend) (refl, refl))
        (Silent-concat w1 (recorded (lifecycle id "result.truncated" "")) (refl, refl)) in
    drop_held ups downs held w2 (Within-Silent ups downs held w w2 silent h)

pub deliver-IsSound :
    (id : ℕ) (f : Frame) (gate suppress : Bool) (c : Connection) (ups downs : List Bytes)
    (w : List Effect)
    → Within ups downs c.held w
    → IsSound ups (downs ++ f.bytes ∷ []) (deliver id f gate suppress c w)
unfolding deliver
deliver-IsSound id f gate suppress c ups downs w h =
    let downs1 = downs ++ f.bytes ∷ [] in
    IsSound-if ups downs1 (tag f == b'D') _ _ w
      (λ row.
        IsSound-if ups downs1 (cuts c.truncate) _ _ w
          (λ out. cut-IsSound id ups downs1 c.held w (unchanged ups downs c.held f.bytes w h))
          (λ left.
            IsSound-then ups downs1
              (pass_on f gate suppress (record c { truncate = one_less c.truncate }) w) _
              (pass_on-IsHolding f gate suppress (record c { truncate = one_less c.truncate }) ups
                downs w h)
              (λ c1 w1 k.
                IsSound-if ups downs1 (cuts c1.truncate) _ _ w1
                  (λ out. cut-IsSound id ups downs1 c1.held w1 k) (λ more. k))))
      (λ other.
        IsSound-then ups downs1 (pass_on f gate suppress c w) _
          (pass_on-IsHolding f gate suppress c ups downs w h) (λ c1 w1 k. k))
