-- ===== src/Proxy/Tasks.antt =====
-- `serve`: the numbers of the connections.
use pgfault.Base.{
  subst, ℕ, suc, ◌+◌, ◌≤◌, ◌<◌, ◌==◌, ◌≡◌, ◌≢◌, inl, inr, refl, ◌∙◌, Bool, false, ◌||◌, List, [],
  ◌∷◌, ◌++◌, arith, All, All-append, Bool-cases, nat_eq, string_eq, bytes_eq_instance,
}
use pgfault.Base.Word.{u64_mod, u64_succ, u64_succ-eq}
use pgfault.Proxy.Serve.{
  Happening, accepted, accept_failed, finished, panicked, shutdown, Server, serving, stopped,
  failed, without, step, steps, serve,
}

abbrev pub accepts : Happening → ℕ
accepts accepted = 1
accepts _ = 0

abbrev pub accept_count : List Happening → ℕ
accept_count [] = 0
accept_count (h ∷ hs) = accepts h + accept_count hs

abbrev pub is_task : ℕ → List ℕ → Bool
is_task t [] = false
is_task t (x ∷ xs) = x == t || is_task t xs

abbrev pub Distinct : List ℕ → Type 0
Distinct [] = Unit {0}
Distinct (t ∷ ts) = (is_task t ts ≡ false) × Distinct ts

-- A server that has accepted `k` connections: the tasks have different numbers, up to `k`.
abbrev pub Numbered : ℕ → Server → Type 0
Numbered k (serving n ts) = (n ≡ k) × All (λ t. t ≤ k) ts × Distinct ts
Numbered k stopped = Unit {0}
Numbered k failed = Unit {0}

without-All : (k id : ℕ) (ts : List ℕ) → All (λ t. t ≤ k) ts → All (λ t. t ≤ k) (without id ts)
unfolding without
without-All k id [] a = tt
without-All k id (t ∷ ts) (a, more) = elim (Bool-cases (t == id)) [
  | inl same ↦ rw same more
  | inr other ↦ rw other (a, without-All k id ts more)
]

without-is_task :
    (t id : ℕ) (ts : List ℕ) → is_task t ts ≡ false → is_task t (without id ts) ≡ false
unfolding without
without-is_task t id [] h = refl
without-is_task t id (x ∷ ts) h = ground (arith, without-is_task t id ts)

without-Distinct : (id : ℕ) (ts : List ℕ) → Distinct ts → Distinct (without id ts)
unfolding without
without-Distinct id [] d = tt
without-Distinct id (t ∷ ts) (d, ds) = elim (Bool-cases (t == id)) [
  | inl same ↦ rw same ds
  | inr other ↦ rw other (without-is_task t id ts d, without-Distinct id ts ds)
]

All-suc : (k : ℕ) (ts : List ℕ) → All (λ t. t ≤ k) ts → All (λ t. t ≤ suc k) ts
All-suc k [] a = tt
All-suc k (t ∷ ts) (a, more) = (omega arith, All-suc k ts more)

-- The next number is new.
new_task : (k : ℕ) (ts : List ℕ) → All (λ t. t ≤ k) ts → is_task (suc k) ts ≡ false
new_task k [] a = refl
new_task k (t ∷ ts) (a, more) = ground (arith, new_task k ts more)

is_task-concat :
    (x t : ℕ) (ts : List ℕ) → is_task x ts ≡ false → x ≢ t → is_task x (ts ++ t ∷ []) ≡ false
is_task-concat x t [] h ne = ground arith
is_task-concat x t (y ∷ ts) h ne = ground (arith, is_task-concat x t ts)

Distinct-concat :
    (t : ℕ) (ts : List ℕ) → Distinct ts → is_task t ts ≡ false → Distinct (ts ++ t ∷ [])
Distinct-concat t [] d h = (refl, tt)
Distinct-concat t (x ∷ ts) (d, ds) h =
    (is_task-concat x t ts d (ground arith), Distinct-concat t ts ds (ground arith))

step-Numbered :
    (h : Happening) (k : ℕ) (s : Server)
    → accepts h + k < u64_mod
    → Numbered k s
    → Numbered (accepts h + k) (step h s)
unfolding step
step-Numbered accepted k (serving n ts) small (same, a, d) =
    let next : u64_succ n ≡ suc k = rw same (u64_succ-eq k (omega arith) ∙ omega arith) in
    rw next (
      omega arith,
      subst (λ m. All (λ t. t ≤ m) (ts ++ suc k ∷ [])) (omega arith)
          (All-append (λ t. t ≤ suc k) ts (suc k ∷ []) (All-suc k ts a) (omega arith, tt)),
      Distinct-concat (suc k) ts d (new_task k ts a),
    )
step-Numbered accept_failed k (serving n ts) small i = tt
step-Numbered (finished id) k (serving n ts) small (same, a, d) =
    subst (λ m. Numbered m (serving n (without id ts))) (omega arith)
      (same, without-All k id ts a, without-Distinct id ts d)
step-Numbered (panicked id) k (serving n ts) small i = tt
step-Numbered shutdown k (serving n ts) small i = tt
step-Numbered accepted k stopped small i = tt
step-Numbered accept_failed k stopped small i = tt
step-Numbered (finished id) k stopped small i = tt
step-Numbered (panicked id) k stopped small i = tt
step-Numbered shutdown k stopped small i = tt
step-Numbered accepted k failed small i = tt
step-Numbered accept_failed k failed small i = tt
step-Numbered (finished id) k failed small i = tt
step-Numbered (panicked id) k failed small i = tt
step-Numbered shutdown k failed small i = tt

steps-Numbered :
    (hs : List Happening) (k : ℕ) (s : Server)
    → accept_count hs + k < u64_mod
    → Numbered k s
    → Numbered (accept_count hs + k) (steps hs s)
steps-Numbered [] k s small i = subst (λ m. Numbered m s) (omega arith) i
steps-Numbered (h ∷ hs) k s small i =
    subst (λ m. Numbered m (steps hs (step h s))) (omega arith)
      (steps-Numbered hs (accepts h + k) (step h s) (omega arith)
        (step-Numbered h k s (omega arith) i))

-- After fewer than 2^64 accepted connections, as long as the server runs, its last number is how
-- many it accepted, and its tasks have different numbers up to that one.
pub serve-Numbered :
    (hs : List Happening) → accept_count hs < u64_mod → Numbered (accept_count hs) (serve hs)
unfolding serve
serve-Numbered hs small =
    subst (λ m. Numbered m (steps hs (serving 0 []))) (omega arith)
      (steps-Numbered hs 0 (serving 0 []) (omega arith) (refl, tt, tt))
