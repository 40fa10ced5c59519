-- ===== src/Quota/MemoryBackend/Concurrency.antt =====
-- The counts of concurrent runs (internal/quota/limiter.go).
use nexixai_agentos.Prelude.{string_key}
use nexixai_agentos.Prelude.{
  ℕ, ◌+◌, ◌-◌, ◌≤◌, ◌<◌, ◌⊎◌, false, String, ◌≡◌, refl, ap, ◌∙◌, inl, inr, List, [], ◌∷◌, ◌==◌,
  if◌then◌else◌, leb, eqb, ◌%◌, get_or, arith, Bool-cases, if_true, if_false, subst,
}
use nexixai_agentos.Prelude.Dict.{Dict, get, put, get-put, get-put_self, get-keep}
use nexixai_agentos.Quota.MemoryBackend.{
  limiter_sweep_every, MemoryBackend, new_memory_backend, sweep_locked, swept, allow_qps, spend,
  refilled, full_bucket, try_inc_concurrent, dec_concurrent, put_all, with_initial_concurrent,
}

abbrev pub in_use : MemoryBackend → String → ℕ
in_use m tenant = get_or (get m.concurrent tenant) 0

-- The calls of the limiter's clients, and WithInitialConcurrent (`starts`), in the order of the
-- backend's mutex.
pub data Op : Type 0 where
  starts : Dict String ℕ → Op
  requests : String → ℕ → Op
  acquires releases : String → Op

-- The count of a tenant that had n, after WithInitialConcurrent.
abbrev pub initial : String → ℕ → Dict String ℕ → ℕ
initial tenant n [] = n
initial tenant n ((k, v) ∷ counts) = initial tenant (if k == tenant then v else n) counts

initial-le :
    (tenant : String) (n h : ℕ) (counts : Dict String ℕ)
    → n ≤ h
    → initial tenant 0 counts ≤ h
    → initial tenant n counts ≤ h
initial-le tenant n h [] l c = l
initial-le tenant n h ((k, v) ∷ counts) l c = elim (Bool-cases (k == tenant)) [
  | inl b ↦ rw b (subst (λ x. initial tenant x counts ≤ h) (if_true _ v 0 b) c)
  | inr b ↦ rw b (
      initial-le tenant n h counts l
        (subst (λ x. initial tenant x counts ≤ h) (if_false _ v 0 b) c))
]

module _ (qps limit : ℕ) where
  pub step : MemoryBackend → Op → MemoryBackend
  step m (starts counts) = with_initial_concurrent m counts
  step m (requests tenant now) = (allow_qps m tenant qps now).0
  step m (acquires tenant) = (try_inc_concurrent m tenant limit).0
  step m (releases tenant) = dec_concurrent m tenant

  pub run : MemoryBackend → List Op → MemoryBackend
  run m [] = m
  run m (op ∷ ops) = run (step m op) ops

  -- The count of one tenant by its own calls, and what it was set to, alone.
  abbrev pub own : String → ℕ → List Op → ℕ
  own tenant n [] = n
  own tenant n (starts counts ∷ ops) = own tenant (initial tenant n counts) ops
  own tenant n (requests t now ∷ ops) = own tenant n ops
  own tenant n (acquires t ∷ ops) =
      own tenant (if t == tenant then if leb limit n then n else n + 1 else n) ops
  own tenant n (releases t ∷ ops) = own tenant (if t == tenant then n - 1 else n) ops

  -- The largest of h and the counts that the tenant is set to.
  abbrev pub highest : String → ℕ → List Op → ℕ
  highest tenant h [] = h
  highest tenant h (starts counts ∷ ops) =
      highest tenant (if leb h (initial tenant 0 counts) then initial tenant 0 counts else h) ops
  highest tenant h (requests t now ∷ ops) = highest tenant h ops
  highest tenant h (acquires t ∷ ops) = highest tenant h ops
  highest tenant h (releases t ∷ ops) = highest tenant h ops

  own-le-highest :
      (tenant : String) (n h : ℕ) (ops : List Op)
      → n ≤ h
      → limit ≤ h
      → own tenant n ops ≤ highest tenant h ops
  own-le-highest tenant n h [] l m = l
  own-le-highest tenant n h (starts counts ∷ ops) l m =
      let c = initial tenant 0 counts in
      let raised = if leb h c then c else h in
      let at_least : h ≤ raised = ground arith in
      let above : c ≤ raised = ground arith in
      own-le-highest tenant (initial tenant n counts) raised ops
        (initial-le tenant n raised counts (omega arith) above) (omega arith)
  own-le-highest tenant n h (requests t now ∷ ops) l m = own-le-highest tenant n h ops l m
  own-le-highest tenant n h (acquires t ∷ ops) l m =
      own-le-highest tenant (if t == tenant then if leb limit n then n else n + 1 else n) h ops
        (ground arith) m
  own-le-highest tenant n h (releases t ∷ ops) l m =
      own-le-highest tenant (if t == tenant then n - 1 else n) h ops (ground arith) m

pub in_use-swept :
    (m : MemoryBackend) (tenant : String) (now : ℕ) → in_use (swept m now) tenant ≡ in_use m tenant
unfolding sweep_locked
in_use-swept m tenant now = elim (Bool-cases (eqb ((m.allow_count + 1) % limiter_sweep_every) 0)) [
  | inl e ↦ rw (e, get-keep) (ground arith)
  | inr e ↦ rw e refl
]

pub in_use-spend :
    (m : MemoryBackend) (t tenant : String) (tokens now : ℕ)
    → in_use (spend m t tokens now).0 tenant ≡ in_use m tenant
in_use-spend m t tenant tokens now = ground arith

in_use-put_all :
    (counts concurrent : Dict String ℕ) (tenant : String)
    → get_or (get (put_all concurrent counts) tenant) 0
      ≡ initial tenant (get_or (get concurrent tenant) 0) counts
in_use-put_all [] concurrent tenant = refl
in_use-put_all ((k, v) ∷ counts) concurrent tenant =
    in_use-put_all counts (put concurrent k v) tenant
    ∙ ap (λ n. initial tenant n counts)
        (elim (Bool-cases (k == tenant)) [
          | inl b ↦ rw (get-put concurrent k tenant v, b) refl
          | inr b ↦ rw (get-put concurrent k tenant v, b) refl
        ])

pub in_use-with_initial :
    (m : MemoryBackend) (counts : Dict String ℕ) (tenant : String)
    → in_use (with_initial_concurrent m counts) tenant ≡ initial tenant (in_use m tenant) counts
unfolding with_initial_concurrent
in_use-with_initial m counts tenant = in_use-put_all counts m.concurrent tenant

pub in_use-try_inc :
    (m : MemoryBackend) (t tenant : String) (limit : ℕ)
    → in_use (try_inc_concurrent m t limit).0 tenant ≡ (
        if t == tenant
        then if leb limit (in_use m tenant) then in_use m tenant else in_use m tenant + 1
        else in_use m tenant)
unfolding try_inc_concurrent
in_use-try_inc m t tenant limit =
    ground (arith, string_key.same_iff t tenant, get-put m.concurrent t tenant (in_use m t + 1))

pub in_use-dec :
    (m : MemoryBackend) (t tenant : String)
    → in_use (dec_concurrent m t) tenant
      ≡ (if t == tenant then in_use m tenant - 1 else in_use m tenant)
unfolding dec_concurrent
in_use-dec m t tenant =
    ground (arith, string_key.same_iff t tenant, get-put m.concurrent t tenant (in_use m t - 1))

-- Only an acquire that succeeds takes a slot, and only below the limit.
pub in_use-allow_qps :
    (m : MemoryBackend) (t tenant : String) (qps now : ℕ)
    → in_use (allow_qps m t qps now).0 tenant ≡ in_use m tenant
unfolding allow_qps
in_use-allow_qps m t tenant qps now =
    let tokens = refilled qps now (get_or (get (swept m now).buckets t) (full_bucket qps now)) in
    in_use-spend (swept m now) t tenant tokens now ∙ in_use-swept m tenant now

pub try_inc_taken :
    (m : MemoryBackend) (tenant : String) (limit : ℕ)
    → let r = try_inc_concurrent m tenant limit in
      (in_use r.0 tenant ≡ in_use m tenant + (if r.1 then 1 else 0))
      × ((r.1 ≡ false) ⊎ (in_use m tenant < limit))
unfolding try_inc_concurrent
try_inc_taken m tenant limit = elim (Bool-cases (leb limit (in_use m tenant))) [
  | inl e ↦ rw e (omega arith, inl refl)
  | inr e ↦
      rw (e, get-put_self m.concurrent tenant (in_use m tenant + 1)) (refl, inr (ground arith))
]

module _ (qps limit : ℕ) where
  in_use-run :
      (m : MemoryBackend) (tenant : String) (ops : List Op)
      → in_use (run qps limit m ops) tenant ≡ own qps limit tenant (in_use m tenant) ops
  unfolding run step allow_qps
  in_use-run m tenant [] = refl
  in_use-run m tenant (starts counts ∷ ops) =
      in_use-run (with_initial_concurrent m counts) tenant ops
      ∙ ap (λ n. own qps limit tenant n ops) (in_use-with_initial m counts tenant)
  in_use-run m tenant (requests t now ∷ ops) =
      let tokens = refilled qps now (get_or (get (swept m now).buckets t) (full_bucket qps now)) in
      in_use-run (allow_qps m t qps now).0 tenant ops
      ∙ ap (λ n. own qps limit tenant n ops)
          (in_use-spend (swept m now) t tenant tokens now ∙ in_use-swept m tenant now)
  in_use-run m tenant (acquires t ∷ ops) =
      in_use-run (try_inc_concurrent m t limit).0 tenant ops
      ∙ ap (λ n. own qps limit tenant n ops) (in_use-try_inc m t tenant limit)
  in_use-run m tenant (releases t ∷ ops) =
      in_use-run (dec_concurrent m t) tenant ops
      ∙ ap (λ n. own qps limit tenant n ops) (in_use-dec m t tenant)

  -- After any calls on a new backend, WithInitialConcurrent included, the count of a tenant is that
  -- of its own acquires and releases and of the counts that it was set to, whatever other tenants
  -- and the sweeps do. It is at most the limit, or the largest count that the tenant was set to
  -- if that is more.
  pub in_use-run_new :
      (tenant : String) (ops : List Op)
      → (in_use (run qps limit new_memory_backend ops) tenant ≡ own qps limit tenant 0 ops)
        × (in_use (run qps limit new_memory_backend ops) tenant
            ≤ highest qps limit tenant limit ops)
  unfolding new_memory_backend get
  in_use-run_new tenant ops =
      let exact = in_use-run new_memory_backend tenant ops in
      (exact, rw exact (own-le-highest qps limit tenant 0 limit ops (omega arith) (omega arith)))
