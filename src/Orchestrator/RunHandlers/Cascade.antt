-- ===== src/Orchestrator/RunHandlers/Cascade.antt =====
-- What canceling does to the stored runs (agentorchestrator/server.go).
use nexixai_agentos.Prelude.{string_key}
use nexixai_agentos.Prelude.{
  ℕ, zero, suc, String, ◌≡◌, ◌⊎◌, refl, sym, ◌∙◌, subst, true, false, Option, none, some, List, [],
  ◌∷◌, ◌==◌, is_some, get_or, inl, inr, Bool-cases, All, arith,
}
use nexixai_agentos.Prelude.Dict.{Dict, get}
use nexixai_agentos.Orchestrator.Types.{
  RunStatus, queued, running, completed, failed, canceled, errored, other, is_terminal, is_active,
  Run,
}
use nexixai_agentos.Orchestrator.RunStore.{FileRunStore, StoreError, save, list_child_runs}
use nexixai_agentos.Orchestrator.RunStore.Known.{
  IsKeyed, IsStored, save-cases, save-IsKeyed, list_child_runs-IsStored, get-store_locked_known,
}
use nexixai_agentos.Orchestrator.RunHandlers.{Settings, Server, release}
use nexixai_agentos.Orchestrator.RunHandlers.Cancellation.{
  CancelCall, cancel_job, canceled_run, on_child_saved, cancel_child, cancel_children,
  cascade_cancel_children,
}

active_unfinished : (status : RunStatus) → is_active status ≡ true → is_terminal status ≡ false
active_unfinished queued h = refl
active_unfinished running h = refl
active_unfinished completed h = cc
active_unfinished failed h = cc
active_unfinished canceled h = cc
active_unfinished errored h = cc
active_unfinished (other status) h = cc

module _ (cfg : Settings) (c : CancelCall) where
  -- Each run is as it was, or was not finished and is now canceled, at the moment of its save. No run is lost, none is new.
  abbrev pub Cancels : Dict String Run → Dict String Run → Type 0
  Cancels m m' =
      (k : String)
      → (get m' k ≡ get m k)
        ⊎ ((r : Run) × (path : List String) × (get m k ≡ some r)
            × (is_terminal r.status ≡ false)
            × (get m' k ≡ some (canceled_run cfg r (c.moment path).date)))

  pub Cancels-trans : (a b d : Dict String Run) → Cancels a b → Cancels b d → Cancels a d
  Cancels-trans a b d p q k = elim (p k) [
    | inl e ↦ elim (q k) [ inl f ↦ inl (f ∙ e) | inr (r, p, f, t, g) ↦ inr (r, p, sym e ∙ f, t, g) ]
    | inr (r, path, e, t, f) ↦ elim (q k) [
      | inl g ↦ inr (r, path, e, t, g ∙ f)
      | inr (r', path', g, t', l) ↦ ground (arith, f, g, t')
    ]
  ]

  -- From the runs m to those of a store that is in order.
  abbrev pub After : Dict String Run → FileRunStore → Type 0
  After m s = IsKeyed cfg.storage_key s × Cancels m s.runs

  -- A run that was read when it was not finished is saved as canceled.
  pub save-After :
      (m : Dict String Run) (s : FileRunStore) (run : Run) (path : List String)
      → let now = c.moment path in
        IsStored cfg.storage_key m run
        → is_terminal run.status ≡ false
        → After m s
        → After m
            (save cfg.storage_key s now.ctx_done (canceled_run cfg run now.date) now.disk_ok).0
  save-After m s run path stored open_run h =
      let at_save = c.moment path in
      let saved = canceled_run cfg run at_save.date in
      let key = cfg.storage_key run.tenant_id run.run_id in
      (
        save-IsKeyed cfg.storage_key s at_save.ctx_done saved at_save.disk_ok h.0,
        elim (save-cases cfg.storage_key s at_save.ctx_done saved at_save.disk_ok) [
          | inl e ↦ subst (λ (x : FileRunStore). Cancels m x.runs) (sym (e.0)) (h.1)
          | inr e ↦
              subst (λ (x : FileRunStore × Option StoreError). Cancels m x.0.runs) (sym e)
                (λ k.
                  let known : is_some (get s.runs key) ≡ true = ground (arith, h.1 key) in
                  let now =
                    get-store_locked_known s key k saved at_save.disk_ok h.0.ordered known in
                  elim (Bool-cases (key == k)) [
                    | inl b ↦
                        let same = (string_key.same_iff key k).0 b in
                        inr (
                          run,
                          path,
                          subst (λ j. get m j ≡ some run) same stored,
                          open_run,
                          now ∙ rw b refl,
                        )
                    | inr b ↦
                        subst
                          (λ (o : Option Run).
                            (o ≡ get m k)
                            ⊎ ((r : Run) × (path : List String) × (get m k ≡ some r)
                                × (is_terminal r.status ≡ false)
                                × (o ≡ some (canceled_run cfg r (c.moment path).date))))
                          (sym (now ∙ rw b refl)) (h.1 k)
                  ])
        ],
      )

  -- Canceling the children of a run.
  abbrev pub Deeper : (Server → String → Server) → Type 0
  Deeper deeper =
      (s : Server) (run_id : String)
      → IsKeyed cfg.storage_key s.runs
      → After s.runs.runs (deeper s run_id).runs

  on_child_saved-After :
      (m : Dict String Run) (deeper : Server → String → Server) (tenant : String) (s : Server)
      (child : Run) (r : FileRunStore × Option StoreError)
      → Deeper deeper
      → After m r.0
      → After m (on_child_saved cfg deeper tenant s child r).runs
  on_child_saved-After m deeper tenant s child (runs, some error) d h = h
  on_child_saved-After m deeper tenant s child (runs, none) d h =
      let below = d (release cfg (record s { runs = runs }) tenant) child.run_id h.0 in
      (below.0, Cancels-trans m runs.runs _ h.1 below.1)

  cancel_child-After :
      (m : Dict String Run) (deeper : List String → Server → String → Server) (path : List String)
      (tenant : String) (s : Server) (child : Run)
      → ((path : List String) → Deeper (deeper path))
      → IsStored cfg.storage_key m child
      → After m s.runs
      → After m (cancel_child cfg deeper c path tenant s child).runs
  cancel_child-After m deeper path tenant s child d stored h =
      elim (Bool-cases (is_active child.status)) [
        | inl b ↦ rw b (
            on_child_saved-After m (deeper (child.run_id ∷ path)) tenant
              (cancel_job cfg s child.run_id) child _ (d (child.run_id ∷ path))
              (save-After m s.runs child (child.run_id ∷ path) stored
                (active_unfinished child.status b) h))
        | inr b ↦ rw b h
      ]

  cancel_children-After :
      (m : Dict String Run) (deeper : List String → Server → String → Server) (path : List String)
      (tenant : String) (children : List Run) (s : Server)
      → ((path : List String) → Deeper (deeper path))
      → All (IsStored cfg.storage_key m) children
      → After m s.runs
      → After m (cancel_children cfg deeper c path tenant s children).runs
  cancel_children-After m deeper path tenant [] s d stored h = h
  cancel_children-After m deeper path tenant (child ∷ children) s d stored h =
      cancel_children-After m deeper path tenant children
        (cancel_child cfg deeper c path tenant s child) d stored.1
        (cancel_child-After m deeper path tenant s child d stored.0 h)

  pub cascade_cancel_children-After :
      (levels : ℕ) (tenant : String) (path : List String)
      → Deeper (cascade_cancel_children cfg levels c tenant path)
  unfolding cascade_cancel_children
  cascade_cancel_children-After zero tenant path s parent ok = (ok, λ k. inl refl)
  cascade_cancel_children-After (suc levels) tenant path s parent ok =
      let done = (c.moment path).list_done in
      cancel_children-After s.runs.runs (cascade_cancel_children cfg levels c tenant) path tenant
        (get_or (list_child_runs s.runs done tenant parent) []) s
        (cascade_cancel_children-After levels tenant)
        (list_child_runs-IsStored cfg.storage_key s.runs done tenant parent ok) (ok, λ k. inl refl)
