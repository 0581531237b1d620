-- ===== src/Wiring/Reports.antt =====
-- The batcher that main starts loses no operation of a tracked batch.
use karpenter_provider_rafay.Prelude.{
  String, ◌≡◌, refl, sym, subst, ◌∙◌, ◌⊎◌, true, List, [], ◌∷◌, ◌++◌, some,
}
use karpenter_provider_rafay.Rafay.Batcher.{new_node_batcher}
use karpenter_provider_rafay.Rafay.Batcher.System.{System, Action, step, run, start}
use karpenter_provider_rafay.Rafay.Batcher.Tracked.Steps.{AllFresh}
use karpenter_provider_rafay.Rafay.Batcher.Accounted.{under}
use karpenter_provider_rafay.Rafay.Batcher.Accounted.Runs.{ended, step-handler, run_loses_nothing}
use karpenter_provider_rafay.Wiring.{Env, main_acts, batcher_at_start}

run-handler :
    (actions : List Action) (s : System)
    → (run actions s).batcher.failure_handler ≡ s.batcher.failure_handler
unfolding run
run-handler [] s = refl
run-handler (a ∷ actions) s = run-handler actions (step a s) ∙ step-handler a s

-- The failure handler is set before the goroutines of the batcher start.
main_acts-start :
    {Core : Type 0} (env : Env) (cores : List Core)
    → batcher_at_start (main_acts env cores) new_node_batcher ≡ some (start true)
unfolding main_acts batcher_at_start
main_acts-start env cores = refl

some_inj : (a b : System) → some a ≡ some b → a ≡ b
some_inj a b h = cc

-- From the state in which main starts the batcher, whatever the environment: an operation that is an
-- item of a tracked batch after any interleaving is one still after any further one, or it was up to a
-- step after which it is recorded as succeeded or the failure handler has been called for it; if in the
-- further one the broker acknowledges each batch under an ID that is not tracked at that moment.
pub main_loses_nothing :
    {Core : Type 0} (env : Env) (cores : List Core) (s : System) (id op : String)
    (earlier later : List Action)
    → batcher_at_start (main_acts env cores) new_node_batcher ≡ some s
    → AllFresh later (run earlier s)
    → under id op (run earlier s).batcher ≡ true
    → (under id op (run later (run earlier s)).batcher ≡ true)
      ⊎ ((before : List Action) × (a : Action) × (after : List Action) × (later
            ≡ before ++ a ∷ after)
          × (under id op (run before (run earlier s)).batcher ≡ true)
          × (ended op (step a (run before (run earlier s))) ≡ true))
main_loses_nothing env cores s id op earlier later e fresh h =
    let started = some_inj (start true) s (sym (main_acts-start env cores) ∙ e) in
    let handler = subst (λ t. t.batcher.failure_handler ≡ true) started refl in
    run_loses_nothing id op later (run earlier s) fresh (run-handler earlier s ∙ handler) h
