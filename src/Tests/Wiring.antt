-- ===== src/Tests/Wiring.antt =====
-- The program as main wires it, in an environment that sets nothing.
use karpenter_provider_rafay.Prelude.{
  ◌≡◌, refl, ◌⊎◌, true, String, List, [], ◌∷◌, ◌++◌, none, contains, lookup, insert, insert_all,
  erase, trim_space,
}
use karpenter_provider_rafay.Rafay.Batcher.Poll.{results, failed}
use karpenter_provider_rafay.Rafay.Batcher.System.{Action, poll_answered, step, run, start}
use karpenter_provider_rafay.Rafay.Batcher.Accounted.{under, reports}
use karpenter_provider_rafay.Rafay.Batcher.Accounted.Runs.{ended}
use karpenter_provider_rafay.Wiring.{
  Env, rafay_node_class, node_provider_id, headroom, node_adoption, node_config, batch_resume, core,
  main_acts, all_controllers, batcher_at_start,
}
use karpenter_provider_rafay.Wiring.Reports.{main_loses_nothing}
use karpenter_provider_rafay.Tests.Batcher.{schedule}

abbrev unset : Env
unset = record { get = λ name. ""; parse_bool = λ s. none; parse_duration = λ s. none }

all_by_default :
    all_controllers {Core = String} unset ("core" ∷ [])
    ≡ rafay_node_class
      ∷ node_provider_id
      ∷ headroom "karpenter" "karpenter"
      ∷ node_adoption
      ∷ node_config 600000000000
      ∷ batch_resume
      ∷ core "core"
      ∷ []
unfolding all_controllers trim_space
all_by_default = refl

-- A poll that reports one of the operations as failed.
abbrev failing : List Action
failing =
    poll_answered 300 "b1"
      (results (record { operation_id = "n1"; state = failed; detail = "no capacity" } ∷ []))
    ∷ []

handler_is_called : reports "n1" (run failing (run schedule (start true))).reported ≡ true
unfolding run lookup insert insert_all erase
handler_is_called = refl

main_loses_nothing_example :
    (under "b1" "n1" (run failing (run schedule (start true))).batcher ≡ true)
    ⊎ ((before : List Action) × (a : Action) × (after : List Action) × (failing
          ≡ before ++ a ∷ after)
        × (under "b1" "n1" (run before (run schedule (start true))).batcher ≡ true)
        × (ended "n1" (step a (run before (run schedule (start true)))) ≡ true))
unfolding main_acts batcher_at_start run lookup insert insert_all contains
main_loses_nothing_example =
    main_loses_nothing {Core = String} unset ("core" ∷ []) (start true) "b1" "n1" schedule failing
      refl (tt, tt) refl
