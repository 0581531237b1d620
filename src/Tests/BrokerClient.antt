-- ===== src/Tests/BrokerClient.antt =====
-- Calls of the broker client whose first connection fails as unavailable.
use karpenter_provider_rafay.Prelude.{
  ℕ, String, ◌≡◌, [], ◌∷◌, refl, Option, none, some, nat_eq, if◌then◌else◌,
}
use karpenter_provider_rafay.Rafay.Errors.{BrokerError, unexpected_response}
use karpenter_provider_rafay.Rafay.BrokerClient.{
  Outcome, ok, error, Client, new_client, call_broker,
}
use karpenter_provider_rafay.Rafay.BrokerClient.Retries.{IsRetried, call_broker_retries}

abbrev dials : ℕ → Option String
dials n = none

abbrev code_of : BrokerError → Option ℕ
code_of e = some 14

abbrev call : ℕ → Outcome String
call n = if nat_eq n 0 then error unexpected_response else ok "b1"

-- The first connection is closed, and the call made again on the second one.
abbrev twice : Outcome String × Client
twice = call_broker dials code_of call new_client

call_broker_retries_example : IsRetried dials code_of call new_client twice
call_broker_retries_example = call_broker_retries dials code_of call new_client tt

second_answers : (twice.0 ≡ ok "b1") × (twice.1.calls ≡ 1 ∷ 0 ∷ []) × (twice.1.closed ≡ 0 ∷ [])
unfolding call_broker
second_answers = (refl, refl, refl)
