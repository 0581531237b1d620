-- ===== src/Controllers/Headroom.antt =====
-- pkg/controllers/headroom: the policy in the ConfigMap (Config), the replica count of a pool
-- (Replicas), the sync of the Deployments (Sync) and the PriorityClass of the pods (Priority).
-- Quantities, fractions and YAML are other packages' code, parameters of the model.
pub mod Config
pub mod Priority
pub mod Replicas
pub mod Template
pub mod Watches
pub mod Sync
use karpenter_provider_rafay.Prelude.{ℤ, ℕ, String, Bool, List, Option}

pub record TolerationYaml : Type 0 where
  pub key : String
  pub operator : String
  pub value : String
  pub effect : String

pub record PoolPolicyYaml : Type 0 where
  pub name : String
  pub cpu : String
  pub memory : String
  pub pod_cpu : String
  pub pod_memory : String
  pub gpu : String
  pub pod_gpu : String
  pub min_pods : ℤ
  pub tolerations : List TolerationYaml

-- resource.Quantity, float64 and sigs.k8s.io/yaml: `none` is an error of theirs. `scaled` is the
-- product of an amount and a fraction, and `ceil_quotient` the rounded quotient of such a product and
-- an amount, `none` where it is greater than every integer that the code compares it with.
pub record Numbers (Quantity Fraction Buffer : Type 0) : Type 0 where
  pub parse_quantity : String → Option Quantity
  pub zero_quantity : Quantity
  pub below : Quantity → Quantity → Bool
  pub negative : Quantity → Bool
  pub is_zero : Quantity → Bool
  pub value : Quantity → ℤ
  pub milli_value : Quantity → ℤ
  pub parse_float : String → Option Fraction
  pub zero_fraction : Fraction
  pub in_percent_range : Fraction → Bool
  pub hundredth : Fraction → Fraction
  pub positive : Fraction → Bool
  pub scaled : ℕ → Fraction → Buffer
  pub positive_buffer : Buffer → Bool
  pub ceil_quotient : Buffer → ℕ → Option ℕ
  pub decode : String → Option (List PoolPolicyYaml)

-- parsedPoolPolicy
pub record PoolPolicy (Quantity Fraction : Type 0) : Type 0 where
  pub name : String
  pub cpu : Fraction
  pub memory : Fraction
  pub gpu : Fraction
  pub pod_cpu : Quantity
  pub pod_memory : Quantity
  pub pod_gpu : Quantity
  pub min_pods : ℕ
  pub tolerations : List TolerationYaml
