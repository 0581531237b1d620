-- ===== src/Kube.antt =====
-- The Kubernetes and Karpenter objects, as far as the provider reads and writes them. They are
-- types of other repositories: a record has the fields that this one uses.
-- A creation time is a number of seconds, as the API server stores it.
use karpenter_provider_rafay.Prelude.{
  ℕ, String, Bool, List, Option, Dict, lookup, or_else, keep, ◌==◌,
}

pub record NodeClassRef : Type 0 where
  pub group : String
  pub kind : String
  pub name : String

pub record NodeClaim : Type 0 where
  pub name : String
  pub uid : String
  pub labels : Dict String
  pub annotations : Dict String
  pub node_class_ref : Option NodeClassRef
  -- status.providerID
  pub provider_id : String
  -- the deletion timestamp is set
  pub deleting : Bool
  pub created : ℕ

pub record Node : Type 0 where
  pub name : String
  pub labels : Dict String
  -- spec.providerID
  pub provider_id : String
  -- the Ready condition is True
  pub ready : Bool
  pub deleting : Bool
  pub created : ℕ

-- m[k] of a Go map of strings: the empty string where the key is missing.
abbrev pub label : String → Dict String → String
label k m = or_else (lookup k m) ""

-- The answer of the API server, or of the cache, to a List call.
pub data Listing (A : Type 0) : Type 0 where
  listed : List A → Listing A
  list_error : String → Listing A

-- List with client.MatchingLabels{k: v}, for a value that is not empty.
unfoldable pub matching_label : String → String → List Node → List Node
matching_label k v nodes = keep (λ n. label k n.labels == v) nodes

abbrev pub node_pool_label_key : String
node_pool_label_key = "karpenter.sh/nodepool"

abbrev pub label_instance_type : String
label_instance_type = "node.kubernetes.io/instance-type"
