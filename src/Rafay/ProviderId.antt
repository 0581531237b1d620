-- ===== src/Rafay/ProviderId.antt =====
-- pkg/rafay/providerid.go: building and parsing `rafay://<nodepoolname>/<sku_name>/<hostname>`.
pub mod RoundTrip
use Prim.Native.Char.{Char}
use Prim.Native.String.{◌++◌}
use karpenter_provider_rafay.Prelude.{
  String, ◌||◌, Option, none, some, ◌==◌, if◌then◌else◌, has_prefix, trim_prefix, cut,
}

abbrev pub provider_id_prefix : String
provider_id_prefix = "rafay://"

unfoldable pub build_provider_id : String → String → String → String
build_provider_id node_pool_name sku_name hostname =
    if node_pool_name == "" || (sku_name == "" || hostname == "")
    then ""
    else provider_id_prefix ++ (node_pool_name ++ ("/" ++ (sku_name ++ ("/" ++ hostname))))

abbrev pub slash : Char
slash = "/"

-- `len(parts) != 2 || parts[0] == "" || parts[1] == ""`
unfoldable pub parts_of : Option (String × String) → Option (String × String)
parts_of none = none
parts_of (some (pool, rest)) = if pool == "" || rest == "" then none else some (pool, rest)

-- `none` is the error "invalid rafay provider ID".
unfoldable pub parse_provider_id : String → Option (String × String)
unfolding parts_of has_prefix trim_prefix cut
parse_provider_id provider_id =
    if has_prefix provider_id provider_id_prefix
    then parts_of (cut slash (trim_prefix provider_id provider_id_prefix))
    else none
