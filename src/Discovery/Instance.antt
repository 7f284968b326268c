-- ===== src/Discovery/Instance.antt =====
-- flare-core-transport/src/discovery/instance.rs, and the tag filters of discovery/config.rs and
-- discovery/discover.rs. A socket address stands as its text, and `==` on hash maps compares the
-- number of entries and then each entry of the first with the second.
use flare_server_core.Prelude.{
  ℕ, ◌==◌, Bool, true, false, ◌&&◌, Option, none, some, String, List, [], ◌∷◌, all, filter, length,
  StringMap, get, insert, values, contains_key, str_eq, format,
}

pub record InstanceMetadata : Type 0 where
  pub region : Option String
  pub zone : Option String
  pub environment : Option String
  pub custom : StringMap String

pub record ServiceInstance : Type 0 where
  pub service_type : String
  pub instance_id : String
  pub address : String
  pub namespace : Option String
  pub version : Option String
  pub tags : StringMap String
  pub metadata : InstanceMetadata
  pub healthy : Bool
  pub weight : ℕ

abbrev no_metadata : InstanceMetadata
no_metadata = record { region = none; zone = none; environment = none; custom = [] }

-- ServiceInstance::new
unfoldable pub new_instance : String → String → String → ServiceInstance
new_instance service_type instance_id address = record {
  service_type = service_type;
  instance_id = instance_id;
  address = address;
  namespace = none;
  version = none;
  tags = [];
  metadata = no_metadata;
  healthy = true;
  weight = 100;
}

-- ServiceInstance::with_namespace
unfoldable pub with_namespace : ServiceInstance → String → ServiceInstance
with_namespace i namespace = record i { namespace = some namespace }

-- ServiceInstance::with_version
unfoldable pub with_version : ServiceInstance → String → ServiceInstance
with_version i version = record i { version = some version }

-- ServiceInstance::with_tag
unfoldable pub with_tag : ServiceInstance → String → String → ServiceInstance
with_tag i key value = record i { tags = insert key value i.tags }

-- ServiceInstance::with_weight
unfoldable pub with_weight : ServiceInstance → ℕ → ServiceInstance
with_weight i weight = record i { weight = weight }

-- ServiceInstance::with_health
unfoldable pub with_health : ServiceInstance → Bool → ServiceInstance
with_health i healthy = record i { healthy = healthy }

-- ServiceInstance::to_grpc_uri
unfoldable pub to_grpc_uri : ServiceInstance → String
to_grpc_uri i = format ("http://" ∷ i.address ∷ [])

-- A text that is wanted, where the other is one.
abbrev is_text : String → Option String → Bool
is_text v none = false
is_text v (some w) = str_eq w v

-- ServiceInstance::matches_tags
unfoldable pub matches_tags : ServiceInstance → StringMap String → Bool
matches_tags i filters = all (λ f. is_text f.1 (get f.0 i.tags)) filters

-- ServiceInstance::matches_version
unfoldable pub matches_version : ServiceInstance → Option String → Bool
matches_version i none = true
matches_version i (some v) = is_text v i.version

-- ServiceInstance::matches_namespace
unfoldable pub matches_namespace : ServiceInstance → Option String → Bool
matches_namespace i none = true
matches_namespace i (some ns) = is_text ns i.namespace

option_eq : Option String → Option String → Bool
option_eq none none = true
option_eq (some a) (some b) = str_eq a b
option_eq _ _ = false

map_eq : StringMap String → StringMap String → Bool
map_eq m n = length m == length n && all (λ e. is_text e.1 (get e.0 n)) m

bool_eq : Bool → Bool → Bool
bool_eq true b = b
bool_eq false true = false
bool_eq false false = true

metadata_eq : InstanceMetadata → InstanceMetadata → Bool
unfolding option_eq map_eq
metadata_eq a b =
    option_eq a.region b.region
    && option_eq a.zone b.zone
    && option_eq a.environment b.environment
    && map_eq a.custom b.custom

-- The derived `==`.
unfoldable pub instance_eq : ServiceInstance → ServiceInstance → Bool
unfolding option_eq map_eq bool_eq metadata_eq
instance_eq a b =
    str_eq a.service_type b.service_type
    && str_eq a.instance_id b.instance_id
    && str_eq a.address b.address
    && option_eq a.namespace b.namespace
    && option_eq a.version b.version
    && map_eq a.tags b.tags
    && metadata_eq a.metadata b.metadata
    && bool_eq a.healthy b.healthy
    && a.weight == b.weight

pub record TagFilter : Type 0 where
  pub key : String
  pub value : Option String
  pub pattern : Option String

-- A filter without a value is left out.
unfoldable pub add_filter : String → Option String → StringMap String → StringMap String
add_filter key none m = m
add_filter key (some v) m = insert key v m

unfoldable pub tag_filters_from : List TagFilter → StringMap String → StringMap String
unfolding add_filter
tag_filters_from [] m = m
tag_filters_from (f ∷ fs) m = tag_filters_from fs (add_filter f.key f.value m)

unfoldable pub not_empty : StringMap String → Option (StringMap String)
not_empty [] = none
not_empty (e ∷ m) = some (e ∷ m)

-- tag_filters_to_map
unfoldable pub tag_filters_to_map : List TagFilter → Option (StringMap String)
unfolding tag_filters_from not_empty
tag_filters_to_map filters = not_empty (tag_filters_from filters [])

-- The test of one filter.
unfoldable pub has_tag : ServiceInstance → String → Option String → Bool
has_tag i key none = contains_key key i.tags
has_tag i key (some v) = is_text v (get key i.tags)

unfoldable pub passes : ServiceInstance → TagFilter → Bool
unfolding has_tag
passes i f = has_tag i f.key f.value

-- ServiceDiscover::filter_by_tags
unfoldable pub filter_by_tags : StringMap ServiceInstance → List TagFilter → List ServiceInstance
unfolding passes
filter_by_tags instances filters = filter (λ i. all (passes i) filters) (values instances)
