-- ===== src/Discovery/Tags.antt =====
-- The two uses of the tag filters: the query to the backend and filter_by_tags of discover.rs.
use flare_server_core.Prelude.{String, List, map}
use flare_server_core.Discovery.Instance.{TagFilter}

abbrev filter_keys : List TagFilter → List String
filter_keys filters = map (λ f. f.key) filters
