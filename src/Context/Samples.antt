-- ===== src/Context/Samples.antt =====
-- A request with a deadline, and its headers, for core.rs and utils/context.rs.
use flare_server_core.Prelude.{ℕ, suc, ◌≡◌, refl, none, some, List, [], ◌∷◌}
use flare_server_core.Prelude.Texts.{trim, trim_start, trim_end, lacks}
use flare_server_core.Context.{Context, ActorContext, service}
use flare_server_core.Context.Codec.{ctx_to_map, map_to_ctx}
use flare_server_core.Context.Restored.{Restored, map_to_ctx-ctx_to_map}
use flare_server_core.Context.Actors.{who, who-map_to_ctx}
use flare_server_core.Context.Deadlines.{
  Derivation, until, within, trace, derive_all, asked_all, earliest, derive_all-deadline,
}

-- Tokens are numbers here, and each child has the next one.
abbrev next_token : ℕ → ℕ
next_token t = suc t

abbrev robot : ActorContext
robot = record {
  actor_id = "indexer";
  actor_type = service;
  roles = "reader" ∷ "search.admin" ∷ [];
  attributes = ("zone", "z1") ∷ [];
}

abbrev request : Context ℕ
request = record {
  cancel_token = 0;
  deadline = some 900;
  request_id = "req-1";
  trace_id = "";
  user_id = some "u1";
  tenant_id = none;
  device_id = none;
  platform = some "";
  session_id = none;
  data_map = record { actor = some robot; audit = none };
}

map_to_ctx-ctx_to_map_example :
    Restored next_token "new" request (map_to_ctx next_token 5 "new" (ctx_to_map request))
map_to_ctx-ctx_to_map_example = map_to_ctx-ctx_to_map next_token 5 "new" request

who-map_to_ctx_example :
    (b : ActorContext) × ((map_to_ctx next_token 5 "new" (ctx_to_map request)).data_map.actor
      ≡ some b)
    × (who b ≡ who robot)
unfolding trim trim_start trim_end lacks
who-map_to_ctx_example = who-map_to_ctx next_token 5 "new" request robot refl refl refl

abbrev steps : List Derivation
steps = within 100 500 ∷ trace "t" ∷ until 120 2000 ∷ []

derive_all-deadline_example :
    (derive_all next_token steps request).deadline ≡ earliest (some 900) (asked_all steps)
derive_all-deadline_example = derive_all-deadline next_token steps request

sooner : earliest (some 900) (asked_all steps) ≡ some 600
sooner = refl
