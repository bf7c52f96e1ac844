-- ===== src/Examples/Fixtures.antt =====
-- A fleet, a request and a pinner for the examples.
use pi_smart_router.Prelude.{ℕ, ◌≡◌, refl, String, true, false, none, some, List, [], ◌∷◌}
use pi_smart_router.Types.{
  Text, tool_result, initial, Tier, economical_cloud, frontier_cloud, Message, RoutingRequest,
  SessionPin, ModelProfile,
}
use pi_smart_router.Persistence.MemoryStore.{MemoryStore, new_store}
use pi_smart_router.Pinning.Pinner.{SessionPinner, SessionPinnerConfig, new_pinner}

abbrev pub model : String → Tier → String → ℕ → ℕ → ModelProfile
model id tier provider cost window = record {
  id = id;
  tier = tier;
  provider = provider;
  performance = none;
  pricing = record { fallback_cost_per_1m = cost; quota_cost_per_1m = none };
  limits = some (record { max_input_tokens = some window; max_output_tokens = none });
  healthy = none;
  capabilities = record { reasoning = 500; code_gen = 500; tool_use = 500 };
}

abbrev pub mini : ModelProfile
mini = model "mini" economical_cloud "acme" 100000 1000

abbrev pub nano : ModelProfile
nano = model "nano" economical_cloud "acme" 50000 500

abbrev pub grand : ModelProfile
grand = model "grand" frontier_cloud "acme" 3000000 100000

abbrev pub other : ModelProfile
other = model "other" economical_cloud "zeta" 100000 1000

abbrev pub fleet : List ModelProfile
fleet = mini ∷ nano ∷ grand ∷ other ∷ []

abbrev pub failed_message : Message
failed_message = record { role = "tool"; content = []; is_error = some true; status = none }

abbrev pub request : RoutingRequest
request = record {
  request_id = "r1";
  session_id = "s1";
  prompt_text = [];
  messages = some (failed_message ∷ []);
  turn_type = some tool_result;
  compaction_flag = none;
  force_model_id = none;
  candidate_model_id = none;
  estimated_input_tokens = some 400;
}

abbrev pub large_request : RoutingRequest
large_request = record request { estimated_input_tokens = some 5000 }

abbrev pub pinner_config : SessionPinnerConfig MemoryStore
pinner_config = record {
  tool_result_size_threshold = none;
  store = some (new_store []);
  cache_economics_config = none;
  saar_config = none;
  pin_only_fallback = none;
  context_overflow_safety_margin = none;
  flip_flop_guard = none;
}

abbrev pub fresh_pinner : SessionPinner MemoryStore
fresh_pinner = record {
  pins = [];
  saar_trackers = [];
  flip_flop_guard = record { sessions = []; threshold = 3 };
  tool_result_size_threshold = 2048;
  store = some (new_store []);
  cache_economics_config = none;
  saar_config = none;
  pin_only_fallback = false;
  context_overflow_safety_margin = 900;
  last_fleet = none;
  last_flip_flop_observation = none;
}

abbrev pub pin : SessionPin
pin = record {
  session_id = "s1";
  pinned_model_id = "mini";
  pin_reason = initial;
  has_ever_switched = false;
  consecutive_upstream_errors = 0;
  consecutive_tool_failures = 0;
  last_tool_failure_signature = none;
  created_at = 1;
  updated_at = 1;
}

abbrev pub pinner : SessionPinner MemoryStore
pinner = record fresh_pinner {
  pins = ("s1", pin) ∷ [];
  store = some (record (new_store []) { pins = ("s1", pin) ∷ [] });
}

abbrev pub same_text : Text → Text
same_text text = text

fresh : new_pinner pinner_config ≡ fresh_pinner
unfolding new_pinner
fresh = refl
