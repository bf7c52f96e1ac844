-- ===== src/Routing/Degraded.antt =====
-- src/domain/routing/degraded-route-sandwich.ts: the learned route map, the match of a pattern pack and
-- the resolver of a neural failure. Confidences and estimates are in thousandths. Whether a key has
-- the form of a fingerprint or of a cluster id is a parameter, since both are regular expressions; so
-- is the test of a compiled rule.

pub mod Resolved
pub mod Learned
use pi_smart_router.Prelude.{
  ℕ, ◌+◌, ◌*◌, suc, min, String, Bool, true, false, not, ◌&&◌, ◌||◌, Option, none, some, List, [],
  ◌∷◌, length, find, leb, ltb, is_some, or_else, if◌then◌else◌,
}
use Prim.Native.String.{◌++◌}
use pi_smart_router.Prelude.Table.{Table, get, set}
use pi_smart_router.Types.{Text, ModelProfile, Tier, frontier_cloud, tier_eq, is_healthy}

pub data NeuralFailureKind : Type 0 where
  neural_error neural_budget_exceeded neural_misconfigured : NeuralFailureKind

pub data RoutePath : Type 0 where
  neural learned heuristic safe_default : RoutePath

pub record DegradedRouteConfig : Type 0 where
  pub enabled : Bool
  pub learned_min_confidence : ℕ
  pub learned_max_entries : ℕ
  pub pattern_tool_use_ceiling : ℕ
  pub fail_closed_on_missing_weights : Bool

pub record LearnedRouteKey : Type 0 where
  pub requirement_fingerprint : Option String
  pub cluster_id : Option String

pub record LearnedRouteEntry : Type 0 where
  pub tier : Tier
  pub confidence : ℕ
  pub samples : ℕ

pub record InMemoryLearnedRouteStore : Type 0 where
  pub max_entries : ℕ
  pub by_fingerprint : Table LearnedRouteEntry
  pub by_cluster_id : Table LearnedRouteEntry

-- None where the constructor throws.
unfoldable pub new_learned_store : ℕ → Option InMemoryLearnedRouteStore
new_learned_store max_entries =
    if leb max_entries 0
    then none
    else some (record { max_entries = max_entries; by_fingerprint = []; by_cluster_id = [] })

abbrev entry_of : Table LearnedRouteEntry → Option String → Option LearnedRouteEntry
entry_of entries none = none
entry_of entries (some key) = get key entries

unfoldable pub lookup : InMemoryLearnedRouteStore → LearnedRouteKey → Option LearnedRouteEntry
lookup store key =
    or_else (entry_of store.by_fingerprint key.requirement_fingerprint)
      (entry_of store.by_cluster_id key.cluster_id)

-- An observation of the tier that an entry already has.
abbrev pub confirmed : LearnedRouteEntry → LearnedRouteEntry
confirmed entry = record entry {
  samples = entry.samples + 1;
  confidence = min 900 (500 + (entry.samples + 1) * 100);
}

-- The first observation of a tier, also where it replaces another tier.
abbrev pub first_seen : Tier → LearnedRouteEntry
first_seen tier = record { tier = tier; confidence = 600; samples = 1 }

abbrev pub without_oldest : Table LearnedRouteEntry → Table LearnedRouteEntry
without_oldest [] = []
without_oldest (e ∷ entries) = entries

abbrev pub upsert_entry :
    ℕ → Table LearnedRouteEntry → String → Tier → Option LearnedRouteEntry → Table LearnedRouteEntry
upsert_entry max_entries entries key tier (some existing) =
    set key (if tier_eq existing.tier tier then confirmed existing else first_seen tier) entries
upsert_entry max_entries entries key tier none =
    set key (first_seen tier)
      (if leb max_entries (length entries) then without_oldest entries else entries)

unfoldable pub upsert : ℕ → Table LearnedRouteEntry → String → Tier → Table LearnedRouteEntry
upsert max_entries entries key tier = upsert_entry max_entries entries key tier (get key entries)

abbrev pub upsert_given :
    ℕ → Table LearnedRouteEntry → Option String → Tier → Table LearnedRouteEntry
upsert_given max_entries entries none tier = entries
upsert_given max_entries entries (some key) tier = upsert max_entries entries key tier

abbrev invalid : (String → Bool) → Option String → Bool
invalid valid none = false
invalid valid (some key) = not (valid key)

module _ (is_valid_fingerprint is_valid_cluster_id : String → Bool) where
  -- `record`
  unfoldable pub record_route :
      InMemoryLearnedRouteStore → LearnedRouteKey → Tier → InMemoryLearnedRouteStore
  unfolding upsert
  record_route store key tier =
      if invalid is_valid_fingerprint key.requirement_fingerprint
        || invalid is_valid_cluster_id key.cluster_id
      then store
      else record store {
        by_fingerprint =
            upsert_given store.max_entries store.by_fingerprint key.requirement_fingerprint tier;
        by_cluster_id = upsert_given store.max_entries store.by_cluster_id key.cluster_id tier;
      }

-- `test` is the compiled expression, which is rewound before each use.
pub record CompiledPatternRule : Type 0 where
  pub id : String
  pub test : Text → Bool
  pub tier : Tier
  pub confidence : ℕ

-- `if (!promptText)`
abbrev blank : Text → Bool
blank [] = true
blank (c ∷ cs) = false

-- `matchPatternPack`
unfoldable pub match_pattern_pack : List CompiledPatternRule → Text → Option CompiledPatternRule
match_pattern_pack rules prompt_text =
    if blank prompt_text then none else find (λ r. r.test prompt_text) rules

pub record DegradedRouteInput : Type 0 where
  pub failure : NeuralFailureKind
  pub fleet : List ModelProfile
  pub tool_use_estimate : ℕ
  pub cluster_id : Option String
  pub learned_store : Option InMemoryLearnedRouteStore
  pub pattern_pack : Option (List CompiledPatternRule)
  pub safe_default_model : Option ModelProfile
  pub config : DegradedRouteConfig
  pub prompt_text : Text

pub record DegradedRouteResolution : Type 0 where
  pub route_path : RoutePath
  pub confidence : ℕ
  pub reason_code : String
  pub model : Option ModelProfile
  pub pattern_rule_id : Option String

unfoldable pub first_healthy_model_of_tier : List ModelProfile → Tier → Option ModelProfile
first_healthy_model_of_tier fleet tier = find (λ m. tier_eq m.tier tier && is_healthy m) fleet

unfoldable pub cheaper_tier_suggestion_allowed : Tier → ℕ → ℕ → Bool
cheaper_tier_suggestion_allowed tier tool_use_estimate ceiling =
    tier_eq tier frontier_cloud || leb tool_use_estimate ceiling

-- `degradedPatternReasonCode`
abbrev pub degraded_pattern_reason_code : String → String
degraded_pattern_reason_code id = "degraded_pattern_" ++ id

abbrev pub learned_entry : DegradedRouteInput → Option LearnedRouteEntry
learned_entry input = elim input.learned_store [
  | none ↦ none
  | some store ↦
      lookup store (record { requirement_fingerprint = none; cluster_id = input.cluster_id })
]

abbrev pub pattern_match : DegradedRouteInput → Option CompiledPatternRule
pattern_match input = elim input.pattern_pack [
  | none ↦ none
  | some rules ↦ match_pattern_pack rules input.prompt_text
]

-- The model of a suggested tier, where the suggestion is allowed.
unfoldable pub suggested_model : DegradedRouteInput → Tier → Option ModelProfile
unfolding first_healthy_model_of_tier cheaper_tier_suggestion_allowed
suggested_model input tier =
    if cheaper_tier_suggestion_allowed tier input.tool_use_estimate
      input.config.pattern_tool_use_ceiling
    then first_healthy_model_of_tier input.fleet tier
    else none

abbrev pub by_default : DegradedRouteInput → DegradedRouteResolution
by_default input = record {
  route_path = safe_default;
  confidence = 0;
  reason_code = "degraded_safe_default";
  model = input.safe_default_model;
  pattern_rule_id = none;
}

abbrev by_rule :
    DegradedRouteInput → CompiledPatternRule → Option ModelProfile → DegradedRouteResolution
by_rule input rule none = by_default input
by_rule input rule (some model) = record {
  route_path = heuristic;
  confidence = rule.confidence;
  reason_code = degraded_pattern_reason_code rule.id;
  model = some model;
  pattern_rule_id = some rule.id;
}

abbrev pub from_pattern : DegradedRouteInput → Option CompiledPatternRule → DegradedRouteResolution
from_pattern input none = by_default input
from_pattern input (some rule) = by_rule input rule (suggested_model input rule.tier)

abbrev by_entry :
    DegradedRouteInput → LearnedRouteEntry → Option ModelProfile → DegradedRouteResolution
by_entry input entry none = from_pattern input (pattern_match input)
by_entry input entry (some model) = record {
  route_path = learned;
  confidence = entry.confidence;
  reason_code = "degraded_learned_route";
  model = some model;
  pattern_rule_id = none;
}

abbrev pub from_learned : DegradedRouteInput → Option LearnedRouteEntry → DegradedRouteResolution
from_learned input none = from_pattern input (pattern_match input)
from_learned input (some entry) =
    if ltb entry.confidence input.config.learned_min_confidence
    then from_pattern input (pattern_match input)
    else by_entry input entry (suggested_model input entry.tier)

unfoldable pub resolve_degraded_route : DegradedRouteInput → DegradedRouteResolution
unfolding suggested_model lookup match_pattern_pack
resolve_degraded_route input = from_learned input (learned_entry input)
