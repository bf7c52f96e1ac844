-- ===== src/Pipeline/ToolUse.antt =====
-- The gates of src/domain/pipeline/stage-helpers.ts that the local and the matching stage share: the
-- estimate of tool use, the eligibility for the local tier and the fleet of a tier hint. Estimates
-- and scores are in thousandths; the six expressions that cue tool use, and `trim`, are parameters.
use pi_smart_router.Prelude.{
  ℕ, zero, suc, min, String, Bool, true, false, not, ◌&&◌, ◌||◌, Option, none, some, List, [], ◌∷◌,
  length, filter, leb, if◌then◌else◌,
}
use Prim.Native.String.{◌++◌}
use pi_smart_router.Types.{Text, ModelProfile, Tier, zero_tier, tier_eq, is_healthy}
use pi_smart_router.Pipeline.{
  TriageVerdict, trivial, complex, ClusterMatchResult, ClusterMatchConfidence, high, low,
  no_confidence,
}

-- `clusterReasonCode`
abbrev pub cluster_reason_code : String → String
cluster_reason_code id = "cluster_" ++ id

abbrev is_high : ClusterMatchConfidence → Bool
is_high high = true
is_high low = false
is_high no_confidence = false

-- The id of a high-confidence match of the zero tier.
abbrev pub zero_tier_cluster : Option ClusterMatchResult → Option String
zero_tier_cluster none = none
zero_tier_cluster (some m) =
    if is_high m.confidence && tier_eq m.tier_bias zero_tier then some m.cluster_id else none

abbrev pub is_trivial : Option TriageVerdict → Bool
is_trivial (some trivial) = true
is_trivial _ = false

abbrev pub is_complex : Option TriageVerdict → Bool
is_complex (some complex) = true
is_complex _ = false

abbrev pub reaches : Option ℕ → ℕ → Bool
reaches none threshold = false
reaches (some score) threshold = leb threshold score

abbrev cluster_reason : Option String → Bool → Option String
cluster_reason (some id) eligible = some (cluster_reason_code id)
cluster_reason none true = some "low_intensity_structural"
cluster_reason none false = none

-- `resolveLocalEligible`: the reason, or none where the turn is not eligible.
unfoldable pub resolve_local_eligible :
    Option TriageVerdict → Option ℕ → ℕ → Option ClusterMatchResult → Option String
resolve_local_eligible verdict score threshold cluster =
    if is_trivial verdict
    then some "triage_trivial"
    else cluster_reason (zero_tier_cluster cluster)
        (reaches score threshold && not (is_complex verdict))

abbrev requirement_of : ℕ → ℕ
requirement_of zero = 0
requirement_of (suc zero) = 550
requirement_of (suc (suc zero)) = 750
requirement_of (suc (suc (suc n))) = 900

abbrev is_empty : Text → Bool
is_empty [] = true
is_empty (c ∷ cs) = false

unfoldable pub estimate_cheap_tool_use_requirement : (Text → Text) → List (Text → Bool) → Text → ℕ
estimate_cheap_tool_use_requirement trim cues prompt_text =
    if is_empty prompt_text || is_empty (trim prompt_text)
    then 0
    else requirement_of (length (filter (λ cue. cue prompt_text) cues))

unfoldable pub resolve_local_zero_tool_use_ceiling : ℕ → ℕ → ℕ
resolve_local_zero_tool_use_ceiling capability max_requirement = min capability max_requirement

abbrev pub or_whole : List ModelProfile → List ModelProfile → List ModelProfile
or_whole [] fleet = fleet
or_whole (m ∷ ms) fleet = m ∷ ms

unfoldable pub constrain_fleet_to_tier_hint : List ModelProfile → Tier → List ModelProfile
constrain_fleet_to_tier_hint fleet tier_hint =
    or_whole (filter (λ m. tier_eq m.tier tier_hint && is_healthy m) fleet) fleet
