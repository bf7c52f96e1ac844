-- ===== src/Pipeline/Classify.antt =====
-- src/domain/triage/turn-envelope.ts, and `enrichRequestWithSaarCandidate` of
-- src/domain/pipeline/stage-helpers.ts. Whether one of the planning or of the subagent patterns
-- matches a text is a parameter, since the patterns are the platform's regular expressions.
use pi_smart_router.Prelude.{
  ℕ, ◌-◌, Bool, ◌&&◌, Option, none, some, List, [], ◌∷◌, length, drop, any, filter, get_or, is_some,
  leb, str_eq, if◌then◌else◌,
}
use pi_smart_router.Types.{
  Text, Message, TurnType, planning, tool_result, subagent, main_loop, unknown, Tier, tier_eq,
  ModelProfile, RoutingRequest, is_healthy, given,
}
use pi_smart_router.Pinning.SubRoute.{select_lowest_cost_model}
use pi_smart_router.Pipeline.{turn_tier}

abbrev pub tool_result_size_threshold : ℕ
tool_result_size_threshold = 50000

-- `messages[messages.length - 1]`
abbrev pub last : Message → List Message → Message
last m [] = m
last m (n ∷ ms) = last n ms

unfoldable pub is_tool_result : Message → Bool
is_tool_result message =
    str_eq message.role "tool" && leb (length message.content) tool_result_size_threshold

-- `messages.slice(Math.max(0, messages.length - count))`
unfoldable pub recent_window : List Message → ℕ → List Message
recent_window messages count = drop (length messages - count) messages

-- The models of a tier that may be routed to.
abbrev pub tier_candidates : Tier → List ModelProfile → List ModelProfile
tier_candidates tier fleet = filter (λ m. tier_eq m.tier tier && is_healthy m) fleet

abbrev as_candidate : RoutingRequest → Option ModelProfile → RoutingRequest
as_candidate request none = request
as_candidate request (some model) = record request { candidate_model_id = some model.id }

module _ (planning_signal subagent_signal : Text → Bool) where
  unfoldable pub classify_turn_envelope : Option (List Message) → TurnType
  unfolding is_tool_result recent_window
  classify_turn_envelope none = unknown
  classify_turn_envelope (some []) = unknown
  classify_turn_envelope (some (m ∷ ms)) =
      if is_tool_result (last m ms)
      then tool_result
      else if any (λ n. planning_signal n.content) (recent_window (m ∷ ms) 3)
      then planning
      else if any (λ n. subagent_signal n.content) (recent_window (m ∷ ms) 3)
      then subagent
      else main_loop

  -- `request.turn_type ?? classifyTurnEnvelope(request.messages)`
  abbrev pub turn_type_of : RoutingRequest → TurnType
  turn_type_of request = get_or request.turn_type (classify_turn_envelope request.messages)

  abbrev enrich_for : RoutingRequest → List ModelProfile → Option Tier → RoutingRequest
  enrich_for request fleet none = request
  enrich_for request fleet (some tier) =
      as_candidate request (select_lowest_cost_model (tier_candidates tier fleet))

  unfoldable pub enrich_request_with_saar_candidate :
      RoutingRequest → List ModelProfile → RoutingRequest
  enrich_request_with_saar_candidate request fleet =
      if is_some (given request.candidate_model_id)
      then request
      else enrich_for request fleet (turn_tier (turn_type_of request))
