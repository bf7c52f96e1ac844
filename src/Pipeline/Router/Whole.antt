-- ===== src/Pipeline/Router/Whole.antt =====
-- The pipeline of src/domain/pipeline/router-pipeline.ts with its stages.
use pi_smart_router.Prelude.{ℕ, ◌≡◌, String, false, Option, List, All}
use pi_smart_router.Types.{Text, ModelProfile, RoutingRequest, RoutingDecision}
use pi_smart_router.Persistence.StorePort.{StorePort}
use pi_smart_router.Pinning.Pinner.{SessionPinner}
use pi_smart_router.Routing.ContextFit.{MarginSetting}
use pi_smart_router.Pipeline.{PipelineOptions, Route}
use pi_smart_router.Pipeline.Sound.{Scoped, SoundRun, safe-SoundRun, EstimatorReturns}
use pi_smart_router.Pipeline.Classify.{turn_type_of}
use pi_smart_router.Pipeline.TurnEnvelope.Biased.{run_turn_envelope-Biased}
use pi_smart_router.Pipeline.SessionPinStage.{run_loop_escalation_stage}
use pi_smart_router.Pipeline.SessionPinStage.Sound.{session_pin-SoundRun}
use pi_smart_router.Routing.Prewarm.{SpeculativePrewarmGuard}
use pi_smart_router.Routing.Degraded.{InMemoryLearnedRouteStore}
use pi_smart_router.Pipeline.LocalZero.Gated.{local_zero-SoundRun}
use pi_smart_router.Pipeline.HydraMatch.Sound.{MatcherSound, hydra_match-SoundRun}
use pi_smart_router.Pipeline.Router.{Telemetry, route_exclusive}
use pi_smart_router.Pipeline.Router.Answer.{SoundStage, Answered, route_exclusive-Answered}
use pi_smart_router.Pipeline.Router.Stages.{Environment, stages}
use pi_smart_router.Pipeline.Router.StageSound.{
  hardware-SoundRun, triage-SafeRun, cloud_fallback-SafeRun, context_fit-SafeRun,
  safe_default-SafeRun, overflow-SoundRun, turn_envelope-SoundRun,
}

module _ (port : StorePort) where
  open port use {Store}

  -- The runs that are arguments of the pipeline keep to the fleet, and the matcher selects healthy models
  -- of the fleet that it is given.
  abbrev pub OthersSound : List ModelProfile → Environment Store → Type 0
  OthersSound fleet env =
      SoundStage port fleet ("typed_judgment", env.typed_judgment)
      × SoundStage port fleet ("low_intensity", env.low_intensity)
      × MatcherSound env.hydra.hydra_matcher

  loop_escalation-SoundRun :
      (env : Environment Store) (options : PipelineOptions) (request : RoutingRequest)
      (fleet : List ModelProfile) (now : ℕ) (route : Route Store)
      → Scoped fleet route.context
      → SoundRun fleet (run_loop_escalation_stage port env.lower env.trim options request now route)
  unfolding run_loop_escalation_stage
  loop_escalation-SoundRun env options request fleet now route h = h

  stages-Sound :
      (env : Environment Store) (setting : MarginSetting) (options : PipelineOptions)
      (request : RoutingRequest) (fleet : List ModelProfile)
      → OthersSound fleet env
      → All (SoundStage port fleet) (stages port env setting options request)
  unfolding stages
  stages-Sound env setting options request fleet (judged, low, matcher) =
      let planned = env.planning_signal in
      let spawned = env.subagent_signal in
      let turn = turn_type_of planned spawned request in
      (
        λ now route h. hardware-SoundRun fleet env.hardware route h,
        (
          λ now route h. loop_escalation-SoundRun env options request fleet now route h,
          (
            λ now route h.
                (turn_envelope-SoundRun fleet options request turn route _ h
                  (run_turn_envelope-Biased planned spawned options request route)),
            (
              judged,
              (
                λ now route h.
                    safe-SoundRun fleet _
                      (context_fit-SafeRun fleet setting options request route h),
                (
                  low,
                  (
                    λ now route h.
                        (session_pin-SoundRun port planned spawned fleet setting options request now
                          route h),
                    (
                      λ now route h.
                          safe-SoundRun fleet _ (triage-SafeRun fleet env.triage request route h),
                      (
                        λ now route h. local_zero-SoundRun fleet env.local_zero request route h,
                        (
                          λ now route h.
                              safe-SoundRun fleet _ (cloud_fallback-SafeRun fleet request route h),
                          (
                            λ now route h.
                                (hydra_match-SoundRun fleet env.hydra setting options request route
                                  matcher h),
                            (
                              λ now route h.
                                  safe-SoundRun fleet _
                                    (safe_default-SafeRun fleet setting options request route h),
                              (
                                λ now route h.
                                    (overflow-SoundRun fleet setting options request route h),
                                tt,
                              ),
                            ),
                          ),
                        ),
                      ),
                    ),
                  ),
                ),
              ),
            ),
          ),
        ),
      )

  -- Every route of the pipeline ends with a decision and never with an error, where the error
  -- telemetry and the cost estimator return, the two stages that are arguments keep to the fleet, and
  -- the matcher selects, by its id, a healthy model of the fleet that it is given, if any. The decision
  -- names a healthy member of the fleet or the placeholder, and where there is a pinner the session is
  -- pinned to the decided model, unless the reason code is one of the seven exempt ones or the
  -- turn_envelope stage decided.
  pub pipeline-Answered :
      (telemetry : Telemetry) (setting : MarginSetting) (options : PipelineOptions)
      (request : RoutingRequest) (fleet : List ModelProfile) (env : Environment Store)
      (normal folded : String → Text) (clock : ℕ → ℕ) (p : Option (SessionPinner Store))
      (learned : Option InMemoryLearnedRouteStore) (guard : SpeculativePrewarmGuard)
      → ((failed : String) (decision : RoutingDecision)
          → telemetry.emit_pipeline_error_throws request failed decision ≡ false)
      → EstimatorReturns options request
      → OthersSound fleet env
      → Answered port fleet request.session_id (
          route_exclusive port telemetry setting options request normal folded
            (stages port env setting options request)
            fleet
            clock
            p
            learned
            guard)
  pipeline-Answered telemetry setting options request fleet env normal folded clock p learned guard
        quiet returns others =
      route_exclusive-Answered port telemetry setting options request fleet quiet returns normal
        folded (stages port env setting options request) clock p learned guard
        (stages-Sound env setting options request fleet others)
