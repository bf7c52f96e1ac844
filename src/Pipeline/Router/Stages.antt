-- ===== src/Pipeline/Router/Stages.antt =====
-- The stages of `RouterPipeline` in src/domain/pipeline/router-pipeline.ts, in their order. The runs of
-- `typed_judgment` and `low_intensity` are arguments.
use pi_smart_router.Prelude.{ℕ, Bool, Option, List, [], ◌∷◌}
use pi_smart_router.Types.{Text, RoutingRequest}
use pi_smart_router.Persistence.StorePort.{StorePort}
use pi_smart_router.Routing.ContextFit.{MarginSetting}
use pi_smart_router.Pipeline.{PipelineOptions, HardwareProbeResult, TriageResult, Route, StageRun}
use pi_smart_router.Pipeline.Overflow.{
  run_context_overflow_fallback, run_safe_default, run_context_fit, run_hardware_probe,
}
use pi_smart_router.Pipeline.TurnEnvelope.{run_turn_envelope}
use pi_smart_router.Pipeline.SessionPinStage.{run_loop_escalation_stage, run_session_pin}
use pi_smart_router.Pipeline.Triage.{run_triage, run_triage_cloud_fallback}
use pi_smart_router.Pipeline.LocalZero.{LocalZeroOptions, run_local_zero}
use pi_smart_router.Pipeline.HydraMatch.{HydraOptions, run_hydra_match}
use pi_smart_router.Pipeline.Router.{NamedStage}

-- What the stages call outside of them, and the platform's regular expressions and text functions.
pub record Environment (Store : Type 0) : Type 0 where
  pub lower : Text → Text
  pub trim : Text → Text
  pub planning_signal : Text → Bool
  pub subagent_signal : Text → Bool
  pub hardware : Option (Option HardwareProbeResult)
  pub triage : TriageResult
  pub typed_judgment : ℕ → Route Store → StageRun Store
  pub low_intensity : ℕ → Route Store → StageRun Store
  pub local_zero : LocalZeroOptions
  pub hydra : HydraOptions

module _ (port : StorePort) where
  open port use {Store}

  -- `this.stages` of the constructor.
  unfoldable pub stages :
      Environment Store → MarginSetting → PipelineOptions → RoutingRequest → List (NamedStage port)
  stages env setting options request =
      ("hardware_probe", λ now route. run_hardware_probe env.hardware route)
      ∷ (
        "loop_escalation",
        λ now route. run_loop_escalation_stage port env.lower env.trim options request now route,
      )
      ∷ (
        "turn_envelope",
        λ now route.
            run_turn_envelope env.planning_signal env.subagent_signal options request route,
      )
      ∷ ("typed_judgment", env.typed_judgment)
      ∷ ("context_fit", λ now route. run_context_fit setting options request route)
      ∷ ("low_intensity", env.low_intensity)
      ∷ (
        "session_pin",
        λ now route.
            run_session_pin port env.planning_signal env.subagent_signal setting options request now
              route,
      )
      ∷ ("triage", λ now route. run_triage env.triage request route)
      ∷ ("local_zero", λ now route. run_local_zero env.local_zero request route)
      ∷ ("triage_cloud_fallback", λ now route. run_triage_cloud_fallback request route)
      ∷ ("hydra_match", λ now route. run_hydra_match env.hydra setting options request route)
      ∷ ("safe_default", λ now route. run_safe_default setting options request route)
      ∷ (
        "context_overflow_fallback",
        λ now route. run_context_overflow_fallback setting options request route,
      )
      ∷ []
