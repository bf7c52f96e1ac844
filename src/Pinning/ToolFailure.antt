-- ===== src/Pinning/ToolFailure.antt =====
-- src/domain/pinning/tool-failure.ts. `toLowerCase` of the platform is the parameter `lower`.
use pi_smart_router.Prelude.{
  ℕ, String, Bool, true, false, ◌||◌, Option, none, some, List, [], ◌∷◌, any, leb, if◌then◌else◌,
}
use pi_smart_router.Prelude.Texts.{units, includes, has_phrase}
use pi_smart_router.Types.{Text, Message}

abbrev failure_patterns : List String
failure_patterns =
    "error" ∷ "fail" ∷ "exception" ∷ "timed out" ∷ "timeout" ∷ "econnrefused" ∷ "enotfound"
    ∷ "econnreset" ∷ "epipe" ∷ []

abbrev rate_limit_patterns : List String
rate_limit_patterns = "rate limit" ∷ "429" ∷ "too many requests" ∷ "quota exceeded" ∷ []

abbrev auth_denied_patterns : List String
auth_denied_patterns = "permission denied" ∷ "access denied" ∷ []

-- The phrases of the two regular expressions for benign negations.
abbrev negated_phrases : List String
negated_phrases =
    "no error" ∷ "no errors" ∷ "no failure" ∷ "no failures" ∷ "without error" ∷ "without failure"
    ∷ "without a error" ∷ "without a failure" ∷ "without an error" ∷ "without an failure" ∷ []

unfoldable pub includes_some : List String → Text → Bool
unfolding includes units
includes_some patterns text = any (λ p. includes text (units p)) patterns

module _ (lower : Text → Text) where
  unfoldable pub looks_like_failure : Text → Bool
  unfolding includes_some has_phrase units
  looks_like_failure content =
      let text = lower content in
      if any (λ phrase. has_phrase true (units phrase) text) negated_phrases
      then false
      else includes_some failure_patterns text
        || includes_some rate_limit_patterns text
        || includes_some auth_denied_patterns text

  abbrev by_status : Option ℕ → Text → Bool
  by_status (some status) content = leb 400 status
  by_status none content = looks_like_failure content

  unfoldable pub is_tool_failure : Message → Bool
  is_tool_failure message = elim message.is_error [
    | some failed ↦ failed
    | none ↦ by_status message.status message.content
  ]
