-- ===== src/Llm/Providers.antt =====
-- `splitModelRef` and the checks of `resolveModel` in llm/providers.ts. What connects a provider, its
-- SDK with a key from the environment or an OAuth token, is a parameter.
use dymaxion.Prelude.{
  ◌==◌, Text, text, text_eq, Option, none, some, if◌then◌else◌, true, false, not, List, [], ◌∷◌,
  ◌++◌, Result, ok, err, ◌>>=◌, any, lookup,
}
use dymaxion.Llm.Config.{ProviderConfig}
use dymaxion.Llm.World.{LlmError, unprefixed_ref, unknown_provider, disabled_provider, no_factory}

-- The text before the first colon, and the text behind it
unfoldable pub split_colon : Text → Text → Result LlmError (Text × Text)
split_colon before [] = err unprefixed_ref
split_colon before (c ∷ s) = elim (c == b':') [
  | true ↦ ok (before, s)
  | false ↦ split_colon (before ++ c ∷ []) s
]

abbrev pub split_model_ref : Text → Result LlmError (Text × Text)
split_model_ref ref = split_colon [] ref

abbrev pub factories : List Text
factories =
    text "anthropic"
    ∷ text "openai"
    ∷ text "google"
    ∷ text "azure"
    ∷ text "cohere"
    ∷ text "ollama"
    ∷ []

module _ (providers : List (Text × ProviderConfig))
    (connect : Text → Text → Result LlmError (Unit {0})) where
  -- From the configured provider on
  abbrev pub connect_enabled : Text → Text → Option ProviderConfig → Result LlmError (Unit {0})
  connect_enabled provider model_id none = err unknown_provider
  connect_enabled provider model_id (some cfg) =
      if not cfg.enabled
      then err disabled_provider
      else if any (text_eq provider) factories
      then connect provider model_id
      else err no_factory

  unfoldable pub resolve_model : Text → Result LlmError (Unit {0})
  resolve_model ref = split_model_ref ref >>= λ (provider, model_id).
      connect_enabled provider model_id (lookup provider providers)
