-- ===== src/Llm/Cost.antt =====
-- llm/cost.ts. A price is in cents for a million tokens, so that a cost is a whole number of
-- hundred-millionths of a US dollar.
use dymaxion.Prelude.{
  ℕ, ◌+◌, ◌*◌, ◌/◌, Text, text, starts_with, get_or_else, if◌then◌else◌, List, [], ◌∷◌, lookup,
}

pub record ModelPrice : Type 0 where
  pub input_per_m : ℕ
  pub output_per_m : ℕ

abbrev price : ℕ → ℕ → ModelPrice
price i o = record { input_per_m = i; output_per_m = o }

abbrev pub prices : List (Text × ModelPrice)
prices =
    (text "anthropic:claude-opus-4-8", price 1500 7500)
    ∷ (text "anthropic:claude-sonnet-5", price 300 1500)
    ∷ (text "anthropic:claude-haiku-4-5-20251001", price 100 500)
    ∷ (text "openai:gpt-4o", price 250 1000)
    ∷ (text "openai:gpt-4o-mini", price 15 60)
    ∷ (text "openai:gpt-4-turbo", price 1000 3000)
    ∷ (text "google:gemini-2.5-pro", price 125 1000)
    ∷ (text "google:gemini-2.5-flash", price 30 250)
    ∷ (text "azure:gpt-4o-azure", price 250 1000)
    ∷ (text "cohere:command-r-plus", price 250 1000)
    ∷ (text "cohere:command-r", price 15 60)
    ∷ (text "voyage:voyage-3-large", price 18 0)
    ∷ []

unfoldable pub price_for : Text → ModelPrice
price_for model_ref =
    if starts_with model_ref (text "ollama:")
    then price 0 0
    else get_or_else (lookup model_ref prices) (price 300 1500)

unfoldable pub compute_cost_usd : Text → ℕ → ℕ → ℕ
compute_cost_usd model_ref input_tokens output_tokens =
    let p = price_for model_ref in input_tokens * p.input_per_m + output_tokens * p.output_per_m

-- `costUsd.toFixed(4)`, in ten-thousandths of a dollar
unfoldable pub to_fixed4 : ℕ → ℕ
to_fixed4 cost = (cost + 5000) / 10000
