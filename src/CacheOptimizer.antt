-- ===== src/CacheOptimizer.antt =====
-- The prompt's line endings, src/runtime/cache-optimizer.ts. The environment's value is an argument,
-- and so is `Buffer.byteLength` in UTF-8. A negative end of the prefix reads as 0.
pub mod Suffix
use adrouter_agent.Prelude.{
  ◌==◌, if◌then◌else◌, length, take, drop, Text, codes, same_text, to_lower_case, starts_with, trim,
  ℕ, min, Bool, true, false, not, ◌&&◌, ◌||◌, Option, none, some, [], ◌∷◌, ◌++◌,
}

pub data CacheMode : Type 0 where
  mode_off mode_stats_only mode_prompt_rewrite : CacheMode

pub data CacheSource : Type 0 where
  source_default source_environment source_invalid : CacheSource

pub record CacheResolution : Type 0 where
  pub mode : CacheMode
  pub source : CacheSource

pub record OptimizedPrompt : Type 0 where
  pub system_prompt : Text
  pub mode : CacheMode
  pub eligible : Bool
  pub changed : Bool
  pub stable_prefix_bytes : ℕ

unfoldable pub as_mode : Text → Option CacheMode
as_mode t =
    if same_text t (codes "off")
    then some mode_off
    else if same_text t (codes "stats-only")
    then some mode_stats_only
    else if same_text t (codes "prompt-rewrite")
    then some mode_prompt_rewrite
    else none

unfoldable pub resolve_cache_optimization_mode : Option Text → CacheResolution
resolve_cache_optimization_mode none = record { mode = mode_stats_only; source = source_default }
resolve_cache_optimization_mode (some raw) = elim (as_mode (to_lower_case (trim raw))) [
  | none ↦ record { mode = mode_stats_only; source = source_invalid }
  | some mode ↦ record { mode = mode; source = source_environment }
]

-- `replace(/\r\n?/g, '\n')`, behind a carriage return or not.
unfoldable pub replace_breaks : Bool → Text → Text
replace_breaks after_return [] = []
replace_breaks after_return (c ∷ s) =
    let behind_return = replace_breaks true s in
    let behind_other = replace_breaks false s in
    if c == 13
    then 10 ∷ behind_return
    else if c == 10 && after_return
    then behind_other
    else c ∷ behind_other

abbrev pub is_rewrite : CacheMode → Bool
is_rewrite mode_off = false
is_rewrite mode_stats_only = false
is_rewrite mode_prompt_rewrite = true

pub record PromptInput : Type 0 where
  pub system_prompt : Text
  pub stable_prefix_end : ℕ
  pub model_id : Text
  pub mode : CacheMode

unfoldable pub optimize_desktop_prompt : (Text → ℕ) → PromptInput → OptimizedPrompt
optimize_desktop_prompt byte_length input =
    let prefix_end = min (length input.system_prompt) input.stable_prefix_end in
    let eligible = starts_with input.model_id (codes "deepseek-") in
    let stable_prefix = take prefix_end input.system_prompt in
    let canonical_prefix = replace_breaks false stable_prefix in
    let system_prompt = canonical_prefix ++ drop prefix_end input.system_prompt in
    if not (is_rewrite input.mode) || not eligible
    then record {
      system_prompt = input.system_prompt;
      mode = input.mode;
      eligible = eligible;
      changed = false;
      stable_prefix_bytes = byte_length stable_prefix;
    }
    else record {
      system_prompt = system_prompt;
      mode = input.mode;
      eligible = eligible;
      changed = not (same_text system_prompt input.system_prompt);
      stable_prefix_bytes = byte_length canonical_prefix;
    }
