-- ===== src/Checks/Prompts.antt =====
-- The prompt's line endings at a concrete input.
use adrouter_agent.Prelude.{
  ◌==◌, length, take, drop, any, filter, Text, codes, same_text, lower_unit, to_lower_case,
  starts_with, is_space, trim_start, trim, ◌≡◌, refl, true, false, some, [], ◌∷◌, ◌++◌,
}
use adrouter_agent.CacheOptimizer.{
  mode_stats_only, mode_prompt_rewrite, source_invalid, as_mode, resolve_cache_optimization_mode,
  replace_breaks, PromptInput, optimize_desktop_prompt,
}
use adrouter_agent.CacheOptimizer.Suffix.{
  is_text_unit, prefix_end_of, rewrites, optimize_desktop_prompt_suffix,
}

-- `a\r\nb\r` is stable, `\r\nc` is not.
abbrev prompt_input : PromptInput
prompt_input = record {
  system_prompt = b'a' ∷ 13 ∷ 10 ∷ b'b' ∷ 13 ∷ 13 ∷ 10 ∷ b'c' ∷ [];
  stable_prefix_end = 5;
  model_id = codes "deepseek-chat";
  mode = mode_prompt_rewrite;
}

rewritten_prompt :
    (optimize_desktop_prompt length prompt_input).system_prompt
    ≡ b'a' ∷ 10 ∷ b'b' ∷ 10 ∷ 13 ∷ 10 ∷ b'c' ∷ []
unfolding optimize_desktop_prompt replace_breaks starts_with
rewritten_prompt = refl

invalid_mode :
    resolve_cache_optimization_mode (some (codes " ON "))
    ≡ record { mode = mode_stats_only; source = source_invalid }
unfolding resolve_cache_optimization_mode as_mode to_lower_case lower_unit trim trim_start is_space
    same_text
invalid_mode = refl

optimize_desktop_prompt_suffix_example :
    (front : Text) × ((optimize_desktop_prompt length prompt_input).system_prompt
      ≡ front ++ drop (prefix_end_of prompt_input) prompt_input.system_prompt)
    × (filter is_text_unit front
        ≡ filter is_text_unit (take (prefix_end_of prompt_input) prompt_input.system_prompt))
    × (rewrites prompt_input ≡ true → any (λ c. c == 13) front ≡ false)
    × (rewrites prompt_input ≡ false
        → front ≡ take (prefix_end_of prompt_input) prompt_input.system_prompt)
optimize_desktop_prompt_suffix_example = optimize_desktop_prompt_suffix length prompt_input
