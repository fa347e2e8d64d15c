-- ===== src/CacheOptimizer/Suffix.antt =====
-- What the optimizer leaves as it is.
use adrouter_agent.Prelude.{
  ◌==◌, if◌then◌else◌, Bool-cases, length, take, drop, any, filter, take-append-drop, Text, codes,
  starts_with, ℕ, min, ◌≡◌, refl, sym, ◌∙◌, inl, inr, Bool, true, false, not, ◌&&◌, ◌||◌, [], ◌∷◌,
  ◌++◌, arith,
}
use adrouter_agent.CacheOptimizer.{
  OptimizedPrompt, replace_breaks, is_rewrite, PromptInput, optimize_desktop_prompt,
}

-- A text without its line breaks.
abbrev pub is_text_unit : ℕ → Bool
is_text_unit c = not (c == 13) && not (c == 10)

replace_breaks-no_return : (b : Bool) (s : Text) → any (λ c. c == 13) (replace_breaks b s) ≡ false
unfolding replace_breaks
replace_breaks-no_return b [] = refl
replace_breaks-no_return b (c ∷ s) =
    ground (arith, replace_breaks-no_return true s, replace_breaks-no_return false s)

replace_breaks-text :
    (b : Bool) (s : Text) → filter is_text_unit (replace_breaks b s) ≡ filter is_text_unit s
unfolding replace_breaks
replace_breaks-text b [] = refl
replace_breaks-text b (c ∷ s) =
    ground (arith, replace_breaks-text true s, replace_breaks-text false s)

rewritten :
    (a b : Bool) (x y : OptimizedPrompt)
    → (a && b) ≡ true
    → (if not a || not b then x else y).system_prompt ≡ y.system_prompt
rewritten true true x y h = refl
rewritten true false x y h = cc
rewritten false b x y h = cc

left :
    (a b : Bool) (x y : OptimizedPrompt)
    → (a && b) ≡ false
    → (if not a || not b then x else y).system_prompt ≡ x.system_prompt
left true true x y h = cc
left true false x y h = refl
left false b x y h = refl

abbrev pub prefix_end_of : PromptInput → ℕ
prefix_end_of input = min (length input.system_prompt) input.stable_prefix_end

abbrev pub rewrites : PromptInput → Bool
rewrites input = is_rewrite input.mode && starts_with input.model_id (codes "deepseek-")

-- The optimizer rewrites line breaks in the stable prefix alone: the prompt that it gives is a text,
-- which is the prefix but for its line breaks, before the rest of the prompt, unit for unit. If the
-- mode is `prompt-rewrite` and the model's id begins with `deepseek-`, that text has no carriage
-- return; otherwise it is the prefix itself.
pub optimize_desktop_prompt_suffix :
    (byte_length : Text → ℕ) (input : PromptInput)
    → (front : Text) × ((optimize_desktop_prompt byte_length input).system_prompt
        ≡ front ++ drop (prefix_end_of input) input.system_prompt)
      × (filter is_text_unit front
          ≡ filter is_text_unit (take (prefix_end_of input) input.system_prompt))
      × (rewrites input ≡ true → any (λ c. c == 13) front ≡ false)
      × (rewrites input ≡ false → front ≡ take (prefix_end_of input) input.system_prompt)
unfolding optimize_desktop_prompt
optimize_desktop_prompt_suffix byte_length input =
    let prefix = take (prefix_end_of input) input.system_prompt in
    elim (Bool-cases (rewrites input)) [
      | inl e ↦ (
        replace_breaks false prefix,
        rewritten (is_rewrite input.mode) (starts_with input.model_id (codes "deepseek-")) _ _ e,
        replace_breaks-text false prefix,
        λ k. replace_breaks-no_return false prefix,
        λ k. absurd (cc),
      )
      | inr e ↦ (
        prefix,
        left (is_rewrite input.mode) (starts_with input.model_id (codes "deepseek-")) _ _ e
            ∙ sym (take-append-drop (prefix_end_of input) input.system_prompt),
        refl,
        λ k. absurd (cc),
        λ k. refl,
      )
    ]
