-- ===== src/Ndjson/Ends.antt =====
-- The end of a stream against a line feed, src/runtime/ndjson.ts.
use adrouter_agent.Prelude.{
  ltb, ◌==◌, Bool-cases, Text, trim_start, trim, ℕ, ◌≡◌, refl, sym, ap, ◌∙◌, inl, inr, Bool, false,
  ◌&&◌, List, [], ◌∷◌, ◌++◌, arith,
}
use mathlib.Core.List.{append-nil, append_assoc}
use adrouter_agent.Ndjson.{
  Codec, NdjsonParser, max_router_line_bytes, starts_line_feed, prepend, split_lines, pop_line,
  add_trailing, drain, push, finish,
}
use adrouter_agent.Ndjson.Lines.{
  split_feed, split_return, split_inside, split_lines-cons, pop_line-append,
}

-- Whether a text ends in a carriage return, which a line feed behind it would take into its break.
unfoldable pub ends_return : Text → Bool
ends_return [] = false
ends_return (c ∷ []) = c == 13
ends_return (c ∷ d ∷ s) = ends_return (d ∷ s)

break_before_feed :
    (c : ℕ) (s : Text)
    → ends_return (c ∷ s) ≡ false
    → (c == 13 && starts_line_feed (s ++ 10 ∷ [])) ≡ (c == 13 && starts_line_feed s)
unfolding ends_return
break_before_feed c [] h = ground arith
break_before_feed c (d ∷ s) h = refl

ends_return-tail : (c : ℕ) (s : Text) → ends_return (c ∷ s) ≡ false → ends_return s ≡ false
unfolding ends_return
ends_return-tail c [] h = refl
ends_return-tail c (d ∷ s) h = h

prepend-append :
    (c : ℕ) (s : Text) (more : List Text)
    → prepend c (split_lines s ++ more) ≡ prepend c (split_lines s) ++ more
prepend-append c s more = let (x, lines, e) = split_lines-cons s in rw e refl

split_lines-line_feed :
    (s : Text) → ends_return s ≡ false → split_lines (s ++ 10 ∷ []) ≡ split_lines s ++ [] ∷ []
unfolding split_lines
split_lines-line_feed [] h = refl
split_lines-line_feed (c ∷ s) h =
    let rest = split_lines-line_feed s (ends_return-tail c s h) in
    let same = break_before_feed c s h in
    elim (Bool-cases (c == 10)) [
      | inl feed ↦
          rw (split_feed c (s ++ 10 ∷ []) feed, split_feed c s feed) (ap (λ ls. [] ∷ ls) rest)
      | inr plain ↦ elim (Bool-cases (c == 13 && starts_line_feed s)) [
        | inl break ↦
            rw (split_return c (s ++ 10 ∷ []) plain (same ∙ break), split_return c s plain break)
              rest
        | inr inside ↦
            rw (split_inside c (s ++ 10 ∷ []) plain (same ∙ inside), split_inside c s plain inside)
              (ap (prepend c) rest ∙ prepend-append c s ([] ∷ []))
      ]
    ]

pop_line-line_feed :
    (s : Text) → ends_return s ≡ false → pop_line (split_lines (s ++ 10 ∷ [])) ≡ (split_lines s, [])
unfolding pop_line
pop_line-line_feed s h =
    rw (split_lines-line_feed s h)
      (pop_line-append (split_lines s) [] [] ∙ ap (λ ls. (ls, [])) (append-nil (split_lines s)))

-- The end of a stream does what a line feed does: unless the text that is left ends in a carriage
-- return, its last line, which no line break ends, is parsed and counted like every line, a cut
-- event is the malformed event that its line would be, and errors and state are the same. The
-- empty text has no bytes.
pub finish-push :
    (codec : Codec) (chunk : Text) (s : NdjsonParser)
    → codec.byte_length [] ≡ 0
    → ends_return (s.remainder ++ chunk) ≡ false
    → finish codec chunk s ≡ push codec (chunk ++ 10 ∷ []) s
unfolding finish push drain add_trailing trim trim_start
finish-push codec chunk s nothing whole =
    let text = s.remainder ++ chunk in
    let joined : s.remainder ++ (chunk ++ 10 ∷ []) ≡ text ++ 10 ∷ [] =
      sym (append_assoc s.remainder chunk (10 ∷ [])) in
    let small : ltb max_router_line_bytes (codec.byte_length []) ≡ false = ground arith in
    rw (joined, pop_line-line_feed text whole, small) refl
