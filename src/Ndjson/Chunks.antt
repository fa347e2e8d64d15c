-- ===== src/Ndjson/Chunks.antt =====
-- However a stream is cut into chunks, src/runtime/ndjson.ts.
use mathlib.Core.List.{append-nil, append_assoc}
use adrouter_agent.Prelude.{
  ltb, Bool-cases, Sum-cases, Text, ◌≡◌, refl, sym, ap, subst, ◌∙◌, ◌⊎◌, inl, inr, false, List, [],
  ◌∷◌, ◌++◌, arith,
}
use adrouter_agent.Ndjson.{
  Codec, RouterStreamLimitError, ParsedNdjson, StreamCounters, NdjsonParser, max_router_line_bytes,
  split_lines, pop_line, Outcome, skipped, event, fault, process_line, add_outcome, Counted,
  process_lines, nothing_parsed, add_trailing, drain, push,
}
use adrouter_agent.Ndjson.Lines.{pop_line-split_lines}

-- The lines go on where the first ones ended.
abbrev continue_lines : Codec → List Text → Counted → Counted
continue_lines codec ys (t, inl error) = (t, inl error)
continue_lines codec ys (t, inr parsed) = process_lines codec ys t parsed

process_lines-append :
    (codec : Codec) (xs ys : List Text) (s : StreamCounters) (parsed : ParsedNdjson)
    → process_lines codec (xs ++ ys) s parsed
      ≡ continue_lines codec ys (process_lines codec xs s parsed)
unfolding process_lines
process_lines-append codec [] ys s parsed = refl
process_lines-append codec (x ∷ xs) ys s parsed = elim (Sum-cases (process_line codec x s).1) [
  | inl (error, e) ↦ rw (e, process_lines) refl
  | inr (outcome, e) ↦
      rw (e, process_lines)
        (process_lines-append codec xs ys (process_line codec x s).0 (add_outcome outcome parsed))
]

abbrev pub join : ParsedNdjson → ParsedNdjson → ParsedNdjson
join p q = record { events = p.events ++ q.events; errors = p.errors ++ q.errors }

abbrev join_result :
    ParsedNdjson → RouterStreamLimitError ⊎ ParsedNdjson → RouterStreamLimitError ⊎ ParsedNdjson
join_result p (inl error) = inl error
join_result p (inr q) = inr (join p q)

add_outcome-join :
    (outcome : Outcome) (p q : ParsedNdjson)
    → add_outcome outcome (join p q) ≡ join p (add_outcome outcome q)
add_outcome-join skipped p q = refl
add_outcome-join (event e) p q = rw (append_assoc p.events q.events (e ∷ [])) refl
add_outcome-join (fault f) p q = rw (append_assoc p.errors q.errors (f ∷ [])) refl

process_lines-join :
    (codec : Codec) (xs : List Text) (s : StreamCounters) (p q : ParsedNdjson)
    → process_lines codec xs s (join p q)
      ≡ ((process_lines codec xs s q).0, join_result p (process_lines codec xs s q).1)
unfolding process_lines
process_lines-join codec [] s p q = refl
process_lines-join codec (x ∷ xs) s p q = elim (Sum-cases (process_line codec x s).1) [
  | inl (error, e) ↦ rw (e, process_lines) refl
  | inr (outcome, e) ↦
      rw (e, process_lines, add_outcome-join outcome p q)
        (process_lines-join codec xs (process_line codec x s).0 p (add_outcome outcome q))
]

process_lines-after :
    (codec : Codec) (xs : List Text) (s t : StreamCounters) (p q : ParsedNdjson)
    → process_lines codec xs s nothing_parsed ≡ (t, inr q)
    → process_lines codec xs s p ≡ (t, inr (join p q))
process_lines-after codec xs s t p q h =
    let nothing : p ≡ join p nothing_parsed = rw (append-nil p.events, append-nil p.errors) refl in
    ap (process_lines codec xs s) nothing
    ∙ rw (process_lines-join codec xs s p nothing_parsed, h) refl

-- What a drain finds when nothing is too large.
drain_result :
    (codec : Codec) (s : NdjsonParser) (t : NdjsonParser) (parsed : ParsedNdjson)
    → drain codec false s ≡ (t, inr parsed)
    → (ltb max_router_line_bytes (codec.byte_length t.remainder) ≡ false)
      × (t.remainder ≡ (pop_line (split_lines s.remainder)).1)
      × (process_lines codec (pop_line (split_lines s.remainder)).0 s.counters nothing_parsed
          ≡ (t.counters, inr parsed))
unfolding drain add_trailing
drain_result codec s t parsed h =
    let popped = pop_line (split_lines s.remainder) in
    elim (Bool-cases (ltb max_router_line_bytes (codec.byte_length popped.1))) [
      | inl large ↦ absurd (ground arith)
      | inr fits ↦ elim (Sum-cases (process_lines codec popped.0 s.counters nothing_parsed).1) [
        | inl (error, e) ↦ absurd (ground arith)
        | inr (outcome, e) ↦ (ground arith, ground arith, ground arith)
      ]
    ]

drain_ok :
    (codec : Codec) (s : NdjsonParser) (t : NdjsonParser) (parsed : ParsedNdjson)
    → ltb max_router_line_bytes (codec.byte_length t.remainder) ≡ false
    → t.remainder ≡ (pop_line (split_lines s.remainder)).1
    → process_lines codec (pop_line (split_lines s.remainder)).0 s.counters nothing_parsed
      ≡ (t.counters, inr parsed)
    → drain codec false s ≡ (t, inr parsed)
unfolding drain add_trailing
drain_ok codec s t parsed fits rest lines =
    let small = subst (λ r. ltb max_router_line_bytes (codec.byte_length r) ≡ false) rest fits in
    rw (small, lines) (ap (λ r. (record t { remainder = r }, inr parsed)) (sym rest))

-- However a stream is cut, its events are the same: two chunks that the parser takes one behind
-- the other give what one chunk with the text of both gives, events, errors and state.
pub push-append :
    (codec : Codec) (a b : Text) (s t u : NdjsonParser) (first second : ParsedNdjson)
    → push codec a s ≡ (t, inr first)
    → push codec b t ≡ (u, inr second)
    → push codec (a ++ b) s ≡ (u, inr (join first second))
unfolding push
push-append codec a b s t u first second h k =
    let (fits_a, rest_a, lines_a) =
      drain_result codec (record s { remainder = s.remainder ++ a }) t first h in
    let (fits_b, rest_b, lines_b) =
      drain_result codec (record t { remainder = t.remainder ++ b }) u second k in
    let both =
      subst
        (λ rest. pop_line (split_lines (s.remainder ++ a ++ b)) ≡ (
          (pop_line (split_lines (s.remainder ++ a))).0 ++ (pop_line (split_lines (rest ++ b))).0,
          (pop_line (split_lines (rest ++ b))).1,
        ))
        (sym rest_a) (pop_line-split_lines (s.remainder ++ a) b) in
    let whole = ap (λ r. pop_line (split_lines r)) (sym (append_assoc s.remainder a b)) ∙ both in
    drain_ok codec (record s { remainder = s.remainder ++ (a ++ b) }) u (join first second) fits_b
      (rw whole rest_b)
      (rw
        (
          whole,
          process_lines-append codec (pop_line (split_lines (s.remainder ++ a))).0
              (pop_line (split_lines (t.remainder ++ b))).0 s.counters nothing_parsed,
          lines_a,
        )
        (process_lines-after codec (pop_line (split_lines (t.remainder ++ b))).0 t.counters
          u.counters first second lines_b))
