-- ===== src/Ndjson/Limits.antt =====
-- The limits of a stream, src/runtime/ndjson.ts.
use adrouter_agent.Prelude.{
  Bool-cases, Option-cases, Sum-cases, length, length-append, map_get, length-map_set_le, Text,
  codes, same_text, trim_start, trim, is_empty, ℕ, ◌+◌, ◌≤◌, String, ◌≡◌, refl, inl, inr, Bool,
  true, false, not, ◌&&◌, none, List, [], ◌∷◌, ◌++◌, arith,
}
use adrouter_agent.Ndjson.{
  RouterStreamEvent, tool_call, done, other, Codec, StreamFault, malformed, trailing, ParsedNdjson,
  StreamCounters, NdjsonParser, max_router_line_bytes, max_router_events, max_router_tool_calls,
  max_router_tool_argument_bytes, split_lines, pop_line, known, account_call, account_tool_call,
  Outcome, skipped, event, fault, payload_of, process_payload, process_line, add_outcome,
  process_lines, nothing_parsed, add_trailing, drain, push, finish,
}

pub record IsWithin (s : StreamCounters) : Type 0 where
  pub events : s.event_count ≤ max_router_events
  pub calls : length s.tool_calls ≤ max_router_tool_calls
  pub argument_bytes : s.tool_argument_bytes ≤ max_router_tool_argument_bytes

account_call-IsWithin :
    (codec : Codec) (id name : String) (args : Text) (s : StreamCounters)
    → IsWithin s
    → (account_call codec id name args s).1 ≡ none
    → IsWithin (account_call codec id name args s).0
      × ((account_call codec id name args s).0.event_count ≡ s.event_count)
unfolding account_call
account_call-IsWithin codec id name args s w h =
    let more = length-map_set_le id (codec.stringify_call name args) s.tool_calls in
    elim (Option-cases (map_get id s.tool_calls)) [
      | inl e ↦ (
        record {
          events = ground (arith, w.events);
          calls = ground (arith, w.calls, more);
          argument_bytes = ground (arith, w.argument_bytes);
        },
        ground arith,
      )
      | inr (previous, e) ↦ (
        record {
          events = ground (arith, w.events);
          calls = ground (arith, w.calls);
          argument_bytes = ground (arith, w.argument_bytes);
        },
        ground arith,
      )
    ]

account_tool_call-IsWithin :
    (codec : Codec) (e : RouterStreamEvent) (s : StreamCounters)
    → IsWithin s
    → (account_tool_call codec e s).1 ≡ none
    → IsWithin (account_tool_call codec e s).0
      × ((account_tool_call codec e s).0.event_count ≡ s.event_count)
unfolding account_tool_call
account_tool_call-IsWithin codec done s w h = (w, refl)
account_tool_call-IsWithin codec (other t) s w h = (w, refl)
account_tool_call-IsWithin codec (tool_call id name args) s w h = elim (Option-cases (known id)) [
  | inl e ↦ absurd (ground arith)
  | inr (i, e) ↦ elim (Option-cases (known name)) [
    | inl f ↦ absurd (ground arith)
    | inr (n, f) ↦
        rw (account_tool_call, e, f) (account_call-IsWithin codec i n args s w (ground arith))
  ]
]

abbrev weight : Outcome → ℕ
weight skipped = 0
weight (event e) = 1
weight (fault f) = 1

abbrev is_trailing_fault : StreamFault → Bool
is_trailing_fault (malformed line) = false
is_trailing_fault trailing = true

abbrev is_trailing : Outcome → Bool
is_trailing skipped = false
is_trailing (event e) = false
is_trailing (fault f) = is_trailing_fault f

process_payload-IsWithin :
    (codec : Codec) (payload : Text) (s : StreamCounters) (outcome : Outcome)
    → IsWithin s
    → (process_payload codec payload s).1 ≡ inr outcome
    → IsWithin (process_payload codec payload s).0
      × ((process_payload codec payload s).0.event_count ≡ s.event_count)
      × (weight outcome ≡ 1)
      × (is_trailing outcome ≡ false)
unfolding process_payload
process_payload-IsWithin codec payload s outcome w h =
    elim (Bool-cases (same_text payload (codes "[DONE]"))) [
      | inl last ↦ (rw (process_payload, last) w, ground arith, ground arith, ground arith)
      | inr json ↦ elim (Option-cases (codec.parse_event payload)) [
        | inl e ↦ (rw (process_payload, json, e) w, ground arith, ground arith, ground arith)
        | inr (e, parsed) ↦ elim (Option-cases (account_tool_call codec e s).1) [
          | inl accounted ↦
              let within = account_tool_call-IsWithin codec e s w accounted in
              (
                rw (process_payload, json, parsed) within.0,
                ground (arith, within.1),
                ground arith,
                ground arith,
              )
          | inr (error, refused) ↦ absurd (ground arith)
        ]
      ]
    ]

process_line-IsWithin :
    (codec : Codec) (raw : Text) (s : StreamCounters) (outcome : Outcome)
    → IsWithin s
    → (process_line codec raw s).1 ≡ inr outcome
    → IsWithin (process_line codec raw s).0
      × ((process_line codec raw s).0.event_count ≡ s.event_count + weight outcome)
      × (is_trailing outcome ≡ false)
unfolding process_line
process_line-IsWithin codec raw s outcome w h = elim (Bool-cases (is_empty (trim raw))) [
  | inl blank ↦ (rw (process_line, blank) w, ground arith, ground arith)
  | inr content ↦
      let t : StreamCounters = record s { event_count = s.event_count + 1 } in
      let within : IsWithin t = record {
        events = ground (arith, w.events);
        calls = w.calls;
        argument_bytes = w.argument_bytes;
      } in
      let rest =
        process_payload-IsWithin codec (payload_of (trim raw)) t outcome within (ground arith) in
      (ground (arith, rest.0), ground (arith, rest.1, rest.2), ground (arith, rest.3))
]

abbrev pub total : ParsedNdjson → ℕ
total parsed = length parsed.events + length parsed.errors

total-add_outcome :
    (outcome : Outcome) (parsed : ParsedNdjson)
    → total (add_outcome outcome parsed) ≡ total parsed + weight outcome
total-add_outcome skipped parsed = omega arith
total-add_outcome (event e) parsed = ground (arith, length-append parsed.events (e ∷ []))
total-add_outcome (fault f) parsed = ground (arith, length-append parsed.errors (f ∷ []))

-- No error says that the stream broke off.
abbrev pub no_trailing : List StreamFault → Bool
no_trailing [] = true
no_trailing (f ∷ errors) = not (is_trailing_fault f) && no_trailing errors

no_trailing-append :
    (errors : List StreamFault) (f : StreamFault)
    → no_trailing errors ≡ true
    → is_trailing_fault f ≡ false
    → no_trailing (errors ++ f ∷ []) ≡ true
no_trailing-append [] f h k = ground arith
no_trailing-append (e ∷ errors) f h k = ground (arith, no_trailing-append errors f)

no_trailing-add_outcome :
    (outcome : Outcome) (parsed : ParsedNdjson)
    → no_trailing parsed.errors ≡ true
    → is_trailing outcome ≡ false
    → no_trailing (add_outcome outcome parsed).errors ≡ true
no_trailing-add_outcome skipped parsed h k = h
no_trailing-add_outcome (event e) parsed h k = h
no_trailing-add_outcome (fault f) parsed h k = no_trailing-append parsed.errors f h k

pub process_lines-IsWithin :
    (codec : Codec) (xs : List Text) (s : StreamCounters) (parsed result : ParsedNdjson)
    → IsWithin s
    → no_trailing parsed.errors ≡ true
    → (process_lines codec xs s parsed).1 ≡ inr result
    → IsWithin (process_lines codec xs s parsed).0
      × ((process_lines codec xs s parsed).0.event_count + total parsed
          ≡ s.event_count + total result)
      × (no_trailing result.errors ≡ true)
unfolding process_lines
process_lines-IsWithin codec [] s parsed result w clean h = (w, ground arith, ground arith)
process_lines-IsWithin codec (x ∷ xs) s parsed result w clean h =
    elim (Sum-cases (process_line codec x s).1) [
      | inl (error, e) ↦ absurd (ground arith)
      | inr (outcome, e) ↦
          let line = process_line-IsWithin codec x s outcome w e in
          let more =
            process_lines-IsWithin codec xs (process_line codec x s).0 (add_outcome outcome parsed)
              result line.0 (no_trailing-add_outcome outcome parsed clean line.2) (ground arith) in
          (
            rw (process_lines, e) more.0,
            ground (arith, more.1, line.1, total-add_outcome outcome parsed),
            more.2,
          )
    ]

pub push-IsWithin :
    (codec : Codec) (chunk : Text) (s t : NdjsonParser) (parsed : ParsedNdjson)
    → IsWithin s.counters
    → push codec chunk s ≡ (t, inr parsed)
    → IsWithin t.counters
      × (t.counters.event_count ≡ s.counters.event_count + total parsed)
      × (codec.byte_length t.remainder ≤ max_router_line_bytes)
unfolding push drain add_trailing
push-IsWithin codec chunk s t parsed w h =
    let popped = pop_line (split_lines (s.remainder ++ chunk)) in
    elim (Sum-cases (process_lines codec popped.0 s.counters nothing_parsed).1) [
      | inl (error, e) ↦ absurd (ground arith)
      | inr (result, e) ↦
          let lines =
            process_lines-IsWithin codec popped.0 s.counters nothing_parsed result w refl e in
          (ground (arith, lines.0), ground (arith, lines.1), ground arith)
    ]

-- The end of a stream is never reported as a malformed trailing event: every line that is left,
-- the last without a line break included, goes to `process_lines` from the counts so far, what that
-- gives is what the call gives, no error of it says that the stream broke off, and no remainder is
-- left.
pub finish-no_trailing :
    (codec : Codec) (chunk : Text) (s t : NdjsonParser) (parsed : ParsedNdjson)
    → IsWithin s.counters
    → finish codec chunk s ≡ (t, inr parsed)
    → (process_lines codec (split_lines (s.remainder ++ chunk)) s.counters nothing_parsed
        ≡ (t.counters, inr parsed))
      × (no_trailing parsed.errors ≡ true)
      × (t.remainder ≡ [])
unfolding finish drain add_trailing trim trim_start
finish-no_trailing codec chunk s t parsed w h =
    let lines = split_lines (s.remainder ++ chunk) in
    elim (Sum-cases (process_lines codec lines s.counters nothing_parsed).1) [
      | inl (error, e) ↦ absurd (ground arith)
      | inr (result, e) ↦
          let within =
            process_lines-IsWithin codec lines s.counters nothing_parsed result w refl e in
          (ground arith, ground (arith, within.2), ground arith)
    ]
