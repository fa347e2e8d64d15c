-- ===== src/Ndjson.antt =====
-- The router's event stream, `NdjsonParser` of src/runtime/ndjson.ts, behind the text decoder: a
-- chunk is the text that the decoder gives for it. A call that throws returns the state that it
-- leaves with the error.
pub mod Chunks
pub mod Ends
pub mod Lines
pub mod Limits
pub mod Stream
use adrouter_agent.Prelude.{
  ltb, leb, ◌==◌, str_eq, if◌then◌else◌, length, drop, map_get, map_set, Text, codes, same_text,
  starts_with, trim, is_empty, ℕ, ◌+◌, String, ◌⊎◌, inl, inr, Bool, true, false, not, ◌&&◌, Option,
  none, some, List, [], ◌∷◌, ◌++◌,
}

-- A tool call has its id and its name when they are texts, and its arguments as JSON text.
pub data RouterStreamEvent : Type 0 where
  tool_call : Option String → Option String → Text → RouterStreamEvent
  done : RouterStreamEvent
  other : Text → RouterStreamEvent

-- What comes from outside: `Buffer.byteLength` in UTF-8, `JSON.parse` with the event schema, and
-- `JSON.stringify` of a call's name and arguments.
pub record Codec : Type 0 where
  pub byte_length : Text → ℕ
  pub parse_event : Text → Option RouterStreamEvent
  pub stringify_call : String → Text → Text

pub data RouterStreamLimitError : Type 0 where
  event_too_large too_many_events unstable_identity conflicting_calls : RouterStreamLimitError
  too_many_calls too_many_argument_bytes : RouterStreamLimitError

pub data StreamFault : Type 0 where
  malformed : Text → StreamFault
  trailing : StreamFault

pub record ParsedNdjson : Type 0 where
  pub events : List RouterStreamEvent
  pub errors : List StreamFault

-- The parser's fields but its remainder, which the lines do not touch.
pub record StreamCounters : Type 0 where
  pub event_count : ℕ
  pub tool_argument_bytes : ℕ
  pub tool_calls : List (String × Text)

pub record NdjsonParser : Type 0 where
  pub remainder : Text
  pub counters : StreamCounters

abbrev pub max_router_line_bytes : ℕ
max_router_line_bytes = 1048576

abbrev pub max_router_events : ℕ
max_router_events = 8192

abbrev pub max_router_tool_calls : ℕ
max_router_tool_calls = 128

abbrev pub max_router_tool_argument_bytes : ℕ
max_router_tool_argument_bytes = 1048576

abbrev pub new_parser : NdjsonParser
new_parser = record {
  remainder = [];
  counters = record { event_count = 0; tool_argument_bytes = 0; tool_calls = [] };
}

abbrev pub starts_line_feed : Text → Bool
starts_line_feed [] = false
starts_line_feed (c ∷ s) = c == 10

-- In front of the first part.
abbrev pub prepend : ℕ → List Text → List Text
prepend c [] = (c ∷ []) ∷ []
prepend c (line ∷ lines) = (c ∷ line) ∷ lines

-- `split(/\r?\n/)`
unfoldable pub split_lines : Text → List Text
split_lines [] = [] ∷ []
split_lines (c ∷ s) =
    let rest = split_lines s in
    if c == 10 then [] ∷ rest else if c == 13 && starts_line_feed s then rest else prepend c rest

-- What `pop` leaves, and what it gives.
unfoldable pub pop_line : List Text → List Text × Text
pop_line [] = ([], [])
pop_line (line ∷ []) = ([], line)
pop_line (line ∷ next ∷ lines) = let rest = pop_line (next ∷ lines) in (line ∷ rest.0, rest.1)

-- A text that JavaScript takes as true.
abbrev pub known : Option String → Option String
known none = none
known (some s) = if str_eq s "" then none else some s

-- The part of `accountToolCall` behind the test of the identity.
unfoldable pub account_call :
    Codec → String → String → Text → StreamCounters → StreamCounters × Option RouterStreamLimitError
account_call codec id name args s = elim (map_get id s.tool_calls) [
  | some previous ↦
      if same_text previous (codec.stringify_call name args)
      then (s, none)
      else (s, some conflicting_calls)
  | none ↦
      if leb max_router_tool_calls (length s.tool_calls)
      then (s, some too_many_calls)
      else let bytes = s.tool_argument_bytes + codec.byte_length args in
        if ltb max_router_tool_argument_bytes bytes
        then (record s { tool_argument_bytes = bytes }, some too_many_argument_bytes)
        else (
          record s {
            tool_argument_bytes = bytes;
            tool_calls = map_set id (codec.stringify_call name args) s.tool_calls;
          },
          none,
        )
]

unfoldable pub account_tool_call :
    Codec → RouterStreamEvent → StreamCounters → StreamCounters × Option RouterStreamLimitError
account_tool_call codec done s = (s, none)
account_tool_call codec (other e) s = (s, none)
account_tool_call codec (tool_call id name args) s = elim (known id) [
  | none ↦ (s, some unstable_identity)
  | some i ↦ elim (known name) [
    | none ↦ (s, some unstable_identity)
    | some n ↦ account_call codec i n args s
  ]
]

-- What a line gives.
pub data Outcome : Type 0 where
  skipped : Outcome
  event : RouterStreamEvent → Outcome
  fault : StreamFault → Outcome

unfoldable pub payload_of : Text → Text
payload_of line = if starts_with line (codes "data:") then trim (drop 5 line) else line

unfoldable pub process_payload :
    Codec → Text → StreamCounters → StreamCounters × (RouterStreamLimitError ⊎ Outcome)
process_payload codec payload s =
    if same_text payload (codes "[DONE]")
    then (s, inr (event done))
    else elim (codec.parse_event payload) [
      | none ↦ (s, inr (fault (malformed payload)))
      | some e ↦
          let (t, refused) = account_tool_call codec e s in
          (t, elim refused [ none ↦ inr (event e) | some error ↦ inl error ])
    ]

unfoldable pub process_line :
    Codec → Text → StreamCounters → StreamCounters × (RouterStreamLimitError ⊎ Outcome)
process_line codec raw s =
    if is_empty (trim raw)
    then (s, inr skipped)
    else if ltb max_router_line_bytes (codec.byte_length raw)
    then (s, inl event_too_large)
    else let t : StreamCounters = record s { event_count = s.event_count + 1 } in
      if ltb max_router_events t.event_count
      then (t, inl too_many_events)
      else process_payload codec (payload_of (trim raw)) t

abbrev pub add_outcome : Outcome → ParsedNdjson → ParsedNdjson
add_outcome skipped parsed = parsed
add_outcome (event e) parsed = record parsed { events = parsed.events ++ e ∷ [] }
add_outcome (fault f) parsed = record parsed { errors = parsed.errors ++ f ∷ [] }

abbrev pub Counted : Type 0
Counted = StreamCounters × (RouterStreamLimitError ⊎ ParsedNdjson)

unfoldable pub process_lines : Codec → List Text → StreamCounters → ParsedNdjson → Counted
process_lines codec [] s parsed = (s, inr parsed)
process_lines codec (raw ∷ lines) s parsed =
    let (t, result) = process_line codec raw s in
    elim result [
      | inl error ↦ (t, inl error)
      | inr outcome ↦ process_lines codec lines t (add_outcome outcome parsed)
    ]

abbrev pub nothing_parsed : ParsedNdjson
nothing_parsed = record { events = []; errors = [] }

abbrev pub Drained : Type 0
Drained = NdjsonParser × (RouterStreamLimitError ⊎ ParsedNdjson)

-- The last test of `drain`, which sees the remainder that a flush has just emptied.
unfoldable pub add_trailing : Bool → Text → ParsedNdjson → ParsedNdjson
add_trailing flush remainder parsed =
    if flush && not (is_empty (trim remainder)) then add_outcome (fault trailing) parsed else parsed

unfoldable pub drain : Codec → Bool → NdjsonParser → Drained
drain codec flush s =
    let all_lines = split_lines s.remainder in
    let popped = pop_line all_lines in
    let lines = if flush then all_lines else popped.0 in
    let rest = if flush then [] else popped.1 in
    if not flush && ltb max_router_line_bytes (codec.byte_length rest)
    then (record s { remainder = rest }, inl event_too_large)
    else let (counters, result) = process_lines codec lines s.counters nothing_parsed in
      (
        record { remainder = rest; counters = counters },
        elim result [ inl error ↦ inl error | inr parsed ↦ inr (add_trailing flush rest parsed) ],
      )

unfoldable pub push : Codec → Text → NdjsonParser → Drained
push codec chunk s = drain codec false (record s { remainder = s.remainder ++ chunk })

-- With the text that the decoder still holds.
unfoldable pub finish : Codec → Text → NdjsonParser → Drained
finish codec chunk s = drain codec true (record s { remainder = s.remainder ++ chunk })
