-- ===== src/Ndjson/Stream.antt =====
-- A whole stream of the router, src/runtime/ndjson.ts: chunks in the order in which they come, then
-- the end, as `turn` of src/runtime/router-client.ts reads them.
use adrouter_agent.Prelude.{
  is_some, Text, ℕ, ◌+◌, ◌≤◌, ◌≡◌, ◌⊎◌, inl, inr, true, Option, none, some, List, [], ◌∷◌, ◌++◌,
}
use adrouter_agent.Ndjson.{
  Codec, RouterStreamLimitError, ParsedNdjson, NdjsonParser, max_router_events, new_parser, push,
  finish,
}
use adrouter_agent.Ndjson.Limits.{IsWithin, total}

-- The answers of the chunks in their order, and the error that ends the stream.
unfoldable pub read_chunks :
    Codec
    → List Text
    → NdjsonParser
    → NdjsonParser × List ParsedNdjson × Option RouterStreamLimitError
read_chunks codec [] s = (s, [], none)
read_chunks codec (chunk ∷ chunks) s =
    let (t, first) = push codec chunk s in
    let (u, answers, refused) = read_chunks codec chunks t in
    elim first [ inl error ↦ (t, [], some error) | inr parsed ↦ (u, parsed ∷ answers, refused) ]

-- `last` is the text that the decoder still holds at the end.
unfoldable pub read_stream :
    Codec → List Text → Text → NdjsonParser × List ParsedNdjson × Option RouterStreamLimitError
read_stream codec chunks last =
    let (s, answers, refused) = read_chunks codec chunks new_parser in
    let (t, final) = finish codec last s in
    elim refused [
      | some error ↦ (s, answers, some error)
      | none ↦ elim final [
        | inl error ↦ (t, answers, some error)
        | inr parsed ↦ (t, answers ++ parsed ∷ [], none)
      ]
    ]

pub total_of : List ParsedNdjson → ℕ
total_of [] = 0
total_of (parsed ∷ more) = total parsed + total_of more

-- What stands in front of an error, and what a stream without one has counted.
record IsCounted (before : ℕ) (t : NdjsonParser) (answers : List ParsedNdjson)
    (refused : Option RouterStreamLimitError) : Type 0 where
  few : before + total_of answers ≤ max_router_events
  ended :
      (is_some refused ≡ true)
      ⊎ (IsWithin t.counters × (t.counters.event_count ≡ before + total_of answers))
