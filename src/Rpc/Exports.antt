-- ===== src/Rpc/Exports.antt =====
-- Exports in chunks: the `tasks.export` and `exports.read` branches of `dispatchSigned`, behind the
-- parsing of their parameters. Content is bytes; the chunk's Base64 text is left out.
pub mod Laws
use adrouter_agent.Prelude.{
  ltb, leb, ◌==◌, str_eq, if◌then◌else◌, length, take, drop, map_get, map_set, map_delete, ℕ, ◌+◌,
  String, ◌⊎◌, inl, inr, Bool, not, Option, none, some, List,
}
use adrouter_agent.Rpc.{RpcError, export_unavailable, invalid_offset, export_too_large}

pub record ExportHandle : Type 0 where
  pub client_id : String
  pub content : List ℕ
  pub expires_at : ℕ
  pub next_offset : ℕ

abbrev pub Handles : Type 0
Handles = List (String × ExportHandle)

abbrev pub export_lifetime_ms : ℕ
export_lifetime_ms = 300000

abbrev pub max_export_bytes : ℕ
max_export_bytes = 10485760

unfoldable pub start_export : ℕ → String → String → List ℕ → Handles → Handles × Option RpcError
start_export now id client_id content handles =
    if ltb max_export_bytes (length content) then (handles, some export_too_large) else (
      map_set id
          (record {
            client_id = client_id;
            content = content;
            expires_at = now + export_lifetime_ms;
            next_offset = 0;
          })
          handles,
      none,
    )

pub record Chunk : Type 0 where
  pub bytes : List ℕ
  pub next_offset : ℕ
  pub done : Bool

-- The handle is the caller's and live.
unfoldable pub read_handle : String → ExportHandle → ℕ → ℕ → Handles → Handles × (RpcError ⊎ Chunk)
read_handle id handle offset max_bytes handles =
    if ltb (length handle.content) offset
    then (handles, inl invalid_offset)
    else if not (offset == handle.next_offset)
    then (handles, inl invalid_offset)
    else let bytes = take max_bytes (drop offset handle.content) in
      let next = offset + length bytes in
      let ended = leb (length handle.content) next in
      (
        if ended
            then map_delete id handles
            else map_set id (record handle { next_offset = next }) handles,
        inr (record { bytes = bytes; next_offset = next; done = ended }),
      )

unfoldable pub read_export : ℕ → String → String → ℕ → ℕ → Handles → Handles × (RpcError ⊎ Chunk)
read_export now id client_id offset max_bytes handles = elim (map_get id handles) [
  | none ↦ (handles, inl export_unavailable)
  | some handle ↦
      if not (str_eq handle.client_id client_id)
      then (handles, inl export_unavailable)
      else if leb handle.expires_at now
      then (map_delete id handles, inl export_unavailable)
      else read_handle id handle offset max_bytes handles
]
