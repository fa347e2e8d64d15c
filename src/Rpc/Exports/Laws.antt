-- ===== src/Rpc/Exports/Laws.antt =====
-- A client that reads an export to its end gets the content, and no other client gets any.
use adrouter_agent.Prelude.{
  ltb, leb, ◌==◌, str_eq, if◌then◌else◌, Bool-cases, length, take, drop, take-append-drop-length,
  drop-drop, length-drop, length-take, drop_all, map_get, map_set, map_delete, map_get-set, ℕ, zero,
  suc, ◌+◌, ◌-◌, ◌≤◌, ◌<◌, min, String, ◌≡◌, refl, sym, ap, ◌∙◌, ◌≢◌, ◌⊎◌, inl, inr, Bool, true,
  false, Option, none, some, List, [], ◌++◌, arith, eq_iff, eq_refl,
}
use mathlib.Core.List.{append-nil}
use adrouter_agent.Rpc.{RpcError, export_unavailable}
use adrouter_agent.Rpc.Exports.{
  ExportHandle, Handles, export_lifetime_ms, max_export_bytes, start_export, Chunk, read_handle,
  read_export,
}

-- What the reader does with an answer: stop, or go on with `rest`.
abbrev follow : (ℕ → Handles → Option (List ℕ)) → Handles × (RpcError ⊎ Chunk) → Option (List ℕ)
follow rest (handles, inl e) = none
follow rest (handles, inr chunk) =
    let later = rest chunk.next_offset handles in
    if chunk.done
    then some chunk.bytes
    else elim later [ none ↦ none | some bytes ↦ some (chunk.bytes ++ bytes) ]

-- The reader of an export: it asks for `size offset` bytes at a time, each time at `clock offset`,
-- until it is told `done`. The fuel is the number of requests that it makes at most.
unfoldable pub download : ℕ → (ℕ → ℕ) → (ℕ → ℕ) → String → String → ℕ → Handles → Option (List ℕ)
download zero size clock id client_id offset handles = none
download (suc fuel) size clock id client_id offset handles =
    follow (λ o h. download fuel size clock id client_id o h)
      (read_export (clock offset) id client_id offset (size offset) handles)

-- A handle that its owner may read from.
pub record IsOpen (clock : ℕ → ℕ) (id client_id : String) (handle : ExportHandle)
    (handles : Handles) : Type 0 where
  pub found : map_get id handles ≡ some handle
  pub owner : handle.client_id ≡ client_id
  pub live : (k : ℕ) → clock k < handle.expires_at
  pub within : handle.next_offset ≤ length handle.content

-- The chunk that is due, and the offset behind it.
abbrev due : ℕ → ExportHandle → List ℕ
due size handle = take size (drop handle.next_offset handle.content)

abbrev next_of : ℕ → ExportHandle → ℕ
next_of size handle = handle.next_offset + length (due size handle)

abbrev is_last : ℕ → ExportHandle → Bool
is_last size handle = leb (length handle.content) (next_of size handle)

abbrev moved : ℕ → ExportHandle → ExportHandle
moved size handle = record handle { next_offset = next_of size handle }

module _ {clock : ℕ → ℕ} {id client_id : String} {handle : ExportHandle} {handles : Handles}
    (o : IsOpen clock id client_id handle handles) where
  read_open :
      (size : ℕ)
      → read_export (clock handle.next_offset) id client_id handle.next_offset size handles ≡ (
        (if is_last size handle
            then map_delete id handles
            else map_set id (moved size handle) handles),
        inr (record {
          bytes = due size handle;
          next_offset = next_of size handle;
          done = is_last size handle;
        }),
      )
  unfolding read_export read_handle
  read_open size =
      let mine : str_eq handle.client_id client_id ≡ true = (eq_iff _ _).1 o.owner in
      let live : leb handle.expires_at (clock handle.next_offset) ≡ false =
        ground (arith, o.live handle.next_offset) in
      let inside : ltb (length handle.content) handle.next_offset ≡ false = ground arith in
      let due_here : (handle.next_offset == handle.next_offset) ≡ true = ground arith in
      rw (o.found, read_export) (rw (mine, live) (rw (inside, read_handle) (rw due_here refl)))

  moved-IsOpen :
      (size : ℕ)
      → is_last size handle ≡ false
      → IsOpen clock id client_id (moved size handle) (map_set id (moved size handle) handles)
  moved-IsOpen size more = record {
    found = rw (map_get-set id id (moved size handle) handles, eq_refl id) refl;
    owner = o.owner;
    live = o.live;
    within = ground arith;
  }

due-append_drop :
    (size : ℕ) (handle : ExportHandle)
    → due size handle ++ drop (next_of size handle) handle.content
      ≡ drop handle.next_offset handle.content
due-append_drop size handle =
    rw (← drop-drop handle.next_offset (length (due size handle)) handle.content)
      (take-append-drop-length size (drop handle.next_offset handle.content))

length-due :
    (size : ℕ) (handle : ExportHandle)
    → length (due size handle) ≡ min size (length handle.content - handle.next_offset)
length-due size handle =
    length-take size (drop handle.next_offset handle.content)
    ∙ ap (min size) (length-drop handle.next_offset handle.content)

-- Reading on from where a handle stands, with requests of any positive sizes, gives the rest of the
-- content; a request for each byte left, and one more, is enough.
download_rest :
    (fuel : ℕ) (size : ℕ → ℕ) (clock : ℕ → ℕ) (id client_id : String) (handle : ExportHandle)
    (handles : Handles)
    → IsOpen clock id client_id handle handles
    → ((k : ℕ) → 1 ≤ size k)
    → length handle.content - handle.next_offset < fuel
    → download fuel size clock id client_id handle.next_offset handles
      ≡ some (drop handle.next_offset handle.content)
unfolding download
download_rest zero size clock id client_id handle handles o positive h = absurd (omega arith)
download_rest (suc fuel) size clock id client_id handle handles o positive h =
    let n = size handle.next_offset in
    rw (read_open o n, download)
      (elim (Bool-cases (is_last n handle)) [
        | inl last ↦
            let all_read : drop (next_of n handle) handle.content ≡ [] =
              drop_all (next_of n handle) handle.content (ground arith) in
            rw last (
              ap some (
                sym (append-nil (due n handle))
                ∙ ap (λ l. due n handle ++ l) (sym all_read)
                ∙ due-append_drop n handle))
        | inr more ↦ rw more (
            rw
              (download_rest fuel size clock id client_id (moved n handle)
                (map_set id (moved n handle) handles) (moved-IsOpen o n more) positive
                (ground (arith, length-due n handle, positive handle.next_offset)))
              (ap some (due-append_drop n handle)))
      ])

-- Who starts an export of at most ten mebibytes and reads it in order, with requests of any positive
-- sizes and at any times before it expires, gets the content.
pub download-start_export :
    (size : ℕ → ℕ) (clock : ℕ → ℕ) (start : ℕ) (id client_id : String) (content : List ℕ)
    (handles : Handles)
    → length content ≤ max_export_bytes
    → ((k : ℕ) → clock k < start + export_lifetime_ms)
    → ((k : ℕ) → 1 ≤ size k)
    → download
        (suc (length content))
        size
        clock
        id
        client_id
        0
        (start_export start id client_id content handles).0
      ≡ some content
unfolding start_export
download-start_export size clock start id client_id content handles fits live positive =
    let handle : ExportHandle = record {
      client_id = client_id;
      content = content;
      expires_at = start + export_lifetime_ms;
      next_offset = 0;
    } in
    let small : ltb max_export_bytes (length content) ≡ false = ground arith in
    rw (small, start_export)
      (download_rest (suc (length content)) size clock id client_id handle
        (map_set id handle handles)
        (record {
          found = rw (map_get-set id id handle handles, eq_refl id) refl;
          owner = refl;
          live = live;
          within = omega arith;
        })
        positive (omega arith))

-- An export is read by the client that started it, and by no other: another client's request
-- gets an error and changes nothing.
pub read_export_owner :
    (now : ℕ) (id client_id : String) (offset size : ℕ) (handles : Handles) (handle : ExportHandle)
    → map_get id handles ≡ some handle
    → handle.client_id ≢ client_id
    → read_export now id client_id offset size handles ≡ (handles, inl export_unavailable)
unfolding read_export
read_export_owner now id client_id offset size handles handle found other =
    let foreign : str_eq handle.client_id client_id ≡ false =
      ground (arith, eq_iff handle.client_id client_id) in
    rw (found, read_export) (rw foreign refl)
