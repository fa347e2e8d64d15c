-- ===== src/Database/Files.antt =====
-- The files that a task has changed and what the router settled, src/main/database.ts. The thread of
-- a row exists, as its reference demands. Contents are Base64 texts.
pub mod Originals
use adrouter_agent.Prelude.{
  if◌then◌else◌, any, Text, codes, same_text, ℕ, ◌+◌, Bool, true, false, ◌&&◌, Option, none, some,
  List, [], ◌∷◌, ◌++◌,
}
use adrouter_agent.Json.{Json, str, obj, end, field}
use adrouter_agent.Manifest.{Encoding, text_or_null}
use adrouter_agent.Database.{settlement, find_row, update_rows, max_of}
use adrouter_agent.Database.Journal.{Context, timestamp_of}

pub record Baseline : Type 0 where
  pub thread_id : Text
  pub path : Text
  pub original_bytes : Option Text
  pub original_hash : Option Text
  pub latest_agent_hash : Option Text
  pub latest_status : Text

pub record FileMutation : Type 0 where
  pub id : Text
  pub thread_id : Text
  pub path : Text
  pub ordinal : ℕ
  pub forward_patch : Text
  pub reverse_patch : Text
  pub before_hash : Option Text
  pub after_hash : Option Text
  pub created_at : Text

pub record FileTables : Type 0 where
  pub baselines : List Baseline
  pub mutations : List FileMutation

pub record MutationInput : Type 0 where
  pub thread_id : Text
  pub path : Text
  pub status : Text
  pub before_base64 : Option Text
  pub after_base64 : Option Text
  pub before_hash : Option Text
  pub after_hash : Option Text

abbrev pub is_of : Text → Text → Baseline → Bool
is_of thread_id path b = same_text b.thread_id thread_id && same_text b.path path

unfoldable pub patch_text : Encoding → Option Text → Option Text → Text → Text
patch_text e before after status = e.stringify (
    obj (
      field (codes "before") (text_or_null before)
        (field (codes "after") (text_or_null after) (field (codes "status") (str status) end))))

abbrev pub with_latest : Option Text → Text → Baseline → Baseline
with_latest hash status b = record b { latest_agent_hash = hash; latest_status = status }

abbrev pub baseline_of : MutationInput → Baseline
baseline_of input = record {
  thread_id = input.thread_id;
  path = input.path;
  original_bytes = input.before_base64;
  original_hash = input.before_hash;
  latest_agent_hash = input.after_hash;
  latest_status = input.status;
}

-- A first mutation keeps what was there before; a later one leaves that.
unfoldable pub write_baseline : Option Baseline → MutationInput → List Baseline → List Baseline
write_baseline none input baselines = baselines ++ baseline_of input ∷ []
write_baseline (some existing) input baselines =
    update_rows (is_of input.thread_id input.path) (with_latest input.after_hash input.status)
      baselines

unfoldable pub record_baseline : MutationInput → List Baseline → List Baseline
record_baseline input baselines =
    write_baseline (find_row (is_of input.thread_id input.path) baselines) input baselines

unfoldable pub record_file_mutation : Context → MutationInput → FileTables → FileTables
record_file_mutation c input tables = record {
  baselines = record_baseline input tables.baselines;
  mutations =
      tables.mutations
      ++ record {
        id = c.row_id;
        thread_id = input.thread_id;
        path = input.path;
        ordinal =
            max_of (λ m. same_text m.thread_id input.thread_id) (λ m. m.ordinal) tables.mutations
            + 1;
        forward_patch = patch_text c.encoding input.before_base64 input.after_base64 input.status;
        reverse_patch =
            patch_text c.encoding input.after_base64 input.before_base64 (codes "reverted");
        before_hash = input.before_hash;
        after_hash = input.after_hash;
        created_at = timestamp_of c;
      }
        ∷ [];
}

unfoldable pub update_baseline_status : Text → Text → Text → Option Text → FileTables → FileTables
update_baseline_status thread_id path status hash tables = record tables {
  baselines = update_rows (is_of thread_id path) (with_latest hash status) tables.baselines;
}

-- What the row of a settlement takes out of it, and the whole of it.
pub record Settlement : Type 0 where
  pub router_turn_id : Text
  pub timestamp : Text
  pub whole : Json

pub record RouterOutcome : Type 0 where
  pub router_turn_id : Text
  pub thread_id : Text
  pub turn_id : Option Text
  pub settlement : Text
  pub created_at : Text

-- `INSERT OR IGNORE` of a settlement under the router's turn; whether it was new.
unfoldable pub add_router_outcome :
    Encoding → Text → Option Text → Settlement → List RouterOutcome → Bool × List RouterOutcome
add_router_outcome e thread_id turn_id outcome rows =
    if any (λ r. same_text r.router_turn_id outcome.router_turn_id) rows then (false, rows) else (
      true,
      rows
          ++ record {
            router_turn_id = outcome.router_turn_id;
            thread_id = thread_id;
            turn_id = turn_id;
            settlement = e.stringify outcome.whole;
            created_at = outcome.timestamp;
          }
            ∷ [],
    )
