-- ===== src/Checks/Samples.antt =====
-- Data for the checks of the database.
use adrouter_agent.Scheduler.{workspace_write}
use adrouter_agent.Prelude.{Text, codes, ℕ, true, false, none, some, [], ◌∷◌}
use adrouter_agent.TaskPolicy.{delegation_start, project_defaults, Digest}
use adrouter_agent.Manifest.{Encoding, OperationManifest}
use adrouter_agent.Manifest.Delegation.{DelegationSite}
use adrouter_agent.Database.{
  thread_idle, turn_queued, turn_running, thinking_high, Project, Thread, kind_agent, Turn,
  thread_lifecycle, turn_lifecycle, JournalEvent, Database,
}
use adrouter_agent.Database.Journal.{Context}
use adrouter_agent.Database.Threads.{ThreadInput, status_payload}
use adrouter_agent.Database.Turns.{turn_payload}
use adrouter_agent.Projection.Trace.{with_projects}

abbrev pub first_or_zero : Text → ℕ
first_or_zero [] = 0
first_or_zero (n ∷ t) = n

abbrev pub toy : Encoding
toy = record {
  sha256 = λ t. codes "aaaaaaaaaaaaaaaaaaaaaaaaaaaaaaaaaaaaaaaaaaaaaaaaaaaaaaaaaaaaaaaa";
  stringify = λ j. [];
  date_parse = first_or_zero;
  to_iso = λ n. n ∷ [];
  is_id = λ t. true;
  is_timestamp = λ t. true;
  is_url = λ t. true;
}

abbrev pub at_time : ℕ → Context
at_time n = record {
  encoding = toy;
  is_count = λ k. true;
  now = n;
  event_id = n ∷ [];
  row_id = 0 ∷ n ∷ [];
}

abbrev pub site : DelegationSite
site = record { thread_id = codes "t"; turn_id = codes "u"; workspace = codes "/w" }

-- A manifest that is made at 1000.
abbrev pub manifest : OperationManifest
manifest = record {
  unsigned = record {
    operation_id = codes "op";
    capability = delegation_start;
    thread_id = codes "t";
    turn_id = codes "u";
    workspace = codes "/w";
    targets = [];
    argv = some (codes "Write tests" ∷ codes "For the parser." ∷ []);
    network = none;
    git = none;
    created_at = 1000 ∷ [];
    expires_at = 301000 ∷ [];
  };
  binding = codes "aaaaaaaaaaaaaaaaaaaaaaaaaaaaaaaaaaaaaaaaaaaaaaaaaaaaaaaaaaaaaaaa";
}

abbrev pub project : Project
project = record {
  id = codes "p";
  path = codes "/w";
  permission_mode = workspace_write;
  delegation_enabled = true;
  has_git = false;
}

abbrev pub digest : Digest
digest = λ parent body. "digest"

abbrev pub task_input : ThreadInput
task_input = record {
  project_id = codes "p";
  parent_thread_id = none;
  forked_from_checkpoint_id = none;
  title = codes "Task";
  label = none;
  model = codes "m";
  thinking_level = thinking_high;
  policy_snapshot = none;
}

abbrev pub empty_db : Database
empty_db = with_projects (project ∷ [])

-- A task, with a turn that is then running.
abbrev pub task : Thread
task = record {
  id = codes "t";
  project_id = codes "p";
  parent_thread_id = none;
  forked_from_checkpoint_id = none;
  title = codes "Task";
  label = none;
  model = codes "m";
  thinking_level = thinking_high;
  policy_snapshot = some (record {
    body = record {
      source = project_defaults;
      preset_id = none;
      preset_name = none;
      preset_digest = none;
      extra_instructions = "";
      capability_policy = record {
        workspace_access = workspace_write;
        file_mutations = true;
        general_commands = true;
        network_fetch = true;
        dependency_changes = true;
        git_writes = true;
        delegation = true;
      };
      captured_at = 10;
    };
    snapshot_digest = "digest";
  });
  status = thread_idle;
  archived_at = none;
  created_at = 10 ∷ [];
  updated_at = 10 ∷ [];
}

abbrev pub task_event : JournalEvent
task_event = record {
  id = 10 ∷ [];
  thread_id = codes "t";
  turn_id = none;
  sequence = 1;
  event_type = thread_lifecycle;
  timestamp = 10 ∷ [];
  payload = status_payload (codes "idle");
}

abbrev pub task_db : Database
task_db = record empty_db { threads = task ∷ []; events = task_event ∷ [] }

abbrev pub turn : Turn
turn = record {
  id = codes "u";
  thread_id = codes "t";
  input = codes "Go";
  model = codes "m";
  thinking_level = thinking_high;
  kind = kind_agent;
  status = turn_queued;
  error = none;
  created_at = 20 ∷ [];
  started_at = none;
  finished_at = none;
}

abbrev pub turn_event : JournalEvent
turn_event = record {
  id = 20 ∷ [];
  thread_id = codes "t";
  turn_id = some (codes "u");
  sequence = 2;
  event_type = turn_lifecycle;
  timestamp = 20 ∷ [];
  payload = status_payload (codes "queued");
}

abbrev pub turn_db : Database
turn_db = record task_db {
  threads = (record task { updated_at = 20 ∷ [] }) ∷ [];
  turns = turn ∷ [];
  events = task_event ∷ turn_event ∷ [];
}

abbrev pub running_event : JournalEvent
running_event = record {
  id = 30 ∷ [];
  thread_id = codes "t";
  turn_id = some (codes "u");
  sequence = 3;
  event_type = turn_lifecycle;
  timestamp = 30 ∷ [];
  payload = turn_payload turn_running none;
}

abbrev pub running : Turn
running = record turn { status = turn_running; started_at = some (30 ∷ []) }

abbrev pub running_db : Database
running_db = record turn_db {
  threads = (record task { updated_at = 30 ∷ [] }) ∷ [];
  turns = running ∷ [];
  events = task_event ∷ turn_event ∷ running_event ∷ [];
}
