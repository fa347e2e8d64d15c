-- ===== src/Database.antt =====
-- The tables of the task database, src/main/database.ts, with the row types of
-- src/shared/contracts.ts. A table is its rows in the order of insertion; ids and stored times are
-- texts, the clock is in milliseconds. Ids that `createId` makes are arguments.
pub mod Payloads
pub mod Rows
pub mod Sessions
pub mod Journal
pub mod Threads
pub mod Deletion
pub mod Turns
pub mod Approvals
pub mod Recovery
pub mod Files
use adrouter_agent.Prelude.{
  if◌then◌else◌, Text, codes, same_text, ℕ, max, ◌⊎◌, inl, inr, Bool, Option, none, some, List, [],
  ◌∷◌,
}
use adrouter_agent.Json.{Json}
use adrouter_agent.Scheduler.{PermissionMode}
use adrouter_agent.TaskPolicy.{TaskPolicySnapshot}
use adrouter_agent.Manifest.{OperationManifest}

pub data ThreadStatus : Type 0 where
  thread_idle thread_running thread_awaiting thread_failed : ThreadStatus
  thread_interrupted thread_blocked : ThreadStatus

pub data TurnStatus : Type 0 where
  turn_queued turn_preparing turn_running turn_awaiting : TurnStatus
  turn_completed turn_failed turn_cancelled turn_interrupted : TurnStatus

-- The values of the enumerations.
unfoldable pub thread_status_text : ThreadStatus → Text
thread_status_text thread_idle = codes "idle"
thread_status_text thread_running = codes "running"
thread_status_text thread_awaiting = codes "awaiting_approval"
thread_status_text thread_failed = codes "failed"
thread_status_text thread_interrupted = codes "interrupted"
thread_status_text thread_blocked = codes "blocked"

unfoldable pub turn_status_text : TurnStatus → Text
turn_status_text turn_queued = codes "queued"
turn_status_text turn_preparing = codes "preparing"
turn_status_text turn_running = codes "running"
turn_status_text turn_awaiting = codes "awaiting_approval"
turn_status_text turn_completed = codes "completed"
turn_status_text turn_failed = codes "failed"
turn_status_text turn_cancelled = codes "cancelled"
turn_status_text turn_interrupted = codes "interrupted"

pub data ThinkingLevel : Type 0 where
  thinking_none thinking_medium thinking_high : ThinkingLevel

pub record Project : Type 0 where
  pub id : Text
  pub path : Text
  pub permission_mode : PermissionMode
  pub delegation_enabled : Bool
  pub has_git : Bool

pub record Thread : Type 0 where
  pub id : Text
  pub project_id : Text
  pub parent_thread_id : Option Text
  pub forked_from_checkpoint_id : Option Text
  pub title : Text
  pub label : Option Text
  pub model : Text
  pub thinking_level : ThinkingLevel
  -- The column that the thread's type leaves out.
  pub policy_snapshot : Option TaskPolicySnapshot
  pub status : ThreadStatus
  pub archived_at : Option Text
  pub created_at : Text
  pub updated_at : Text

pub data TurnKind : Type 0 where
  kind_agent kind_compaction : TurnKind

pub record Turn : Type 0 where
  pub id : Text
  pub thread_id : Text
  pub input : Text
  pub model : Text
  pub thinking_level : ThinkingLevel
  pub kind : TurnKind
  pub status : TurnStatus
  pub error : Option Text
  pub created_at : Text
  pub started_at : Option Text
  pub finished_at : Option Text

pub data EventType : Type 0 where
  thread_lifecycle turn_lifecycle message_user message_delta message_complete : EventType
  thinking_delta tool_activity tool_result command_output attention_required : EventType
  presence_cleared approval_request approval_resolved file_change diff_change : EventType
  operation_completed sponsor_update settlement compaction context_budget : EventType
  queue_update session_checkpoint retry runtime_crash final_evidence diagnostic : EventType

pub record JournalEvent : Type 0 where
  pub id : Text
  pub thread_id : Text
  pub turn_id : Option Text
  pub sequence : ℕ
  pub event_type : EventType
  pub timestamp : Text
  pub payload : Json

pub data SessionEntryKind : Type 0 where
  entry_user entry_assistant entry_tool_result entry_compaction entry_anchor : SessionEntryKind

pub record SessionEntry : Type 0 where
  pub id : Text
  pub thread_id : Text
  pub turn_id : Option Text
  pub source_event_id : Text
  pub ordinal : ℕ
  pub kind : SessionEntryKind
  pub timestamp : Text
  pub payload : Json
  pub digest : Text

pub record SessionCheckpoint : Type 0 where
  pub id : Text
  pub thread_id : Text
  pub turn_id : Text
  pub source_event_id : Text
  pub entry_ordinal : ℕ
  pub context_digest : Text
  pub created_at : Text

pub data ApprovalDecision : Type 0 where
  allow_once allow_thread deny : ApprovalDecision

pub data ApprovalVersion : Type 0 where
  version_one version_two : ApprovalVersion

-- A row of the table; the type Approval leaves `consumed_at` out. The command, the path and the
-- reason, which no operation here reads, are left out.
pub record Approval : Type 0 where
  pub version : ApprovalVersion
  pub id : Text
  pub thread_id : Text
  pub turn_id : Text
  pub operation_manifest : Option OperationManifest
  pub expires_at : Option Text
  pub decision : Option ApprovalDecision
  pub created_at : Text
  pub resolved_at : Option Text
  pub consumed_at : Option Text

pub record Database : Type 0 where
  pub projects : List Project
  pub threads : List Thread
  pub turns : List Turn
  pub events : List JournalEvent
  pub entries : List SessionEntry
  pub checkpoints : List SessionCheckpoint
  pub approvals : List Approval

pub data DbError : Type 0 where
  project_not_found thread_not_found turn_not_found : DbError
  invalid_policy policy_unavailable invalid_thread : DbError
  not_interrupted still_running : DbError
  foreign_key primary_key : DbError
  not_pending allowed_once_only approval_expired : DbError
  not_bound already_consumed : DbError

-- `SELECT … WHERE id = ?`: the first row that passes.
unfoldable pub find_row {ℓ} : {A : Type ℓ} → (A → Bool) → List A → Option A
find_row p [] = none
find_row p (x ∷ xs) = if p x then some x else find_row p xs

-- `UPDATE … SET … WHERE …`
unfoldable pub update_rows {ℓ} : {A : Type ℓ} → (A → Bool) → (A → A) → List A → List A
update_rows p f [] = []
update_rows p f (x ∷ xs) = (if p x then f x else x) ∷ update_rows p f xs

-- `COALESCE(MAX(…), 0)` over the rows that pass.
unfoldable pub max_of {ℓ} : {A : Type ℓ} → (A → Bool) → (A → ℕ) → List A → ℕ
max_of p key [] = 0
max_of p key (x ∷ xs) = let rest = max_of p key xs in if p x then max (key x) rest else rest

-- A row that has to be there.
abbrev pub found {ℓ} : {A : Type ℓ} → DbError → Option A → DbError ⊎ A
found x none = inl x
found x (some a) = inr a

unfoldable pub get_project : Text → Database → Option Project
get_project id db = find_row (λ p. same_text p.id id) db.projects

unfoldable pub get_thread : Text → Database → Option Thread
get_thread id db = find_row (λ t. same_text t.id id) db.threads

unfoldable pub get_turn : Text → Database → Option Turn
get_turn id db = find_row (λ t. same_text t.id id) db.turns
