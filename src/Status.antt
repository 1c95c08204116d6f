-- ===== src/Status.antt =====
-- The life cycle states: benchmark-web/src/models/status.rs, and QueueItemStatus of
-- benchmark-web/src/models/queue_item.rs.
use llm_benchmark.Common.{Bool, true, false, String}

pub data RunStatus : Type 0 where
  pending running completed failed cancelled : RunStatus

-- `RunStatus::is_active`.
abbrev pub is_active : RunStatus → Bool
is_active RunStatus.pending = true
is_active RunStatus.running = true
is_active _ = false

pub data QueueItemStatus : Type 0 where
  pending running completed failed cancelled : QueueItemStatus

-- `QueueItemStatus::is_terminal`.
abbrev pub is_terminal : QueueItemStatus → Bool
is_terminal QueueItemStatus.completed = true
is_terminal QueueItemStatus.failed = true
is_terminal QueueItemStatus.cancelled = true
is_terminal _ = false

-- `status == PENDING`.
abbrev pub is_pending : QueueItemStatus → Bool
is_pending QueueItemStatus.pending = true
is_pending _ = false

-- `status == FAILED`.
abbrev pub is_failed : QueueItemStatus → Bool
is_failed QueueItemStatus.failed = true
is_failed _ = false

-- `matches!(status, COMPLETED | CANCELLED)`.
abbrev pub is_clearable : QueueItemStatus → Bool
is_clearable QueueItemStatus.completed = true
is_clearable QueueItemStatus.cancelled = true
is_clearable _ = false

-- `From<RunStatus> for QueueItemStatus`.
unfoldable pub from_run_status : RunStatus → QueueItemStatus
from_run_status RunStatus.pending = QueueItemStatus.pending
from_run_status RunStatus.running = QueueItemStatus.running
from_run_status RunStatus.completed = QueueItemStatus.completed
from_run_status RunStatus.failed = QueueItemStatus.failed
from_run_status RunStatus.cancelled = QueueItemStatus.cancelled

-- `Display` of the two types, which is also their wire format.
unfoldable pub show_run_status : RunStatus → String
show_run_status RunStatus.pending = "PENDING"
show_run_status RunStatus.running = "RUNNING"
show_run_status RunStatus.completed = "COMPLETED"
show_run_status RunStatus.failed = "FAILED"
show_run_status RunStatus.cancelled = "CANCELLED"

unfoldable pub show_item_status : QueueItemStatus → String
show_item_status QueueItemStatus.pending = "PENDING"
show_item_status QueueItemStatus.running = "RUNNING"
show_item_status QueueItemStatus.completed = "COMPLETED"
show_item_status QueueItemStatus.failed = "FAILED"
show_item_status QueueItemStatus.cancelled = "CANCELLED"
