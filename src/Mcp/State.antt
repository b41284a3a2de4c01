-- ===== src/Mcp/State.antt =====
-- internal/mcp/state.go: the health record of one server. Times are numbers, and 0 is the zero
-- time. A retry channel is a number that names it; an operation that closes channels returns them.
-- The mutex makes each operation one step.
pub mod Tally
use mcpshim.Prelude.{
  ℕ, zero, suc, ◌+◌, ◌-◌, Bool, true, false, not, ◌&&◌, Option, none, some, List, [], ◌∷◌, ltb, leb,
  ◌==◌, if◌then◌else◌, length, Text, codes, ℤ, pos, negsuc,
}

pub data Status : Type 0 where
  unknown healthy degraded failed auth_required : Status

abbrev pub Time : Type 0
Time = ℕ

abbrev pub Channel : Type 0
Channel = ℕ

-- DefaultBackoff, in seconds
abbrev pub default_backoff : List ℕ
default_backoff = 5 ∷ 15 ∷ 30 ∷ 60 ∷ 120 ∷ 300 ∷ []

pub record ServerState : Type 0 where
  pub status : Status
  pub last_error : Text
  pub last_success_at : Time
  pub last_attempt_at : Time
  pub attempt_count : ℕ
  pub retry_cancel : Option Channel
  pub pending_retry_at : Time

abbrev pub new_server_state : ServerState
new_server_state = record {
  status = unknown;
  last_error = [];
  last_success_at = 0;
  last_attempt_at = 0;
  attempt_count = 0;
  retry_cancel = none;
  pending_retry_at = 0;
}

abbrev pub is_auth_required : Status → Bool
is_auth_required auth_required = true
is_auth_required _ = false

-- The first result of skipPeriodic; the reason is text for the log.
unfoldable pub skip_periodic : ServerState → Time → Bool
skip_periodic s now =
    if is_auth_required s.status
    then true
    else if not (s.pending_retry_at == 0) && ltb now s.pending_retry_at
    then true
    else false

-- cancelRetryLocked and cancelRetry: the state, and the channel that is closed.
unfoldable pub cancel_retry : ServerState → ServerState × List Channel
cancel_retry s = elim s.retry_cancel [
  | none ↦ (s, [])
  | some channel ↦ (record s { retry_cancel = none; pending_retry_at = 0 }, channel ∷ [])
]

unfoldable pub record_success : ServerState → Time → ServerState × List Channel
unfolding cancel_retry
record_success s now = cancel_retry (record s {
  status = healthy;
  last_error = [];
  last_success_at = now;
  last_attempt_at = now;
  attempt_count = 0;
})

-- The new state and the index of the failure, for the backoff schedule.
unfoldable pub record_failure : ServerState → Option Text → Bool → Time → ServerState × ℕ
record_failure s err authorize now = (
  record s {
    status = if authorize then auth_required else if s.attempt_count == 0 then degraded else failed;
    last_error = elim err [ none ↦ s.last_error | some message ↦ message ];
    last_attempt_at = now;
    attempt_count = s.attempt_count + 1;
  },
  s.attempt_count,
)

-- `channel` is the one that `make` gives.
unfoldable pub schedule_retry : ServerState → ℕ → Channel → Time → ServerState × List Channel
unfolding cancel_retry
schedule_retry s delay channel now =
    let (s', closed) = cancel_retry s in
    (record s' { retry_cancel = some channel; pending_retry_at = now + delay }, closed)

-- schedule[i], where the caller keeps `i` in range
abbrev pub at_index : List ℕ → ℕ → ℕ
at_index [] i = 0
at_index (d ∷ schedule) zero = d
at_index (d ∷ schedule) (suc i) = at_index schedule i

unfoldable pub clamp_index : ℤ → ℕ → ℕ
clamp_index (negsuc k) size = 0
clamp_index (pos i) size = if leb size i then size - 1 else i

unfoldable pub backoff_delay : List ℕ → ℤ → ℕ
unfolding clamp_index
backoff_delay [] attempt = 0
backoff_delay (d ∷ schedule) attempt =
    at_index (d ∷ schedule) (clamp_index attempt (length (d ∷ schedule)))
