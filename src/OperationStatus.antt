-- ===== src/OperationStatus.antt =====
-- app/services/operation_status.py: the process-wide table of background operations.
-- A time is a number of seconds, and `uuid.uuid4()` and the clock are arguments of the operations.
-- The float quotient `round((current / total) * 100)` is the parameter `round_percent`.
pub mod Percent
pub mod Table
pub mod Payload
use q_bittorrent_rss_rules.Prelude.{
  ℕ, zero, suc, ◌+◌, ◌≤◌, min, max, Bool, true, false, ◌&&◌, ◌||◌, not, Option, none, some, List,
  [], ◌∷◌, ◌++◌, map, ltb, leb, if◌then◌else◌, ◌==◌, text_eq, contains, length, any, keep_if,
}
use q_bittorrent_rss_rules.Prelude.Int.{ℤ, clamp_nonneg}
use q_bittorrent_rss_rules.Prelude.Text.{Text, codes, strip}
use q_bittorrent_rss_rules.Prelude.Unicode.{Unicode}
use q_bittorrent_rss_rules.Prelude.Dict
use q_bittorrent_rss_rules.Prelude.Dict.{Dict}
use q_bittorrent_rss_rules.Prelude.Sort.{sort_by}

pub record OperationRecord : Type 0 where
  pub operation_id : Text
  pub operation_type : Text
  pub label : Text
  pub status : Text
  pub current : ℕ
  pub total : Option ℕ
  pub message : Text
  pub errors : List Text
  pub started_at : ℕ
  pub updated_at : ℕ
  pub completed_at : Option ℕ

-- `_OPERATIONS`
abbrev pub Operations : Type 0
Operations = Dict Text OperationRecord

-- `_normalize_count`
unfoldable pub normalize_count : Option ℤ → Option ℕ
normalize_count none = none
normalize_count (some value) = some (clamp_nonneg value)

-- `text or default`
abbrev pub or_default : Text → Text → Text
or_default [] d = d
or_default (c ∷ s) d = c ∷ s

abbrev pub or_zero : Option ℕ → ℕ
or_zero none = 0
or_zero (some n) = n

-- `if not operation_id`
abbrev pub given : Option Text → Option Text
given none = none
given (some []) = none
given (some (c ∷ s)) = some (c ∷ s)

-- `if error: errors.append(str(error))`
abbrev pub append_error : List Text → Option Text → List Text
append_error errors none = errors
append_error errors (some []) = errors
append_error errors (some (c ∷ s)) = errors ++ (c ∷ s) ∷ []

abbrev pub set_or_keep {ℓ} : {A : Type ℓ} → Option A → A → A
set_or_keep none old = old
set_or_keep (some v) old = v

module _ ⦃u : Unicode⦄ where
  -- `str(status or default).strip().lower() or default`
  unfoldable pub clean_status : Text → Text → Text
  clean_status status d = or_default (u.lower (strip (or_default status d))) d

  unfoldable pub start_operation :
      (operation_id : Text) (timestamp : ℕ) (operation_type label : Text) (total : Option ℤ)
      (current : ℤ) (message status : Text)
      → Operations
      → Operations
  unfolding normalize_count clean_status Dict.insert
  start_operation operation_id timestamp operation_type label total current message status ops =
      Dict.insert operation_id
        (record {
          operation_id = operation_id;
          operation_type =
              or_default (strip (or_default operation_type (codes "operation")))
                (codes "operation");
          label = or_default (strip (or_default label (codes "Operation"))) (codes "Operation");
          status = clean_status status (codes "running");
          current = clamp_nonneg current;
          total = normalize_count total;
          message = message;
          errors = [];
          started_at = timestamp;
          updated_at = timestamp;
          completed_at = none;
        })
        ops

  set_status : Option Text → Text → Text
  set_status none old = old
  set_status (some status) old = clean_status status (codes "running")

  unfoldable pub update_record :
      (now : ℕ) (current total : Option ℤ) (message status error : Option Text)
      → OperationRecord
      → OperationRecord
  unfolding normalize_count clean_status set_status
  update_record now current total message status error o = record o {
    current = set_or_keep (normalize_count current) o.current;
    total = elim total [ none ↦ o.total | some t ↦ normalize_count (some t) ];
    message = set_or_keep message o.message;
    status = set_status status o.status;
    errors = append_error o.errors error;
    updated_at = now;
  }

  unfoldable pub complete_record :
      (now : ℕ) (status : Text) (message error : Option Text) → OperationRecord → OperationRecord
  unfolding clean_status
  complete_record now status message error o = record o {
    current = elim o.total [ none ↦ o.current | some t ↦ max o.current t ];
    message = set_or_keep message o.message;
    errors = append_error o.errors error;
    status = clean_status status (codes "success");
    completed_at = some now;
    updated_at = now;
  }

  -- `operation = _OPERATIONS.get(operation_id)`, and a change of the record that is there.
  unfoldable pub change :
      Option Text → (OperationRecord → OperationRecord) → Operations → Operations
  unfolding Dict.get Dict.insert
  change none f ops = ops
  change (some []) f ops = ops
  change (some (c ∷ s)) f ops = elim (Dict.get (c ∷ s) ops) [
    | none ↦ ops
    | some o ↦ Dict.insert (c ∷ s) (f o) ops
  ]

  unfoldable pub update_operation :
      (now : ℕ) (operation_id : Option Text) (current total : Option ℤ)
      (message status error : Option Text)
      → Operations
      → Operations
  unfolding change update_record
  update_operation now operation_id current total message status error =
      change operation_id (update_record now current total message status error)

  unfoldable pub complete_operation :
      (now : ℕ) (operation_id : Option Text) (status : Text) (message error : Option Text)
      → Operations
      → Operations
  unfolding change complete_record
  complete_operation now operation_id status message error =
      change operation_id (complete_record now status message error)

  unfoldable pub fail_operation :
      (now : ℕ) (operation_id : Option Text) (message : Option Text) (error : Text)
      → Operations
      → Operations
  unfolding complete_operation
  fail_operation now operation_id message error =
      complete_operation now operation_id (codes "error") message (some error)

module _ (round_percent : ℕ → ℕ → ℕ) where
  -- `_percent`
  unfoldable pub percent : ℕ → Option ℕ → Option ℕ
  percent current none = none
  percent current (some zero) = none
  percent current (some (suc t)) =
      if leb (suc t) current
      then some 100
      else some (max 0 (min 99 (round_percent current (suc t))))

-- The entries of `_operation_payload`; the times are left as numbers.
pub record OperationPayload : Type 0 where
  pub id : Text
  pub operation_type : Text
  pub label : Text
  pub status : Text
  pub current : ℕ
  pub total : ℕ
  pub percent : Option ℕ
  pub message : Text
  pub errors : List Text
  pub started_at : ℕ
  pub updated_at : ℕ
  pub completed_at : Option ℕ

pub record Summary : Type 0 where
  pub is_running : Bool
  pub operation_count : ℕ
  pub active_count : ℕ
  pub current : ℕ
  pub total : ℕ
  pub percent : Option ℕ

-- `str(item["status"]) in ACTIVE_STATUSES`
unfoldable pub is_active : OperationPayload → Bool
unfolding text_eq
is_active p = contains (codes "queued" ∷ codes "running" ∷ []) p.status

abbrev pub is_completed : OperationRecord → Bool
is_completed o = elim o.completed_at [ none ↦ false | some t ↦ true ]

-- `completed_at < now - timedelta(seconds=max(0, recent_seconds))`
unfoldable pub is_stale : ℕ → ℤ → OperationRecord → Bool
is_stale now recent_seconds o = elim o.completed_at [
  | none ↦ false
  | some t ↦ ltb (t + clamp_nonneg recent_seconds) now
]

unfoldable pub purge : ℕ → ℤ → Operations → Operations
unfolding is_stale
purge now recent_seconds [] = []
purge now recent_seconds ((k, o) ∷ ops) =
    let rest = purge now recent_seconds ops in
    if is_stale now recent_seconds o then rest else (k, o) ∷ rest

-- The sort key `(completed_at is not None, started_at)`.
unfoldable pub before : OperationRecord → OperationRecord → Bool
before a b = elim (is_completed a) [
  | false ↦ is_completed b || leb a.started_at b.started_at
  | true ↦ is_completed b && leb a.started_at b.started_at
]

unfoldable pub sum_totals : List OperationPayload → ℕ
sum_totals [] = 0
sum_totals (p ∷ ps) = p.total + sum_totals ps

unfoldable pub sum_currents : List OperationPayload → ℕ
sum_currents [] = 0
sum_currents (p ∷ ps) = min p.current p.total + sum_currents ps

module _ (round_percent : ℕ → ℕ → ℕ) where
  unfoldable pub operation_payload : OperationRecord → OperationPayload
  unfolding percent
  operation_payload o = record {
    id = o.operation_id;
    operation_type = o.operation_type;
    label = o.label;
    status = o.status;
    current = o.current;
    total = or_zero o.total;
    percent = percent round_percent o.current o.total;
    message = o.message;
    errors = o.errors;
    started_at = o.started_at;
    updated_at = o.updated_at;
    completed_at = o.completed_at;
  }

  -- The summary of the listed payloads.
  unfoldable pub summarize : List OperationPayload → Summary
  unfolding is_active sum_totals sum_currents percent
  summarize payloads =
      let known = keep_if (λ p. ltb 0 p.total) payloads in
      let total = sum_totals known in
      let current = sum_currents known in
      let is_running = any is_active payloads in
      record {
        is_running = is_running;
        operation_count = length payloads;
        active_count = length (keep_if is_active payloads);
        current = current;
        total = total;
        percent = elim known [
          | [] ↦ none
          | p ∷ ps ↦
              if not is_running && leb total current
              then some 100
              else percent round_percent current (some total)
        ];
      }

  -- The stale operations are dropped from the table, and the rest is listed.
  unfoldable pub operations_status_payload :
      (now : ℕ) (recent_seconds : ℤ) → Operations → (Summary × List OperationPayload) × Operations
  unfolding purge before operation_payload summarize sort_by
  operations_status_payload now recent_seconds ops =
      let kept = purge now recent_seconds ops in
      let payloads = map operation_payload (sort_by before (Dict.values kept)) in
      ((summarize payloads, payloads), kept)
