-- ===== src/Tests/OperationStatus.antt =====
-- app/services/operation_status.py on concrete tables.
use q_bittorrent_rss_rules.Prelude.{ℕ, ◌≡◌, refl, none, some, [], ◌∷◌, text_eq, map, keep_if}
use mathlib.Core.List.{Perm}
use q_bittorrent_rss_rules.Prelude.Int.{pos, negsuc}
use q_bittorrent_rss_rules.Prelude.Text.{Text, codes, is_space, strip}
use q_bittorrent_rss_rules.Prelude.Dict
use q_bittorrent_rss_rules.Prelude.Sort.{IsSorted}
use q_bittorrent_rss_rules.OperationStatus.{
  Operations, OperationRecord, OperationPayload, start_operation, operations_status_payload,
  operation_payload,
}
use q_bittorrent_rss_rules.OperationStatus.Payload.{
  operations_status_payload_lem, listed_before, is_listed, keep_fresh,
}
use q_bittorrent_rss_rules.Tests.Ascii.{ascii}

abbrev half : ℕ → ℕ → ℕ
half c t = 50

abbrev id : Text
id = codes "op"

abbrev sync : OperationRecord
sync = record {
  operation_id = id;
  operation_type = codes "qb_sync";
  label = codes "Sync";
  status = codes "running";
  current = 2;
  total = some 4;
  message = [];
  errors = [];
  started_at = 100;
  updated_at = 101;
  completed_at = none;
}

abbrev old : OperationRecord
old = record sync { operation_id = codes "old"; started_at = 10; completed_at = some 20 }

abbrev table : Operations
table = (codes "old", old) ∷ (id, sync) ∷ []

started :
    start_operation id 100 [] (codes " Sync ") (some (negsuc 3)) (pos 1) [] (codes " RUNNING ") []
    ≡ (
      id,
      record sync {
        operation_type = codes "operation";
        current = 1;
        total = some 0;
        updated_at = 100;
      },
    )
      ∷ []
unfolding start_operation is_space strip
started = refl

payload : OperationPayload
unfolding operation_payload
payload = operation_payload half sync

operations_status_payload_lem_example :
    IsSorted listed_before (operations_status_payload half 130 (pos 20) table).0.1
    × Perm
        (operations_status_payload half 130 (pos 20) table).0.1
        (map (operation_payload half) (keep_if (is_listed 130 (pos 20)) (Dict.values table)))
    × (Dict.get id (operations_status_payload half 130 (pos 20) table).1
        ≡ keep_fresh 130 (pos 20) (Dict.get id table))
operations_status_payload_lem_example =
    operations_status_payload_lem half 130 (pos 20) table id
      (unfold Dict.get text_eq in (refl, (refl, tt)))
