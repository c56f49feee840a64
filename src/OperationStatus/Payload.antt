-- ===== src/OperationStatus/Payload.antt =====
-- What `operations_status_payload` keeps and how it orders it (app/services/operation_status.py).
use q_bittorrent_rss_rules.Prelude.{
  ℕ, ◌+◌, ◌≡◌, refl, subst, not, keep_if, Bool, true, false, Option, none, some, List, [], ◌∷◌, map,
  arith, leb, if◌then◌else◌, text_eq,
}
use q_bittorrent_rss_rules.Prelude.Int.{ℤ, clamp_nonneg}
use q_bittorrent_rss_rules.Prelude.Text.{Text}
use mathlib.Core.List.{Perm}
use mathlib.Core.List.Perm
use q_bittorrent_rss_rules.Prelude.Dict
use q_bittorrent_rss_rules.Prelude.Dict.{Dict}
use q_bittorrent_rss_rules.Prelude.Sort.{
  IsSorted, BelowAll, sort_by, sort_by-perm, sort_by-IsSorted,
}
use q_bittorrent_rss_rules.OperationStatus.{
  Operations, OperationRecord, OperationPayload, before, is_stale, purge, operation_payload,
  operations_status_payload,
}

-- The operation still runs, or was completed within the window of seconds before now.
abbrev pub is_listed : ℕ → ℤ → OperationRecord → Bool
is_listed now recent o = elim o.completed_at [
  | none ↦ true
  | some t ↦ leb now (t + clamp_nonneg recent)
]

abbrev pub keep_fresh : ℕ → ℤ → Option OperationRecord → Option OperationRecord
keep_fresh now recent none = none
keep_fresh now recent (some o) = if is_listed now recent o then some o else none

is_stale-is_listed :
    (now : ℕ) (recent : ℤ) (o : OperationRecord)
    → is_stale now recent o ≡ not (is_listed now recent o)
unfolding is_stale
is_stale-is_listed now recent o = ground arith

values-purge :
    (now : ℕ) (recent : ℤ) (ops : Operations)
    → Dict.values (purge now recent ops) ≡ keep_if (is_listed now recent) (Dict.values ops)
unfolding purge
values-purge now recent [] = refl
values-purge now recent ((k, o) ∷ ops) =
    ground (arith, is_stale-is_listed now recent o, values-purge now recent ops)

get-purge :
    (now : ℕ) (recent : ℤ) (k : Text) (ops : Operations)
    → Dict.NodupKeys ops
    → Dict.get k (purge now recent ops) ≡ keep_fresh now recent (Dict.get k ops)
unfolding purge Dict.get
get-purge now recent k [] _ = refl
get-purge now recent k ((j, o) ∷ ops) (fresh, u) =
    ground (arith, is_stale-is_listed now recent o, get-purge now recent k ops u)

before_total : (a b : OperationRecord) → before a b ≡ false → before b a ≡ true
unfolding before
before_total a b h = ground arith

before_trans : (a b c : OperationRecord) → before a b ≡ true → before b c ≡ true → before a c ≡ true
unfolding before
before_trans a b c h k = ground arith

-- The order of the listing, read off the payloads: what still runs comes first, then by start.
abbrev pub listed_before : OperationPayload → OperationPayload → Bool
listed_before p q = elim p.completed_at [
  | none ↦ elim q.completed_at [ none ↦ leb p.started_at q.started_at | some t ↦ true ]
  | some t ↦ elim q.completed_at [ none ↦ false | some s ↦ leb p.started_at q.started_at ]
]

module _ (round_percent : ℕ → ℕ → ℕ) where
  listed_before-before :
      (a b : OperationRecord)
      → before a b ≡ true
      → listed_before (operation_payload round_percent a) (operation_payload round_percent b) ≡ true
  unfolding before operation_payload
  listed_before-before a b h = ground arith

  BelowAll-map :
      (a : OperationRecord) (os : List OperationRecord)
      → BelowAll before a os
      → BelowAll listed_before
          (operation_payload round_percent a)
          (map (operation_payload round_percent) os)
  BelowAll-map a [] h = tt
  BelowAll-map a (b ∷ os) (h, hs) = (listed_before-before a b h, BelowAll-map a os hs)

  IsSorted-map :
      (os : List OperationRecord)
      → IsSorted before os
      → IsSorted listed_before (map (operation_payload round_percent) os)
  IsSorted-map [] h = tt
  IsSorted-map (o ∷ os) (h, hs) = (BelowAll-map o os h, IsSorted-map os hs)

  module _ (now : ℕ) (recent : ℤ) (ops : Operations) (k : Text) where
    -- The status query lists, each once, exactly the operations that still run or were completed
    -- within the window, the running ones first and each group by its start; and it forgets exactly
    -- the others: in a table without double keys every listed operation is still there, unchanged.
    pub operations_status_payload_lem :
        Dict.NodupKeys ops
        → IsSorted listed_before (operations_status_payload round_percent now recent ops).0.1
          × Perm (operations_status_payload round_percent now recent ops).0.1 (
              map
                (operation_payload round_percent)
                (keep_if (is_listed now recent) (Dict.values ops)))
          × (Dict.get k (operations_status_payload round_percent now recent ops).1
              ≡ keep_fresh now recent (Dict.get k ops))
    unfolding operations_status_payload
    operations_status_payload_lem u = (
      IsSorted-map _
          (sort_by-IsSorted before before_total before_trans (Dict.values (purge now recent ops))),
      subst
          (λ os.
            Perm
              (map (operation_payload round_percent)
                (sort_by before (Dict.values (purge now recent ops))))
              (map (operation_payload round_percent) os))
          (values-purge now recent ops)
          (Perm.map (operation_payload round_percent)
            (sort_by-perm before (Dict.values (purge now recent ops)))),
      get-purge now recent k ops u,
    )
