-- ===== src/OperationStatus/Table.antt =====
-- What the three writers do to the table (app/services/operation_status.py).
use mathlib.Core.Option
use q_bittorrent_rss_rules.Prelude.{
  ℕ, suc, ◌≡◌, ◌≢◌, refl, Option, some, [], ◌∷◌, inl, inr, arith, if◌then◌else◌, ◌==◌, text_eq,
  Option-cases,
}
use q_bittorrent_rss_rules.Prelude.Text.{Text}
use q_bittorrent_rss_rules.Prelude.Unicode.{Unicode}
use q_bittorrent_rss_rules.Prelude.Dict
use q_bittorrent_rss_rules.OperationStatus.{
  Operations, OperationRecord, change, complete_operation, percent, complete_record,
}

module _ ⦃u : Unicode⦄ where
  -- A change replaces the record of its own identifier, if there is one, and no other record.
  pub get-change :
      (id j : Text) (f : OperationRecord → OperationRecord) (ops : Operations)
      → id ≢ []
      → Dict.get j (change (some id) f ops)
        ≡ (if j == id then Option.map f (Dict.get j ops) else Dict.get j ops)
  unfolding change
  get-change [] j f ops h = absurd (h refl)
  get-change (c ∷ s) j f ops h = elim (Option-cases (Dict.get (c ∷ s) ops)) [
    | inl e ↦ rw (e, change) (ground (arith, e))
    | inr (o, e) ↦ rw (e, change) (rw Dict.get-insert (ground (arith, e)))
  ]

  -- Completing a listed operation with a positive total stores a record that is marked completed at
  -- that time, whose current count has reached its total, and whose percentage is 100. Every other
  -- operation keeps its record.
  pub complete_operation_lem :
      (round_percent : ℕ → ℕ → ℕ) (now : ℕ) (id j : Text) (status : Text)
      (message error : Option Text) (t : ℕ) (o : OperationRecord) (ops : Operations)
      → id ≢ []
      → Dict.get id ops ≡ some o
      → o.total ≡ some (suc t)
      → ((o' : OperationRecord) × (Dict.get id
              (complete_operation now (some id) status message error ops)
            ≡ some o')
          × (o'.completed_at ≡ some now)
          × (percent round_percent o'.current o'.total ≡ some 100)
          × (o'.started_at ≡ o.started_at))
        × (j ≢ id
            → Dict.get j (complete_operation now (some id) status message error ops)
              ≡ Dict.get j ops)
  unfolding complete_operation percent
  complete_operation_lem r now id j status message error t o ops h e total = (
    (
      complete_record now status message error o,
      rw (get-change id id (complete_record now status message error) ops h) (ground (arith, e)),
      refl,
      rw total (ground arith),
      refl,
    ),
    λ ne. rw (get-change id j (complete_record now status message error) ops h) (ground arith),
  )
