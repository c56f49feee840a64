-- ===== src/WatchState/Progress/Laws.antt =====
-- Who wins in `choose_newer_watch_progress` (app/services/watch_state.py).
use q_bittorrent_rss_rules.Prelude.{
  ℕ, ◌≤◌, ◌<◌, ◌≡◌, ◌≢◌, ◌⊎◌, ◌&&◌, if◌then◌else◌, Bool, true, false, Option, none, some, arith,
}
use q_bittorrent_rss_rules.Prelude.Int.{ℤ, pos, negsuc}
use q_bittorrent_rss_rules.WatchState.Progress.{
  WatchProgressRecord, WatchProgressSelection, has_meaningful_progress, abs_difference, differ,
  left_is_newer, left_wins, is_none, choose_newer_watch_progress,
}

abs_difference_comm : (a b : ℤ) → abs_difference a b ≡ abs_difference b a
unfolding abs_difference
abs_difference_comm (pos a) (pos b) = ground arith
abs_difference_comm (pos a) (negsuc b) = omega arith
abs_difference_comm (negsuc a) (pos b) = omega arith
abs_difference_comm (negsuc a) (negsuc b) = ground arith

-- `a` was updated no later than `b`, as far as both times are known.
abbrev pub UpdatedBy : Option ℕ → Option ℕ → Type 0
UpdatedBy none b = Unit
UpdatedBy (some s) none = ⊥
UpdatedBy (some s) (some t) = s ≤ t

-- The right record comes before the left one: it was updated later, or only its time is known, or
-- no time is known and it alone is completed.
abbrev pub RightFirst : (times : Option ℕ) (times' : Option ℕ) → Bool → Bool → Type 0
RightFirst none none c c' = (c ≡ false) × (c' ≡ true)
RightFirst none (some t) c c' = Unit
RightFirst (some s) none c c' = ⊥
RightFirst (some s) (some t) c c' = s < t

-- The two records are the winner and the loser, and the right one wins if and only if it comes
-- first.
abbrev pub Wins : WatchProgressRecord → WatchProgressRecord → WatchProgressSelection → Type 0
Wins l r s =
    ((s.winner ≡ l)
      × (s.loser ≡ r)
      × ¬ RightFirst l.updated_at r.updated_at l.completed r.completed)
    ⊎ ((s.winner ≡ r)
        × (s.loser ≡ l)
        × RightFirst l.updated_at r.updated_at l.completed r.completed)

-- What a comparison with a least distance may answer.
abbrev pub Decided :
    WatchProgressRecord → WatchProgressRecord → ℕ → Option WatchProgressSelection → Type 0
Decided l r m none =
    ((has_meaningful_progress l ≡ false) × (has_meaningful_progress r ≡ false))
    ⊎ ((l.completed ≡ r.completed) × (abs_difference l.position_ms r.position_ms < m))
Decided l r m (some s) =
    ((has_meaningful_progress l ≡ true) ⊎ (has_meaningful_progress r ≡ true))
    × ((l.completed ≢ r.completed) ⊎ (m ≤ s.delta_ms))
    × (s.delta_ms ≡ abs_difference l.position_ms r.position_ms)
    × Wins l r s

left_wins-true :
    (s t : Option ℕ) (c d : Bool)
    → (if is_none s && is_none t && differ c d then c else left_is_newer s t) ≡ true
    → ¬ RightFirst s t c d
unfolding left_is_newer
left_wins-true none none c d h = ground arith
left_wins-true none (some t) c d h = ground arith
left_wins-true (some s) none c d h = λ e. e
left_wins-true (some s) (some t) c d h = ground arith

left_wins-false :
    (s t : Option ℕ) (c d : Bool)
    → (if is_none s && is_none t && differ c d then c else left_is_newer s t) ≡ false
    → RightFirst s t c d
unfolding left_is_newer
left_wins-false none none c d h = ground arith
left_wins-false none (some t) c d h = tt
left_wins-false (some s) none c d h = ground arith
left_wins-false (some s) (some t) c d h = ground arith

-- For any two records and any least distance, nothing is chosen exactly if neither record shows
-- progress, or both are equally complete and nearer than the distance; else the distance reported
-- is that of the positions and the right record wins if and only if it comes first: it was updated
-- later, or only its time is known, or no time is known and it alone is completed.
pub choose_newer_lem :
    (l r : WatchProgressRecord) (min_delta : ℕ)
    → Decided l r min_delta (choose_newer_watch_progress l r min_delta)
unfolding choose_newer_watch_progress left_wins
choose_newer_lem l r m = ground (
  arith,
  left_wins-true l.updated_at r.updated_at l.completed r.completed,
  left_wins-false l.updated_at r.updated_at l.completed r.completed,
)

-- If both times are known, a chosen winner was not updated before its loser.
pub choose_newer-updated :
    (l r : WatchProgressRecord) (min_delta t t' : ℕ) (s : WatchProgressSelection)
    → l.updated_at ≡ some t
    → r.updated_at ≡ some t'
    → choose_newer_watch_progress l r min_delta ≡ some s
    → UpdatedBy s.loser.updated_at s.winner.updated_at
unfolding choose_newer_watch_progress
choose_newer-updated l r m t t' s a b h = ground arith

-- The choice does not depend on the order in which two records are compared, if their times of
-- update differ.
pub choose_newer_comm :
    (l r : WatchProgressRecord) (min_delta : ℕ)
    → l.updated_at ≢ r.updated_at
    → choose_newer_watch_progress l r min_delta ≡ choose_newer_watch_progress r l min_delta
unfolding choose_newer_watch_progress
choose_newer_comm l r m h = ground (arith, abs_difference_comm l.position_ms r.position_ms)
