-- ===== src/WatchState/Progress.antt =====
-- `choose_newer_watch_progress` (app/services/watch_state.py): which of two records of the same item
-- wins. A time is a number; positions may be negative, as the providers send them.
pub mod Laws
use q_bittorrent_rss_rules.Prelude.{
  ℕ, ◌+◌, ◌-◌, max, suc, Bool, true, false, ◌&&◌, ◌||◌, not, Option, none, some, ltb, leb,
  if◌then◌else◌,
}
use q_bittorrent_rss_rules.Prelude.Int.{ℤ, pos, negsuc, clamp_nonneg}
use q_bittorrent_rss_rules.Prelude.Text.{Text, codes}

pub record WatchProgressRecord : Type 0 where
  pub source : Text
  pub media_type : Text
  pub item_key : Text
  pub provider_item_id : Text
  pub position_ms : ℤ
  pub duration_ms : Option ℤ
  pub completed : Bool
  pub updated_at : Option ℕ

pub record WatchProgressSelection : Type 0 where
  pub winner : WatchProgressRecord
  pub loser : WatchProgressRecord
  pub delta_ms : ℕ
  pub reason : Text

-- `_record_has_meaningful_progress`
unfoldable pub has_meaningful_progress : WatchProgressRecord → Bool
has_meaningful_progress r = r.completed || ltb 0 (clamp_nonneg r.position_ms)

abbrev distance : ℕ → ℕ → ℕ
distance a b = if leb a b then b - a else a - b

-- `abs(a - b)`
unfoldable pub abs_difference : ℤ → ℤ → ℕ
abs_difference (pos a) (pos b) = distance a b
abs_difference (pos a) (negsuc b) = a + suc b
abs_difference (negsuc a) (pos b) = suc a + b
abs_difference (negsuc a) (negsuc b) = distance a b

-- `a != b` on truth values
abbrev pub differ : Bool → Bool → Bool
differ a b = if a then not b else b

-- `right_updated is None or (left_updated is not None and left_updated >= right_updated)`
unfoldable pub left_is_newer : Option ℕ → Option ℕ → Bool
left_is_newer l none = true
left_is_newer none (some r) = false
left_is_newer (some l) (some r) = leb r l

abbrev pub is_none {ℓ} : {A : Type ℓ} → Option A → Bool
is_none none = true
is_none (some a) = false

-- Whether the left record wins.
unfoldable pub left_wins : WatchProgressRecord → WatchProgressRecord → Bool
unfolding left_is_newer
left_wins l r =
    if is_none l.updated_at && is_none r.updated_at && differ l.completed r.completed
    then l.completed
    else left_is_newer l.updated_at r.updated_at

unfoldable pub choose_newer_watch_progress :
    WatchProgressRecord → WatchProgressRecord → (min_delta_ms : ℕ) → Option WatchProgressSelection
unfolding has_meaningful_progress abs_difference left_wins
choose_newer_watch_progress l r min_delta_ms =
    if not (has_meaningful_progress l) && not (has_meaningful_progress r)
    then none
    else (let delta_ms = abs_difference l.position_ms r.position_ms in
        let completion_changed = differ l.completed r.completed in
        if not completion_changed && ltb delta_ms min_delta_ms
        then none
        else some (record {
          winner = if left_wins l r then l else r;
          loser = if left_wins l r then r else l;
          delta_ms = delta_ms;
          reason =
              if completion_changed then codes "completion changed" else codes "newer progress";
        }))
