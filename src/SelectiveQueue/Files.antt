-- ===== src/SelectiveQueue/Files.antt =====
-- The files of a torrent, and which of them is an episode (app/services/selective_queue.py).
pub mod Laws
use q_bittorrent_rss_rules.Prelude.{
  ℕ, suc, ◌<◌, Bool, true, false, ◌&&◌, ◌||◌, not, Option, none, some, List, [], ◌∷◌, ◌++◌, leb,
  ltb, ◌=?◌, if◌then◌else◌, contains, text_eq, ◌==◌, length, any, keep_if,
}
use mathlib.Core.List.{reverse}
use q_bittorrent_rss_rules.Prelude.Text.{Text, codes, strip, starts_with}
use q_bittorrent_rss_rules.Prelude.Sort.{sort_by}
use q_bittorrent_rss_rules.Prelude.Unicode.{Unicode}
use q_bittorrent_rss_rules.SelectiveQueue.Ranges.{Range, episode_matches_for_path, range_holds}

-- A size that qBittorrent reports may be missing.
pub record TorrentFileEntry : Type 0 where
  pub file_id : ℕ
  pub path : Text
  pub size_bytes : Option ℕ

-- The pieces of a path between its slashes.
unfoldable pub split_slash : Text → List Text
split_slash [] = [] ∷ []
split_slash (c ∷ s) = elim (split_slash s) [
  | [] ↦ (c ∷ []) ∷ []
  | piece ∷ pieces ↦ if c =? b'/' then [] ∷ piece ∷ pieces else (c ∷ piece) ∷ pieces
]

-- `PurePosixPath(path).parts` without its root: empty pieces and "." do not count.
unfoldable pub tail_parts : Text → List Text
unfolding split_slash text_eq
tail_parts path = keep_if (λ p. not (p == [] || p == codes ".")) (split_slash path)

-- The root: two slashes at the start stay two, more of them are one.
unfoldable pub root_parts : Text → List Text
unfolding starts_with
root_parts path =
    if starts_with path (codes "///")
    then codes "/" ∷ []
    else if starts_with path (codes "//")
    then codes "//" ∷ []
    else if starts_with path (codes "/")
    then codes "/" ∷ []
    else []

unfoldable pub parts : Text → List Text
unfolding root_parts tail_parts
parts path = root_parts path ++ tail_parts path

-- What follows the last dot, none if there is no dot.
unfoldable pub after_last_dot : Text → Option Text
after_last_dot [] = none
after_last_dot (c ∷ s) = elim (after_last_dot s) [
  | some rest ↦ some rest
  | none ↦ if c =? b'.' then some s else none
]

-- `PurePosixPath.suffix` of a name: no suffix where the dot is its first or last character.
unfoldable pub name_suffix : Text → Text
unfolding after_last_dot
name_suffix name = elim (after_last_dot name) [
  | none ↦ []
  | some rest ↦
      if ltb 0 (length rest) && ltb (suc (length rest)) (length name) then b'.' ∷ rest else []
]

-- `PurePosixPath(path).name`: the last piece.
unfoldable pub path_name : List Text → Text
path_name [] = []
path_name (p ∷ []) = p
path_name (p ∷ q ∷ ps) = path_name (q ∷ ps)

abbrev pub video_file_extensions : List Text
video_file_extensions =
    codes ".avi"
    ∷ codes ".m4v"
    ∷ codes ".mkv"
    ∷ codes ".mov"
    ∷ codes ".mp4"
    ∷ codes ".mpeg"
    ∷ codes ".mpg"
    ∷ codes ".ts"
    ∷ codes ".wmv"
    ∷ []

-- Code points in lexicographic order, as `<=` compares two `str`.
unfoldable pub text_leb : Text → Text → Bool
text_leb [] t = true
text_leb (c ∷ s) [] = false
text_leb (c ∷ s) (d ∷ t) = ltb c d || c =? d && text_leb s t

module _ ⦃u : Unicode⦄ where
  unfoldable pub is_video_file : Text → Bool
  unfolding name_suffix path_name tail_parts
  is_video_file path =
      contains video_file_extensions (u.casefold (name_suffix (path_name (tail_parts path))))

  -- One range is exactly the episode.
  unfoldable pub range_is : ℕ → ℕ → Range → Bool
  range_is season_number episode_number (season, start, end) =
      season =? season_number && start =? episode_number && end =? episode_number

  -- The last loop of the rank, over the folders from the innermost outwards.
  unfoldable pub parent_rank : ℕ → ℕ → List Text → ℕ
  unfolding episode_matches_for_path range_holds
  parent_rank season_number episode_number [] = 10
  parent_rank season_number episode_number (segment ∷ segments) =
      let rest = parent_rank season_number episode_number segments in
      if any (range_holds season_number episode_number) (episode_matches_for_path segment)
      then 5
      else rest

  -- The rank of a file by its name and its folders, the innermost first.
  unfoldable pub rank_parts : ℕ → ℕ → List Text → ℕ
  unfolding parent_rank range_is range_holds episode_matches_for_path
  rank_parts season_number episode_number [] = 10
  rank_parts season_number episode_number (filename ∷ folders) =
      let filename_matches = episode_matches_for_path filename in
      if any (range_holds season_number episode_number) filename_matches
      then (if any (range_is season_number episode_number) filename_matches then 0 else 1)
      else parent_rank season_number episode_number folders

  unfoldable pub episode_file_match_rank : Text → ℕ → ℕ → ℕ
  unfolding rank_parts parts strip
  episode_file_match_rank path season_number episode_number =
      rank_parts season_number episode_number (reverse (parts (strip path)))

  unfoldable pub file_path_matches_episode : Text → ℕ → ℕ → Bool
  unfolding episode_file_match_rank
  file_path_matches_episode path season_number episode_number =
      ltb (episode_file_match_rank path season_number episode_number) 10

  -- The key of the sort: the rank, then the id, then the folded path.
  unfoldable pub entry_leb : ℕ → ℕ → TorrentFileEntry → TorrentFileEntry → Bool
  unfolding episode_file_match_rank text_leb
  entry_leb season episode a b =
      let r = episode_file_match_rank a.path season episode in
      let s = episode_file_match_rank b.path season episode in
      ltb r s
      || r =? s
        && (ltb a.file_id b.file_id
            || a.file_id =? b.file_id && text_leb (u.casefold a.path) (u.casefold b.path))

  unfoldable pub is_candidate : ℕ → ℕ → TorrentFileEntry → Bool
  unfolding is_video_file file_path_matches_episode
  is_candidate season_number episode_number entry =
      is_video_file entry.path && file_path_matches_episode entry.path season_number episode_number

  abbrev pub first_entry : List TorrentFileEntry → Option TorrentFileEntry
  first_entry [] = none
  first_entry (entry ∷ entries) = some entry

  unfoldable pub find_episode_file_entry : List TorrentFileEntry → ℕ → ℕ → Option TorrentFileEntry
  unfolding sort_by entry_leb is_candidate
  find_episode_file_entry files season_number episode_number = first_entry (
      sort_by (entry_leb season_number episode_number)
        (keep_if (is_candidate season_number episode_number) files))
