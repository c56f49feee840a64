-- ===== src/RuleBuilder/Trees/Floor.antt =====
-- The fragment for a floor finds the keys from the floor on (app/services/rule_builder.py).
use q_bittorrent_rss_rules.Prelude.{
  ℕ, ◌+◌, ◌*◌, ◌≤◌, ◌<◌, min, max, ◌≡◌, ap, ap₂, ◌∙◌, inl, inr, true, false, ◌&&◌, ◌||◌, Option,
  some, [], ◌∷◌, arith, leb, ltb, ◌=?◌, Bool-cases,
}
use q_bittorrent_rss_rules.Prelude.Text.{Text}
use q_bittorrent_rss_rules.Prelude.Unicode.{Unicode}
use q_bittorrent_rss_rules.RuleBuilder.Regex.{
  digit, Regex, Follow, seq, optional, at_least, matches, done, cat, alts,
}
use q_bittorrent_rss_rules.RuleBuilder.Numbers.{min_1_to_99, min_0_to_99, bounded}
use q_bittorrent_rss_rules.RuleBuilder.Trees.{
  separators, season_prefix, episode_prefix, any_number, exact, no_digit, hyphen, word_end,
  season_episode, floor_trees, daily_rest, progress_tree,
}
use q_bittorrent_rss_rules.SelectiveQueue.Plan.{episode_geb}
use q_bittorrent_rss_rules.RuleBuilder.Trees.Laws.{
  season_prefix-digit, episode_prefix-digit, separators-E,
}
use q_bittorrent_rss_rules.RuleBuilder.Trees.Seasons.{number_season, exact_season}
use q_bittorrent_rss_rules.RuleBuilder.Trees.Keys.{
  season_then_episode, season_alone, StopsAtDigit, any_number-E, any_number_last, any_number-done,
  hyphen-StopsAtDigit, episode-StopsAtDigit, hyphen-E, hyphen_last, three_digits,
}
use q_bittorrent_rss_rules.RuleBuilder.Trees.Episodes.{min_last}

later_or_same :
    (s e v w : ℕ) → (leb (s + 1) v || (false || (s =? v) && leb e w)) ≡ episode_geb (v, w) (s, e)
unfolding episode_geb
later_or_same s e v w = ground arith

last_season : (s e v w : ℕ) → 99 ≤ s → v < 100 → ((s =? v) && leb e w) ≡ episode_geb (v, w) (s, e)
unfolding episode_geb
last_season s e v w h k = ground arith

module _ ⦃u : Unicode⦄ where
  min_season :
      (a b : ℕ) (ha : a < 10) (hb : b < 10) (k : Follow) (stops : StopsAtDigit k) (prev : Option ℕ)
      (rest : Text) (n : ℕ)
      → 1 ≤ n
      → n ≤ 99
      → matches (min_1_to_99 n) k prev ((b'0' + a) ∷ (b'0' + b) ∷ b'E' ∷ rest)
        ≡ (leb n (10 * a + b) && k (some (b'0' + b)) (b'E' ∷ rest))
  unfolding min_1_to_99
  min_season a b ha hb k stops prev rest n l m =
      number_season a b ha hb k stops prev rest (max 1 (min 99 n)) (omega arith) (omega arith)
      ∙ ap (λ v. leb v (10 * a + b) && k (some (b'0' + b)) (b'E' ∷ rest)) (omega arith)

module _ ⦃u : Unicode⦄ (a b c d : ℕ) (ha : a < 10) (hb : b < 10) (hc : c < 10) (hd : d < 10)
    (prev : Option ℕ) where
  abbrev episode_text : Text
  episode_text = (b'0' + c) ∷ (b'0' + d) ∷ []

  abbrev key : Text
  key = b'S' ∷ (b'0' + a) ∷ (b'0' + b) ∷ b'E' ∷ episode_text

  abbrev value : ℕ
  value = 10 * a + b

  -- A range of episodes needs a hyphen.
  pub range_fails :
      (k : Regex)
      → matches (seq any_number (seq separators (seq hyphen k))) done (some b'E') episode_text
        ≡ false
  unfolding matches
  range_fails k =
      any_number_last (matches separators (matches hyphen (matches k done))) (some b'E') c d hc hd
        (hyphen-StopsAtDigit (matches k done))
      ∙ hyphen_last (matches k done) (some (b'0' + d))

  -- So does a range of seasons.
  season_range_fails :
      (k : Regex)
      → matches (seq season_prefix (seq any_number (seq separators (seq hyphen k)))) done prev key
        ≡ false
  unfolding matches
  season_range_fails k =
      let after = matches separators (matches hyphen (matches k done)) in
      season_prefix-digit (matches any_number after) prev a ((b'0' + b) ∷ b'E' ∷ episode_text) ha
      ∙ any_number-E after (some b'S') a b episode_text ha hb (hyphen-StopsAtDigit (matches k done))
      ∙ hyphen-E (matches k done) (some (b'0' + b)) episode_text

  -- And a daily show, three digits.
  three_fails :
      (k : Regex)
      → matches
          (seq season_prefix
            (seq any_number (seq separators (seq episode_prefix (seq (at_least 3 digit) k)))))
          done
          prev
          key
        ≡ false
  unfolding matches
  three_fails k =
      let three = matches (at_least 3 digit) (matches k done) in
      let after = matches separators (matches episode_prefix three) in
      season_prefix-digit (matches any_number after) prev a ((b'0' + b) ∷ b'E' ∷ episode_text) ha
      ∙ any_number-E after (some b'S') a b episode_text ha hb (episode-StopsAtDigit three)
      ∙ separators-E (matches episode_prefix three) (some (b'0' + b)) episode_text
      ∙ episode_prefix-digit three (some (b'0' + b)) c ((b'0' + d) ∷ []) hc
      ∙ three_digits (matches k done) (some b'E') c d

  -- The two fragments of the later seasons.
  after_first :
      (n : ℕ)
      → 1 ≤ n
      → n ≤ 99
      → matches (season_episode (min_1_to_99 n) (any_number ∷ [])) done prev key ≡ leb n value
  after_first n l m =
      let number =
        λ (a b : ℕ) (k : Follow) (prev : Option ℕ) (rest : Text) (ha : a < 10) (hb : b < 10)
            (stops : StopsAtDigit k).
          min_season a b ha hb k stops prev rest n l m in
      season_then_episode (min_1_to_99 n) (λ v. leb n v) number a b c d ha hb hc hd prev any_number
      ∙ ap (λ t. leb n value && t) (any_number-done (some b'E') c d hc hd)
      ∙ ground arith

  after_second :
      (n : ℕ)
      → 1 ≤ n
      → n ≤ 99
      → matches (cat (season_prefix ∷ min_1_to_99 n ∷ no_digit ∷ word_end ∷ [])) done prev key
        ≡ false
  after_second n l m =
      let number =
        λ (a b : ℕ) (k : Follow) (prev : Option ℕ) (rest : Text) (ha : a < 10) (hb : b < 10)
            (stops : StopsAtDigit k).
          min_season a b ha hb k stops prev rest n l m in
      season_alone (min_1_to_99 n) (λ v. leb n v) number a b c d ha hb hc hd prev

  floor_lem :
      (s e : ℕ)
      → s < 100
      → 1 ≤ s
      → e ≤ 99
      → matches (alts (floor_trees s e)) done prev key ≡ ((s =? value) && leb e (10 * c + d))
  unfolding matches
  floor_lem s e l l' m =
      let number =
        λ (a b : ℕ) (k : Follow) (prev : Option ℕ) (rest : Text) (ha : a < 10) (hb : b < 10)
            (stops : StopsAtDigit k).
          exact_season a b ha hb k stops prev rest s l in
      let at_season = season_then_episode (exact s) (λ v. s =? v) number a b c d ha hb hc hd prev in
      ap₂ ◌||◌
        (at_season (min_0_to_99 e)
          ∙ ap (λ t. (s =? value) && t) (min_last c d hc hd (some b'E') e m))
        (ap₂ ◌||◌
          (at_season (
              seq any_number (
                seq separators
                  (seq hyphen (seq separators (seq (optional episode_prefix) (min_0_to_99 e))))))
            ∙ ap (λ t. (s =? value) && t)
                (range_fails (seq separators (seq (optional episode_prefix) (min_0_to_99 e)))))
          (ap₂ ◌||◌ (season_alone (exact s) (λ v. s =? v) number a b c d ha hb hc hd prev) (
            ap₂ ◌||◌
              (season_range_fails
                (seq separators (seq (optional season_prefix) (seq (min_1_to_99 s) no_digit))))
              (three_fails daily_rest))))
      ∙ ground arith

  -- At a key the fragment matches exactly if the key is not before the floor.
  pub progress_at :
      (start_season start_episode : ℕ)
      → matches (progress_tree start_season start_episode) done prev key
        ≡ episode_geb (value, 10 * c + d) (bounded false start_season, bounded true start_episode)
  unfolding progress_tree matches bounded
  progress_at s e =
      let season = bounded false s in
      let episode = bounded true e in
      let at_floor = floor_lem season episode (omega arith) (omega arith) (omega arith) in
      elim (Bool-cases (ltb season 99)) [
        | inl h ↦
            rw (h, matches)
              (ap₂ ◌||◌ (after_first (season + 1) (omega arith) (ground arith))
                  (ap₂ ◌||◌ (after_second (season + 1) (omega arith) (ground arith)) at_floor)
                ∙ later_or_same season episode value (10 * c + d))
        | inr h ↦
            rw h (
              at_floor ∙ last_season season episode value (10 * c + d) (ground arith) (omega arith))
      ]
