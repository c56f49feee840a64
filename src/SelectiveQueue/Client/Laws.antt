-- ===== src/SelectiveQueue/Client/Laws.antt =====
-- How often qBittorrent is asked, and what the answers mean (app/services/selective_queue.py).
use q_bittorrent_rss_rules.Prelude.{
  ℕ, zero, suc, ◌+◌, ◌*◌, ◌≤◌, ◌≡◌, refl, ◌∙◌, inl, inr, Bool, true, false, List, [], ◌∷◌, arith,
  if◌then◌else◌, length, Option-cases,
}
use q_bittorrent_rss_rules.Prelude.Text.{Text, strip}
use q_bittorrent_rss_rules.Prelude.Unicode.{Unicode}
use q_bittorrent_rss_rules.SelectiveQueue.Client.{
  Result, ok, raised, Call, add_torrent_file, add_torrent_url, set_file_priority, get_torrent,
  get_torrents, Webui, M, request, client_set_file_priority, client_get_torrent, current_qb_hashes,
  pause_before, wait_loop, wait_for_qb_torrent, verify_loop, has_new, continue, ◌>>=◌, pure,
}

-- A call that gives qBittorrent a torrent.
abbrev pub is_submission : Call → Bool
is_submission (add_torrent_file torrent_bytes filename options) = true
is_submission (add_torrent_url link options) = true
is_submission _ = false

abbrev pub submissions : List Call → ℕ
submissions [] = 0
submissions (c ∷ calls) = (if is_submission c then 1 else 0) + submissions calls

-- The run makes no submission and at most `n` calls.
abbrev pub IsQuiet : {A : Type 0} → ℕ → M A → Type 0
IsQuiet n m =
    (calls : List Call)
    → (submissions ((m calls).1) ≡ submissions calls) × (length ((m calls).1) ≤ n + length calls)

module _ ⦃u : Unicode⦄ (w : Webui) where
  pub request-IsQuiet : (c : Call) → is_submission c ≡ false → IsQuiet 1 (request w c)
  unfolding request
  request-IsQuiet c h calls = elim (Option-cases (w.refuses calls c)) [
    | inl e ↦ ground (arith, e)
    | inr (x, e) ↦ ground (arith, e)
  ]

  pub get_torrent-IsQuiet : (h : Text) → IsQuiet 1 (client_get_torrent w h)
  unfolding client_get_torrent
  get_torrent-IsQuiet h calls = ground (arith, request-IsQuiet (get_torrent (strip h)) refl calls)

  pub hashes-IsQuiet : IsQuiet 1 (current_qb_hashes w)
  unfolding current_qb_hashes
  hashes-IsQuiet calls = ground (arith, request-IsQuiet get_torrents refl calls)

  pause-IsQuiet : (left : ℕ) → IsQuiet 1 (pause_before w left)
  unfolding pause_before
  pause-IsQuiet zero calls = (refl, omega arith)
  pause-IsQuiet (suc left) calls = (omega arith, omega arith)

  pub set_priority-IsQuiet :
      (h : Text) (ids : List ℕ) (priority : ℕ)
      → IsQuiet 1 (client_set_file_priority w h ids priority)
  unfolding client_set_file_priority
  set_priority-IsQuiet h [] priority calls = (refl, omega arith)
  set_priority-IsQuiet h (i ∷ ids) priority calls =
      request-IsQuiet (set_file_priority h (i ∷ ids) priority) refl calls

  continue-IsQuiet :
      {A B : Type 0} (r : Result A) (f : A → M B) (b n k : ℕ) (calls : List Call)
      → submissions calls ≡ k
      → length calls ≤ n
      → ((x : A) → IsQuiet b (f x))
      → (submissions ((continue r f calls).1) ≡ k) × (length ((continue r f calls).1) ≤ b + n)
  continue-IsQuiet (ok x) f b n k calls h l q =
      let (h', l') = q x calls in (h' ∙ h, omega (arith, l, l'))
  continue-IsQuiet (raised e) f b n k calls h l q = (h, omega (arith, l))

  -- A step that is followed by another.
  pub bind-IsQuiet :
      {A B : Type 0} (m : M A) (f : A → M B) (a b : ℕ)
      → IsQuiet a m
      → ((x : A) → IsQuiet b (f x))
      → IsQuiet (b + a) (m >>= f)
  bind-IsQuiet m f a b q r calls =
      let (h, l) = q calls in
      let (h', l') =
        continue-IsQuiet ((m calls).0) f b (a + length calls) (submissions calls) ((m calls).1) h l
          r in
      (h', omega (arith, l'))

  -- A loop round: ask, and unless the answer is there, pause and go on.
  round-IsQuiet :
      {A B : Type 0} (ask : M A) (f : A → M B) (left : ℕ)
      → IsQuiet 1 ask
      → ((x : A) → IsQuiet (2 * left + 1) (f x))
      → IsQuiet (2 * suc left) (ask >>= f)
  round-IsQuiet ask f left q r calls =
      let (h, l) = bind-IsQuiet ask f 1 (2 * left + 1) q r calls in (h, omega (arith, l))

  later-IsQuiet :
      {A : Type 0} (found : Bool) (left : ℕ) (a : A) (again : M A)
      → IsQuiet (2 * left) again
      → IsQuiet (2 * left + 1) (if found then pure a else (pause_before w left >>= λ _. again))
  later-IsQuiet true left a again q calls = (refl, omega arith)
  later-IsQuiet false left a again q calls =
      bind-IsQuiet (pause_before w left) (λ _. again) 1 (2 * left) (pause-IsQuiet left) (λ _. q)
        calls

  wait_loop-IsQuiet : (left : ℕ) (h : Text) → IsQuiet (2 * left) (wait_loop w left h)
  unfolding wait_loop
  wait_loop-IsQuiet zero h calls = (refl, omega arith)
  wait_loop-IsQuiet (suc left) h calls =
      round-IsQuiet (client_get_torrent w h) _ left (get_torrent-IsQuiet h)
        (λ found. later-IsQuiet found left true (wait_loop w left h) (wait_loop-IsQuiet left h))
        calls

  pub verify_loop-IsQuiet : (left : ℕ) (hs : List Text) → IsQuiet (2 * left) (verify_loop w left hs)
  unfolding verify_loop
  verify_loop-IsQuiet zero hs calls = (refl, omega arith)
  verify_loop-IsQuiet (suc left) hs calls =
      round-IsQuiet (current_qb_hashes w) _ left hashes-IsQuiet
        (λ now.
          later-IsQuiet (has_new w hs now) left tt (verify_loop w left hs)
            (verify_loop-IsQuiet left hs))
        calls

  -- The wait for a torrent makes at most twelve calls and submits nothing.
  pub wait_for_qb_torrent-IsQuiet : (h : Text) → IsQuiet 12 (wait_for_qb_torrent w h)
  unfolding wait_for_qb_torrent
  wait_for_qb_torrent-IsQuiet h = wait_loop-IsQuiet 6 h
