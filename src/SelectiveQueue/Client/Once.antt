-- ===== src/SelectiveQueue/Client/Once.antt =====
-- Runs that submit a torrent once (app/services/selective_queue.py).
use q_bittorrent_rss_rules.Prelude.{
  ℕ, ◌+◌, ◌≤◌, ◌≡◌, refl, subst, inl, inr, Bool, true, false, List, arith, Option-cases,
}
use q_bittorrent_rss_rules.Prelude.Text.{Text}
use q_bittorrent_rss_rules.Prelude.Unicode.{Unicode}
use q_bittorrent_rss_rules.SelectiveQueue.Client.{
  Result, ok, raised, Options, Call, add_torrent_url, Webui, M, request, current_qb_hashes,
  continue, ◌>>=◌, pure, add_torrent_url_with_optional_verification,
}
use q_bittorrent_rss_rules.SelectiveQueue.Client.Laws.{
  submissions, is_submission, IsQuiet, hashes-IsQuiet, verify_loop-IsQuiet,
}

-- A run that succeeds has made one submission, and one that fails at most one.
abbrev pub IsOnce : {A : Type 0} → Result A → ℕ → ℕ → Type 0
IsOnce (ok a) before after = after ≡ 1 + before
IsOnce (raised e) before after = after ≤ 1 + before

abbrev pub SubmitsOnce : {A : Type 0} → M A → Type 0
SubmitsOnce m =
    (calls : List Call) → IsOnce ((m calls).0) (submissions calls) (submissions ((m calls).1))

IsOnce-later :
    {A : Type 0} (r : Result A) (before after after' : ℕ)
    → after ≡ 1 + before
    → after' ≡ after
    → IsOnce r before after'
IsOnce-later (ok a) before after after' h q = omega (arith, h, q)
IsOnce-later (raised e) before after after' h q = omega (arith, h, q)

pub continue_quiet :
    {A B : Type 0} (r : Result A) (calls : List Call) (f : A → M B) (n before : ℕ)
    → IsOnce r before (submissions calls)
    → ((x : A) → IsQuiet n (f x))
    → IsOnce ((continue r f calls).0) before (submissions ((continue r f calls).1))
continue_quiet (ok x) calls f n before h q =
    IsOnce-later _ before (submissions calls) _ h ((q x calls).0)
continue_quiet (raised e) calls f n before h q = h

pub continue-IsOnce :
    {A B : Type 0} (r : Result A) (calls : List Call) (f : A → M B) (before : ℕ)
    → submissions calls ≡ before
    → ((x : A) → SubmitsOnce (f x))
    → IsOnce ((continue r f calls).0) before (submissions ((continue r f calls).1))
continue-IsOnce (ok x) calls f before h q =
    subst (λ n. IsOnce ((f x calls).0) n (submissions ((f x calls).1))) h (q x calls)
continue-IsOnce (raised e) calls f before h q = omega (arith, h)

-- A submission, and then calls that submit nothing.
pub once_then :
    {A B : Type 0} (m : M A) (f : A → M B) (n : ℕ)
    → SubmitsOnce m
    → ((x : A) → IsQuiet n (f x))
    → SubmitsOnce (m >>= f)
once_then m f n h q calls =
    continue_quiet ((m calls).0) ((m calls).1) f n (submissions calls) (h calls) q

-- Calls that submit nothing, and then a submission.
pub then_once :
    {A B : Type 0} (m : M A) (f : A → M B) (n : ℕ)
    → IsQuiet n m
    → ((x : A) → SubmitsOnce (f x))
    → SubmitsOnce (m >>= f)
then_once m f n h q calls =
    continue-IsOnce ((m calls).0) ((m calls).1) f (submissions calls) ((h calls).0) q

module _ ⦃u : Unicode⦄ (w : Webui) where
  pub submit_request : (c : Call) → is_submission c ≡ true → SubmitsOnce (request w c)
  unfolding request
  submit_request c h calls = elim (Option-cases (w.refuses calls c)) [
    | inl e ↦ rw (e, request, IsOnce) (ground (arith, h))
    | inr (x, e) ↦ rw (e, request, IsOnce) (ground (arith, h))
  ]

  pub pure-IsQuiet : {A : Type 0} (a : A) → IsQuiet 0 (pure a)
  pure-IsQuiet a calls = (refl, omega arith)

  pub add_url-once :
      (link : Text) (options : Options) (verify : Bool)
      → SubmitsOnce (add_torrent_url_with_optional_verification w link options verify)
  unfolding add_torrent_url_with_optional_verification
  add_url-once link options false calls = submit_request (add_torrent_url link options) refl calls
  add_url-once link options true calls =
      then_once (current_qb_hashes w) _ 1 (hashes-IsQuiet w)
        (λ existing.
          once_then (request w (add_torrent_url link options)) _ 12
            (submit_request (add_torrent_url link options) refl)
            (λ _. verify_loop-IsQuiet w 6 existing))
        calls
