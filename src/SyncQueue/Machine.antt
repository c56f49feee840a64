-- ===== src/SyncQueue/Machine.antt =====
-- The interleavings of app/services/sync_queue.py: callers, the dispatcher thread, the executor's
-- threads, start and stop. Each step is one block under the lock, in any order that the threads'
-- own positions allow. The application calls `start_rule_sync_queue` on start-up and
-- `stop_rule_sync_queue` on shutdown, so no start falls between a stop's two locked blocks.
use q_bittorrent_rss_rules.Prelude.{ℕ, ◌≡◌, Bool, true, List, [], contains, text_eq}
use q_bittorrent_rss_rules.Prelude.Text.{Text}
use q_bittorrent_rss_rules.Prelude.Unicode.{Unicode}
use q_bittorrent_rss_rules.SyncQueue.{
  Queue, RuleSyncOutcome, absent, started, looping, preparing, enqueue_rule_sync,
  start_rule_sync_queue, begin_stop, finish_stop, enter_worker_loop, worker_turn,
  finish_preparation, finalize,
}

module _ ⦃u : Unicode⦄ where
  pub data Step : Queue → Queue → Type 0 where
    enqueue :
        (q : Queue) (now : ℕ) (fresh rule_id : Text)
        → Step q (enqueue_rule_sync now fresh rule_id q).1
    start :
        (q : Queue) → q.worker_thread ≡ absent → q.submitted ≡ [] → Step q (start_rule_sync_queue q)
    stop : (q : Queue) → Step q (begin_stop q)
    -- The two joins have returned.
    joined :
        (q : Queue)
        → q.stop_event ≡ true
        → q.worker_thread ≡ absent
        → q.submitted ≡ []
        → Step q (finish_stop q)
    enter : (q : Queue) → q.worker_thread ≡ started → Step q (enter_worker_loop q)
    turn : (q : Queue) (now : ℕ) → q.worker_thread ≡ looping → Step q (worker_turn now q).1
    prepared :
        (q : Queue) (now : ℕ) (ids : List Text) (failed : Bool)
        → q.worker_thread ≡ preparing ids
        → Step q (finish_preparation now failed q)
    finish :
        (q : Queue) (now : ℕ) (rule_id : Text) (outcome : RuleSyncOutcome)
        → contains q.submitted rule_id ≡ true
        → Step q (finalize now rule_id outcome q)

  pub data Reach (q : Queue) : Queue → Type 0 where
    here : Reach q q
    next : {r s : Queue} → Reach q r → Step r s → Reach q s

  -- What holds at the start and is kept by every step holds in every reachable state.
  pub Reach_induction :
      (P : Queue → Type 0)
      → ((r s : Queue) → Step r s → P r → P s)
      → {q r : Queue} → P q
      → Reach q r
      → P r
  Reach_induction P keep h here = h
  Reach_induction P keep h (next r s) = keep _ _ s (Reach_induction P keep h r)

  -- The steps of the dispatcher and of the executor, as opposed to calls from outside.
  abbrev pub IsWork : {q r : Queue} → Step q r → Type 0
  IsWork (enter q a) = Unit
  IsWork (turn q now a) = Unit
  IsWork (prepared q now ids failed a) = Unit
  IsWork (finish q now rule_id outcome h) = Unit
  IsWork _ = ⊥

  -- States that follow by such steps alone.
  pub data Works : Queue → Queue → Type 0 where
    idle : (q : Queue) → Works q q
    work : {q r s : Queue} → (st : Step q r) → IsWork st → Works r s → Works q s
