-- ===== src/Lib.antt =====
-- The qBittorrent RSS rule manager, a local FastAPI application that keeps rules for
-- qBittorrent's RSS downloader, pushes them to qBittorrent, and moves their episode floors and
-- flags by what was watched. This library models the parts of it that decide.
--
-- The parts and their files:
--
-- Prelude: shared notation. Text is Python's str as a list of code points, with strip, int and
-- str on decimal numbers; Dict is a dict in insertion order; Sort is the stable sorted. Unicode is
-- a parameter: the tables behind str.casefold, str.lower, str.title and the decimal digits, with
-- the laws that the code relies on. Tests/Ascii gives a table that meets them.
--
-- OperationStatus: app/services/operation_status.py, the table of background operations. The
-- clock and uuid4 are arguments, and the float quotient in _percent is a parameter, since the
-- bounds hold for whatever it rounds to.
--
-- SyncQueue: app/services/sync_queue.py. The globals are the record Queue, and each function is
-- what its namesake does while it holds the lock; it writes to the operations of OperationStatus
-- as the source does. SyncQueue/Machine has the interleavings of callers, dispatcher thread,
-- executor threads, start and stop as a step relation. SyncQueue/Process is what one task does to
-- the stored rules; the sync service that it calls is a parameter. A thread that dies of an
-- exception outside the code's handlers, and failing commits of the database, are not modelled.
--
-- WatchState: app/services/watch_state.py. Keys has the episode keys and their regular expression,
-- Sorting their order, Labels the names of sources, Progress the choice between two records, Floor
-- the floor of a series rule, Selection the flags of movie and series rules.
--
-- SelectiveQueue: app/services/selective_queue.py. Ranges has the regular expression for S01E02-E05
-- in names, Files the files of a torrent and the search for an episode's file, Plan the choice of
-- the files that a rule still wants, Trackers the lists of addresses and magnet links. Client is a
-- state monad with exceptions: a run is the list of calls made to qBittorrent, whose answers are a
-- parameter, Webui. Submit is queue_result_with_optional_file_selection and Grouped
-- queue_grouped_search_results. Links is their interface to the code that reads links and torrent
-- files. Episode numbers and file ids are natural numbers. Bencode is the reader of torrent
-- files, on the whole file and the rest of it from the index on. A negative length moves the index
-- back, and reading goes on from there; only an index below zero, which Python counts from the end of
-- the file, is not followed but is a result of its own. SHA-1 is a parameter. Not modelled of this file: the files, the name and the trackers
-- that are taken from a torrent's values, the links to Jackett, and the two workers that select files
-- after a torrent was added.
--
-- RuleBuilder: app/services/rule_builder.py. Regex has regular expressions as syntax trees, how they
-- are written, and where Python's re finds them under IGNORECASE; a match is a search for some way
-- through the tree. Numbers has the patterns for the numbers from a bound on, Episodes the fragments
-- that pick episodes as the text that the code writes, Trees the same fragments as trees, with what
-- they say of a canonical key, and Fragments the theorems that join the two. Includes has titles, years,
-- keyword groups and manual additions, and Pattern the whole expression of a rule; the quality filters
-- (app/services/quality_filters.py) are its parameter. The expression's (?i) is no part of its tree,
-- since the matcher ignores case, and its text is read as its tree where every alternative of a
-- fragment stands in brackets. Not modelled of this file: categories and
-- paths, the other fields of the payload, and the rewriting of feed URLs. Floors and episode
-- numbers are natural numbers, so the clamp of a negative number is not shown.
--
-- RuleFetchQueue: app/services/rule_fetch_queue.py, the queue of the initial fetches of new rules.
-- RuleFetchQueue/Machine has the interleavings of callers, worker, start and stop; the functions of
-- app/services/rule_fetch_ops.py that the worker calls are a parameter, Fetcher, on a database of any
-- type, and what they do for the rules that are settled is a record of laws, Settling. The wait of one
-- second after a busy batch releases the lock, so it is the top of the loop.
--
-- Loops over lists are structural recursions. Fuel is in str(n), which gets n + 1 rounds
-- for at most n digits, in the measure that bounds how long the sync queue takes to drain, and in
-- worker_loop and the reader of torrent files, with a theorem that says how much is enough: for the
-- reader where no length is negative, since otherwise it may never end.
--
-- Not modelled: the HTTP clients, the database, the routes and pages, and the services listed as
-- not modelled in the manifest, among them the quality filters and Jackett search.
pub mod Prelude
pub mod OperationStatus
pub mod SyncQueue
pub mod WatchState
pub mod SelectiveQueue
pub mod RuleBuilder
pub mod RuleFetchQueue
mod Tests
