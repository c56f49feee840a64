-- ===== src/SelectiveQueue.antt =====
-- app/services/selective_queue.py: what is handed to qBittorrent, and which files of it are loaded.
pub mod Bencode
pub mod Ranges
pub mod Files
pub mod Plan
pub mod Trackers
pub mod Client
pub mod Submit
pub mod Grouped
