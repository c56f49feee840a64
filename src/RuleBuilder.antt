-- ===== src/RuleBuilder.antt =====
-- app/services/rule_builder.py: the rule that qBittorrent gets, and the regular expression in it.
pub mod Regex
pub mod Numbers
pub mod Episodes
pub mod Trees
pub mod Fragments
pub mod Includes
pub mod Pattern
