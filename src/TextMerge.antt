-- ===== src/TextMerge.antt =====
-- The three-way text merge of the plugin: apps/obsidian-plugin/src/sync/engine/text-merge.ts.
-- A text is the list of its UTF-16 code units, and a line is a text.
pub mod Lines
pub mod Diff
pub mod Merge
pub mod SplitJoin
pub mod Patch
pub mod Symmetry
pub mod Lcs
mod Examples
