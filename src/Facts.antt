-- ===== src/Facts.antt =====
-- internal/facts: the snapshot of a host that the evaluator reasons about.
-- A pointer is an `Option`, a sized unsigned integer a number, an `int` or `int32` a signed one.
-- A text on which the code switches is a data type with its spellings and one more constructor for
-- every other text; all other texts are strings. Fields that no modelled code reads (the capture
-- time, the host's name, inodes and user ids, xt revisions and raw payloads) are left out.
pub mod Types
pub mod Host
pub mod Validate
