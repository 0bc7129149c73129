-- ===== src/Number.antt =====
-- The C `float` that a JSON number is: pjlib-util stores each number as one, and every integer that
-- the daemon reports is converted to one first (src/proto/jsonutil.c, src/proto/dispatch.c).
pub mod Defs
pub mod Exact
