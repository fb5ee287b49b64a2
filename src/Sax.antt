-- ===== src/Sax.antt =====
-- src/parse_sax.c: the streaming parser. `State` has the cursor and the scope stack, `Scan` the
-- integers and strings, `Parse` the containers and the entry point.
pub mod State
pub mod Events
pub mod Scan
pub mod Parse
mod Tests
