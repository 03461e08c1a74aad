-- ===== src/LogReader.antt =====
-- 17_log_reader/main.c: counting traffic and referers in web server logs with several threads. A
-- C string is the list of its bytes without the closing zero.
pub mod Text
pub mod Maps
pub mod Totals
pub mod Counted
pub mod Line
pub mod Parsed
pub mod Decode
pub mod Files
pub mod Queue
mod Tests
