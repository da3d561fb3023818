-- ===== src/Control/Sql/Numerals.antt =====
-- The two printers of placeholder numbers against Go's own.
use vks.Common.GoString.{GoString}
use vks.Common.GoString
