-- ===== src/Acct/Reader/Skips.antt =====
-- `acctrepos` skips records as if they were read.
use atop.Acctd.{Files}
use atop.Acct.Reader.{Reader}
