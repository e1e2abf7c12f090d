-- ===== src/Storage/Fixtures.antt =====
-- A host and a database for the examples: no call fails, and identifiers repeat only where the
-- examples do not look.
use ai_council.Prelude.{◌==◌, false, if◌then◌else◌}
use ai_council.Storage.Tables.{no_tables}
use ai_council.Storage.Sql.{Host, World}

abbrev pub calm : Host
calm = record { fault = λ n. false; fresh = λ n. if n == 2 then "e1" else "e2"; clock = λ n. n }

abbrev pub start : World
start = record { tables = no_tables; calls = 0 }
