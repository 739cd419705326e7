-- ===== src/Generate/Written.antt =====
-- The statements that a run has written, however it ends.
use sql2rdf.Base.{List, All}
use sql2rdf.Generate.{Statement, Run, running, threw, failed, clobbered}
use sql2rdf.Generate.Complete.{IsComplete}

abbrev pub written_by : Run → List Statement
written_by (running written) = written
written_by (threw written) = written
written_by (failed message written) = written
written_by (clobbered written) = written

abbrev AreComplete : Run → Type 0
AreComplete run = All IsComplete (written_by run)
