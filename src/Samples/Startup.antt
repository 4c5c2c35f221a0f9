-- ===== src/Samples/Startup.antt =====
-- The theorem on the start of all programs at a concrete run: the database is started in the first
-- round, the web server in the second one at the latest; nothing exits.
use scinit.Base.{ℕ, ◌+◌, [], ◌∷◌, List, nat_key, int_key, pos}
use scinit.Handler.Types.{ProcessHandler}
use scinit.Handler.Start.{start_programs}
use scinit.Handler.Loop.{Round}
use scinit.Samples.{starts}
use scinit.Samples.Checks.{handler_of}
use scinit.Samples.Starts.{started}

abbrev quiet : ℕ → Round
quiet k = record {
  starts = starts k;
  reaped = (pos 9, pos 0) ∷ [];
  events = [];
  restarts = starts (k + 1);
}

-- The programs after the first round of the loop.
abbrev begun : ProcessHandler
begun = handler_of (start_programs (starts 1) started)
