-- ===== src/Cli/Main/Tests.antt =====
-- The program on a command line.
use k_watch.Prelude.{ℕ, List, String}
use k_watch.Log.{Level}
use k_watch.Cli.Parser.{Command, GlobalOptions}

unknown : Command → Level → GlobalOptions → List String → ℕ
unknown c l g args = 65
