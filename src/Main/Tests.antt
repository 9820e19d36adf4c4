-- ===== src/Main/Tests.antt =====
-- Command lines.
use commmon.Base.{◌≡◌, refl, none, some}
use commmon.Main.{parse, daemon_run, repl_run, main}

-- A client that is started without options goes to the port of a daemon without options.
default_daemon : main (parse none (some none)) ≡ daemon_run 9900
unfolding main parse
default_daemon = refl

default_client : main (parse none none) ≡ repl_run 9900
unfolding main parse
default_client = refl

-- The option before the subcommand is not the daemon's.
daemon_port : main (parse (some 1) (some (some 9901))) ≡ daemon_run 9901
unfolding main parse
daemon_port = refl
