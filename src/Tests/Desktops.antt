-- ===== src/Tests/Desktops.antt =====
-- A desktop that is opened of a machine that is ready.
use hyperwake_core.Prelude.{◌≡◌, refl, [], string_eq}
use hyperwake_core.Exec.{ok, ◌>>=◌}
use hyperwake_core.Engine.{Engine}
use hyperwake_core.Registry
use hyperwake_core.Desktops.{open_desktop}
use hyperwake_core.Desktops.Ready.{Opens, open_desktop-Opens}
use hyperwake_core.Tests.Sample.{machine_id, quiet_host, cloud_with, machine, engine_with}

abbrev before : Engine (Unit {0})
before = engine_with (machine (cloud_with []))

opened : (open_desktop quiet_host machine_id before).0 ≡ ok "token"
unfolding open_desktop ◌>>=◌ Registry.get
opened = refl

open_desktop-Opens_example :
    Opens quiet_host machine_id "token" before (open_desktop quiet_host machine_id before).1
open_desktop-Opens_example = open_desktop-Opens quiet_host machine_id before "token" opened
