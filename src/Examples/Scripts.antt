-- ===== src/Examples/Scripts.antt =====
-- The run of the alert script (src/alert.rs) for concrete child processes.
use netalert.Prelude.{◌≡◌, refl, none, some, true}
use netalert.Config.{from_secs}
use netalert.Manager.Script.{
  Child, written, blocks, exits, stays, succeeded, killed, spawn_failed, execute_script,
}

-- A script that reads its input in a second and hangs, and is gone two seconds after the kill.
abbrev hangs : Child
hangs = record { stdin = some (written (from_secs 1)); wait = stays; kill = some (from_secs 2) }

runs :
    execute_script
      (some "/etc/alert.sh")
      (λ path. some (record hangs { wait = exits (from_secs 5) true }))
    ≡ some (succeeded, from_secs 6)
unfolding execute_script
runs = refl

missing : execute_script (some "/etc/alert.sh") (λ path. none) ≡ some (spawn_failed, 0)
unfolding execute_script
missing = refl

hangs_is_killed :
    execute_script (some "/etc/alert.sh") (λ path. some hangs) ≡ some (killed, from_secs 33)
unfolding execute_script
hangs_is_killed = refl

-- A script that does not end after the kill keeps its task.
never_gone :
    execute_script (some "/etc/alert.sh") (λ path. some (record hangs { kill = none })) ≡ none
unfolding execute_script
never_gone = refl

-- A script that does not read a long payload keeps its task.
deaf :
    execute_script (some "/etc/alert.sh") (λ path. some (record hangs { stdin = some blocks }))
    ≡ none
unfolding execute_script
deaf = refl
