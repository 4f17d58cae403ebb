-- ===== src/Manager/Script.antt =====
-- `AlertManager::execute_script` (src/alert.rs): the task that runs the script for one payload. What
-- the child process does is given, with the nanoseconds that each step of it takes; `none` is a task
-- that never ends.
use netalert.Prelude.{ℕ, ◌+◌, String, Option, none, some, leb, Bool, true, false, if◌then◌else◌}
use netalert.Config.{from_secs}

-- `stdin.write_all(json)`
pub data Write : Type 0 where
  written : ℕ → Write
  write_fails : ℕ → Write
  -- the pipe is full, and the script does not read
  blocks : Write

-- `child.wait()`, after the write; an exit has a status.
pub data Wait : Type 0 where
  exits : ℕ → Bool → Wait
  wait_fails : ℕ → Wait
  stays : Wait

-- A process that has been spawned, with its pipe to stdin if it has one; `kill` is how long
-- `child.kill()`, which waits for the end of the process, takes, or `none` if it takes for ever.
pub record Child : Type 0 where
  pub stdin : Option Write
  pub wait : Wait
  pub kill : Option ℕ

-- How the task ends.
pub data ScriptEnd : Type 0 where
  not_configured spawn_failed write_failed succeeded failed wait_failed killed : ScriptEnd

-- `tokio::time::timeout(Duration::from_secs(30), child.wait())`
abbrev pub time_limit : ℕ
time_limit = from_secs 30

abbrev pub status_end : Bool → ScriptEnd
status_end true = succeeded
status_end false = failed

-- `let _ = child.kill().await`, from the time that it starts at
abbrev pub kill_from : ℕ → Option ℕ → Option (ScriptEnd × ℕ)
kill_from start none = none
kill_from start (some took) = some (killed, start + took)

abbrev pub wait_with_timeout : ℕ → Wait → Option ℕ → Option (ScriptEnd × ℕ)
wait_with_timeout start (exits took success) kill =
    if leb took time_limit
    then some (status_end success, start + took)
    else kill_from (start + time_limit) kill
wait_with_timeout start (wait_fails took) kill =
    if leb took time_limit
    then some (wait_failed, start + took)
    else kill_from (start + time_limit) kill
wait_with_timeout start stays kill = kill_from (start + time_limit) kill

abbrev pub write_then_wait : Option Write → Wait → Option ℕ → Option (ScriptEnd × ℕ)
write_then_wait none wait kill = wait_with_timeout 0 wait kill
write_then_wait (some (written took)) wait kill = wait_with_timeout took wait kill
write_then_wait (some (write_fails took)) wait kill = some (write_failed, took)
write_then_wait (some blocks) wait kill = none

abbrev started : Option Child → Option (ScriptEnd × ℕ)
started none = some (spawn_failed, 0)
started (some child) = write_then_wait child.stdin child.wait child.kill

-- The end of the task and its time, for the outcome of `Command::spawn`.
unfoldable pub execute_script : Option String → (String → Option Child) → Option (ScriptEnd × ℕ)
execute_script none spawn = some (not_configured, 0)
execute_script (some script_path) spawn = started (spawn script_path)
