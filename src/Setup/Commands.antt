-- ===== src/Setup/Commands.antt =====
-- `uninstall`, `installedVersion` and the choice of the command.
use zeta_go.Prelude.{ℕ, Bool, Option, none, some}
use zeta_go.Machine.{Bytes}
use zeta_go.Setup.Text.{trim_space}
use zeta_go.Setup.Disk.{
  Host, OsError, not_exist, nothing_to_remove, removed, shows, Answer, ok, err, S, pure, ◌>>=◌,
  ◌>>◌, attempt, say, read_file, stat, remove_all,
}
use zeta_go.Setup.Names.{SetupError, os, not_installed, remove_failed, target_dir, version_path}
use zeta_go.Setup.Install.{install}

abbrev version_of : Bytes → Answer OsError Bytes → Answer SetupError Bytes
version_of prefix (ok b) = ok (trim_space b)
version_of prefix (err not_exist) = err (not_installed (target_dir prefix))
version_of prefix (err x) = err (os x)

module _ {h : Host} where
  unfoldable pub remove_dir : Bytes → S h (Answer SetupError (Unit {0}))
  remove_dir prefix =
      attempt (remove_all (target_dir prefix)) (remove_failed (target_dir prefix))
        (λ _. (do say (removed (target_dir prefix)); pure (ok tt)))

  unfoldable pub uninstall_at :
      Bytes → Answer OsError (Unit {0}) → S h (Answer SetupError (Unit {0}))
  unfolding remove_dir
  uninstall_at prefix (err not_exist) = do say (nothing_to_remove (target_dir prefix)); pure (ok tt)
  uninstall_at prefix _ = remove_dir prefix

  -- `uninstall`
  unfoldable pub uninstall : Bytes → S h (Answer SetupError (Unit {0}))
  unfolding uninstall_at
  uninstall prefix = do r ← stat (target_dir prefix); uninstall_at prefix r

  -- `installedVersion`
  unfoldable pub installed_version : Bytes → S h (Answer SetupError Bytes)
  installed_version prefix = do r ← read_file (version_path prefix); pure (version_of prefix r)

-- The exit status of a command: `fatal` ends the program with 1.
abbrev pub status_of : {A : Type 0} → Answer SetupError A → ℕ × Option SetupError
status_of (ok a) = (0, none)
status_of (err x) = (1, some x)

-- The command line, parsed.
pub data Command : Type 0 where
  install_command : Bytes → Bytes → Bool → Bool → Command
  uninstall_command version_command : Bytes → Command
  help_command no_command : Command
  unknown_command : Bytes → Command

module _ {h : Host} where
  abbrev pub show_version : Answer SetupError Bytes → S h (ℕ × Option SetupError)
  show_version (ok v) = do say (shows v); pure (0, none)
  show_version (err x) = pure (1, some x)

  -- `main`: the exit status, and the error that `fatal` prints.
  unfoldable pub main : Command → S h (ℕ × Option SetupError)
  main (install_command version prefix force no_verify) = do
    r ← install version prefix force no_verify
    pure (status_of r)
  main (uninstall_command prefix) = do r ← uninstall prefix; pure (status_of r)
  main (version_command prefix) = do r ← installed_version prefix; show_version r
  main help_command = pure (0, none)
  main no_command = pure (2, none)
  main (unknown_command c) = pure (2, none)
