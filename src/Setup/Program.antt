-- ===== src/Setup/Program.antt =====
-- The commands as a user sees them: exit statuses and what is printed.
use zeta_go.Prelude.{◌≡◌, refl, Bool, none, [], ◌∷◌, ◌++◌}
use zeta_go.Machine.{Bytes}
use zeta_go.Setup.Text.{trim_space}
use zeta_go.Setup.Disk.{Host, Computer, Answer, ok, err, shows, say}
use zeta_go.Setup.Names.{SetupError, version_path}
use zeta_go.Setup.Install.{install}
use zeta_go.Setup.Commands.{install_command, version_command, status_of, installed_version, main}
use zeta_go.Setup.Versions.{Sound, read_file-found, install-Recorded}

status_of_ok : (r : Answer SetupError (Unit {0})) → status_of r ≡ (0, none) → r ≡ ok tt
status_of_ok (ok u) q = refl
status_of_ok (err x) q = cc

-- When `zeta-setup install` has ended with status 0, `zeta-setup version` prints the version,
-- trimmed, and ends with status 0 and without an error, when VERSION can be read.
pub main-version_command :
    {h : Host} (version prefix : Bytes) (force no_verify : Bool) (w : Computer h)
    → (main (install_command version prefix force no_verify) w).0 ≡ (0, none)
    → Sound (main (install_command version prefix force no_verify) w).1
    → ((main (version_command prefix) (main (install_command version prefix force no_verify) w).1).0
        ≡ (0, none))
      × ((main
            (version_command prefix)
            (main (install_command version prefix force no_verify) w).1).1.printed
          ≡ (main (install_command version prefix force no_verify) w).1.printed
            ++ shows (trim_space version) ∷ [])
unfolding main installed_version say
main-version_command version prefix force no_verify w fine sound =
    let m =
      install-Recorded version prefix force no_verify w
        (status_of_ok (install version prefix force no_verify w).0 fine) in
    rw
      (
        read_file-found (version_path prefix) m.0 (install version prefix force no_verify w).1 sound
            m.1,
        m.2,
      )
      (refl, refl)
