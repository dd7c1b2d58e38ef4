-- ===== src/Tests/Setups.antt =====
-- The installer on a small host: the theorems at concrete inputs.
use zeta_go.Prelude.{ℕ, suc, ◌≡◌, refl, true, false, none, some, [], ◌∷◌, ◌++◌, ◌==◌, if◌then◌else◌}
use zeta_go.Machine.{Bytes}
use zeta_go.Errors.{codes}
use zeta_go.Schema.{split}
use zeta_go.Setup.Text.{
  fields, fields_from, hex, find_sum, wanted_sum, trim_space, trim_left, trim_end,
}
use zeta_go.Setup.Disk.{
  Host, response, joined, file, directory, Nodes, put_node, Computer, ok, err, shows, other, say,
  calls, node_at, set_node, read_file, stat, create_temp, fill, finish, remove, http_get, create,
  make_dir, make_dirs, remove_all,
}
use zeta_go.Setup.Names.{target_dir, target_file, version_path, not_installed, install_to}
use zeta_go.Setup.Download.{
  copy_body, store_body, received, download_to_temp, compare_sum, check_sum, sums_received,
  verify_sha256,
}
use zeta_go.Setup.Install.{
  copy, copy_file, write_file, announce, place, verified, install_temp, install_new, is_installed,
  install_unless, install,
}
use zeta_go.Setup.Commands.{
  remove_dir, uninstall_at, uninstall, installed_version, main, install_command, version_command,
}
use zeta_go.Setup.Sums.{Sum, print_sums, wanted_sum-print_sums}
use zeta_go.Setup.Outcome.{below, Outcome}
use zeta_go.Setup.Installs.{install-Outcome}
use zeta_go.Setup.Versions.{install-install, install-install_to}
use zeta_go.Setup.Program.{main-version_command}
use zeta_go.Setup.Uninstalls.{Uninstalls, uninstall-Uninstalls, installed_version-uninstall}

abbrev one_sum : Sum
one_sum = record { sum = codes "07"; name = codes "libzeta-linux-amd64.a" }

-- Every address gives the same text, which is both a library and its SHA256SUMS. The write of a
-- number stops at once; the state counts the writes.
abbrev host : ℕ → Host
host k = record {
  State = ℕ;
  fault = λ s. (none, s);
  short = λ s. (if s == k then some (0, 5) else none, suc s);
  fetch = λ s url. (response 200 (print_sums (one_sum ∷ [])) none, s);
  survives = λ s p. false;
  goos = codes "linux";
  goarch = codes "amd64";
  sha256 = λ b. 7 ∷ [];
}

abbrev v1 : Bytes
v1 = codes "v1"

abbrev v2 : Bytes
v2 = codes "v2"

abbrev opt : Bytes
opt = codes "/opt"

abbrev empty_disk : Nodes
empty_disk (joined p []) = some directory
empty_disk _ = none

abbrev computer : (k : ℕ) → Computer (host k)
computer k = record { env = 0; nodes = empty_disk; next_temp = 0; printed = [] }

-- VERSION holds the first version.
abbrev old_disk : Nodes
old_disk =
    put_node
      (put_node (put_node empty_disk (joined opt (codes "lib" ∷ [])) (some directory))
        (target_dir opt) (some directory))
      (version_path opt) (some (file v1))

abbrev old_computer : (k : ℕ) → Computer (host k)
old_computer k = record { env = 0; nodes = old_disk; next_temp = 0; printed = [] }

-- An `install` that succeeds, and one whose `copyFile` fails.
installs :
    ((install {h = host 9} v1 opt false false (computer 9)).0 ≡ ok tt)
    × ((install {h = host 1} v2 opt false false (old_computer 1)).0
        ≡ err (install_to (target_file opt) (other 5)))
unfolding install is_installed install_unless install_new download_to_temp received store_body
    copy_body install_temp verified verify_sha256 sums_received check_sum compare_sum place announce
    copy_file copy write_file say calls node_at set_node read_file stat create_temp fill finish
    remove http_get create make_dir make_dirs hex fields fields_from find_sum wanted_sum split
    trim_space trim_left trim_end
installs = (refl, refl)

exits : (main {h = host 9} (install_command v1 opt false false) (computer 9)).0 ≡ (0, none)
unfolding main
exits = rw installs.0 refl

uninstalls : (uninstall {h = host 9} opt (old_computer 9)).0 ≡ ok tt
unfolding uninstall uninstall_at remove_dir stat remove_all calls node_at say
uninstalls = refl

trimmed : trim_space v1 ≡ v1
unfolding trim_space trim_left trim_end
trimmed = refl

wanted_sum-print_sums_example :
    wanted_sum (codes "libzeta-linux-amd64.a") (print_sums (one_sum ∷ [])) ≡ codes "07"
wanted_sum-print_sums_example =
    wanted_sum-print_sums (codes "libzeta-linux-amd64.a") (one_sum ∷ []) refl

install-Outcome_example :
    Outcome
      (host 9)
      v1
      opt
      false
      false
      (below empty_disk)
      (install v1 opt false false (computer 9)).0
      (below (install v1 opt false false (computer 9)).1.nodes)
install-Outcome_example = install-Outcome v1 opt false false (computer 9)

main-version_command_example :
    ((main (version_command opt) (main (install_command v1 opt false false) (computer 9)).1).0
      ≡ (0, none))
    × ((main
          (version_command opt)
          (main (install_command v1 opt false false) (computer 9)).1).1.printed
        ≡ (main (install_command v1 opt false false) (computer 9)).1.printed
          ++ shows (trim_space v1) ∷ [])
main-version_command_example = main-version_command v1 opt false false (computer 9) exits refl

install-install_example :
    ((install v1 opt false true (install v1 opt false false (computer 9)).1).0 ≡ ok tt)
    × ((install v1 opt false true (install v1 opt false false (computer 9)).1).1.nodes
        ≡ (install v1 opt false false (computer 9)).1.nodes)
install-install_example =
    install-install v1 opt false false true (computer 9) installs.0 refl trimmed

install-install_to_example :
    ((install v1 opt false false (install v2 opt false false (old_computer 1)).1).0 ≡ ok tt)
    × ((install v1 opt false false (install v2 opt false false (old_computer 1)).1).1.nodes
        ≡ (install v2 opt false false (old_computer 1)).1.nodes)
install-install_to_example =
    install-install_to v1 v2 opt false false false (old_computer 1) (target_file opt) (other 5) v1
      installs.1 refl trimmed refl

uninstall-Uninstalls_example :
    Uninstalls opt old_disk
      (uninstall opt (old_computer 9)).0
      (uninstall opt (old_computer 9)).1.nodes
uninstall-Uninstalls_example = uninstall-Uninstalls opt (old_computer 9)

installed_version-uninstall_example :
    (installed_version opt (uninstall opt (old_computer 9)).1).0
    ≡ err (not_installed (target_dir opt))
installed_version-uninstall_example =
    installed_version-uninstall opt (old_computer 9) uninstalls refl refl
