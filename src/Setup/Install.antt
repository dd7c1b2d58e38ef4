-- ===== src/Setup/Install.antt =====
-- `copyFile` and `install`.
use zeta_go.Prelude.{Bool, true, false, not, [], ◌∷◌, ◌++◌, if◌then◌else◌}
use zeta_go.Prelude.Lists.{eq_bytes}
use zeta_go.Machine.{Bytes}
use zeta_go.Errors.{codes}
use zeta_go.Schema.{newline}
use zeta_go.Setup.Disk.{
  Host, FilePath, OsError, already_installed, downloading, verifying, installed, foreign_prefix,
  Answer, ok, err, S, pure, ◌>>=◌, ◌>>◌, attempt, deferring, say, node_at, text_of, read_file, stat,
  fill, finish, remove, create, make_dirs,
}
use zeta_go.Setup.Names.{
  SetupError, unsupported, download, sha256_verify, mkdir, install_to, write_version,
  default_prefix, lib_sub_dir, target_dir, target_file, version_path, supported, current_platform,
  artifact_name, release_url, same_version,
}
use zeta_go.Setup.Download.{download_to_temp, verify_sha256}

module _ {h : Host} where
  -- `io.Copy` of a file
  unfoldable pub copy : FilePath → FilePath → S h (Answer OsError (Unit {0}))
  copy src dst = attempt (do n ← node_at src; pure (text_of n)) (λ x. x) (fill dst)

  -- `copyFile`
  unfoldable pub copy_file : FilePath → FilePath → S h (Answer OsError (Unit {0}))
  unfolding copy
  copy_file src dst =
      attempt (stat src) (λ x. x)
        (λ _.
          attempt (create dst) (λ x. x)
            (λ _. attempt (copy src dst) (λ x. x) (λ _. attempt finish (λ x. x) (λ _. finish))))

  -- `os.WriteFile`
  unfoldable pub write_file : FilePath → Bytes → S h (Answer OsError (Unit {0}))
  write_file p b = attempt (create p) (λ x. x) (λ _. attempt (fill p b) (λ x. x) (λ _. finish))

  abbrev pub noted : Bytes → Bool → S h (Answer SetupError (Unit {0}))
  noted prefix true = do say (foreign_prefix (target_file prefix)); pure (ok tt)
  noted prefix false = pure (ok tt)

  -- What `install` prints at the end.
  unfoldable pub announce : Bytes → Bytes → S h (Answer SetupError (Unit {0}))
  announce version prefix = do
    say (installed version (target_file prefix))
    noted prefix (not (eq_bytes prefix default_prefix))

  -- The part of `install` that writes below the prefix.
  unfoldable pub place : Bytes → Bytes → FilePath → S h (Answer SetupError (Unit {0}))
  unfolding announce
  place version prefix tmp =
      attempt (make_dirs prefix [] lib_sub_dir) (mkdir (target_dir prefix)) (λ _.
        attempt (copy_file tmp (target_file prefix)) (install_to (target_file prefix)) (λ _.
          attempt (write_file (version_path prefix) (version ++ newline ∷ []))
            (λ x. write_version x) (λ _. announce version prefix)))

  unfoldable pub verified : Bytes → Bool → FilePath → S h (Answer SetupError (Unit {0}))
  unfolding verify_sha256
  verified version no_verify tmp =
      let url = release_url version (codes "SHA256SUMS") in
      if no_verify
      then pure (ok tt)
      else (do say (verifying url); verify_sha256 tmp url (artifact_name h))

  -- The part of `install` that has the temporary file, which is removed at the end.
  unfoldable pub install_temp : Bytes → Bytes → Bool → FilePath → S h (Answer SetupError (Unit {0}))
  unfolding verified place
  install_temp version prefix no_verify tmp = deferring (remove tmp) (
      attempt (verified version no_verify tmp) (λ x. sha256_verify x)
        (λ _. place version prefix tmp))

  unfoldable pub install_new : Bytes → Bytes → Bool → S h (Answer SetupError (Unit {0}))
  unfolding download_to_temp install_temp
  install_new version prefix no_verify = do
    say (downloading (release_url version (artifact_name h)))
    attempt (download_to_temp (release_url version (artifact_name h)))
        (download (release_url version (artifact_name h))) (install_temp version prefix no_verify)

  -- Whether `install` stops because VERSION holds the version.
  unfoldable pub is_installed : Bytes → Bytes → Bool → S h Bool
  is_installed version prefix force =
      if force
      then pure false
      else (do r ← read_file (version_path prefix); pure (same_version version r))

  unfoldable pub install_unless : Bytes → Bytes → Bool → Bool → S h (Answer SetupError (Unit {0}))
  unfolding install_new
  install_unless version prefix no_verify present =
      if present
      then (do say (already_installed version (target_file prefix)); pure (ok tt))
      else install_new version prefix no_verify

  -- `install`
  unfoldable pub install : Bytes → Bytes → Bool → Bool → S h (Answer SetupError (Unit {0}))
  unfolding is_installed install_unless
  install version prefix force no_verify =
      if not (supported (current_platform h))
      then pure (err (unsupported (current_platform h)))
      else (do
        present ← is_installed version prefix force
        install_unless version prefix no_verify present)
