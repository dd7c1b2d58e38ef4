-- ===== src/Setup/Download.antt =====
-- `downloadToTemp` and `verifySha256`.
use zeta_go.Prelude.{ℕ, ◌==◌, not, Option, none, some, if◌then◌else◌}
use zeta_go.Prelude.Lists.{eq_bytes}
use zeta_go.Machine.{Bytes}
use zeta_go.Schema.{is_empty}
use zeta_go.Setup.Text.{hex, wanted_sum}
use zeta_go.Setup.Disk.{
  Fetch, unreachable, response, Host, FilePath, OsError, other, Answer, ok, err, S, pure, ◌>>=◌,
  ◌>>◌, attempt, read_file, create_temp, fill, finish, remove, http_get,
}
use zeta_go.Setup.Names.{SetupError, network, http_status, sums_status, os, no_entry, mismatch}

module _ {h : Host} where
  abbrev pub or_removed :
      {A : Type 0}
      → FilePath
      → Answer OsError (Unit {0})
      → S h (Answer SetupError A)
      → S h (Answer SetupError A)
  or_removed tmp (ok u) k = k
  or_removed tmp (err x) k = do remove tmp; pure (err (os x))

  -- `io.Copy` of a response's body
  unfoldable pub copy_body : FilePath → Bytes → Option ℕ → S h (Answer OsError (Unit {0}))
  copy_body p body none = fill p body
  copy_body p body (some n) = attempt (fill p body) (λ x. x) (λ _. pure (err (other n)))

  -- The part of `downloadToTemp` that has a temporary file.
  unfoldable pub store_body : Bytes → Option ℕ → FilePath → S h (Answer SetupError FilePath)
  unfolding copy_body
  store_body body end tmp = do
    r ← copy_body tmp body end
    or_removed tmp r (do c ← finish; or_removed tmp c (pure (ok tmp)))

  unfoldable pub received : Fetch → S h (Answer SetupError FilePath)
  unfolding store_body
  received (unreachable n) = pure (err (network n))
  received (response status body end) =
      if not (status == 200)
      then pure (err (http_status status))
      else attempt create_temp (λ x. os x) (store_body body end)

  -- `downloadToTemp`
  unfoldable pub download_to_temp : Bytes → S h (Answer SetupError FilePath)
  unfolding received
  download_to_temp url = do r ← http_get url; received r

  -- The comparison at the end of `verifySha256`.
  unfoldable pub compare_sum : Bytes → Bytes → S h (Answer SetupError (Unit {0}))
  compare_sum want b =
      let got = hex (h.sha256 b) in
      if not (eq_bytes got want) then pure (err (mismatch want got)) else pure (ok tt)

  unfoldable pub check_sum : FilePath → Bytes → Bytes → S h (Answer SetupError (Unit {0}))
  unfolding compare_sum
  check_sum file name sums =
      let want = wanted_sum name sums in
      if is_empty want
      then pure (err (no_entry name))
      else attempt (read_file file) (λ x. os x) (compare_sum want)

  abbrev pub sums_read : FilePath → Bytes → Bytes → Option ℕ → S h (Answer SetupError (Unit {0}))
  sums_read file name sums (some n) = pure (err (network n))
  sums_read file name sums none = check_sum file name sums

  unfoldable pub sums_received : FilePath → Bytes → Fetch → S h (Answer SetupError (Unit {0}))
  sums_received file name (unreachable n) = pure (err (network n))
  sums_received file name (response status sums end) =
      if not (status == 200) then pure (err (sums_status status)) else sums_read file name sums end

  -- `verifySha256`
  unfoldable pub verify_sha256 : FilePath → Bytes → Bytes → S h (Answer SetupError (Unit {0}))
  unfolding sums_received
  verify_sha256 file url name = do r ← http_get url; sums_received file name r
