-- ===== src/Setup/Names.antt =====
-- The names and the errors of the installer.
use zeta_go.Prelude.{ℕ, Bool, false, ◌||◌, List, [], ◌∷◌, ◌++◌}
use zeta_go.Prelude.Lists.{eq_bytes}
use zeta_go.Machine.{Bytes}
use zeta_go.Errors.{codes}
use zeta_go.Setup.Text.{trim_space}
use zeta_go.Setup.Disk.{Host, FilePath, joined, OsError, Answer, ok, err}

pub data SetupError : Type 0 where
  unsupported : Bytes → SetupError
  -- an error of net/http or of reading a body
  network : ℕ → SetupError
  http_status sums_status : ℕ → SetupError
  os : OsError → SetupError
  no_entry : Bytes → SetupError
  mismatch : Bytes → Bytes → SetupError
  not_installed : FilePath → SetupError
  -- the errors that `install` and `uninstall` wrap
  download : Bytes → SetupError → SetupError
  sha256_verify : SetupError → SetupError
  mkdir install_to : FilePath → OsError → SetupError
  write_version : OsError → SetupError
  remove_failed : FilePath → OsError → SetupError

abbrev pub default_version : Bytes
default_version = codes "v0.1.0"

abbrev pub default_prefix : Bytes
default_prefix = codes "/usr/local"

abbrev pub release_base_url : Bytes
release_base_url = codes "https://github.com/genezhang/zeta-go/releases/download"

-- "lib/zeta"
abbrev pub lib_sub_dir : List Bytes
lib_sub_dir = codes "lib" ∷ codes "zeta" ∷ []

abbrev pub target_dir : Bytes → FilePath
target_dir prefix = joined prefix lib_sub_dir

-- libzeta.a and VERSION in it
abbrev pub lib_names : List Bytes
lib_names = codes "lib" ∷ codes "zeta" ∷ codes "libzeta.a" ∷ []

abbrev pub version_names : List Bytes
version_names = codes "lib" ∷ codes "zeta" ∷ codes "VERSION" ∷ []

abbrev pub target_file : Bytes → FilePath
target_file prefix = joined prefix lib_names

abbrev pub version_path : Bytes → FilePath
version_path prefix = joined prefix version_names

-- `supportedPlatforms`
abbrev pub supported : Bytes → Bool
supported p =
    eq_bytes p (codes "linux-amd64")
    || eq_bytes p (codes "linux-arm64")
    || eq_bytes p (codes "darwin-amd64")
    || eq_bytes p (codes "darwin-arm64")

-- `currentPlatform`
abbrev pub current_platform : Host → Bytes
current_platform h = h.goos ++ codes "-" ++ h.goarch

abbrev pub artifact_name : Host → Bytes
artifact_name h = codes "libzeta-" ++ current_platform h ++ codes ".a"

abbrev pub release_url : Bytes → Bytes → Bytes
release_url version name = release_base_url ++ codes "/" ++ version ++ codes "/" ++ name

-- Whether a VERSION file was read, and holds the version.
abbrev pub same_version : Bytes → Answer OsError Bytes → Bool
same_version version (ok b) = eq_bytes (trim_space b) version
same_version version (err x) = false
