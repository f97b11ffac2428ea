-- ===== src/Blob.antt =====
-- src/blob.rs: the paths of the audio blobs under the data directory.
pub mod Files
pub mod Startup
pub mod Swept
use telegraph_center.Base.{String, ◌==◌, if◌then◌else◌, none, some}
use Prim.Native.String.{len, ◌++◌}
use Prim.Native.Nat.{◌-◌}
use text.Mathlib.Text.{starts_with, get?}

pub record BlobStore : Type 0 where
  pub data_dir : String

-- `Path::join` on Unix: an absolute path replaces the directory, and one separator stands between.
abbrev join : String → String → String
join dir path = if starts_with path "/" then path else elim (get? dir (len dir - 1) (len dir)) [
  | none ↦ path
  | some last ↦ if last == "/" then dir ++ path else if dir == "" then path else dir ++ "/" ++ path
]

unfoldable pub relative_path : String → String
relative_path recording_id = "recordings/" ++ recording_id ++ ".wav"

unfoldable pub temp_path : BlobStore → String → String
temp_path blobs recording_id =
    join (join blobs.data_dir "tmp") ("upload-" ++ recording_id ++ ".part")

unfoldable pub full_path : BlobStore → String → String
full_path blobs relative = join blobs.data_dir relative
