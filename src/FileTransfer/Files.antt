-- ===== src/FileTransfer/Files.antt =====
-- The file system under the file server and its clients, which is not part of the repository:
-- `open`, `fstat` and `readdir` over an unknown state, and what their manuals promise.
use iteso_codigos.Common.{ℕ, ◌≡◌, Option, some, List, length}
use iteso_codigos.Common.Text.{Bytes}
use iteso_codigos.Device.{Device, IsLawful}

-- A missing value stands for the results -1 and NULL.
pub record FileSystem : Type 1 where
  pub File : Device
  pub open_read : Bytes → Option File.State
  pub size : File.State → ℕ
  pub entries : Bytes → Option (List Bytes)

-- Reads of a file do not fail, and when it has just been opened `fstat` tells how many bytes they will
-- give.
pub record IsFaithful (FS : FileSystem) : Type 0 where
  pub lawful : IsLawful FS.File
  pub reads : (f : FS.File.State) (n : ℕ) → (b : Bytes) × ((FS.File.read f n).0 ≡ some b)
  pub size-pending :
      (path : Bytes) (f : FS.File.State)
      → FS.open_read path ≡ some f
      → FS.size f ≡ length (lawful.pending f)
