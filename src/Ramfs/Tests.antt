-- ===== src/Ramfs/Tests.antt =====
-- The files of kernel/src/fs/ramfs/ramfs.c at concrete inputs: a write over a page boundary.
use pros.Common.{
  ℕ, zero, suc, ◌+◌, ◌-◌, ◌≤◌, ◌≡◌, refl, Bool, true, none, some, List, [], ◌∷◌, arith, replicate,
  if◌then◌else◌, min, ok, err,
}
use pros.Ramfs.{File, has_flag, vfs_file, vfs_directory, einval, ramfs_ops_read, ramfs_ops_write}
use pros.Ramfs.Pages.{byte_at, bytes_from}
use pros.Ramfs.Memory.{Granted}
use pros.Ramfs.Read.{ramfs_ops_read-bytes_from}
use pros.Ramfs.Write.{FileWritten, ramfs_ops_write-overlay}
use pros.Ramfs.RoundTrip.{ramfs_ops_read-ramfs_ops_write}

abbrev empty_file : File
empty_file = record { flags = vfs_file; size = 0; pages = [] }

-- Its second page holds 7, 8, 9, ...; there is no first page.
abbrev sparse_file : File
sparse_file = record { flags = vfs_file; size = 4100; pages = none ∷ some (λ i. 7 + i) ∷ [] }

abbrev bytes : List ℕ
bytes = 1 ∷ 2 ∷ 3 ∷ []

replicate-Granted : (m : ℕ) → Granted m (replicate m true)
replicate-Granted zero k h = absurd (omega arith)
replicate-Granted (suc m) zero h = refl
replicate-Granted (suc m) (suc k) h = replicate-Granted m k (omega arith)

read_sparse : ramfs_ops_read sparse_file 4094 100 ≡ ok (some (0 ∷ 0 ∷ 7 ∷ 8 ∷ 9 ∷ 10 ∷ []))
unfolding ramfs_ops_read
read_sparse = refl

read_directory : ramfs_ops_read (record empty_file { flags = vfs_directory }) 0 1 ≡ err einval
unfolding ramfs_ops_read
read_directory = refl

ramfs_ops_read-bytes_from_example : ramfs_ops_read sparse_file 4094 100 ≡ (
    if has_flag sparse_file.flags vfs_file
    then ok (some (bytes_from (byte_at sparse_file.pages) 4094 (min 100 (sparse_file.size - 4094))))
    else err einval)
ramfs_ops_read-bytes_from_example = ramfs_ops_read-bytes_from sparse_file 4094 100 (omega arith)

-- Memory fails at the second page.
ramfs_ops_write-overlay_example :
    (n : ℕ) × (f' : File) × (answers' : List Bool) × (ramfs_ops_write empty_file 4094 bytes
        (true ∷ true ∷ [])
      ≡ ok (some (f', n, answers')))
    × (n ≤ 3)
    × FileWritten empty_file 4094 bytes n f'
ramfs_ops_write-overlay_example =
    ramfs_ops_write-overlay empty_file 4094 bytes (true ∷ true ∷ []) (omega arith) refl

ramfs_ops_read-ramfs_ops_write_example :
    (f' : File) × (answers' : List Bool) × (ramfs_ops_write empty_file 4094 bytes (replicate 6 true)
      ≡ ok (some (f', 3, answers')))
    × (ramfs_ops_read f' 4094 3 ≡ ok (some bytes))
ramfs_ops_read-ramfs_ops_write_example =
    ramfs_ops_read-ramfs_ops_write empty_file 4094 bytes (replicate 6 true) (omega arith)
      (omega arith) refl (replicate-Granted 6)
