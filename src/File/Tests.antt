-- ===== src/File/Tests.antt =====
-- Open files of kernel/src/fs/vfs/file.c at a concrete driver: a file of five bytes, node 1, and a
-- directory of one entry, node 2.
use pros.Common.{
  ℕ, ◌+◌, ◌-◌, ◌<◌, ◌%◌, ap, ◌∙◌, Bool-cases, ◌≡◌, refl, inl, inr, Option, none, some, List, [],
  ◌∷◌, length, take, drop, min, arith, ◌==◌, if◌then◌else◌, Res, ok, err,
}
use pros.Memory.{ℤ, pos, negsuc}
use pros.Vfs.{Mount}
use pros.Vfs.Node.{VfsDirent, VfsOps, Nodes}
use pros.Vfs.Walk.{vfs_lookup}
use pros.File.{Files, sys_openat, sys_close, sys_lseek}
use pros.File.Io.{store, sys_read, sys_write}
use pros.File.Dents.{sys_getdents64}
use pros.File.Chunk.{ReadDone}
use pros.File.Read.{sys_read-content}
use pros.File.Sent.{WriteDone}
use pros.File.Write.{sys_write-content}
use pros.File.Ends.{Ends, sys_read-Ends}
use pros.File.Slots.{OpenDone, sys_openat-OpenDone}
use pros.File.Close.{CloseDone, sys_close-sys_openat}
use pros.File.DentsBounds.{Within, ShortNames, sys_getdents64-Within}

abbrev content : List ℕ
content = 10 ∷ 11 ∷ 12 ∷ 13 ∷ 14 ∷ []

abbrev read_content : ℕ → ℕ → ℕ → Unit {0} → Res (List ℕ) × Unit {0}
read_content node offset size w = (ok (take size (drop offset content)), w)

abbrev one_entry : ℕ → ℕ → Unit {0} → Res (Option VfsDirent)
one_entry node index w =
    if index == 0 then ok (some record { name = 0x61 ∷ []; flags = 1; inode = 7 }) else ok none

abbrev ops : VfsOps (Unit {0})
ops = record {
  create = none;
  open_node = none;
  close_node = none;
  read = some read_content;
  write = none;
  finddir = some (λ node name w. 1);
  readdir = some one_entry;
}

abbrev nodes : Nodes (Unit {0})
nodes = record {
  node_flags = λ n w. if n == 2 then 2 else 1;
  node_size = λ n w. 5;
  node_ops = λ n w. some ops;
}

abbrev chunk : ℕ
chunk = 0xffff_9000_0000_0000

-- Descriptor 3 is the file, at position 1, descriptor 4 the directory, and no other is in use.
abbrev table : ℕ → ℕ
table fd = if fd == 3 then 0x500 else if fd == 4 then 0x600 else 0

abbrev files : Files (Unit {0})
files = record {
  file = λ f.
      if f == 0x500
      then record { node = 1; offset = 1; flags = 2; ref_count = 1 }
      else record { node = 2; offset = 0; flags = 0; ref_count = 1 };
  fds = some table;
  mem = λ a. 0;
  world = tt;
}

-- A negative position is taken, and returned as the number that stands for it.
seek_negative : (sys_lseek nodes (pos 3) 0xffff_ffff_ffff_fffb 0 files).0 ≡ ok 0xffff_ffff_ffff_fffb
unfolding sys_lseek
seek_negative = refl

sys_read-content_example :
    ReadDone 0x500 0x1000
      (min 10 (length content - 1))
      0
      content
      0x1002
      files
      (sys_read nodes chunk 11 (pos 3) 0x1000 10 files)
sys_read-content_example =
    sys_read-content nodes chunk read_content ops 11 3 0x1000 10 0x1002 table content files
      (omega arith) (omega arith) (inl (omega arith)) (omega arith) (omega arith) (omega arith) refl
      (omega arith) refl refl refl (λ offset size. refl) (omega arith) (omega arith)

sys_read-Ends_example :
    Ends (sys_read nodes chunk 11 (pos 3) 0x1000 10 files)
    × Ends (sys_write nodes chunk 11 (pos 3) 0x1000 10 files)
sys_read-Ends_example = sys_read-Ends nodes chunk 11 0x1000 10 (pos 3) files (omega arith)

abbrev mounts : List Mount
mounts = record { path = 0x2f ∷ []; root = 2 } ∷ []

lookup_root : vfs_lookup nodes mounts (some (0x2f ∷ [])) tt ≡ (2, tt)
unfolding vfs_lookup pros.Vfs.Walk.vfs_inner_find_and_create pros.Vfs.Walk.walk_from
    pros.Vfs.vfs_get_mountpoint pros.Vfs.take_best pros.Vfs.best_loop pros.Vfs.matches
    pros.Memory.Strings.list_cmp pros.Vfs.Walk.walk pros.Memory.Tokens.tokens
lookup_root = refl

sys_openat-OpenDone_example :
    OpenDone 0x700 2 0 table (sys_openat nodes mounts 0x700 (negsuc 99) (some (0x2f ∷ [])) 0 files)
sys_openat-OpenDone_example =
    sys_openat-OpenDone nodes mounts 0x700 2 0 (0x2f ∷ []) table files tt refl lookup_root
      (λ z. absurd (omega (arith, z)))

-- A driver that counts how often it is told that a node is closed.
abbrev counting : VfsOps ℕ
counting = record {
  create = none;
  open_node = none;
  close_node = some (λ node w. (pos 0, w + 1));
  read = none;
  write = none;
  finddir = none;
  readdir = none;
}

abbrev counted_nodes : Nodes ℕ
counted_nodes = record {
  node_flags = λ n w. 2;
  node_size = λ n w. 0;
  node_ops = λ n w. some counting;
}

abbrev counted_files : Files ℕ
counted_files = record { file = files.file; fds = some table; mem = λ a. 0; world = 0 }

find_root : vfs_lookup counted_nodes mounts (some (0x2f ∷ [])) 0 ≡ (2, 0)
unfolding vfs_lookup pros.Vfs.Walk.vfs_inner_find_and_create pros.Vfs.Walk.walk_from
    pros.Vfs.vfs_get_mountpoint pros.Vfs.take_best pros.Vfs.best_loop pros.Vfs.matches
    pros.Memory.Strings.list_cmp pros.Vfs.Walk.walk pros.Memory.Tokens.tokens
find_root = refl

-- With a file on the root directory, at descriptor 5.
abbrev opened : Res ℕ × Files ℕ
opened = sys_openat counted_nodes mounts 0x700 (negsuc 99) (some (0x2f ∷ [])) 0 counted_files

opened-ok : opened ≡ (ok 5, opened.1)
unfolding sys_openat pros.File.open_path pros.File.open_target pros.File.open_at_slot
    pros.File.find_slot pros.File.install_fd pros.File.file_open_node pros.File.file_ref
    pros.File.call_open pros.File.call_back vfs_lookup pros.Vfs.Walk.vfs_inner_find_and_create
    pros.Vfs.Walk.walk_from pros.Vfs.vfs_get_mountpoint pros.Vfs.take_best pros.Vfs.best_loop
    pros.Vfs.matches pros.Memory.Strings.list_cmp pros.Vfs.Walk.walk pros.Memory.Tokens.tokens
opened-ok = refl

sys_close-sys_openat_example :
    CloseDone counted_nodes 0x700 2 table (opened.1) (sys_close counted_nodes (pos 5) (opened.1))
sys_close-sys_openat_example =
    sys_close-sys_openat counted_nodes mounts 0x700 2 0 5 (0x2f ∷ []) table counted_files (opened.1)
      0 refl find_root (λ z. absurd (omega (arith, z))) opened-ok

name_length : Res (Option VfsDirent) → ℕ
name_length (ok (some d)) = length d.name
name_length (ok none) = 0
name_length (err e) = 0

entry_short : (node index : ℕ) (w : Unit {0}) → name_length (one_entry node index w) < 128
unfolding name_length
entry_short node index w = elim (Bool-cases (index == 0)) [
  | inl e ↦ rw e (omega arith)
  | inr e ↦ rw e (omega arith)
]

called_by :
    Option (ℕ → ℕ → Unit {0} → Res (Option VfsDirent)) → ℕ → ℕ → Unit {0} → Res (Option VfsDirent)
called_by none node index w = ok none
called_by (some readdir) node index w = readdir node index w

readdir_of_ops : Option (VfsOps (Unit {0})) → Option (ℕ → ℕ → Unit {0} → Res (Option VfsDirent))
readdir_of_ops none = none
readdir_of_ops (some o) = o.readdir

nodes-ShortNames : ShortNames nodes
unfolding called_by readdir_of_ops name_length
nodes-ShortNames node n i w w' o readdir d e e' k =
    let call : name_length (one_entry n i w') ≡ length d.name =
      ap (λ r. name_length (called_by r n i w')) (ap readdir_of_ops e ∙ e') ∙ ap name_length k in
    omega (arith, entry_short n i w', call)

sys_getdents64-Within_example :
    Within 100 0x5000 files (sys_getdents64 nodes chunk 101 (pos 4) 0x1000 100 files)
sys_getdents64-Within_example =
    sys_getdents64-Within nodes chunk 0x1000 100 0x5000 101 (pos 4) files (omega arith)
      (omega arith) (inl (omega arith)) (inr (omega arith)) (omega arith) nodes-ShortNames
      (omega arith)

-- A driver that keeps the bytes of one file.
abbrev write_bytes : ℕ → ℕ → List ℕ → (ℕ → ℕ) → Res ℕ × (ℕ → ℕ)
write_bytes node offset bytes w = (ok (length bytes), store offset bytes w)

abbrev byte_ops : VfsOps (ℕ → ℕ)
byte_ops = record {
  create = none;
  open_node = none;
  close_node = none;
  read = none;
  write = some write_bytes;
  finddir = none;
  readdir = none;
}

abbrev byte_nodes : Nodes (ℕ → ℕ)
byte_nodes = record { node_flags = λ n w. 1; node_size = λ n w. 5; node_ops = λ n w. some byte_ops }

-- The byte at an address of the user is its low byte.
abbrev byte_files : Files (ℕ → ℕ)
byte_files = record {
  file = λ f. record { node = 1; offset = 4; flags = 2; ref_count = 1 };
  fds = some table;
  mem = λ a. a % 256;
  world = λ i. 0;
}

sys_write-content_example :
    WriteDone
      (λ w. w)
      0x500
      0x1000
      700
      0
      byte_files
      (sys_write byte_nodes chunk 701 (pos 3) 0x1000 700 byte_files)
sys_write-content_example =
    sys_write-content (λ w. w) byte_nodes chunk write_bytes byte_ops 701 3 0x1000 700 table
      byte_files (omega arith) (omega arith) (omega arith) (omega arith) (omega arith) refl
      (omega arith) (inr refl) refl refl (λ w. refl)
      (λ offset bytes w below. (store offset bytes w, refl, λ i. refl)) (omega arith) (omega arith)
