-- ===== src/Fs/RamFs/Tests.antt =====
-- The theorems on the RAM file system at a small file system.
use oxide_os.Prelude.{some, [], ◌∷◌, ◌≡◌, refl, codes, arith}
use oxide_os.Fs.Path.{FilePath}
use oxide_os.Fs.RamFs.{RamFs, root_inode, create_dir, write_file, read_file}
use oxide_os.Fs.RamFs.Create.{read_file-write_file}
use oxide_os.Fs.RamFs.Frame.{read_file-write_file_other}

abbrev tmp : FilePath
tmp = codes "/tmp"

abbrev notes : FilePath
notes = codes "/tmp/notes"

abbrev todo : FilePath
todo = codes "/tmp//todo/"

-- A root, a directory and a file in it.
abbrev some_files : RamFs
some_files = (write_file (create_dir (root_inode ∷ []) tmp).1 notes (1 ∷ 2 ∷ [])).1

read_file-write_file_example :
    read_file (write_file some_files todo (3 ∷ [])).1 todo ≡ some (3 ∷ [])
unfolding create_dir write_file read_file
read_file-write_file_example = read_file-write_file some_files todo (3 ∷ []) (omega arith) refl

read_file-write_file_other_example :
    read_file (write_file some_files todo (3 ∷ [])).1 notes ≡ read_file some_files notes
unfolding create_dir write_file read_file
read_file-write_file_other_example =
    read_file-write_file_other some_files todo notes 2 (3 ∷ []) (omega arith) refl (λ q. cc)
