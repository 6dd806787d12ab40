-- ===== src/File/OpenFiles.antt =====
-- The double-linked list of open files of a partition, as `_FAT_open_r` and `_FAT_close_r` of
-- source/fatfile.c change it. A file is the number of its FILE_STRUCT; NULL is `none`.
pub mod Listed
pub mod Kept
use libfat.Base.{ℕ, ◌+◌, Bool, Option, none, some, u32, sub32, ◌==◌, if◌then◌else◌}

-- partition->openFileCount and firstOpenFile, and nextOpenFile and prevOpenFile of every file.
pub record OpenFiles : Type 0 where
  pub open_file_count : ℕ
  pub first_open_file : Option ℕ
  pub next_open_file : ℕ → Option ℕ
  pub prev_open_file : ℕ → Option ℕ

-- file->link = value
abbrev pub set_link : (ℕ → Option ℕ) → ℕ → Option ℕ → ℕ → Option ℕ
set_link links file value other = if other == file then value else links other

-- if (partition->firstOpenFile) { file->nextOpenFile = partition->firstOpenFile; ... } else ...
abbrev pub link_first : OpenFiles → ℕ → Option ℕ → OpenFiles
link_first o file none = record o { next_open_file = set_link o.next_open_file file none }
link_first o file (some first) = record o {
  next_open_file = set_link o.next_open_file file (some first);
  prev_open_file = set_link o.prev_open_file first (some file);
}

-- Insert this file into the double-linked list of open files.
unfoldable pub insert_open_file : OpenFiles → ℕ → OpenFiles
insert_open_file o file =
    let linked = link_first o file o.first_open_file in
    record linked {
      open_file_count = u32 (o.open_file_count + 1);
      prev_open_file = set_link linked.prev_open_file file none;
      first_open_file = some file;
    }

-- if (file->nextOpenFile) file->nextOpenFile->prevOpenFile = file->prevOpenFile;
abbrev pub unlink_next : OpenFiles → ℕ → Option ℕ → OpenFiles
unlink_next o file none = o
unlink_next o file (some next) = record o {
  prev_open_file = set_link o.prev_open_file next (o.prev_open_file file);
}

-- if (file->prevOpenFile) file->prevOpenFile->nextOpenFile = file->nextOpenFile; else ...
abbrev pub unlink_prev : OpenFiles → ℕ → Option ℕ → OpenFiles
unlink_prev o file none = record o { first_open_file = o.next_open_file file }
unlink_prev o file (some prev) = record o {
  next_open_file = set_link o.next_open_file prev (o.next_open_file file);
}

-- Remove this file from the double-linked list of open files.
unfoldable pub remove_open_file : OpenFiles → ℕ → OpenFiles
remove_open_file o file =
    let o' = unlink_next o file (o.next_open_file file) in
    record (unlink_prev o' file (o'.prev_open_file file)) {
      open_file_count = sub32 o.open_file_count 1;
    }
