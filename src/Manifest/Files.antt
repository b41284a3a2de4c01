-- ===== src/Manifest/Files.antt =====
-- internal/server/manifest.go: the manifest file. The files are a map from paths; how a call of the
-- operating system ends is an argument.
pub mod Whole
use mcpshim.Prelude.{
  Bool, true, false, not, ◌||◌, Option, none, some, [], ◌++◌, if◌then◌else◌, is_empty, Text, codes,
  Map, lookup, insert, delete,
}

-- How os.MkdirAll, os.WriteFile and os.Rename end. A write that fails leaves a part of the file or
-- nothing.
pub record FileCalls : Type 0 where
  pub made : Bool
  pub written : Bool
  pub partial : Option Text
  pub renamed : Bool

pub data FileError : Type 0 where
  directory_failed write_failed rename_failed : FileError

abbrev pub temporary : Text → Text
temporary path = path ++ codes ".tmp"

-- os.Rename of the temporary file.
abbrev pub renamed_file : Text → Map Text → Map Text
renamed_file path files = elim (lookup (temporary path) files) [
  | none ↦ files
  | some data_ ↦ delete (temporary path) (insert path data_ files)
]

abbrev pub write_partial : Text → Option Text → Map Text → Map Text
write_partial path none files = files
write_partial path (some part) files = insert path part files

-- atomicWrite: how it ends, and the files after it
unfoldable pub atomic_write : FileCalls → Text → Text → Map Text → Option FileError × Map Text
unfolding insert lookup delete
atomic_write calls path content files =
    if not calls.made
    then (some directory_failed, files)
    else if not calls.written
    then (some write_failed, write_partial (temporary path) calls.partial files)
    else let staged = insert (temporary path) content files in
      if calls.renamed
      then (none, renamed_file path staged)
      else (some rename_failed, delete (temporary path) staged)

-- writeManifest, for what RenderManifest gives
unfoldable pub write_manifest : FileCalls → Text → Text → Map Text → Map Text
unfolding atomic_write
write_manifest calls path content files =
    if is_empty path then files else (atomic_write calls path content files).1
