-- ===== src/Parser/Find.antt =====
-- pigate/pkg/credentialparser/paser.go, `FindTextFile`: the first text file below a directory, in the
-- order of `filepath.WalkDir`. The file system is an argument: what `os.Stat` says of the path, and
-- the tree below it, each directory with its entries in the order of their names.
pub mod Laws
use pigate.Prelude.{
  ℕ, Bool, true, false, ◌&&◌, not, List, [], ◌∷◌, Error, service, text, wrapped, Result, ok, err,
  is_nil, if◌then◌else◌,
}
use pigate.Parser.Path.{FilePath, is_text_file}

mutual
  -- A link is a file: `WalkDir` does not follow it.
  pub data Node : Type 0 where
    file unreadable : Node
    directory : Entries → Node

  pub data Entries : Type 0 where
    nil : Entries
    cons : FilePath → Node → Entries → Entries

-- What a walk comes back with: `found` is `io.EOF` and the path that was noted.
pub data Walk : Type 0 where
  goes_on : Walk
  found : FilePath → Walk
  broken : Error → Walk

abbrev pub or_else_go_on : Walk → Walk → Walk
or_else_go_on goes_on next = next
or_else_go_on stop next = stop

abbrev pub not_found : Error
not_found = text "credential text file not found"

abbrev walked : Walk → Result FilePath
walked goes_on = err (wrapped "in" not_found)
walked (found path) = if is_nil path then err (wrapped "in" not_found) else ok path
walked (broken e) = err (wrapped "error searching for .txt file" e)

-- The function that is called for each entry.
unfoldable pub visit : (ℕ → Bool) → FilePath → Bool → Walk
visit is_separator path is_dir =
    if not is_dir && is_text_file is_separator path then found path else goes_on

module _ (is_separator : ℕ → Bool) (join : FilePath → FilePath → FilePath) where
  -- `WalkDir`: a directory is visited before its entries; one that cannot be read is visited once
  -- more, with the error, which the function returns.
  unfoldable mutual
    pub walk : FilePath → Node → Walk
    walk path file = visit is_separator path false
    walk path unreadable = or_else_go_on (visit is_separator path true) (broken service)
    walk path (directory entries) =
        let below = walk_entries path entries in or_else_go_on (visit is_separator path true) below

    pub walk_entries : FilePath → Entries → Walk
    walk_entries path nil = goes_on
    walk_entries path (cons name node entries) =
        let rest = walk_entries path entries in or_else_go_on (walk (join path name) node) rest

  abbrev walk_root : FilePath → Result Node → Walk
  walk_root path (err e) = broken e
  walk_root path (ok node) = walk path node

  -- `FindTextFile`: the two arguments after the path are what `os.Stat` says of it, whether it is a
  -- directory, and what `os.Lstat` finds there.
  unfoldable pub find_text_file : FilePath → Result Bool → Result Node → Result FilePath
  find_text_file path (err e) root = err (wrapped "credential directory" e)
  find_text_file path (ok false) root = err (text "credential path is not a directory")
  find_text_file path (ok true) root = walked (walk_root path root)
