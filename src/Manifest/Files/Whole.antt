-- ===== src/Manifest/Files/Whole.antt =====
-- A manifest file of internal/server/manifest.go is never written in part.
use mcpshim.Prelude.{
  ◌≡◌, refl, ◌∙◌, false, Option, none, some, [], ◌∷◌, if◌then◌else◌, is_some, Text, text_eq,
  text_eq_refl, Map, lookup, insert, lookup-insert, lookup-delete, lookup-insert_self, arith, inl,
  inr, Bool-cases,
}
use mcpshim.Manifest.Files.{FileCalls, temporary, renamed_file, write_partial, atomic_write}

text_eq-temporary : (path : Text) → text_eq (temporary path) path ≡ false
unfolding text_eq
text_eq-temporary [] = refl
text_eq-temporary (c ∷ path) = ground (arith, text_eq-temporary path)

lookup-renamed_file :
    (path j content : Text) (files : Map Text)
    → text_eq (temporary path) j ≡ false
    → lookup j (renamed_file path (insert (temporary path) content files))
      ≡ (if text_eq path j then some content else lookup j files)
lookup-renamed_file path j content files other =
    rw (lookup-insert_self (temporary path) content files, renamed_file) simp
      (lookup-insert, lookup-delete, other)

lookup-write_partial :
    (tmp j : Text) (part : Option Text) (files : Map Text)
    → text_eq tmp j ≡ false
    → lookup j (write_partial tmp part files) ≡ lookup j files
lookup-write_partial tmp j none files other = refl
lookup-write_partial tmp j (some part) files other = simp (lookup-insert, other)

-- What is at a path after atomicWrite.
lookup-atomic_write :
    (calls : FileCalls) (path j content : Text) (files : Map Text)
    → text_eq (temporary path) j ≡ false
    → lookup j (atomic_write calls path content files).1 ≡ (
        if is_some (atomic_write calls path content files).0
        then lookup j files
        else if text_eq path j
        then some content
        else lookup j files)
unfolding atomic_write
lookup-atomic_write calls path j content files other = elim (Bool-cases calls.made) [
  | inr h ↦ rw h refl
  | inl made ↦ elim (Bool-cases calls.written) [
    | inr h ↦ rw (made, h) (lookup-write_partial (temporary path) j calls.partial files other)
    | inl written ↦ elim (Bool-cases calls.renamed) [
      | inr h ↦ rw (made, written, h) simp (lookup-insert, lookup-delete, other)
      | inl renamed ↦ rw (made, written, renamed) (lookup-renamed_file path j content files other)
    ]
  ]
]

-- However the calls of the operating system end, the file at the path holds the whole content after
-- a write that succeeds and is what it was after one that fails, and no other file than the
-- temporary one changes.
pub atomic_write-whole :
    (calls : FileCalls) (path content : Text) (files : Map Text)
    → (lookup path (atomic_write calls path content files).1 ≡ (
        if is_some (atomic_write calls path content files).0
        then lookup path files
        else some content))
      × ((j : Text)
          → text_eq path j ≡ false
          → text_eq (temporary path) j ≡ false
          → lookup j (atomic_write calls path content files).1 ≡ lookup j files)
atomic_write-whole calls path content files = (
  lookup-atomic_write calls path path content files (text_eq-temporary path) ∙ simp text_eq_refl,
  λ j other temporary_other.
      lookup-atomic_write calls path j content files temporary_other ∙ ground (arith, other),
)
