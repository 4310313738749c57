-- ===== src/Monthly/Consolidation.antt =====
-- `preload_hashes` and `consolidate_pdfs` of cli/monthly_invoices.py, and the hashes of
-- usecases/duplicate_policy.py. A folder's files are listed when the loop over the folder begins.
pub mod Copies
pub mod Digests
pub mod Refined
use invoices_codex.Prelude.{
  ℕ, suc, String, ◌+◌, Bool, true, not, ◌&&◌, Option, none, some, List, [], ◌∷◌, ◌++◌, ◌==◌,
  contains, length, if◌then◌else◌,
}
use invoices_codex.Monthly.Paths.{
  FilePath, Entry, file_name, folder_exists, iter_invoice_pdfs, ensure_unique,
}

-- The four numbers of the summary.
pub record Stats : Type 0 where
  pub copied : ℕ
  pub duplicates : ℕ
  pub sources : ℕ
  pub existing : ℕ

pub record Folder : Type 0 where
  pub files : List Entry
  pub seen : List String
  pub stats : Stats

-- `duplicate_by_hash`
unfoldable pub duplicate_by_hash : String → List String → Bool
duplicate_by_hash digest known_hashes = contains digest known_hashes

-- `shutil.copy2(pdf, dest_path)`
abbrev pub copy_of : FilePath → String → Entry → Entry
copy_of dest_dir name pdf = record pdf { path = dest_dir ++ name ∷ []; is_file = true }

abbrev pub with_duplicate : Folder → Folder
with_duplicate st = record st { stats = record st.stats { duplicates = st.stats.duplicates + 1 } }

abbrev pub with_source : Folder → Folder
with_source st = record st { stats = record st.stats { sources = st.stats.sources + 1 } }

abbrev pub untouched : List Entry → Folder
untouched fs = record {
  files = fs;
  seen = [];
  stats = record { copied = 0; duplicates = 0; sources = 0; existing = 0 };
}

-- `hash` is `hashlib.sha256(...).hexdigest()` of a file's bytes.
module _ (hash : String → String) where
  -- The distinct digests of the files that can be read: the keys of the index.
  unfoldable pub digests_of : List Entry → List String
  digests_of [] = []
  digests_of (e ∷ es) =
      let rest = digests_of es in
      if e.readable && not (contains (hash e.content) rest) then hash e.content ∷ rest else rest

  unfoldable pub preload_hashes : List Entry → FilePath → List String
  preload_hashes fs dest_dir = digests_of (iter_invoice_pdfs fs dest_dir)

  abbrev pub with_copy : FilePath → Entry → Folder → String → Folder
  with_copy dest_dir pdf st name = record {
    files = st.files ++ copy_of dest_dir name pdf ∷ [];
    seen = hash pdf.content ∷ st.seen;
    stats = record st.stats { copied = st.stats.copied + 1 };
  }

  -- One round of the inner loop.
  unfoldable pub consolidate_one : FilePath → Entry → Folder → Folder
  unfolding duplicate_by_hash
  consolidate_one dest_dir pdf st =
      if not pdf.readable
      then st
      else if duplicate_by_hash (hash pdf.content) st.seen
      then with_duplicate st
      else elim (ensure_unique st.files dest_dir (file_name pdf.path)) [
        | none ↦ st
        | some name ↦ with_copy dest_dir pdf st name
      ]

  unfoldable pub consolidate_folder : FilePath → List Entry → Folder → Folder
  consolidate_folder dest_dir [] st = st
  consolidate_folder dest_dir (pdf ∷ pdfs) st =
      consolidate_folder dest_dir pdfs (consolidate_one dest_dir pdf st)

  unfoldable pub consolidate_sources : FilePath → List FilePath → Folder → Folder
  consolidate_sources dest_dir [] st = st
  consolidate_sources dest_dir (src ∷ srcs) st =
      let next =
        if folder_exists st.files src
        then consolidate_folder dest_dir (iter_invoice_pdfs st.files src) (with_source st)
        else st in
      consolidate_sources dest_dir srcs next

  -- What the loops start from.
  abbrev pub preloaded : FilePath → List Entry → Folder
  preloaded dest_dir fs =
      let seen = preload_hashes fs dest_dir in
      record {
        files = fs;
        seen = seen;
        stats = record { copied = 0; duplicates = 0; sources = 0; existing = length seen };
      }

  unfoldable pub consolidate_pdfs : FilePath → List FilePath → List Entry → Folder
  consolidate_pdfs dest_dir [] fs = untouched fs
  consolidate_pdfs dest_dir (src ∷ srcs) fs =
      consolidate_sources dest_dir (src ∷ srcs) (preloaded dest_dir fs)
