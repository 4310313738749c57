-- ===== src/Monthly/Dedupe.antt =====
-- `dedupe_provider_dir` of cli/monthly_invoices.py, with usecases/duplicate_policy.py.
pub mod Kept
pub mod Alike
pub mod Staying
use invoices_codex.Prelude.{
  ℕ, String, ◌+◌, Bool, true, false, not, ◌&&◌, ◌||◌, Option, none, some, List, [], ◌∷◌, ◌++◌, ◌==◌,
  contains, if◌then◌else◌,
}
use invoices_codex.Monthly.Paths.{
  FilePath, Entry, file_name, folder_exists, iter_invoice_pdfs, stem_and_suffix,
}
use invoices_codex.Monthly.Moves.{move_into}
use invoices_codex.Monthly.Consolidation.{duplicate_by_hash}

-- What the loop uses of other libraries: the digest of a file's bytes, the first group of the pattern
-- `^(.*)__\d+$`, the text fingerprint of a PDF, which may raise, and whether a file can be moved.
pub record PdfTools : Type 0 where
  pub hash : String → String
  pub match_copy : String → Option String
  pub have_pymupdf : Bool
  pub text_fingerprint_of : String → Option (Option String)
  pub can_move : Entry → Bool

pub record DedupeStats : Type 0 where
  pub scanned : ℕ
  pub kept : ℕ
  pub removed : ℕ
  pub moved : ℕ
  pub errors : ℕ

pub record Deduping : Type 0 where
  pub files : List Entry
  pub seen_hash : List String
  pub seen_stem : List String
  pub seen_text : List String
  pub stats : DedupeStats

-- `duplicate_by_stem` and `duplicate_by_text_fingerprint`
unfoldable pub duplicate_by_stem : String → List String → Bool
duplicate_by_stem stem seen_stems = contains stem seen_stems

unfoldable pub duplicate_by_text_fingerprint : Option String → List String → Bool
duplicate_by_text_fingerprint none seen_fingerprints = false
duplicate_by_text_fingerprint (some f) seen_fingerprints =
    not (f == "") && contains f seen_fingerprints

-- `if tfp: seen_text.add(tfp)`
abbrev pub remember_text : Option String → List String → List String
remember_text none seen = seen
remember_text (some f) seen = if f == "" then seen else f ∷ seen

-- What the loop reads of a file.
pub record Prints : Type 0 where
  pub digest : String
  pub stem : String
  pub fingerprint : Option String

abbrev pub no_dedupe : DedupeStats
no_dedupe = record { scanned = 0; kept = 0; removed = 0; moved = 0; errors = 0 }

unfoldable pub is_duplicate : Prints → Deduping → Bool
unfolding duplicate_by_stem duplicate_by_text_fingerprint duplicate_by_hash
is_duplicate p st =
    duplicate_by_hash p.digest st.seen_hash
    || (duplicate_by_stem p.stem st.seen_stem
        || duplicate_by_text_fingerprint p.fingerprint st.seen_text)

abbrev pub remember : Prints → Deduping → Deduping
remember p st = record {
  files = st.files;
  seen_hash = p.digest ∷ st.seen_hash;
  seen_stem = p.stem ∷ st.seen_stem;
  seen_text = remember_text p.fingerprint st.seen_text;
  stats = record st.stats { kept = st.stats.kept + 1 };
}

abbrev pub with_error : Deduping → Deduping
with_error st = record st { stats = record st.stats { errors = st.stats.errors + 1 } }

abbrev pub scanned_one : Deduping → Deduping
scanned_one st = record st { stats = record st.stats { scanned = st.stats.scanned + 1 } }

abbrev pub starting : List Entry → Deduping
starting fs = record {
  files = fs;
  seen_hash = [];
  seen_stem = [];
  seen_text = [];
  stats = no_dedupe;
}

-- `stats["removed"] = stats["moved"]`
abbrev pub with_removed : Deduping → Deduping
with_removed st = record st { stats = record st.stats { removed = st.stats.moved } }

module _ (tools : PdfTools) where
  unfoldable pub stem_key : FilePath → String
  stem_key path =
      let stem = (stem_and_suffix (file_name path)).0 in
      elim (tools.match_copy stem) [ none ↦ stem | some group ↦ group ]

  -- `text_fingerprint`; `none` is an exception.
  unfoldable pub text_fingerprint : Entry → Option (Option String)
  text_fingerprint pdf =
      if tools.have_pymupdf then tools.text_fingerprint_of pdf.content else some none

  -- The first `try` block.
  unfoldable pub prints_of : Entry → Option Prints
  unfolding stem_key text_fingerprint
  prints_of pdf = if not pdf.readable then none else elim (text_fingerprint pdf) [
    | none ↦ none
    | some tfp ↦
        some
          (record { digest = tools.hash pdf.content; stem = stem_key pdf.path; fingerprint = tfp })
  ]

  -- The second `try` block: the move of a duplicate.
  unfoldable pub move_duplicate : FilePath → Entry → Deduping → Deduping
  move_duplicate duplicates_dir pdf st =
      if tools.can_move pdf
      then record st {
        files = move_into duplicates_dir pdf st.files;
        stats = record st.stats { moved = st.stats.moved + 1 };
      }
      else with_error st

  -- One round of the loop.
  unfoldable pub dedupe_one : FilePath → Entry → Deduping → Deduping
  dedupe_one duplicates_dir pdf st = elim (prints_of pdf) [
    | none ↦ with_error (scanned_one st)
    | some p ↦
        if is_duplicate p st
        then move_duplicate duplicates_dir pdf (scanned_one st)
        else remember p (scanned_one st)
  ]

  unfoldable pub dedupe_all : FilePath → List Entry → Deduping → Deduping
  dedupe_all duplicates_dir [] st = st
  dedupe_all duplicates_dir (pdf ∷ pdfs) st =
      dedupe_all duplicates_dir pdfs (dedupe_one duplicates_dir pdf st)

  unfoldable pub dedupe_provider_dir : FilePath → List Entry → Deduping
  dedupe_provider_dir target_dir fs =
      if folder_exists fs target_dir
      then with_removed (
          dedupe_all (target_dir ++ "duplicates" ∷ []) (iter_invoice_pdfs fs target_dir)
            (starting fs))
      else starting fs
