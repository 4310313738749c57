-- ===== src/Monthly/Dedupe/Alike.antt =====
-- Files that are alike for `dedupe_provider_dir`, and the sets of its loop.
use text.Mathlib.TextPositions.{eq_refl}
use invoices_codex.Prelude.{
  String, ◌≡◌, refl, Bool, true, false, not, ◌&&◌, ◌||◌, Option, none, some, List, [], ◌∷◌, ◌==◌,
  arith, contains, map, eq_iff,
}
use invoices_codex.Monthly.Paths.{Entry}
use invoices_codex.Monthly.Consolidation.{duplicate_by_hash}
use invoices_codex.Monthly.Dedupe.{
  PdfTools, Deduping, duplicate_by_stem, duplicate_by_text_fingerprint, remember_text, Prints,
  prints_of, is_duplicate,
}

-- Two files with one digest, one stem, or one fingerprint that is not empty.
abbrev pub same_text : Option String → Option String → Bool
same_text none g = false
same_text (some f) none = false
same_text (some f) (some g) = not (f == "") && f == g

unfoldable pub alike : Prints → Prints → Bool
alike p k = p.digest == k.digest || (p.stem == k.stem || same_text p.fingerprint k.fingerprint)

unfoldable pub any_alike : Prints → List Prints → Bool
any_alike p [] = false
any_alike p (k ∷ ks) = alike p k || any_alike p ks

-- No two of the files are alike.
abbrev pub AreApart : List Prints → Type 0
AreApart [] = Unit
AreApart (k ∷ ks) = (any_alike k ks ≡ false) × AreApart ks

abbrev pub texts_of : List Prints → List String
texts_of [] = []
texts_of (k ∷ ks) = remember_text k.fingerprint (texts_of ks)

-- The sets of the loop hold the prints of the files kept so far.
pub record Remembers (ks : List Prints) (st : Deduping) : Type 0 where
  pub hashes : st.seen_hash ≡ map (λ (k : Prints). k.digest) ks
  pub stems : st.seen_stem ≡ map (λ (k : Prints). k.stem) ks
  pub fingerprints : st.seen_text ≡ texts_of ks

pub text-remember :
    (f g : Option String) (seen : List String)
    → duplicate_by_text_fingerprint f (remember_text g seen)
      ≡ (same_text f g || duplicate_by_text_fingerprint f seen)
unfolding duplicate_by_text_fingerprint
text-remember none g seen = refl
text-remember (some f) none seen = refl
text-remember (some f) (some g) seen = ground (arith, eq_iff f g, eq_iff g "", eq_iff f "")

pub no_text : (f : Option String) → duplicate_by_text_fingerprint f [] ≡ false
unfolding duplicate_by_text_fingerprint
no_text none = refl
no_text (some f) = ground arith

pub alike-kept :
    (p : Prints) (ks : List Prints)
    → (contains p.digest (map (λ (k : Prints). k.digest) ks)
        || (contains p.stem (map (λ (k : Prints). k.stem) ks)
            || duplicate_by_text_fingerprint p.fingerprint (texts_of ks)))
      ≡ any_alike p ks
unfolding any_alike alike
alike-kept p [] = no_text p.fingerprint
alike-kept p (k ∷ ks) =
    ground (arith, alike-kept p ks, text-remember p.fingerprint k.fingerprint (texts_of ks))

pub is_duplicate-alike :
    (p : Prints) (ks : List Prints) (st : Deduping)
    → Remembers ks st
    → is_duplicate p st ≡ any_alike p ks
unfolding is_duplicate duplicate_by_hash duplicate_by_stem
is_duplicate-alike p ks st r = ground (arith, r.hashes, r.stems, r.fingerprints, alike-kept p ks)

pub alike_refl : (p : Prints) → alike p p ≡ true
unfolding alike
alike_refl p = ground (arith, eq_refl p.digest)

-- A file that was read is like one of the files kept.
abbrev pub IsCovered : PdfTools → List Prints → Entry → Type 0
IsCovered tools ks pdf = (p : Prints) → prints_of tools pdf ≡ some p → any_alike p ks ≡ true

-- The prints of some files, in turn.
abbrev pub PrintsOf : PdfTools → List Entry → List Prints → Type 0
PrintsOf tools [] [] = Unit
PrintsOf tools [] (k ∷ ks) = ⊥
PrintsOf tools (e ∷ es) [] = ⊥
PrintsOf tools (e ∷ es) (k ∷ ks) = (prints_of tools e ≡ some k) × PrintsOf tools es ks
