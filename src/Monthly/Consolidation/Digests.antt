-- ===== src/Monthly/Consolidation/Digests.antt =====
-- Which files a consolidation should copy, said without the loops: of the files that can be read, the first of each
-- digest that the folder does not have.
use invoices_codex.Prelude.{
  ℕ, suc, String, ◌≡◌, refl, Bool, false, not, inl, inr, ◌&&◌, ◌||◌, List, [], ◌∷◌, ◌++◌, ◌==◌,
  arith, contains, map, if◌then◌else◌, Bool-cases, eq_iff,
}
use invoices_codex.Monthly.Paths.{Entry}

unfoldable pub readable_count : List Entry → ℕ
readable_count [] = 0
readable_count (e ∷ es) = let rest = readable_count es in if e.readable then suc rest else rest

abbrev pub contents_of : List Entry → List String
contents_of es = map (λ (e : Entry). e.content) es

module _ (hash : String → String) where
  abbrev pub is_new : List String → Entry → Bool
  is_new seen e = e.readable && not (contains (hash e.content) seen)

  abbrev pub seen_after : List String → Entry → List String
  seen_after seen e = if is_new seen e then hash e.content ∷ seen else seen

  unfoldable pub first_of_each : List String → List Entry → List Entry
  first_of_each seen [] = []
  first_of_each seen (e ∷ es) =
      let rest = first_of_each (seen_after seen e) es in if is_new seen e then e ∷ rest else rest

  unfoldable pub all_seen : List String → List Entry → List String
  all_seen seen [] = seen
  all_seen seen (e ∷ es) = all_seen (seen_after seen e) es

  pub first_of_each-append :
      (seen : List String) (xs ys : List Entry)
      → first_of_each seen (xs ++ ys) ≡ first_of_each seen xs ++ first_of_each (all_seen seen xs) ys
  unfolding first_of_each all_seen
  first_of_each-append seen [] ys = refl
  first_of_each-append seen (e ∷ xs) ys =
      ground (arith, first_of_each-append (seen_after seen e) xs ys)

  -- A digest of one of the files.
  abbrev pub has_digest : String → List Entry → Bool
  has_digest d [] = false
  has_digest d (e ∷ es) = (e.readable && d == hash e.content) || has_digest d es

  -- As a set of digests, what is there after the copies is what was there and what the files have.
  pub first_of_each-digests :
      (d : String) (seen : List String) (es : List Entry)
      → (has_digest d (first_of_each seen es) || contains d seen)
        ≡ (has_digest d es || contains d seen)
  unfolding first_of_each
  first_of_each-digests d seen [] = refl
  first_of_each-digests d seen (e ∷ es) =
      ground (arith, first_of_each-digests d (seen_after seen e) es, eq_iff d (hash e.content))

  pub first_of_each-contents :
      (d : String) (seen : List String) (es : List Entry)
      → contains d (map hash (contents_of (first_of_each seen es)))
        ≡ has_digest d (first_of_each seen es)
  unfolding first_of_each
  first_of_each-contents d seen [] = refl
  first_of_each-contents d seen (e ∷ es) =
      ground (arith, first_of_each-contents d (seen_after seen e) es)

  -- No two texts have one digest, and none has one that was there.
  abbrev pub AreNew : List String → List String → Type 0
  AreNew seen [] = Unit
  AreNew seen (t ∷ ts) = (contains (hash t) seen ≡ false) × AreNew (hash t ∷ seen) ts

  pub first_of_each-AreNew :
      (seen : List String) (es : List Entry) → AreNew seen (contents_of (first_of_each seen es))
  unfolding first_of_each
  first_of_each-AreNew seen [] = tt
  first_of_each-AreNew seen (e ∷ es) = elim (Bool-cases (is_new seen e)) [
    | inl new ↦ rw new (ground arith, rw new at (first_of_each-AreNew (seen_after seen e) es))
    | inr old ↦ rw old (rw old at (first_of_each-AreNew (seen_after seen e) es))
  ]
