-- ===== src/Worker/Storage.antt =====
-- `LocalStorageBackend` of saas/storage.py over the stored objects. Whether the file system refuses a
-- write or a removal is the environment's choice.
pub mod Keys
use Prim.Native.Char.{code}
use Prim.Native.String
use invoices_codex.Prelude.{
  eqb, ◌&&◌, ◌||◌, ℕ, String, Bool, true, false, Option, none, some, List, [], ◌∷◌, ◌==◌,
  if◌then◌else◌,
}
use invoices_codex.Store.{Object, Fault, Tx, Outcome, pure, raise, ◌>>=◌, ◌>>◌}

-- `key.lstrip("/")`
unfoldable pub lstrip_slash : String → String
lstrip_slash String.[] = ""
lstrip_slash (String.◌∷◌ c s) =
    let rest = lstrip_slash s in if eqb (code c) b'/' then rest else String.◌∷◌ c s

-- `key.replace("..", "_")`
unfoldable pub replace_dots : String → String
replace_dots String.[] = ""
replace_dots (String.◌∷◌ c String.[]) = String.◌∷◌ c ""
replace_dots (String.◌∷◌ c (String.◌∷◌ d s)) =
    let replaced = String.◌∷◌ "_" (replace_dots s) in
    let kept = String.◌∷◌ c (replace_dots (String.◌∷◌ d s)) in
    if eqb (code c) b'.' && eqb (code d) b'.' then replaced else kept

-- `_normalize_key`
unfoldable pub normalize_key : String → String
unfolding lstrip_slash replace_dots
normalize_key key = replace_dots (lstrip_slash key)

-- The byte count and the digest of a content, and what the file system refuses.
pub record Disk : Type 0 where
  pub size : String → ℕ
  pub digest : String → String
  pub write_fault : String → Option Fault
  pub unlink_fault : String → Option Fault

pub record StoredObject : Type 0 where
  pub key : String
  pub size : ℕ
  pub sha256 : String

unfoldable pub put_object : String → String → List Object → List Object
put_object key content [] = (record { key = key; content = content }) ∷ []
put_object key content (o ∷ os) =
    let rest = put_object key content os in
    if o.key == key then (record { key = key; content = content }) ∷ os else o ∷ rest

unfoldable pub remove_object : String → List Object → List Object
remove_object key [] = []
remove_object key (o ∷ os) =
    let rest = remove_object key os in if o.key == key then rest else o ∷ rest

-- `path.exists()`
unfoldable pub has_object : String → List Object → Bool
has_object key [] = false
has_object key (o ∷ os) = o.key == key || has_object key os

module _ (disk : Disk) where
  abbrev set_objects : (List Object → List Object) → Tx (Unit {0})
  set_objects f s =
      (Outcome.ok tt, record s { outside = record s.outside { objects = f s.outside.objects } })

  unfoldable pub save_bytes : String → String → Tx StoredObject
  save_bytes key content = elim (disk.write_fault key) [
    | some e ↦ raise e
    | none ↦ do
      set_objects (put_object (normalize_key key) content)
      pure (record { key = key; size = disk.size content; sha256 = disk.digest content })
  ]

  unfoldable pub delete : String → Tx (Unit {0})
  delete key s =
      if has_object (normalize_key key) s.outside.objects
      then elim (disk.unlink_fault key) [
        | some e ↦ raise e s
        | none ↦ set_objects (remove_object (normalize_key key)) s
      ]
      else pure tt s
