-- ===== src/Prelude/Lists.antt =====
-- Lists: membership by recursion, Boolean filters, and lengths in native numbers.
use Prim.Native.Nat.{ℕ, suc, ◌+◌}
use Prim.Native.String.{String}
use mathlib.Core.Path.{◌≡◌, refl, ap}
use mathlib.Core.Logic.{◌⊎◌, inl, inr}
use mathlib.Core.Bool.{Bool, true, false, ◌||◌}
use mathlib.Core.List.{List, [], ◌∷◌, ◌++◌, map}
use native.Mathlib.Omega.{arith}
use text.Mathlib.Text.{◌==◌}
use invoices_codex.Prelude.Tests.{if◌then◌else◌, Bool-cases}

module _ {A : Type 0} where
  abbrev pub length : List A → ℕ
  length [] = 0
  length (x ∷ xs) = suc (length xs)

  -- A value that stands in a list.
  abbrev pub In : A → List A → Type 0
  In a [] = ⊥
  In a (x ∷ xs) = (a ≡ x) ⊎ In a xs

  -- A predicate that every value of a list meets.
  abbrev pub All : (A → Type 0) → List A → Type 0
  All P [] = Unit
  All P (x ∷ xs) = P x × All P xs

  unfoldable pub filter : (A → Bool) → List A → List A
  filter p [] = []
  filter p (x ∷ xs) = let rest = filter p xs in if p x then x ∷ rest else rest

  -- The rows that a `delete()` under a condition leaves.
  unfoldable pub delete_where : (A → Bool) → List A → List A
  delete_where p [] = []
  delete_where p (x ∷ xs) = let rest = delete_where p xs in if p x then rest else x ∷ rest

  -- A row written back in place of the row that has its key.
  unfoldable pub save : (A → String) → A → List A → List A
  save key a [] = []
  save key a (x ∷ xs) = let rest = save key a xs in if key x == key a then a ∷ rest else x ∷ rest

  pub length-append : (xs ys : List A) → length (xs ++ ys) ≡ length xs + length ys
  length-append [] ys = omega arith
  length-append (x ∷ xs) ys = omega (arith, length-append xs ys)

-- `text in texts`
abbrev pub contains : String → List String → Bool
contains k [] = false
contains k (x ∷ xs) = k == x || contains k xs

-- To split on a computed list.
pub List-cases {ℓ} :
    {A : Type ℓ} (xs : List A) → (xs ≡ []) ⊎ ((x : A) × ((rest : List A) × (xs ≡ x ∷ rest)))
List-cases [] = inl refl
List-cases (x ∷ xs) = inr (x, (xs, refl))

pub length-map : {A B : Type 0} (f : A → B) (xs : List A) → length (map f xs) ≡ length xs
length-map f [] = refl
length-map f (x ∷ xs) = ap suc (length-map f xs)

-- What a selection holds, and all of it.
pub filter_sound :
    {A : Type 0} (p : A → Bool) (rows : List A) (a : A)
    → In a (filter p rows)
    → In a rows × (p a ≡ true)
unfolding filter
filter_sound p [] a h = absurd h
filter_sound p (x ∷ xs) a h = elim (Bool-cases (p x)) [
  | inr miss ↦ let i = filter_sound p xs a (rw miss at h) in (inr i.0, i.1)
  | inl hit ↦
      let h' : (a ≡ x) ⊎ In a (filter p xs) = rw hit at h in
      elim h' [
        | inl e ↦ (inl e, rw e hit)
        | inr later ↦ let i = filter_sound p xs a later in (inr i.0, i.1)
      ]
]

pub filter_complete :
    {A : Type 0} (p : A → Bool) (rows : List A) (a : A)
    → In a rows
    → p a ≡ true
    → In a (filter p rows)
unfolding filter
filter_complete p [] a i h = absurd i
filter_complete p (x ∷ xs) a (inl e) h = let hit : p x ≡ true = rw (← e) h in rw hit (inl e)
filter_complete p (x ∷ xs) a (inr i) h = elim (Bool-cases (p x)) [
  | inl hit ↦ rw hit (inr (filter_complete p xs a i h))
  | inr miss ↦ rw miss (filter_complete p xs a i h)
]

-- Laws of append.
pub map-append :
    {A B : Type 0} (f : A → B) (xs ys : List A) → map f (xs ++ ys) ≡ map f xs ++ map f ys
map-append f [] ys = refl
map-append f (x ∷ xs) ys = ap (λ zs. f x ∷ zs) (map-append f xs ys)

pub append_assoc : {A : Type 0} (xs ys zs : List A) → (xs ++ ys) ++ zs ≡ xs ++ (ys ++ zs)
append_assoc [] ys zs = refl
append_assoc (x ∷ xs) ys zs = ap (λ l. x ∷ l) (append_assoc xs ys zs)

pub append_nil : {A : Type 0} (xs : List A) → xs ++ [] ≡ xs
append_nil [] = refl
append_nil (x ∷ xs) = ap (λ l. x ∷ l) (append_nil xs)

pub All-append :
    {A : Type 0} (P : A → Type 0) (xs ys : List A) → All P xs → All P ys → All P (xs ++ ys)
All-append P [] ys hx hy = hy
All-append P (x ∷ xs) ys hx hy = (hx.0, All-append P xs ys hx.1 hy)

pub All-map :
    {A : Type 0} (P Q : A → Type 0) (f : (a : A) → P a → Q a) (xs : List A) → All P xs → All Q xs
All-map P Q f [] h = tt
All-map P Q f (x ∷ xs) h = (f x h.0, All-map P Q f xs h.1)
