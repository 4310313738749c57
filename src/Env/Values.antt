-- ===== src/Env/Values.antt =====
-- The JSON values that the service writes, and those that it reads back.
use invoices_codex.Prelude.{ℕ, String, Bool, Option, none, some, List, [], ◌∷◌, ◌==◌, if◌then◌else◌}

-- `other` is any value that the program hands on without a look inside.
pub data Json : Type 0 where
  null : Json
  text : String → Json
  num : ℕ → Json
  bool : Bool → Json
  texts : List String → Json
  other : String → Json

-- A `dict[str, object]`, in insertion order.
abbrev pub Dict : Type 0
Dict = List (String × Json)

-- What `json.loads` comes back with; `invalid` is `json.JSONDecodeError`.
pub data Loaded : Type 0 where
  object : Dict → Loaded
  array : List Json → Loaded
  scalar : Json → Loaded
  invalid : Loaded

-- `d.get(k)`
abbrev pub get : String → Dict → Option Json
get k [] = none
get k ((j, v) ∷ d) = if k == j then some v else get k d

-- `d[k] = v`
abbrev pub put : String → Json → Dict → Dict
put k v [] = (k, v) ∷ []
put k v ((j, w) ∷ d) = if k == j then (k, v) ∷ d else (j, w) ∷ put k v d

-- `d.pop(k, None)`
abbrev pub pop : String → Dict → Dict
pop k [] = []
pop k ((j, v) ∷ d) = let rest = pop k d in if k == j then rest else (j, v) ∷ rest

-- An optional text as a JSON value.
abbrev pub text_or_null : Option String → Json
text_or_null none = null
text_or_null (some s) = text s
