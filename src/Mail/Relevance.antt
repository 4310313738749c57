-- ===== src/Mail/Relevance.antt =====
-- The keyword tests of domain/relevance.py, with the lists of domain/constants.py; Hebrew letters are written by their
-- numbers.
use Prim.Native.String.{String}
use text.Mathlib.Text.{starts_with}
use invoices_codex.Prelude.{Bool, false, ◌||◌, List, [], ◌∷◌, joined, if◌then◌else◌, ◌==◌}

-- `part in text`
unfoldable pub has_part : String → String → Bool
has_part String.[] part = part == ""
has_part (String.◌∷◌ c s) part =
    let rest = has_part s part in starts_with (String.◌∷◌ c s) part || rest

-- `any(k in text for k in terms)`
unfoldable pub has_any : String → List String → Bool
unfolding has_part
has_any text [] = false
has_any text (k ∷ ks) = has_part text k || has_any text ks

abbrev pub heb_pos : List String
heb_pos =
    "\u{5d7}\u{5e9}\u{5d1}\u{5d5}\u{5e0}\u{5d9}\u{5ea}"
    ∷ "\u{5d7}\u{5e9}\u{5d1}\u{5d5}\u{5e0}\u{5d9}\u{5ea} \u{5de}\u{5e1}"
    ∷ "\u{5d7}\u{5e9}\u{5d1}\u{5d5}\u{5e0}\u{5d9}\u{5ea} \u{5de}\u{5e1} \u{5e7}\u{5d1}\u{5dc}\u{5d4}"
    ∷ "\u{5e7}\u{5d1}\u{5dc}\u{5d4}" ∷ "\u{5d0}\u{5e8}\u{5e0}\u{5d5}\u{5e0}\u{5d4}"
    ∷ "\u{5e9}\u{5d5}\u{5d1}\u{5e8} \u{5ea}\u{5e9}\u{5dc}\u{5d5}\u{5dd}"
    ∷ "\u{5d3}\u{5e8}\u{5d9}\u{5e9}\u{5ea} \u{5ea}\u{5e9}\u{5dc}\u{5d5}\u{5dd}"
    ∷ "\u{5d0}\u{5d2}\u{5e8}\u{5ea}" ∷ "\u{5d4}\u{5d9}\u{5d8}\u{5dc}"
    ∷ "\u{5de}\u{5e1}\u{5e4}\u{5e8} \u{5e0}\u{5db}\u{5e1}" ∷ []

abbrev pub en_pos : List String
en_pos = "invoice" ∷ "tax invoice" ∷ "receipt" ∷ "bill" ∷ []

abbrev pub heb_neg : List String
heb_neg =
    "\u{5ea}\u{5dc}\u{5d5}\u{5e9} \u{5e9}\u{5db}\u{5e8}" ∷ "\u{5ea}\u{5dc}\u{5d5}\u{5e9}"
    ∷ "\u{5de}\u{5e9}\u{5db}\u{5d5}\u{5e8}\u{5ea}" ∷ "\u{5e9}\u{5db}\u{5e8}"
    ∷ "\u{5d1}\u{5e8}\u{5d5}\u{5d8}\u{5d5}" ∷ "\u{5e0}\u{5d8}\u{5d5}"
    ∷ "\u{5d4}\u{5e4}\u{5e8}\u{5e9}\u{5d5}\u{5ea} \u{5e4}\u{5e0}\u{5e1}\u{5d9}\u{5d4}"
    ∷ "\u{5e9}\u{5e2}\u{5d5}\u{5ea} \u{5e0}\u{5d5}\u{5e1}\u{5e4}\u{5d5}\u{5ea}"
    ∷ "\u{5e4}\u{5e7}\u{5d5}\u{5d3}\u{5d5}\u{5ea} \u{5d9}\u{5d5}\u{5de}\u{5df}"
    ∷ "\u{5d3}\u{5d5}\u{5d7} \u{5e1}\u{5d9}\u{5db}\u{5d5}\u{5dd} \u{5e1}\u{5dc}\u{5d9}\u{5e7}\u{5d4}"
    ∷ "\u{5d3}\u{5d5}\u{5d7} \u{5e1}\u{5dc}\u{5d9}\u{5e7}\u{5d4} \u{5de}\u{5e4}\u{5d5}\u{5e8}\u{5d8}"
    ∷ "\u{5ea}\u{5dc}\u{5d5}\u{5e9} \u{5e9}\u{5db}\u{5e8} \u{5dc}\u{5d7}\u{5d5}\u{5d3}\u{5e9}"
    ∷ "\u{5d8}\u{5d5}\u{5e4}\u{5e1} 161"
    ∷ "\u{5ea}\u{5de}\u{5d7}\u{5d9}\u{5e8} \u{5d7}\u{5d5}\u{5d3}\u{5e9}\u{5d9}" ∷ []

abbrev pub en_neg : List String
en_neg =
    "payslip" ∷ "pay slip" ∷ "salary" ∷ "payroll" ∷ "net pay" ∷ "gross pay" ∷ "employee"
    ∷ "employer" ∷ []

abbrev pub heb_municipal : List String
heb_municipal =
    "\u{5d0}\u{5e8}\u{5e0}\u{5d5}\u{5e0}\u{5d4}" ∷ "\u{5e2}\u{5d9}\u{5e8}\u{5d9}\u{5d9}\u{5ea}"
    ∷ "\u{5e2}\u{5d9}\u{5e8}\u{5d9}\u{5d4}"
    ∷ "\u{5e9}\u{5d5}\u{5d1}\u{5e8} \u{5ea}\u{5e9}\u{5dc}\u{5d5}\u{5dd}"
    ∷ "\u{5e8}\u{5e9}\u{5d5}\u{5ea} \u{5de}\u{5e7}\u{5d5}\u{5de}\u{5d9}\u{5ea}"
    ∷ "\u{5ea}\u{5d0}\u{5d2}\u{5d9}\u{5d3} \u{5de}\u{5d9}\u{5dd}" ∷ "\u{5de}\u{5d9}\u{5ea}\u{5d1}"
    ∷ []

-- `text.lower()`
module _ (lower : String → String) where
  unfoldable pub is_municipal_text : String → Bool
  unfolding has_any
  is_municipal_text text = has_any text heb_municipal

  unfoldable pub body_has_negative : String → Bool
  unfolding has_any
  body_has_negative text = has_any text heb_neg || has_any (lower text) en_neg

  unfoldable pub body_has_positive : String → Bool
  unfolding has_any
  body_has_positive text = has_any text heb_pos || has_any (lower text) en_pos

  unfoldable pub should_consider_message : String → String → Bool
  should_consider_message subject preview =
      let text = joined subject (joined " " preview) in
      if body_has_negative text then false else body_has_positive text || is_municipal_text text
