-- ===== src/Models/OutputStatus.antt =====
-- Where an output stands (models/output_status.rs), and its text in the `status` column.
use text.Mathlib.Text.{◌==◌ as str_eq}
use text.Mathlib.TextEquality.{eq_iff}
use minotari_cli.Base.{
  Bool, Option, String, arith, false, if◌then◌else◌, none, refl, some, true, ◌≡◌,
}

pub data OutputStatus : Type 0 where
  unspent locked spent : OutputStatus

-- `status = :status` in a WHERE clause.
abbrev pub eqb : OutputStatus → OutputStatus → Bool
eqb unspent unspent = true
eqb locked locked = true
eqb spent spent = true
eqb _ _ = false

-- `Display`: the text of the column.
unfoldable pub to_string : OutputStatus → String
to_string unspent = "UNSPENT"
to_string locked = "LOCKED"
to_string spent = "SPENT"

-- `FromStr`; `none` is its error.
unfoldable pub from_str : String → Option OutputStatus
from_str s =
    if str_eq s "UNSPENT"
    then some unspent
    else (if str_eq s "LOCKED"
        then some locked
        else (if str_eq s "SPENT" then some spent else (none)))

from_str-to_string : (t : OutputStatus) → from_str (to_string t) ≡ some t
unfolding from_str to_string
from_str-to_string unspent = refl
from_str-to_string locked = refl
from_str-to_string spent = refl

to_string-from_str : (s : String) (t : OutputStatus) → from_str s ≡ some t → to_string t ≡ s
unfolding from_str to_string
to_string-from_str s t h = ground (arith, eq_iff s "UNSPENT", eq_iff s "LOCKED", eq_iff s "SPENT")

-- A column's text reads back as a status exactly when it is that status's text.
pub output_from_str_iff :
    (s : String) (t : OutputStatus)
    → (from_str s ≡ some t → to_string t ≡ s) × (to_string t ≡ s → from_str s ≡ some t)
output_from_str_iff s t = (to_string-from_str s t, λ e. rw (← e) (from_str-to_string t))
