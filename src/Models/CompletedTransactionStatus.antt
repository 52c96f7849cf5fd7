-- ===== src/Models/CompletedTransactionStatus.antt =====
-- Where a completed transaction stands (db/completed_transactions.rs).
use text.Mathlib.Text.{◌==◌ as str_eq}
use text.Mathlib.TextEquality.{eq_iff}
use minotari_cli.Base.{
  Bool, Option, String, arith, false, if◌then◌else◌, none, refl, some, true, ◌≡◌,
}

pub data CompletedTransactionStatus : Type 0 where
  completed broadcast mined_unconfirmed mined_confirmed rejected canceled :
      CompletedTransactionStatus

-- `status = :status` in a WHERE clause.
abbrev pub eqb : CompletedTransactionStatus → CompletedTransactionStatus → Bool
eqb completed completed = true
eqb broadcast broadcast = true
eqb mined_unconfirmed mined_unconfirmed = true
eqb mined_confirmed mined_confirmed = true
eqb rejected rejected = true
eqb canceled canceled = true
eqb _ _ = false

-- `Display`: the text of the column.
unfoldable pub to_string : CompletedTransactionStatus → String
to_string completed = "completed"
to_string broadcast = "broadcast"
to_string mined_unconfirmed = "mined_unconfirmed"
to_string mined_confirmed = "mined_confirmed"
to_string rejected = "rejected"
to_string canceled = "canceled"

-- `FromStr`; `none` is its error.
unfoldable pub from_str : String → Option CompletedTransactionStatus
from_str s =
    if str_eq s "completed"
    then some completed
    else (if str_eq s "broadcast"
        then some broadcast
        else (if str_eq s "mined_unconfirmed"
            then some mined_unconfirmed
            else (if str_eq s "mined_confirmed"
                then some mined_confirmed
                else (if str_eq s "rejected"
                    then some rejected
                    else (if str_eq s "canceled" then some canceled else (none))))))

from_str-to_string : (t : CompletedTransactionStatus) → from_str (to_string t) ≡ some t
unfolding from_str to_string
from_str-to_string completed = refl
from_str-to_string broadcast = refl
from_str-to_string mined_unconfirmed = refl
from_str-to_string mined_confirmed = refl
from_str-to_string rejected = refl
from_str-to_string canceled = refl

to_string-from_str :
    (s : String) (t : CompletedTransactionStatus) → from_str s ≡ some t → to_string t ≡ s
unfolding from_str to_string
to_string-from_str s t h = ground (
  arith,
  eq_iff s "completed",
  eq_iff s "broadcast",
  eq_iff s "mined_unconfirmed",
  eq_iff s "mined_confirmed",
  eq_iff s "rejected",
  eq_iff s "canceled",
)

-- A column's text reads back as a status exactly when it is that status's text.
pub completed_from_str_iff :
    (s : String) (t : CompletedTransactionStatus)
    → (from_str s ≡ some t → to_string t ≡ s) × (to_string t ≡ s → from_str s ≡ some t)
completed_from_str_iff s t = (to_string-from_str s t, λ e. rw (← e) (from_str-to_string t))
