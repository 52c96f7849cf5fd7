-- ===== src/Models/PendingTransactionStatus.antt =====
-- Where a pending transaction stands (models/pending_transactions_status.rs).
use text.Mathlib.Text.{◌==◌ as str_eq}
use text.Mathlib.TextEquality.{eq_iff}
use minotari_cli.Base.{
  Bool, Option, String, arith, false, if◌then◌else◌, none, refl, some, true, ◌≡◌,
}

pub data PendingTransactionStatus : Type 0 where
  pending completed cancelled expired : PendingTransactionStatus

-- `status = :status` in a WHERE clause.
abbrev pub eqb : PendingTransactionStatus → PendingTransactionStatus → Bool
eqb pending pending = true
eqb completed completed = true
eqb cancelled cancelled = true
eqb expired expired = true
eqb _ _ = false

-- `Display`: the text of the column.
unfoldable pub to_string : PendingTransactionStatus → String
to_string pending = "PENDING"
to_string completed = "COMPLETED"
to_string cancelled = "CANCELLED"
to_string expired = "EXPIRED"

-- `FromStr`; `none` is its error.
unfoldable pub from_str : String → Option PendingTransactionStatus
from_str s =
    if str_eq s "PENDING"
    then some pending
    else (if str_eq s "COMPLETED"
        then some completed
        else (if str_eq s "CANCELLED"
            then some cancelled
            else (if str_eq s "EXPIRED" then some expired else (none))))

from_str-to_string : (t : PendingTransactionStatus) → from_str (to_string t) ≡ some t
unfolding from_str to_string
from_str-to_string pending = refl
from_str-to_string completed = refl
from_str-to_string cancelled = refl
from_str-to_string expired = refl

to_string-from_str :
    (s : String) (t : PendingTransactionStatus) → from_str s ≡ some t → to_string t ≡ s
unfolding from_str to_string
to_string-from_str s t h =
    ground
      (arith, eq_iff s "PENDING", eq_iff s "COMPLETED", eq_iff s "CANCELLED", eq_iff s "EXPIRED")

-- A column's text reads back as a status exactly when it is that status's text.
pub pending_from_str_iff :
    (s : String) (t : PendingTransactionStatus)
    → (from_str s ≡ some t → to_string t ≡ s) × (to_string t ≡ s → from_str s ≡ some t)
pending_from_str_iff s t = (to_string-from_str s t, λ e. rw (← e) (from_str-to_string t))
