-- ===== src/Models/WebhookStatus.antt =====
-- Where the delivery of a webhook stands (webhooks/models.rs).
use text.Mathlib.Text.{◌==◌ as str_eq}
use text.Mathlib.TextEquality.{eq_iff}
use minotari_cli.Base.{
  Bool, Option, String, arith, false, if◌then◌else◌, none, refl, some, true, ◌≡◌,
}

pub data WebhookStatus : Type 0 where
  pending success failed permanent_failure : WebhookStatus

-- status IN ('pending', 'failed')
abbrev pub is_retryable : WebhookStatus → Bool
is_retryable pending = true
is_retryable success = false
is_retryable failed = true
is_retryable permanent_failure = false

-- `Display`: the text of the column.
unfoldable pub to_string : WebhookStatus → String
to_string pending = "pending"
to_string success = "success"
to_string failed = "failed"
to_string permanent_failure = "permanent_failure"

-- `FromStr`; `none` is its error.
unfoldable pub from_str : String → Option WebhookStatus
from_str s =
    if str_eq s "pending"
    then some pending
    else (if str_eq s "success"
        then some success
        else (if str_eq s "failed"
            then some failed
            else (if str_eq s "permanent_failure" then some permanent_failure else (none))))

from_str-to_string : (t : WebhookStatus) → from_str (to_string t) ≡ some t
unfolding from_str to_string
from_str-to_string pending = refl
from_str-to_string success = refl
from_str-to_string failed = refl
from_str-to_string permanent_failure = refl

to_string-from_str : (s : String) (t : WebhookStatus) → from_str s ≡ some t → to_string t ≡ s
unfolding from_str to_string
to_string-from_str s t h =
    ground (
      arith,
      eq_iff s "pending",
      eq_iff s "success",
      eq_iff s "failed",
      eq_iff s "permanent_failure",
    )

-- A column's text reads back as a status exactly when it is that status's text.
pub webhook_from_str_iff :
    (s : String) (t : WebhookStatus)
    → (from_str s ≡ some t → to_string t ≡ s) × (to_string t ≡ s → from_str s ≡ some t)
webhook_from_str_iff s t = (to_string-from_str s t, λ e. rw (← e) (from_str-to_string t))
