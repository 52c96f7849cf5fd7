-- ===== src/Locks/Locking.antt =====
-- The loop that locks outputs (minotari/src/transactions/fund_locker.rs), row by row.
use minotari_cli.Models.OutputStatus
use minotari_cli.Base.{
  ==_refl, All, Bool, Bool-cases, List, Option, [], any, ap, arith, false, if◌then◌else◌, inl, inr,
  is_none, none, not, refl, some, sym, true, update_where, ℕ, ◌&&◌, ◌==◌, ◌||◌, ◌∙◌, ◌∷◌, ◌≡◌,
}
use minotari_cli.Db.Outputs.{
  DbWalletOutput, is_locked_by, lock_output, row_locked, row_unlocked, unlock_outputs_for_request,
}
use minotari_cli.Db.Tables.{Db, OutputRow}
use minotari_cli.Funds.Locker.{lock_all}
use minotari_cli.Models.OutputStatus.{OutputStatus}

abbrev pub is_unspent : OutputRow → Bool
is_unspent o = OutputStatus.eqb o.status OutputStatus.unspent

-- an unspent output that is among the selected ones
abbrev pub is_selected : List DbWalletOutput → OutputRow → Bool
is_selected us o = is_unspent o && any (λ u. o.id == u.id) us

none_selected :
    (os : List OutputRow) (g : OutputRow → OutputRow) → update_where (is_selected []) g os ≡ os
none_selected [] g = refl
none_selected (o ∷ os) g = elim (Bool-cases (is_unspent o)) [
  | inl y ↦ rw (y, none_selected os g) refl
  | inr n ↦ rw (n, none_selected os g) refl
]

lock-row :
    (request until : ℕ) (u : DbWalletOutput) (us : List DbWalletOutput) (o : OutputRow)
    → (let o' = if (o.id == u.id) && is_unspent o then row_locked request until o else o in
        if is_selected us o' then row_locked request until o' else o')
      ≡ (if is_selected (u ∷ us) o then row_locked request until o else o)
unfolding row_locked
lock-row request until u us o = elim (Bool-cases (o.id == u.id)) [
  | inr e ↦ rw e refl
  | inl e ↦ elim (Bool-cases (is_unspent o)) [ inl y ↦ rw (e, y) refl | inr n ↦ rw (e, n, n) refl ]
]

lock-rows :
    (request until : ℕ) (u : DbWalletOutput) (us : List DbWalletOutput) (os : List OutputRow)
    → update_where
        (is_selected us)
        (row_locked request until)
        (update_where (λ o. (o.id == u.id) && is_unspent o) (row_locked request until) os)
      ≡ update_where (is_selected (u ∷ us)) (row_locked request until) os
lock-rows request until u us [] = refl
lock-rows request until u us (o ∷ os) =
    let f = row_locked request until in
    let once = update_where (λ o. (o.id == u.id) && is_unspent o) f os in
    ap (λ x. x ∷ update_where (is_selected us) f once) (lock-row request until u us o)
    ∙ ap (λ xs. (if is_selected (u ∷ us) o then f o else o) ∷ xs) (lock-rows request until u us os)

-- The loop that locks the selected outputs one by one locks exactly the unspent ones among them, for
-- the request and until the time given, and leaves every other output as it is.
pub lock_all-rows :
    (request until : ℕ) (us : List DbWalletOutput) (db : Db)
    → (lock_all request until us db).outputs
      ≡ update_where (is_selected us) (row_locked request until) db.outputs
unfolding lock_all lock_output
lock_all-rows request until [] db = sym (none_selected db.outputs (row_locked request until))
lock_all-rows request until (u ∷ us) db =
    lock_all-rows request until us (lock_output u.id request until db)
    ∙ lock-rows request until u us db.outputs

-- a lock that is taken back leaves no trace on an unspent output
abbrev has_clean_lock : OutputRow → Bool
has_clean_lock o = not (is_unspent o) || (is_none o.locked_at && is_none o.locked_by_request_id)

abbrev AreClean : ℕ → List OutputRow → Type 0
AreClean request os = All (λ o. (has_clean_lock o ≡ true) × (is_locked_by request o ≡ false)) os

unspent_of :
    (s : OutputStatus) → OutputStatus.eqb s OutputStatus.unspent ≡ true → s ≡ OutputStatus.unspent
unspent_of OutputStatus.unspent h = refl
unspent_of OutputStatus.locked h = cc
unspent_of OutputStatus.spent h = cc

restore-row : (o : OutputRow) → is_unspent o ≡ true → has_clean_lock o ≡ true → row_unlocked o ≡ o
unfolding row_unlocked
restore-row o u c =
    ap (λ s. record o { status = s; locked_at = none; locked_by_request_id = none })
      (sym (unspent_of o.status u))
    ∙ ap (λ t. record o { locked_at = t; locked_by_request_id = none })
        (sym (none_of o.locked_at (ground (arith, u, c))))
    ∙ ap (λ r. record o { locked_by_request_id = r })
        (sym (none_of o.locked_by_request_id (ground (arith, u, c))))
  where
    none_of : (t : Option ℕ) → is_none t ≡ true → t ≡ none
    none_of none h = refl
    none_of (some _) h = cc

unlock-row :
    (request until : ℕ) (us : List DbWalletOutput) (o : OutputRow)
    → has_clean_lock o ≡ true
    → is_locked_by request o ≡ false
    → (let o' = if is_selected us o then row_locked request until o else o in
        if is_locked_by request o' then row_unlocked o' else o')
      ≡ o
unfolding row_locked row_unlocked
unlock-row request until us o c f = elim (Bool-cases (is_selected us o)) [
  | inr n ↦ rw (n, f) refl
  | inl y ↦ rw (y, ==_refl request) (restore-row o (ground (arith, y)) c)
]

unlock-rows :
    (request until : ℕ) (us : List DbWalletOutput) (os : List OutputRow)
    → AreClean request os
    → update_where
        (is_locked_by request)
        row_unlocked
        (update_where (is_selected us) (row_locked request until) os)
      ≡ os
unlock-rows request until us [] h = refl
unlock-rows request until us (o ∷ os) ((c, f), h) =
    let locked = update_where (is_selected us) (row_locked request until) os in
    ap (λ x. x ∷ update_where (is_locked_by request) row_unlocked locked)
      (unlock-row request until us o c f)
    ∙ ap (λ xs. o ∷ xs) (unlock-rows request until us os h)

-- Unlocking the outputs of a request undoes the loop that locked outputs for it, exactly, where no
-- output was locked for the request before and no unspent output carried a stale lock.
pub unlock-lock_all :
    (request until : ℕ) (us : List DbWalletOutput) (db : Db)
    → AreClean request db.outputs
    → (unlock_outputs_for_request request (lock_all request until us db)).outputs ≡ db.outputs
unfolding unlock_outputs_for_request
unlock-lock_all request until us db h =
    ap (update_where (is_locked_by request) row_unlocked) (lock_all-rows request until us db)
    ∙ unlock-rows request until us db.outputs h
