-- ===== src/Db/Events.antt =====
-- db/events.rs: the wallet's event log.
use minotari_cli.Base.{[], suc, ℕ, ◌++◌, ◌∷◌}
use minotari_cli.Db.Tables.{Db}
use minotari_cli.Models.{WalletEvent}

unfoldable pub insert_wallet_event : ℕ → WalletEvent → Db → ℕ × Db
insert_wallet_event account event db = (
  db.next_event_id,
  record db {
    events =
        db.events
        ++ record { id = db.next_event_id; account_id = account; event_type = event.event_type }
          ∷ [];
    next_event_id = suc db.next_event_id;
  },
)
