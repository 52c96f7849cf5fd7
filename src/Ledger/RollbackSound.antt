-- ===== src/Ledger/RollbackSound.antt =====
-- rollback_from_height of minotari/src/scan/reorg.rs: the tables and the books together.
use minotari_cli.Base.{Bool-cases, List, Option, [], inl, inr, refl, update_where, ℕ, ◌∷◌}
use minotari_cli.Db.Inputs.{delete_input, input_from_height}
use minotari_cli.Db.Outputs.{delete_output, output_from_height}
use minotari_cli.Db.Tables.{Db, InputRow}
use minotari_cli.Db.Webhooks.{WebhookTriggerConfig}
use minotari_cli.Ledger.Rollback.{rollback_from_height-IsBalanced}
use minotari_cli.Ledger.RolledBack.{rollback_from_height-rows}
use minotari_cli.Ledger.Sound.{AreBelow, AreSound-update, IsConsistent, Keeps}
use minotari_cli.Scan.Reorg.{rollback_from_height}

AreBelow-update :
    (n a h now : ℕ) (is : List InputRow)
    → AreBelow n is
    → AreBelow n (update_where (input_from_height a h) (delete_input h now) is)
unfolding delete_input
AreBelow-update n a h now [] s = tt
AreBelow-update n a h now (i ∷ is) (lt, s) = elim (Bool-cases (input_from_height a h i)) [
  | inl y ↦ rw y (lt, AreBelow-update n a h now is s)
  | inr y ↦ rw y (lt, AreBelow-update n a h now is s)
]

delete_output-Keeps : (h now : ℕ) → Keeps (delete_output h now)
unfolding delete_output
delete_output-Keeps h now o = (refl, refl, refl)

-- Rolling back account `a` from a height keeps the database consistent: the ids, values and
-- references of its tables stay sound and the books of every account `b` balance, what the deleted
-- outputs and inputs stood for being booked back in full.
pub rollback_from_height-IsConsistent :
    (b now a h : ℕ) (webhook : Option WebhookTriggerConfig) (db : Db)
    → IsConsistent b db
    → IsConsistent b (rollback_from_height now a h webhook db).1
rollback_from_height-IsConsistent b now a h webhook db c =
    let (outs, ins, _, _, next) = rollback_from_height-rows now a h webhook db in
    record {
      sound =
          rw (outs, ins, next)
            (
              AreSound-update db.next_output_id (output_from_height a h) (delete_output h now)
                  db.outputs (delete_output-Keeps h now) c.sound.0,
              AreBelow-update db.next_output_id a h now db.inputs c.sound.1,
            );
      balanced = rollback_from_height-IsBalanced b now a h webhook db c.balanced;
    }
