-- ===== src/Db/ScannedTipBlocks.antt =====
-- db/scanned_tip_blocks.rs: the blocks that an account has scanned, for the detection of reorgs.
use minotari_cli.Base.{
  Bool, List, Option, [], any, delete_where, first, if◌then◌else◌, leb, ltb, not, order_desc,
  select, suc, ℕ, ◌%◌, ◌&&◌, ◌++◌, ◌-◌, ◌==◌, ◌∷◌,
}
use minotari_cli.Db.Tables.{Db, ScannedTipBlock}

abbrev recent_blocks_to_keep : ℕ
recent_blocks_to_keep = 1000

abbrev old_blocks_pruning_interval : ℕ
old_blocks_pruning_interval = 500

unfoldable pub get_scanned_tip_blocks_by_account : ℕ → Db → List ScannedTipBlock
get_scanned_tip_blocks_by_account account db =
    order_desc (λ b. b.height) (select (λ b. b.account_id == account) db.scanned_tip_blocks)

unfoldable pub get_latest_scanned_tip_block_by_account : ℕ → Db → Option ScannedTipBlock
get_latest_scanned_tip_block_by_account account db =
    first (order_desc (λ b. b.height) (select (λ b. b.account_id == account) db.scanned_tip_blocks))

-- the unique index on (account_id, height, hash)
abbrev pub same_block : ℕ → ℕ → ℕ → ScannedTipBlock → Bool
same_block account height hash b =
    (b.account_id == account) && (b.height == height) && (b.hash == hash)

-- INSERT OR IGNORE
unfoldable pub insert_scanned_tip_block : ℕ → ℕ → ℕ → Db → Db
insert_scanned_tip_block account height hash db =
    if any (same_block account height hash) db.scanned_tip_blocks then db else record db {
      scanned_tip_blocks =
          db.scanned_tip_blocks
          ++ record {
            id = db.next_tip_block_id;
            account_id = account;
            height = height;
            hash = hash;
          }
            ∷ [];
      next_tip_block_id = suc db.next_tip_block_id;
    }

abbrev pub tip_from_height : ℕ → ℕ → ScannedTipBlock → Bool
tip_from_height account height b = (b.account_id == account) && leb height b.height

unfoldable pub delete_scanned_tip_blocks_from_height : ℕ → ℕ → Db → Db
delete_scanned_tip_blocks_from_height account height db = record db {
  scanned_tip_blocks = delete_where (tip_from_height account height) db.scanned_tip_blocks;
}

-- an old block off the pruning interval
abbrev is_prunable : ℕ → ℕ → ScannedTipBlock → Bool
is_prunable account min_height b =
    (b.account_id == account)
    && ltb b.height min_height
    && not ((b.height % old_blocks_pruning_interval) == 0)

unfoldable pub prune_scanned_tip_blocks : ℕ → ℕ → Db → Db
prune_scanned_tip_blocks account current_tip_height db = record db {
  scanned_tip_blocks =
      delete_where (is_prunable account (current_tip_height - recent_blocks_to_keep))
        db.scanned_tip_blocks;
}
