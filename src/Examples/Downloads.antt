-- ===== src/Examples/Downloads.antt =====
-- A node that serves two pages of a header and then another header, and a request that is retried.
use minotari_cli.Base.{
  All, [], arith, false, if◌then◌else◌, ltb, network, none, ok, refl, some, ℕ, ◌*◌, ◌+◌, ◌-◌, ◌==◌,
  ◌∷◌, ◌≡◌,
}
use minotari_cli.Scanner.Attempts.{EndsWithin, retry-EndsWithin}
use minotari_cli.Scanner.Download.{
  BlockUtxoInfo, Downloads, InProgressScan, ScanConfig, end_of, fetch_block_range, is_past,
  new_scan, next_request, passes_end,
}
use minotari_cli.Scanner.Progress.{IsNext, fetch_block_range-IsNext}
use minotari_cli.Scanner.Retry.{Attempt, RetryLimits, answered, refused, retry, times_out}

abbrev sync : Downloads
sync = record {
  get_header_by_height = λ h. ok (some (100 + h));
  sync_utxos_by_block = λ header limit page spent. ok (record {
    blocks = record { height = 10 + page; contents = 0 } ∷ [];
    has_next_page = page == 0;
    next_header_to_scan = some (header + 1);
  });
}

abbrev wanted : ScanConfig
wanted = record {
  start_height = 10;
  end_height = some 20;
  batch_size = none;
  exclude_spent = false;
}

-- the state after the first page
abbrev second_page : InProgressScan
second_page = record { config = some wanted; header = some 110; current_page = 1 }

fetch_block_range-IsNext_example :
    (some wanted ≡ some wanted)
    × IsNext 110 0 second_page
    × All
        (λ (b : BlockUtxoInfo). is_past (end_of (new_scan wanted)) b.height ≡ false)
        (record { height = 10; contents = 0 } ∷ [])
unfolding fetch_block_range next_request passes_end
fetch_block_range-IsNext_example =
    fetch_block_range-IsNext sync (new_scan wanted)
      (record { config = some wanted; header = some 110; current_page = 0 }) second_page 110
      (record { height = 10; contents = 0 } ∷ []) refl refl

abbrev limits : RetryLimits
limits = record { max_error_retries = 3; error_backoff_base_secs = 2 }

-- two failures and a timeout before the answer
abbrev tries : ℕ → Attempt ℕ
tries k = if k == 1 then times_out else (if ltb k 3 then refused network else (answered 7))

retry-EndsWithin_example : EndsWithin (61 * 3) (retry limits tries (2 * 3 - 1))
retry-EndsWithin_example = retry-EndsWithin limits tries (omega arith) (omega arith)
