-- ===== src/OpenWallet.antt =====
-- internal/application/open_wallet.go
use wager_service.Base.{none, if◌then◌else◌}
use wager_service.Base.Int.{ℤ}
use wager_service.Ids.{Uuid, Time, is_nil}
use wager_service.Money
use wager_service.Money.{Money, is_positive}
use wager_service.Wallet
use wager_service.Wallet.{Wallet}
use wager_service.Wager.{Transaction, opening, new_opening}
use wager_service.Ledger
use wager_service.Ledger.{credit}
use wager_service.Events.{new_processed, new_balance_changed}
use wager_service.Ports.{M, Ports, pure, lift, ◌>>=◌, ◌>>◌}
use wager_service.Process.Outcome.{append_event}

pub record OpenWalletCommand : Type 0 where
  pub player_id : Uuid
  pub initial_balance : Money
  pub correlation_id : Uuid
  pub now : Time

pub record OpenWalletResult : Type 0 where
  pub wallet_id : Uuid
  pub balance : Money
  pub version : ℤ

module _ {S : Type 0} (P : Ports S) where
  unfoldable pub correlation_id : OpenWalletCommand → M S Uuid
  correlation_id cmd = if is_nil cmd.correlation_id then P.new_v7 else pure cmd.correlation_id

  unfoldable pub append_opening_events : Wallet → Transaction → OpenWalletCommand → M S (Unit {0})
  append_opening_events w opening_tx cmd = do
    correlation ← correlation_id cmd
    event_id ← P.new_v7
    append_event P
        (new_processed event_id correlation none
          (record {
            transaction_id = opening_tx.id;
            provider_id = "";
            external_transaction_id = "";
            wallet_id = w.id;
            player_id = w.player_id;
            kind = opening;
            money = cmd.initial_balance;
            resulting_balance = cmd.initial_balance;
            processed_at = cmd.now;
          })
          cmd.now)
        cmd.now
    zero ← lift (Money.zero cmd.initial_balance.currency)
    event_id' ← P.new_v7
    append_event P
        (new_balance_changed event_id' correlation none
          (record {
            wallet_id = w.id;
            transaction_id = opening_tx.id;
            direction = credit;
            money = cmd.initial_balance;
            balance_before = zero;
            balance_after = cmd.initial_balance;
            wallet_version = w.version;
          })
          cmd.now)
        cmd.now

  -- the block of `Execute` for a positive balance
  unfoldable pub record_opening : Wallet → OpenWalletCommand → M S (Unit {0})
  record_opening w cmd = do
    zero ← lift (Money.zero cmd.initial_balance.currency)
    opening_id ← P.new_v7
    opening_tx ← lift (new_opening opening_id w.id cmd.player_id cmd.initial_balance cmd.now)
    P.txs.create opening_tx
    entry_id ← P.new_v7
    entry ← lift (
        Ledger.new entry_id w.id opening_id credit cmd.initial_balance zero cmd.initial_balance
          cmd.now)
    P.ledgers.append entry
    append_opening_events w opening_tx cmd

  unfoldable pub execute_body : OpenWalletCommand → M S OpenWalletResult
  execute_body cmd = do
    wallet_id ← P.new_v7
    w ← lift (Wallet.new wallet_id cmd.player_id cmd.initial_balance cmd.now)
    P.wallets.create w
    if is_positive cmd.initial_balance then record_opening w cmd else pure tt
    pure (record { wallet_id = w.id; balance = w.balance; version = w.version })

  unfoldable pub execute : OpenWalletCommand → M S OpenWalletResult
  execute cmd = P.within_tx (execute_body cmd)
