-- ===== src/Reconcile.antt =====
-- internal/application/reconciliation.go
use wager_service.Base.{ℕ, Bool}
use wager_service.Ids.{Uuid}
use wager_service.Money.{Money, from_minor_units, subtract, is_zero}
use wager_service.Ports.{M, Ports, pure, lift, ◌>>=◌}

pub record ReconciliationResult : Type 0 where
  pub wallet_id : Uuid
  pub stored_balance : Money
  pub calculated_balance : Money
  pub difference : Money
  pub consistent : Bool
  pub checked_entries : ℕ

module _ {S : Type 0} (P : Ports S) where
  unfoldable pub execute_body : Uuid → M S ReconciliationResult
  execute_body wallet_id = do
    w ← P.wallets.find_by_id wallet_id
    sum ← P.ledgers.sum_by_wallet wallet_id
    calculated ← lift (from_minor_units sum.minor_units sum.currency)
    difference ← lift (subtract w.balance calculated)
    pure (record {
      wallet_id = wallet_id;
      stored_balance = w.balance;
      calculated_balance = calculated;
      difference = difference;
      consistent = is_zero difference;
      checked_entries = sum.count;
    })

  unfoldable pub execute : Uuid → M S ReconciliationResult
  execute wallet_id = P.within_tx (execute_body wallet_id)
