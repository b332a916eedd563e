-- ===== src/Process/Matching.antt =====
-- internal/application/process_wager_transaction.go: what `validateReversalReference` accepts.
use wager_service.Base.{
  arith, ◌≡◌, Bool, true, false, not, ◌&&◌, none, ◌==◌, ◌↔◌, ◌⊎◌, str_eq, eq_iff, eq_refl,
}
use wager_service.Base.Int.{eq_of_parts}
use wager_service.Money.{equals}
use wager_service.Wager.{Transaction, Kind, bet, win, refund, no_kind, processed, status_eq}
use wager_service.Process.Request.{Command}
use wager_service.Process.Reversal.{validate_reversal_reference, wrong_kind}

-- The reference belongs to the same provider, player, wallet and round, is processed, and has exactly the
-- amount of the reversal.
pub record Matches (cmd : Command) (ref : Transaction) : Type 0 where
  pub status : ref.status ≡ processed
  pub provider : ref.provider_id ≡ cmd.provider_id
  pub player : ref.player_id ≡ cmd.player_id
  pub wallet : ref.wallet_id ≡ cmd.wallet_id
  pub round : ref.round_id ≡ cmd.round_id
  pub amount : ref.money ≡ cmd.amount

-- the tests behind those on the kinds
abbrev matching : Command → Transaction → Bool
matching cmd ref =
    status_eq ref.status processed
    && (str_eq ref.provider_id cmd.provider_id
        && ((ref.player_id == cmd.player_id)
            && ((ref.wallet_id == cmd.wallet_id)
                && (str_eq ref.round_id cmd.round_id && equals ref.money cmd.amount))))

validated :
    (cmd : Command) (ref : Transaction) (expected : Kind)
    → (validate_reversal_reference cmd ref expected ≡ none)
      ↔ ((not (wrong_kind expected ref.kind) && matching cmd ref) ≡ true)
unfolding validate_reversal_reference equals
validated cmd ref expected = ground arith

matching-Matches : (cmd : Command) (ref : Transaction) → matching cmd ref ≡ true → Matches cmd ref
unfolding equals
matching-Matches cmd ref h = record {
  status = ground arith;
  provider = ground (arith, eq_iff ref.provider_id cmd.provider_id);
  player = ground arith;
  wallet = ground arith;
  round = ground (arith, eq_iff ref.round_id cmd.round_id);
  amount = ground (
    arith,
    eq_iff ref.money.currency cmd.amount.currency,
    eq_of_parts ref.money.minor_units cmd.amount.minor_units,
  );
}

Matches-matching : (cmd : Command) (ref : Transaction) → Matches cmd ref → matching cmd ref ≡ true
unfolding equals
Matches-matching cmd ref m =
    rw (m.status, m.provider, m.player, m.wallet, m.round, m.amount)
      (ground (arith, eq_refl cmd.provider_id, eq_refl cmd.round_id, eq_refl cmd.amount.currency))

pub accepted-status :
    (cmd : Command) (ref : Transaction) (expected : Kind)
    → validate_reversal_reference cmd ref expected ≡ none
    → ref.status ≡ processed
accepted-status cmd ref expected v =
    let both = (validated cmd ref expected).0 v in (matching-Matches cmd ref (ground arith)).status

right_kind_bet : (kind : Kind) → (wrong_kind bet kind ≡ false) ↔ (kind ≡ bet)
right_kind_bet kind = ground arith

right_kind_any :
    (kind : Kind)
    → (wrong_kind no_kind kind ≡ false) ↔ ((kind ≡ bet) ⊎ ((kind ≡ win) ⊎ (kind ≡ refund)))
right_kind_any kind = ground arith

accepted :
    {K : Type 0} (cmd : Command) (ref : Transaction) (expected : Kind)
    → (wrong_kind expected ref.kind ≡ false) ↔ K
    → (validate_reversal_reference cmd ref expected ≡ none) ↔ (K × Matches cmd ref)
accepted cmd ref expected kinds = (
  λ v.
      let both = (validated cmd ref expected).0 v in
      (kinds.0 (ground arith), matching-Matches cmd ref (ground arith)),
  λ h. (validated cmd ref expected).1 (ground (arith, kinds.1 h.0, Matches-matching cmd ref h.1)),
)

-- `validateReversalReference` accepts the reference of a refund exactly when it is a bet, and that of a
-- rollback exactly when it is a bet, a win or a refund, and in both cases only one that is processed, has
-- the provider, player, wallet and round of the command, and exactly its amount and currency.
pub validate-Matches :
    (cmd : Command) (ref : Transaction)
    → ((validate_reversal_reference cmd ref bet ≡ none) ↔ ((ref.kind ≡ bet) × Matches cmd ref))
      × ((validate_reversal_reference cmd ref no_kind ≡ none)
          ↔ (((ref.kind ≡ bet) ⊎ ((ref.kind ≡ win) ⊎ (ref.kind ≡ refund))) × Matches cmd ref))
validate-Matches cmd ref = (
  accepted cmd ref bet (right_kind_bet ref.kind),
  accepted cmd ref no_kind (right_kind_any ref.kind),
)
