-- ===== src/Idempotency/Rows.antt =====
-- internal/infra/postgres/wager_transaction_repository.go: one row that is created and saved again.
use wager_service.Base.{
  arith, ◌≡◌, refl, ap, subst, sym, ◌∙◌, ◌==◌, Bool, true, false, ◌||◌, String, Option, none, some,
  List, [], ◌∷◌, ◌++◌, update, any, ==_refl,
}
use wager_service.Ids.{Uuid, Time, is_nil}
use wager_service.Errors.{ok, FailureCode}
use wager_service.Money.{Money}
use wager_service.Wager.{
  Transaction, Status, is_blank, pending, processed, rejected, pending_reference, mark_processed,
  mark_rejected, mark_pending_reference, attach_resolved_reference,
}
use wager_service.Postgres.Database.{TxRow}
use wager_service.Postgres.Transactions.{
  row_of, overwrite, has_id, has_idempotency_key, has_external_id,
}
use wager_service.Process.Request.{Command}

-- The transaction carries the command's data, and the checks of `NewExternal` have passed.
pub record Own (cmd : Command) (hash : String) (tx : Transaction) : Type 0 where
  pub provider : tx.provider_id ≡ cmd.provider_id
  pub external : tx.external_transaction_id ≡ cmd.external_transaction_id
  pub key : tx.idempotency_key ≡ cmd.idempotency_key
  pub payload : tx.payload_hash ≡ hash
  pub wallet : tx.wallet_id ≡ cmd.wallet_id
  pub player : tx.player_id ≡ cmd.player_id
  pub round : tx.round_id ≡ cmd.round_id
  pub game : tx.game_id ≡ cmd.game_id
  pub reference : tx.reference_external_transaction_id ≡ cmd.reference_external_transaction_id
  pub kind : tx.kind ≡ cmd.kind
  pub money : tx.money ≡ cmd.amount
  pub identified : (is_nil tx.id || (is_nil tx.wallet_id || is_nil tx.player_id)) ≡ false
  pub named :
      (is_blank tx.provider_id
        || (is_blank tx.external_transaction_id
            || (is_blank tx.idempotency_key || is_blank tx.payload_hash)))
      ≡ false

-- No row has the transaction's identifier, its key or its external identifier.
pub record IsNew (rows : List TxRow) (cmd : Command) (id : Uuid) : Type 0 where
  pub no_id : any (has_id id) rows ≡ false
  pub no_key : any (has_idempotency_key cmd.provider_id cmd.idempotency_key) rows ≡ false
  pub no_external : any (has_external_id cmd.provider_id cmd.external_transaction_id) rows ≡ false

-- Created, and nothing decided yet.
pub record Open (rows : List TxRow) (cmd : Command) (hash : String) (tx : Transaction)
    : Type 0 where
  pub own : Own cmd hash tx
  pub new : IsNew rows cmd tx.id
  pub undecided : tx.resulting_balance ≡ none
  pub unsettled : tx.status ≡ pending

-- What a later state `tx'` of the transaction `tx` has in common with it.
pub record Later (tx tx' : Transaction) : Type 0 where
  pub id : tx'.id ≡ tx.id
  pub row : overwrite tx' (row_of tx) ≡ row_of tx'
  pub own : (cmd : Command) (hash : String) → Own cmd hash tx → Own cmd hash tx'

-- The five columns that `Save` writes are free.
changed :
    (tx : Transaction) (s : Status) (code : FailureCode) (ref : Option Uuid) (b : Option Money)
    (at : Time)
    → Later tx (record tx {
      status = s;
      failure_code = code;
      resolved_reference_transaction_id = ref;
      resulting_balance = b;
      updated_at = at;
    })
changed tx s code ref b at = record {
  id = refl;
  row = refl;
  own = λ cmd hash o. record {
    provider = o.provider;
    external = o.external;
    key = o.key;
    payload = o.payload;
    wallet = o.wallet;
    player = o.player;
    round = o.round;
    game = o.game;
    reference = o.reference;
    kind = o.kind;
    money = o.money;
    identified = o.identified;
    named = o.named;
  };
}

processed_as :
    (b : Money) (at : Time) (tx tx' : Transaction)
    → mark_processed b at tx ≡ ok tx'
    → record tx { status = processed; resulting_balance = some b; updated_at = at } ≡ tx'
unfolding mark_processed
processed_as b at tx tx' e = ground arith

rejected_as :
    (code : FailureCode) (at : Time) (tx tx' : Transaction)
    → mark_rejected code at tx ≡ ok tx'
    → record tx { status = rejected; failure_code = code; updated_at = at } ≡ tx'
unfolding mark_rejected
rejected_as code at tx tx' e = ground arith

parked_as :
    (at : Time) (tx tx' : Transaction)
    → mark_pending_reference at tx ≡ ok tx'
    → record tx { status = pending_reference; updated_at = at } ≡ tx'
unfolding mark_pending_reference
parked_as at tx tx' e = ground arith

attached_as :
    (id : Uuid) (tx tx' : Transaction)
    → attach_resolved_reference id tx ≡ ok tx'
    → record tx { resolved_reference_transaction_id = some id } ≡ tx'
unfolding attach_resolved_reference
attached_as id tx tx' e = ground arith

pub Later-processed :
    (b : Money) (at : Time) (tx tx' : Transaction)
    → mark_processed b at tx ≡ ok tx'
    → Later tx tx' × (tx'.resulting_balance ≡ some b)
Later-processed b at tx tx' e =
    subst (λ t. Later tx t × (t.resulting_balance ≡ some b)) (processed_as b at tx tx' e)
      (changed tx processed tx.failure_code tx.resolved_reference_transaction_id (some b) at, refl)

pub Later-rejected :
    (code : FailureCode) (at : Time) (tx tx' : Transaction)
    → mark_rejected code at tx ≡ ok tx'
    → Later tx tx' × (tx'.resulting_balance ≡ tx.resulting_balance)
Later-rejected code at tx tx' e =
    subst (λ t. Later tx t × (t.resulting_balance ≡ tx.resulting_balance))
      (rejected_as code at tx tx' e)
      (changed tx rejected code tx.resolved_reference_transaction_id tx.resulting_balance at, refl)

pub Later-parked :
    (at : Time) (tx tx' : Transaction)
    → mark_pending_reference at tx ≡ ok tx'
    → Later tx tx' × (tx'.resulting_balance ≡ tx.resulting_balance)
Later-parked at tx tx' e =
    subst (λ t. Later tx t × (t.resulting_balance ≡ tx.resulting_balance)) (parked_as at tx tx' e)
      (
        changed tx pending_reference tx.failure_code tx.resolved_reference_transaction_id
            tx.resulting_balance at,
        refl,
      )

pub Later-attached :
    (id : Uuid) (tx tx' : Transaction)
    → attach_resolved_reference id tx ≡ ok tx'
    → Later tx tx' × (tx'.resulting_balance ≡ tx.resulting_balance)
Later-attached id tx tx' e =
    subst (λ t. Later tx t × (t.resulting_balance ≡ tx.resulting_balance)) (attached_as id tx tx' e)
      (changed tx tx.status tx.failure_code (some id) tx.resulting_balance tx.updated_at, refl)

pub processed-reference :
    (b : Money) (at : Time) (tx tx' : Transaction)
    → mark_processed b at tx ≡ ok tx'
    → tx'.resolved_reference_transaction_id ≡ tx.resolved_reference_transaction_id
processed-reference b at tx tx' e =
    ap (λ t. t.resolved_reference_transaction_id) (sym (processed_as b at tx tx' e))

pub rejected-status :
    (code : FailureCode) (at : Time) (tx tx' : Transaction)
    → mark_rejected code at tx ≡ ok tx'
    → tx'.status ≡ rejected
rejected-status code at tx tx' e = ap (λ t. t.status) (sym (rejected_as code at tx tx' e))

pub parked-status :
    (at : Time) (tx tx' : Transaction)
    → mark_pending_reference at tx ≡ ok tx'
    → tx'.status ≡ pending_reference
parked-status at tx tx' e = ap (λ t. t.status) (sym (parked_as at tx tx' e))

pub attached-reference :
    (id : Uuid) (tx tx' : Transaction)
    → attach_resolved_reference id tx ≡ ok tx'
    → tx'.resolved_reference_transaction_id ≡ some id
attached-reference id tx tx' e =
    ap (λ t. t.resolved_reference_transaction_id) (sym (attached_as id tx tx' e))

pub Later-refl : (tx : Transaction) → Later tx tx
Later-refl tx = record { id = refl; row = refl; own = λ cmd hash o. o }

pub Later-trans : (tx tx' tx'' : Transaction) → Later tx tx' → Later tx' tx'' → Later tx tx''
Later-trans tx tx' tx'' l m = record {
  id = m.id ∙ l.id;
  row = ap (overwrite tx'') l.row ∙ m.row;
  own = λ cmd hash o. m.own cmd hash (l.own cmd hash o);
}

-- The UPDATE of `Save` changes the created row alone.
update-new :
    (p : TxRow → Bool) (f : TxRow → TxRow) (rows : List TxRow) (r : TxRow)
    → any p rows ≡ false
    → p r ≡ true
    → update p f (rows ++ r ∷ []) ≡ rows ++ f r ∷ []
unfolding update any
update-new p f [] r old new = ground arith
update-new p f (x ∷ xs) r old new = ground (arith, update-new p f xs r)

pub update-Later :
    (rows : List TxRow) (tx tx' : Transaction)
    → any (has_id tx.id) rows ≡ false
    → Later tx tx'
    → update (has_id tx'.id) (overwrite tx') (rows ++ row_of tx ∷ []) ≡ rows ++ row_of tx' ∷ []
update-Later rows tx tx' old l =
    update-new (has_id tx'.id) (overwrite tx') rows (row_of tx)
      (subst (λ i. any (has_id i) rows ≡ false) (sym l.id) old)
      (subst (λ i. (tx.id == i) ≡ true) (sym l.id) (==_refl tx.id))
    ∙ ap (λ r. rows ++ r ∷ []) l.row
