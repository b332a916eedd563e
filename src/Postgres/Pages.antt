-- ===== src/Postgres/Pages.antt =====
-- internal/infra/postgres/ledger_repository.go: `ListByWallet`, the ledger of a wallet in pages, and its
-- cursors. The texts of instants and identifiers and base64 are parameters.
pub mod Cursor
pub mod Rows
pub mod Cut
pub mod Walk
use wager_service.Base.{
  ℕ, zero, suc, ◌-◌, Bool, ◌&&◌, ◌||◌, Option, none, some, List, [], ◌∷◌, ◌++◌, ◌==◌, ltb, leb,
  keep, sort_by, take, length, if◌then◌else◌,
}
use wager_service.Base.Int.{ℤ, pos, negsuc, ◌+ℤ◌}
use wager_service.Ids.{Uuid, Time}
use wager_service.Errors.{Result, ok, err, ◌>>=◌, database, invalid_request}
use wager_service.Money.{from_minor_units}
use wager_service.Money.Int64.{wrap64}
use wager_service.Money.Decimal.{Bytes}
use wager_service.Ledger
use wager_service.Ledger.{Entry}
use wager_service.Ports.{M}
use wager_service.Postgres.Database.{World, LedgerRow, limited}
use wager_service.Postgres.Ledgers.{of_wallet}

-- `time.Format` and `time.Parse` with `time.RFC3339Nano`, `UUID.String` and `uuid.Parse`, and
-- `base64.RawURLEncoding`.
pub record Codec : Type 0 where
  pub time_text : Time → Bytes
  pub time_of : Bytes → Option Time
  pub uuid_text : Uuid → Bytes
  pub uuid_of : Bytes → Option Uuid
  pub encode : Bytes → Bytes
  pub decode : Bytes → Option Bytes

-- `ledgerCursor`
pub record LedgerCursor : Type 0 where
  pub created_at : Time
  pub id : Uuid

-- `splitOnce`
abbrev pub cut : ℕ → List Bytes → List Bytes
cut c [] = []
cut c (s ∷ parts) = (c ∷ s) ∷ parts

abbrev pub split_once : Bytes → ℕ → List Bytes
split_once [] sep = [] ∷ []
split_once (c ∷ s) sep = if c == sep then [] ∷ s ∷ [] else cut c (split_once s sep)

abbrev pub found_or_invalid : {A : Type 0} → Option A → Result A
found_or_invalid none = err invalid_request
found_or_invalid (some a) = ok a

abbrev pub cursor_of : Codec → List Bytes → Result LedgerCursor
cursor_of c (time ∷ id ∷ []) = do
  created_at ← found_or_invalid (c.time_of time)
  uuid ← found_or_invalid (c.uuid_of id)
  ok (record { created_at = created_at; id = uuid })
cursor_of c _ = err invalid_request

-- `encodeLedgerCursor`
unfoldable pub encode_ledger_cursor : Codec → LedgerCursor → Bytes
encode_ledger_cursor c cur = c.encode (c.time_text cur.created_at ++ b'|' ∷ c.uuid_text cur.id)

-- `decodeLedgerCursor`
unfoldable pub decode_ledger_cursor : Codec → Bytes → Result LedgerCursor
decode_ledger_cursor c s = do raw ← found_or_invalid (c.decode s); cursor_of c (split_once raw b'|')

-- `(created_at, id) > ($2, $3)`
abbrev pub is_after : LedgerCursor → LedgerRow → Bool
is_after cur r =
    ltb cur.created_at r.created_at || (cur.created_at == r.created_at && ltb cur.id r.id)

-- `ORDER BY created_at, id`
abbrev pub comes_before : LedgerRow → LedgerRow → Bool
comes_before r r' =
    ltb r.created_at r'.created_at || (r.created_at == r'.created_at && leb r.id r'.id)

abbrev pub is_selected : Uuid → Option LedgerCursor → LedgerRow → Bool
is_selected id none r = of_wallet id r
is_selected id (some cur) r = of_wallet id r && is_after cur r

-- the two queries
unfoldable pub select : Uuid → Option LedgerCursor → ℤ → List LedgerRow → Result (List LedgerRow)
select id cur n ledger = limited n (sort_by comes_before (keep (is_selected id cur) ledger))

-- the body of the loop over the rows
abbrev pub entry_of : LedgerRow → Result Entry
entry_of r = do
  amount ← from_minor_units r.amount_minor_units r.currency
  before ← from_minor_units r.balance_before_minor_units r.currency
  after ← from_minor_units r.balance_after_minor_units r.currency
  Ledger.rehydrate (record {
    id = r.id;
    wallet_id = r.wallet_id;
    transaction_id = r.transaction_id;
    direction = r.direction;
    money = amount;
    balance_before = before;
    balance_after = after;
    created_at = r.created_at;
  })

unfoldable pub scan_entries : List LedgerRow → Result (List Entry)
scan_entries [] = ok []
scan_entries (r ∷ rows) = do e ← entry_of r; es ← scan_entries rows; ok (e ∷ es)

-- `limit <= 0`
abbrev pub page_size : ℤ → ℕ
page_size (pos zero) = 50
page_size (pos (suc n)) = suc n
page_size (negsuc n) = 50

abbrev pub entry_at : ℕ → List Entry → Option Entry
entry_at n [] = none
entry_at zero (e ∷ es) = some e
entry_at (suc n) (e ∷ es) = entry_at n es

abbrev pub cursor_after : Codec → Option Entry → Bytes
cursor_after c none = []
cursor_after c (some e) = encode_ledger_cursor c (record { created_at = e.created_at; id = e.id })

-- the end: one row more than the page says that there is another page
unfoldable pub page : Codec → ℕ → List Entry → List Entry × Bytes
page c size entries =
    if ltb size (length entries)
    then (take size entries, cursor_after c (entry_at (size - 1) entries))
    else (entries, [])

-- the empty text asks for the first page
abbrev pub position : Codec → Bytes → Result (Option LedgerCursor)
position c [] = ok none
position c (b ∷ s) = do cur ← decode_ledger_cursor c (b ∷ s); ok (some cur)

unfoldable pub page_of : Codec → Uuid → Bytes → ℕ → List LedgerRow → Result (List Entry × Bytes)
page_of c id cursor size ledger = do
  cur ← position c cursor
  rows ← select id cur (wrap64 (pos size +ℤ pos 1)) ledger
  entries ← scan_entries rows
  ok (page c size entries)

-- `ListByWallet`
unfoldable pub list_by_wallet : Codec → Uuid → Bytes → ℤ → M World (List Entry × Bytes)
list_by_wallet c id cursor limit w = (page_of c id cursor (page_size limit) w.db.ledger, w)
