-- ===== src/Tests/Pages.antt =====
-- The ledger of one wallet, in pages of one entry (internal/infra/postgres/ledger_repository.go).
use wager_service.Base.{
  arith, ◌+◌, ◌-◌, ◌≡◌, ◌≢◌, refl, none, some, [], ◌∷◌, Option, keep, sort_by, insert_by,
}
use wager_service.Base.Int.{pos}
use wager_service.Errors.{ok}
use wager_service.Money.{from_minor_units, normalize_currency, matches_currency}
use wager_service.Money.Decimal.{Bytes}
use wager_service.Ids.{Uuid}
use wager_service.Ledger
use wager_service.Ledger.{Entry, credit, debit}
use wager_service.Postgres.Database.{World, to_micros}
use wager_service.Postgres.Ledgers.{row_of}
use wager_service.Postgres.Pages.{Codec, decode_ledger_cursor, encode_ledger_cursor, scan_entries}
use wager_service.Postgres.Pages.Cursor.{Faithful, decode-encode_ledger_cursor}
use wager_service.Postgres.Pages.Walk.{walk, walk_complete}
use wager_service.Service.{empty}
use wager_service.Tests.{brl}

abbrev first_byte : Bytes → Option Uuid
first_byte [] = none
first_byte (c ∷ s) = some c

abbrev late_byte : Bytes → Option Uuid
late_byte [] = none
late_byte (c ∷ s) = some (c - 200)

abbrev rest_of : Bytes → Option Bytes
rest_of [] = none
rest_of (c ∷ s) = some s

-- Texts of one letter.
abbrev codec : Codec
codec = record {
  time_text = λ t. (t + 200) ∷ [];
  time_of = late_byte;
  uuid_text = λ u. u ∷ [];
  uuid_of = first_byte;
  encode = λ s. 1 ∷ s;
  decode = rest_of;
}

full : (s : Bytes) → (1 ∷ s) ≢ []
full s e = cc

codec-Faithful : Faithful codec
codec-Faithful = record {
  time_back = λ t. ground arith;
  uuid_back = λ u. refl;
  decode_back = λ s. refl;
  encode_full = λ s h. full s;
  no_bar = λ t. (ground arith, tt);
}

decode-encode_ledger_cursor_example :
    decode_ledger_cursor codec (encode_ledger_cursor codec (record { created_at = 5; id = 7 }))
    ≡ ok (record { created_at = 5; id = 7 })
decode-encode_ledger_cursor_example =
    decode-encode_ledger_cursor codec codec-Faithful (record { created_at = 5; id = 7 })

abbrev won : Entry
won = record {
  id = 8;
  wallet_id = 3;
  transaction_id = 11;
  direction = credit;
  money = brl 100;
  balance_before = brl 0;
  balance_after = brl 100;
  created_at = 9_000;
}

abbrev lost : Entry
lost = record won {
  id = 4;
  transaction_id = 12;
  direction = debit;
  balance_before = brl 100;
  balance_after = brl 0;
}

-- Two entries of one instant, in the other order.
abbrev booked : World
booked = record empty { db = record empty.db { ledger = row_of won ∷ row_of lost ∷ [] } }

walk_complete_example : walk codec 3 (pos 1) booked 3 [] ≡ ok (lost ∷ won ∷ [])
unfolding scan_entries from_minor_units normalize_currency matches_currency Ledger.rehydrate keep
    sort_by insert_by to_micros
walk_complete_example =
    walk_complete codec 3 (pos 1) booked 3 (lost ∷ won ∷ []) codec-Faithful ((refl, tt), (tt, tt))
      (omega arith) refl (omega arith)
