-- ===== src/Postgres/Pages/Cursor.antt =====
-- internal/infra/postgres/ledger_repository.go: a cursor and its text.
use wager_service.Base.{ℕ, ◌≡◌, ◌≢◌, refl, false, some, [], ◌∷◌, ◌++◌, ◌==◌, All, ==_refl}
use wager_service.Ids.{Uuid, Time}
use wager_service.Errors.{ok}
use wager_service.Money.Decimal.{Bytes}
use wager_service.Postgres.Pages.{
  Codec, LedgerCursor, split_once, encode_ledger_cursor, decode_ledger_cursor, position,
}

-- What the documentation of Go's packages says of the texts: each is read back, an instant's has no bar in
-- it, and base64 makes nothing empty that is not.
pub record Faithful (c : Codec) : Type 0 where
  pub time_back : (t : Time) → c.time_of (c.time_text t) ≡ some t
  pub uuid_back : (u : Uuid) → c.uuid_of (c.uuid_text u) ≡ some u
  pub decode_back : (s : Bytes) → c.decode (c.encode s) ≡ some s
  pub encode_full : (s : Bytes) → s ≢ [] → c.encode s ≢ []
  pub no_bar : (t : Time) → All (λ b. (b == b'|') ≡ false) (c.time_text t)

split-append :
    (a b : Bytes) (sep : ℕ)
    → All (λ x. (x == sep) ≡ false) a
    → split_once (a ++ sep ∷ b) sep ≡ a ∷ b ∷ []
split-append [] b sep h = rw (==_refl sep) refl
split-append (x ∷ a) b sep (p, h) = rw (p, split-append a b sep h) refl

module _ (c : Codec) (faithful : Faithful c) where
  open faithful use {time_back, uuid_back, decode_back, encode_full, no_bar}

  -- Every cursor that the service hands out is read back as the position that it was made of.
  pub decode-encode_ledger_cursor :
      (cur : LedgerCursor) → decode_ledger_cursor c (encode_ledger_cursor c cur) ≡ ok cur
  unfolding decode_ledger_cursor encode_ledger_cursor
  decode-encode_ledger_cursor cur =
      rw
        (
          decode_back (c.time_text cur.created_at ++ b'|' ∷ c.uuid_text cur.id),
          split-append (c.time_text cur.created_at) (c.uuid_text cur.id) b'|'
              (no_bar cur.created_at),
          time_back cur.created_at,
          uuid_back cur.id,
        )
        refl

  append_full : (a b : Bytes) (x : ℕ) → (a ++ x ∷ b) ≢ []
  append_full [] b x e = cc
  append_full (y ∷ a) b x e = cc

  pub encode_ledger_cursor-full : (cur : LedgerCursor) → encode_ledger_cursor c cur ≢ []
  unfolding encode_ledger_cursor
  encode_ledger_cursor-full cur = encode_full _ (append_full _ _ _)

  position_full :
      (s : Bytes) (cur : LedgerCursor)
      → s ≢ []
      → decode_ledger_cursor c s ≡ ok cur
      → position c s ≡ ok (some cur)
  position_full [] cur h e = absurd (h refl)
  position_full (b ∷ s) cur h e = rw e refl

  pub position-encode :
      (cur : LedgerCursor) → position c (encode_ledger_cursor c cur) ≡ ok (some cur)
  position-encode cur =
      position_full _ cur (encode_ledger_cursor-full cur) (decode-encode_ledger_cursor cur)
