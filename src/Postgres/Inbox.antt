-- ===== src/Postgres/Inbox.antt =====
-- internal/infra/postgres/inbox_repository.go over the table of migrations/0004_inbox.up.sql
use wager_service.Base.{
  Bool, ◌&&◌, String, some, List, [], ◌∷◌, ◌++◌, str_eq, find, update, any, if◌then◌else◌,
}
use wager_service.Ids.{Time}
use wager_service.Errors.{ok, err, conflict, not_found}
use wager_service.Ports.{M, InboxRecord, InboxRepository}
use wager_service.Postgres.Database.{World, found, to_micros, to_micros_or_null}

abbrev pub has_key : String → String → InboxRecord → Bool
has_key consumer message r = str_eq r.consumer_name consumer && str_eq r.message_id message

abbrev with_inbox : List InboxRecord → World → World
with_inbox rows w = record w { db = record w.db { inbox = rows } }

unfoldable pub find_record : String → String → M World InboxRecord
find_record consumer message w = (found (find (has_key consumer message) w.db.inbox) not_found, w)

-- the VALUES of `Insert`
abbrev pub stored : InboxRecord → InboxRecord
stored rec = record rec {
  received_at = to_micros rec.received_at;
  completed_at = to_micros_or_null rec.completed_at;
}

unfoldable pub insert : InboxRecord → M World (Unit {0})
insert rec w =
    if any (has_key rec.consumer_name rec.message_id) w.db.inbox
    then (err conflict, w)
    else (ok tt, with_inbox (w.db.inbox ++ stored rec ∷ []) w)

abbrev complete : Time → InboxRecord → InboxRecord
complete at r = record r { completed_at = some (to_micros at) }

unfoldable pub mark_completed : String → String → Time → M World (Unit {0})
mark_completed consumer message at w =
    (ok tt, with_inbox (update (has_key consumer message) (complete at) w.db.inbox) w)

abbrev pub repository : InboxRepository World
repository = record { find = find_record; insert = insert; mark_completed = mark_completed }
