-- ===== src/Message/Store.antt =====
-- `prisma.message.findUnique`, `prisma.message.update` with its nested `statusEvents.create`, and
-- `prisma.messageStatusEvent.create`, over the two tables.
use mathlib.Core.Option
use api_whats_app.Base.{
  ℕ, ◌==◌, if◌then◌else◌, ◌≡◌, Option, [], ◌∷◌, ◌++◌, find, modify, find-modify,
}
use api_whats_app.Message.{Message, message_row, StatusEvent, Db}

abbrev pub find_message : ℕ → Db → Option Message
find_message id db = find id db.messages

abbrev pub update_message : ℕ → (Message → Message) → Db → Db
update_message id f db = record db { messages = modify id f db.messages }

abbrev pub create_event : StatusEvent → Db → Db
create_event e db = record db { events = db.events ++ e ∷ [] }

-- What an update of one row does to a lookup, when it keeps the ids.
pub find_message-update :
    (id j : ℕ) (f : Message → Message) (db : Db)
    → ((m : Message) → (f m).id ≡ m.id)
    → find_message j (update_message id f db)
      ≡ (if id == j then Option.map f (find_message j db) else find_message j db)
find_message-update id j f db h = find-modify id j f db.messages h
