-- ===== src/Tickets/Repository/ById.antt =====
-- Ids of tickets that reach PostgreSQL as texts.
use polyglot_ticketing_v.Base.{
  ℕ, zero, suc, ◌≡◌, refl, Bool, not, ◌&&◌, ◌||◌, ◌+◌, List, [], ◌∷◌, map, leb, if◌then◌else◌, Text,
  runes, text_eq, Result, err,
}
use polyglot_ticketing_v.Base.Db.{
  Fault, healthy, rejected, lost, invalid_text, Session, Db, statement, query, transaction, perform,
  finish,
}
use polyglot_ticketing_v.Tickets.Model.{Error, database, Ticket, UpdateInput, TicketsDb}
use polyglot_ticketing_v.Tickets.Repository.{update_with_idempotency}

-- The first runes of a text, and the others.
unfoldable take : ℕ → Text → Text
take zero t = []
take (suc n) [] = []
take (suc n) (c ∷ t) = c ∷ take n t

unfoldable drop : ℕ → Text → Text
drop zero t = t
drop (suc n) [] = []
drop (suc n) (c ∷ t) = drop n t

abbrev lower : ℕ → ℕ
lower c = if leb 65 c && leb c 90 then c + 32 else c

-- Of the forms that uuid.Parse accepts, the two that PostgreSQL does not: with the prefix urn:uuid:, in
-- letters of any case, and between two characters that are not braces.
unfoldable pub is_unread : Text → Bool
unfolding take drop
is_unread id =
    text_eq (map lower (take 9 id)) (runes "urn:uuid:")
    || (not (text_eq (drop 37 id) [])
        && text_eq (drop 38 id) []
        && not (text_eq (take 1 id) (runes "{") && text_eq (drop 37 id) (runes "}")))

-- A transaction whose first statement PostgreSQL refuses for the text of its id.
unfoldable pub refuse_id : Db TicketsDb Error Ticket
refuse_id = transaction database (statement database (λ _. err invalid_text))

-- `UpdateWithIdempotency` of the id that a text reads as.
unfoldable pub update_by_text : Text → ℕ → UpdateInput → Db TicketsDb Error Ticket
unfolding is_unread refuse_id
update_by_text text id input =
    if is_unread text then refuse_id else update_with_idempotency id input

-- A refused id changes nothing.
abbrev IsRefused : TicketsDb → Result Error Ticket × Session TicketsDb → Type 0
IsRefused db r =
    (e : Error) × (faults : List Fault) × (r ≡ (err e, record { tables = db; faults = faults }))

pub refuse_id_same :
    (db : TicketsDb) (faults : List Fault)
    → IsRefused db (refuse_id (record { tables = db; faults = faults }))
unfolding refuse_id transaction statement query perform finish
refuse_id_same db [] = (_, _, refl)
refuse_id_same db (rejected e ∷ rest) = (_, _, refl)
refuse_id_same db (lost e ∷ rest) = (_, _, refl)
refuse_id_same db (healthy ∷ []) = (_, _, refl)
refuse_id_same db (healthy ∷ healthy ∷ rest) = (_, _, refl)
refuse_id_same db (healthy ∷ rejected e ∷ rest) = (_, _, refl)
refuse_id_same db (healthy ∷ lost e ∷ rest) = (_, _, refl)
