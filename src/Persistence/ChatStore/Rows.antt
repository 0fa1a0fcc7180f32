-- ===== src/Persistence/ChatStore/Rows.antt =====
-- persistence/chat_store.py: what an insertion does to the rows of `messages`.
use sarvam.Prelude.{
  ◌≡◌, inl, inr, refl, Bool, true, Option, none, some, List, [], ◌∷◌, ◌++◌, String, Text, any,
  str_eq, eq_iff, arith, Bool-cases,
}
use sarvam.Persistence.ChatStore.{
  Role, StoredMessage, Db, Clock, id_or, may_insert, with_row, row_of, insert_message_on,
}

abbrev pub has_message : String → List StoredMessage → Bool
has_message i ms = any (λ m. str_eq m.id i) ms

pub has_message-append :
    (i : String) (xs ys : List StoredMessage)
    → has_message i xs ≡ true
    → has_message i (xs ++ ys) ≡ true
has_message-append i [] ys h = cc
has_message-append i (x ∷ xs) ys h = ground (arith, has_message-append i xs ys)

pub has_message-last :
    (i : String) (xs : List StoredMessage) (m : StoredMessage)
    → m.id ≡ i
    → has_message i (xs ++ (m ∷ [])) ≡ true
has_message-last i [] m h = ground (arith, eq_iff m.id i)
has_message-last i (x ∷ xs) m h = ground (arith, has_message-last i xs m h)

pub insert-taken :
    (cid uid : String) (role : Role) (content : Text) (language : Option String) (i : String)
    (t : Clock) (db : Db)
    → has_message i db.messages ≡ true
    → insert_message_on cid uid role content language (some i) t db ≡ none
unfolding insert_message_on
insert-taken cid uid role content language i t db h = ground (arith, h)

-- An insertion appends its row.
pub insert-appends :
    (cid uid : String) (role : Role) (content : Text) (language message_id : Option String)
    (t : Clock) (db : Db) (r : String × Db)
    → insert_message_on cid uid role content language message_id t db ≡ some r
    → r.1.messages
      ≡ db.messages ++ (row_of cid uid role content language (id_or message_id t) t.now ∷ [])
unfolding insert_message_on
insert-appends cid uid role content language message_id t db r h =
    let row = row_of cid uid role content language (id_or message_id t) t.now in
    elim (Bool-cases (may_insert row db)) [
      | inl fits ↦
          let same : (row.id, with_row row db) ≡ r = cc (rw (fits, insert_message_on) at h) in
          rw (← same) refl
      | inr clash ↦ absurd (cc (rw (clash, insert_message_on) at h))
    ]
