-- ===== src/Persistence/ChatStore/Turns.antt =====
-- persistence/chat_store.py: a turn is recorded once or not at all.
use sarvam.Prelude.{
  ℕ, zero, suc, ◌≡◌, ◌⊎◌, inl, inr, refl, sym, ap, ◌∙◌, Bool, true, false, Option, none, some, [],
  ◌∷◌, ◌++◌, append_assoc, String, Text, Bool-cases, Option-cases, if◌then◌else◌,
}
use sarvam.Persistence.ChatStore.{Role, StoredMessage, Db, Clock, row_of, insert_message_on}
use sarvam.Persistence.TurnRecord.{
  transacted, Fate, smooth, lost, unacknowledged, Attempt, Recorded, save_turn, attempt_turn,
  record_on, record_turn,
}
use sarvam.Persistence.ChatStore.Rows.{
  has_message, has_message-append, has_message-last, insert-taken, insert-appends,
}

transacted-cases :
    (f : Fate) (o : Option Db) (db : Db)
    → ((transacted f o db).0 ≡ false) × ((transacted f o db).1 ≡ db)
      ⊎ (o ≡ some (transacted f o db).1)
transacted-cases lost o db = inl (refl, refl)
transacted-cases smooth none db = inl (refl, refl)
transacted-cases smooth (some d) db = inr refl
transacted-cases unacknowledged none db = inl (refl, refl)
transacted-cases unacknowledged (some d) db = inr refl

module _ (cid uid : String) (user_message assistant_message : Text) (language : Option String)
    (assistant_id : String) where
  abbrev times : Attempt → Clock
  times a = record { now = a.now; new_id = a.new_id }

  abbrev pub user_row : Attempt → StoredMessage
  user_row a = row_of cid uid Role.user user_message none a.new_id a.now

  abbrev pub assistant_row : Attempt → StoredMessage
  assistant_row a = row_of cid uid Role.assistant assistant_message language assistant_id a.now

  -- Both rows of one attempt stand at the end.
  pub Stored : Db → Db → Type 0
  Stored db db' =
      (a : Attempt) × (db'.messages ≡ db.messages ++ (user_row a ∷ assistant_row a ∷ []))

  abbrev ask : Attempt → Db → Option (String × Db)
  ask a db = insert_message_on cid uid Role.user user_message none none (times a) db

  abbrev insert_answer : Attempt → Db → Option (String × Db)
  insert_answer a db =
      insert_message_on cid uid Role.assistant assistant_message language (some assistant_id)
        (times a) db

  save : Attempt → Db → Option Db
  save a db = save_turn cid uid user_message assistant_message language assistant_id a db

  save_turn-Stored :
      (a : Attempt) (db db' : Db)
      → save a db ≡ some db'
      → db'.messages ≡ db.messages ++ (user_row a ∷ assistant_row a ∷ [])
  unfolding save save_turn
  save_turn-Stored a db db' h = elim (Option-cases (ask a db)) [
    | inl e ↦ absurd (cc (rw (e, save_turn) at h))
    | inr (p, e) ↦ elim (Option-cases (insert_answer a p.1)) [
      | inl f ↦ absurd (cc (rw (e, f, save_turn) at h))
      | inr (q, f) ↦
          let same : q.1 ≡ db' = cc (rw (e, f, save_turn) at h) in
          ap (λ d. d.messages) (sym same)
          ∙ insert-appends cid uid Role.assistant assistant_message language (some assistant_id)
              (times a) p.1 q f
          ∙ ap (λ m. m ++ (assistant_row a ∷ []))
              (insert-appends cid uid Role.user user_message none none (times a) db p e)
          ∙ append_assoc db.messages (user_row a ∷ []) (assistant_row a ∷ [])
    ]
  ]

  -- Where a row has the reply's id, no attempt is saved.
  save_turn-taken :
      (a : Attempt) (db : Db) → has_message assistant_id db.messages ≡ true → save a db ≡ none
  unfolding save save_turn
  save_turn-taken a db h = elim (Option-cases (ask a db)) [
    | inl e ↦ rw (e, save_turn) refl
    | inr (p, e) ↦
        let there : has_message assistant_id p.1.messages ≡ true =
          ap (has_message assistant_id)
            (insert-appends cid uid Role.user user_message none none (times a) db p e)
          ∙ has_message-append assistant_id db.messages _ h in
        rw
          (
            e,
            insert-taken cid uid Role.assistant assistant_message language assistant_id (times a)
                p.1 there,
            save_turn,
          )
          refl
  ]

  save_turn-taken_after :
      (a : Attempt) (db db' : Db)
      → save a db ≡ some db'
      → has_message assistant_id db'.messages ≡ true
  save_turn-taken_after a db db' h =
      ap (has_message assistant_id) (
        save_turn-Stored a db db' h
        ∙ sym (append_assoc db.messages (user_row a ∷ []) (assistant_row a ∷ [])))
      ∙ has_message-last assistant_id (db.messages ++ (user_row a ∷ [])) (assistant_row a) refl

  abbrev tries : ℕ → ℕ → (ℕ → Attempt) → Db → Recorded
  tries n failed attempts db =
      record_on cid uid user_message assistant_message language assistant_id n failed attempts db

  abbrev once : Attempt → Db → Bool × Db
  once a db = attempt_turn cid uid user_message assistant_message language assistant_id a db

  -- An attempt leaves the database as it was and fails, or the turn is saved.
  attempt-cases :
      (a : Attempt) (db : Db)
      → ((once a db).0 ≡ false) × ((once a db).1 ≡ db) ⊎ (save a db ≡ some (once a db).1)
  unfolding attempt_turn save
  attempt-cases a db = transacted-cases a.fate (save a db) db

  attempt-taken :
      (a : Attempt) (db : Db)
      → has_message assistant_id db.messages ≡ true
      → ((once a db).0 ≡ false) × ((once a db).1 ≡ db)
  attempt-taken a db h = elim (attempt-cases a db) [
    | inl kept ↦ kept
    | inr saved ↦ absurd (cc (save_turn-taken a db h, saved))
  ]

  tries-done :
      (n failed : ℕ) (attempts : ℕ → Attempt) (db : Db)
      → (once (attempts failed) db).0 ≡ true
      → tries (suc n) failed attempts db
        ≡ record { db = (once (attempts failed) db).1; sleeps = []; logged = false }
  unfolding record_on
  tries-done n failed attempts db h = rw h refl

  tries-last :
      (failed : ℕ) (attempts : ℕ → Attempt) (db : Db)
      → (once (attempts failed) db).0 ≡ false
      → tries 1 failed attempts db
        ≡ record { db = (once (attempts failed) db).1; sleeps = []; logged = true }
  unfolding record_on
  tries-last failed attempts db h = rw h refl

  tries-again :
      (n failed : ℕ) (attempts : ℕ → Attempt) (db : Db)
      → (once (attempts failed) db).0 ≡ false
      → (tries (suc (suc n)) failed attempts db).db
        ≡ (tries (suc n) (suc failed) attempts (once (attempts failed) db).1).db
  unfolding record_on
  tries-again n failed attempts db h = ap (λ r. r.db) (again (once (attempts failed) db).0 _ _ h)
    where
      again : (b : Bool) (x y : Recorded) → b ≡ false → (if b then x else y) ≡ y
      again b x y e = rw e refl

  tries-logged :
      (n failed : ℕ) (attempts : ℕ → Attempt) (db : Db)
      → (once (attempts failed) db).0 ≡ false
      → (tries (suc (suc n)) failed attempts db).logged
        ≡ (tries (suc n) (suc failed) attempts (once (attempts failed) db).1).logged
  unfolding record_on
  tries-logged n failed attempts db h =
      ap (λ r. r.logged) (again (once (attempts failed) db).0 _ _ h)
    where
      again : (b : Bool) (x y : Recorded) → b ≡ false → (if b then x else y) ≡ y
      again b x y e = rw e refl

  -- Once the turn is in the database, the attempts that follow change nothing.
  record_on-taken :
      (n failed : ℕ) (attempts : ℕ → Attempt) (db : Db)
      → has_message assistant_id db.messages ≡ true
      → (tries (suc n) failed attempts db).db ≡ db
  record_on-taken zero failed attempts db h =
      let (raised, kept) = attempt-taken (attempts failed) db h in
      ap (λ r. r.db) (tries-last failed attempts db raised) ∙ kept
  record_on-taken (suc n) failed attempts db h =
      let (raised, kept) = attempt-taken (attempts failed) db h in
      tries-again n failed attempts db raised
      ∙ ap (λ d. (tries (suc n) (suc failed) attempts d).db) kept
      ∙ record_on-taken n (suc failed) attempts db h

  saved-Stored : (a : Attempt) (db : Db) → save a db ≡ some (once a db).1 → Stored db (once a db).1
  unfolding Stored
  saved-Stored a db h = (a, save_turn-Stored a db _ h)

  fine-Stored :
      (n failed : ℕ) (attempts : ℕ → Attempt) (db : Db)
      → (once (attempts failed) db).0 ≡ true
      → Stored db (tries (suc n) failed attempts db).db
  fine-Stored n failed attempts db fine = elim (attempt-cases (attempts failed) db) [
    | inl kept ↦ absurd (cc (kept.0, fine))
    | inr saved ↦
        rw (tries-done n failed attempts db fine) (saved-Stored (attempts failed) db saved)
  ]

  pub Recording : Db → Recorded → Type 0
  Recording db r = (r.db ≡ db) × (r.logged ≡ true) ⊎ Stored db r.db

  last-Recording :
      (failed : ℕ) (attempts : ℕ → Attempt) (db : Db)
      → (once (attempts failed) db).0 ≡ false
      → Recording db (tries 1 failed attempts db)
  unfolding Recording
  last-Recording failed attempts db raised = elim (attempt-cases (attempts failed) db) [
    | inl kept ↦ rw (tries-last failed attempts db raised) (inl (kept.1, refl))
    | inr saved ↦
        rw (tries-last failed attempts db raised) (inr (saved-Stored (attempts failed) db saved))
  ]

  again-Recording :
      (n failed : ℕ) (attempts : ℕ → Attempt) (db : Db)
      → (once (attempts failed) db).0 ≡ false
      → Recording db (tries (suc n) (suc failed) attempts db)
      → Recording db (tries (suc (suc n)) failed attempts db)
  unfolding Recording
  again-Recording n failed attempts db raised next = elim (attempt-cases (attempts failed) db) [
    | inl kept ↦
        rw
          (
            tries-again n failed attempts db raised,
            tries-logged n failed attempts db raised,
            kept.1,
          )
          next
    | inr saved ↦ inr (
        rw
          (
            tries-again n failed attempts db raised,
            record_on-taken n (suc failed) attempts (once (attempts failed) db).1
                (save_turn-taken_after (attempts failed) db (once (attempts failed) db).1 saved),
          )
          (saved-Stored (attempts failed) db saved))
  ]

  record_on-Recording :
      (n failed : ℕ) (attempts : ℕ → Attempt) (db : Db)
      → Recording db (tries (suc n) failed attempts db)
  unfolding Recording
  record_on-Recording zero failed attempts db = elim (Bool-cases (once (attempts failed) db).0) [
    | inl fine ↦ inr (fine-Stored 0 failed attempts db fine)
    | inr raised ↦ last-Recording failed attempts db raised
  ]
  record_on-Recording (suc n) failed attempts db = elim (Bool-cases (once (attempts failed) db).0) [
    | inl fine ↦ inr (fine-Stored (suc n) failed attempts db fine)
    | inr raised ↦
        again-Recording n failed attempts db raised (record_on-Recording n (suc failed) attempts db)
  ]

  -- However the network treats the attempts, also where a commit goes through and its acknowledgement
  -- is lost: after the background task the database is as it was and the failure is logged, or both
  -- messages of the turn, of one attempt, stand at its end, each exactly once.
  pub record_turn-once :
      (attempts : ℕ → Attempt) (db : Db)
      → (r : Recorded) × (record_turn cid uid user_message assistant_message language assistant_id
            attempts
            (some db)
          ≡ some r)
        × (((r.db ≡ db) × (r.logged ≡ true)) ⊎ Stored db r.db)
  unfolding record_turn Recording
  record_turn-once attempts db = (_, refl, record_on-Recording 2 0 attempts db)
