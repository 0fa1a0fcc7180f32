-- ===== src/Persistence/TurnRecord.antt =====
-- persistence/chat_store.py: `record_turn`, the write of a turn in the background.
use sarvam.Prelude.{
  ℕ, zero, suc, ◌*◌, Bool, true, false, Option, none, some, List, [], ◌∷◌, String, Text,
  if◌then◌else◌,
}
use sarvam.Persistence.ChatStore.{Role, Db, insert_message_on}

-- What happens to an attempt on the network: nothing; the connection is lost before the commit; the
-- commit is done and its acknowledgement is lost.
pub data Fate : Type 0 where
  smooth lost unacknowledged : Fate

-- What such an attempt leaves of a transaction: whether it raised no exception, and the database.
abbrev pub transacted : Fate → Option Db → Db → Bool × Db
transacted lost saved db = (false, db)
transacted smooth none db = (false, db)
transacted smooth (some saved) db = (true, saved)
transacted unacknowledged none db = (false, db)
transacted unacknowledged (some saved) db = (false, saved)

-- One attempt: how the network treats it, and its clocks for the two rows.
pub record Attempt : Type 0 where
  pub fate : Fate
  pub now : ℕ
  pub new_id : String

pub record Recorded : Type 0 where
  pub db : Db
  pub sleeps : List ℕ
  pub logged : Bool

abbrev pub record_turn_max_attempts : ℕ
record_turn_max_attempts = 3

-- Half seconds.
abbrev retry_delay : ℕ
retry_delay = 1

module _ (cid uid : String) (user_message assistant_message : Text) (language : Option String)
    (assistant_id : String) where
  -- The transaction: both rows or, after an exception, none.
  unfoldable pub save_turn : Attempt → Db → Option Db
  unfolding insert_message_on
  save_turn a db =
      elim (insert_message_on cid uid Role.user user_message none none
        (record { now = a.now; new_id = a.new_id }) db) [
          | none ↦ none
          | some asked ↦
              elim (insert_message_on cid uid Role.assistant assistant_message language
                (some assistant_id) (record { now = a.now; new_id = a.new_id }) asked.1) [
                  | none ↦ none
                  | some answered ↦ some answered.1
                ]
        ]

  -- The database after an attempt, and whether it raised no exception.
  unfoldable pub attempt_turn : Attempt → Db → Bool × Db
  attempt_turn a db = transacted a.fate (save_turn a db) db

  abbrev after_sleep : ℕ → Recorded → Recorded
  after_sleep n r = record r { sleeps = n ∷ r.sleeps }

  -- The loop; `n` counts the attempts that are left, and `done` those that have failed.
  unfoldable pub record_on : ℕ → ℕ → (ℕ → Attempt) → Db → Recorded
  unfolding attempt_turn
  record_on zero failed attempts db = record { db = db; sleeps = []; logged = false }
  record_on (suc n) failed attempts db =
      let tried = attempt_turn (attempts failed) db in
      let rest = record_on n (suc failed) attempts tried.1 in
      if tried.0 then record { db = tried.1; sleeps = []; logged = false } else elim n [
        | zero ↦ record { db = tried.1; sleeps = []; logged = true }
        | suc m ↦ after_sleep (retry_delay * suc failed) rest
      ]

  unfoldable pub record_turn : (ℕ → Attempt) → Option Db → Option Recorded
  unfolding record_on
  record_turn attempts none = none
  record_turn attempts (some db) = some (record_on record_turn_max_attempts 0 attempts db)
