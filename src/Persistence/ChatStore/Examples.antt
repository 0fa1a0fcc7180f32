-- ===== src/Persistence/ChatStore/Examples.antt =====
-- Tests and witnesses of the chat store.
use sarvam.Prelude.{
  ℕ, zero, suc, ◌≡◌, ◌⊎◌, ◌≢◌, refl, ap, str_eq, true, none, some, String, [], ◌∷◌, codes,
}
use sarvam.Persistence.ChatStore.{
  Role, Db, insert_message_on, delete_conversation, get_conversation, list_messages,
}
use sarvam.Persistence.TurnRecord.{
  smooth, unacknowledged, Attempt, Recorded, record_turn, record_on, attempt_turn, save_turn,
}
use sarvam.Persistence.ChatStore.Turns.{Stored, record_turn-once}
use sarvam.Persistence.ChatStore.Owners.{Owned, MessageOf, delete_conversation-isolated}

abbrev db : Db
db = record {
  conversations =
      record { id = "c1"; user_id = "ann"; updated_at = 0 }
      ∷ record { id = "c2"; user_id = "bob"; updated_at = 1 }
      ∷ [];
  messages =
      record {
        id = "m1";
        conversation_id = "c2";
        user_id = "bob";
        role = Role.user;
        content = codes "Hi";
        audio_path = none;
        response_language = none;
        created_at = 1;
      }
      ∷ [];
}

-- The acknowledgement of the first commit is lost; the next attempts find the reply's row.
abbrev attempts : ℕ → Attempt
attempts zero = record { fate = unacknowledged; now = 5; new_id = "m2" }
attempts (suc n) = record { fate = smooth; now = 6; new_id = "m3" }

stored_times :
    list_messages
      (λ s. some s)
      "c1"
      "ann"
      (some (record_on "c1" "ann" (codes "Q") (codes "A") none "r" 3 0 attempts db).db)
    ≡ record {
      id = "m2";
      conversation_id = "c1";
      user_id = "ann";
      role = Role.user;
      content = codes "Q";
      audio_path = none;
      response_language = none;
      created_at = 5;
    }
      ∷ record {
        id = "r";
        conversation_id = "c1";
        user_id = "ann";
        role = Role.assistant;
        content = codes "A";
        audio_path = none;
        response_language = none;
        created_at = 5;
      }
      ∷ []
unfolding list_messages record_on attempt_turn save_turn insert_message_on
stored_times = refl

record_turn-once_example :
    (r : Recorded) × (record_turn "c1" "ann" (codes "Q") (codes "A") none "r" attempts (some db)
      ≡ some r)
    × (((r.db ≡ db) × (r.logged ≡ true))
        ⊎ Stored "c1" "ann" (codes "Q") (codes "A") none "r" db r.db)
record_turn-once_example = record_turn-once "c1" "ann" (codes "Q") (codes "A") none "r" attempts db

owned : Owned db
unfolding Owned MessageOf
owned = ((λ e. cc e, (λ e. refl, tt)), tt)

abbrev ann : String
ann = "ann"

abbrev bob : String
bob = "bob"

apart : ann ≢ bob
apart e = let same : str_eq ann bob ≡ str_eq bob bob = ap (λ s. str_eq s bob) e in cc same

delete_conversation-isolated_example :
    (list_messages
        (λ s. some s)
        "c2"
        "bob"
        (delete_conversation (λ s. some s) "c1" "ann" (some db)).1
      ≡ list_messages (λ s. some s) "c2" "bob" (some db))
    × (get_conversation
          (λ s. some s)
          "c2"
          "bob"
          (delete_conversation (λ s. some s) "c1" "ann" (some db)).1
        ≡ get_conversation (λ s. some s) "c2" "bob" (some db))
delete_conversation-isolated_example =
    delete_conversation-isolated (λ s. some s) "c1" "c2" ann bob db owned apart
