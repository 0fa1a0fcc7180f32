-- ===== src/Persistence/ChatStore/Owners.antt =====
-- persistence/chat_store.py: the data of one user under the operations of another.
use sarvam.Prelude.{
  ◌≡◌, ◌≢◌, refl, sym, ap, ◌∙◌, Bool, true, ◌&&◌, not, Option, some, List, [], ◌∷◌, String, keep,
  any, All, str_eq, eq_iff, arith, Bool-cases, Option-cases, ◌⊎◌, inl, inr,
}
use sarvam.Persistence.ChatStore.{
  Conversation, StoredMessage, Db, owned_by, order_by, delete_conversation, get_conversation,
  list_messages,
}

-- Where all that pass the first test pass the second, keeping twice is keeping once.
keep-keep {ℓ} :
    {A : Type ℓ} (p q : A → Bool) (xs : List A)
    → All (λ x. p x ≡ true → q x ≡ true) xs
    → keep p (keep q xs) ≡ keep p xs
keep-keep p q [] h = refl
keep-keep p q (x ∷ xs) h = ground (arith, keep-keep p q xs h.1, h.0)

-- A message is its conversation's owner's.
unfoldable pub MessageOf : List Conversation → StoredMessage → Type 0
MessageOf cs m = All (λ c. str_eq c.id m.conversation_id ≡ true → c.user_id ≡ m.user_id) cs

unfoldable pub Owned : Db → Type 0
Owned db = All (MessageOf db.conversations) db.messages

-- The owner of a conversation that is there.
owner :
    (cid uid : String) (m : StoredMessage) (cs : List Conversation)
    → MessageOf cs m
    → any (owned_by cid uid) cs ≡ true
    → str_eq m.conversation_id cid ≡ true
    → uid ≡ m.user_id
unfolding MessageOf
owner cid uid m [] h e same = cc
owner cid uid m (c ∷ cs) h e same = elim (Bool-cases (owned_by cid uid c)) [
  | inr no_owner ↦ owner cid uid m cs h.1 (rw no_owner at e) same
  | inl owns ↦
      let same_owner = h.0 (
        ground
          (arith, eq_iff c.id cid, eq_iff m.conversation_id cid, eq_iff c.id m.conversation_id)) in
      let mine : c.user_id ≡ uid = ground (arith, eq_iff c.user_id uid) in sym mine ∙ same_owner
]

-- The messages of another user are not of a conversation that this one owns.
foreign_messages :
    (cid uid x other_uid : String) (cs : List Conversation) (ms : List StoredMessage)
    → All (MessageOf cs) ms
    → any (owned_by cid uid) cs ≡ true
    → uid ≢ other_uid
    → All
        (λ m.
          str_eq m.conversation_id x && str_eq m.user_id other_uid ≡ true
          → not (str_eq m.conversation_id cid) ≡ true)
        ms
foreign_messages cid uid x other_uid cs [] h e apart = tt
foreign_messages cid uid x other_uid cs (m ∷ ms) h e apart = (
  λ listed. elim (Bool-cases (str_eq m.conversation_id cid)) [
    | inr far ↦ rw far refl
    | inl near ↦
        absurd (apart (owner cid uid m cs h.0 e near ∙ ground (arith, eq_iff m.user_id other_uid)))
  ],
  foreign_messages cid uid x other_uid cs ms h.1 e apart,
)

foreign_conversations :
    (cid uid x other_uid : String) (cs : List Conversation)
    → uid ≢ other_uid
    → All (λ c. owned_by x other_uid c ≡ true → not (owned_by cid uid c) ≡ true) cs
foreign_conversations cid uid x other_uid [] apart = tt
foreign_conversations cid uid x other_uid (c ∷ cs) apart = (
  λ theirs. elim (Bool-cases (owned_by cid uid c)) [
    | inr far ↦ rw far refl
    | inl ours ↦ absurd (apart (ground (arith, eq_iff c.user_id uid, eq_iff c.user_id other_uid)))
  ],
  foreign_conversations cid uid x other_uid cs apart,
)

module _ (parse_uuid : String → Option String) where
  -- What is left after a conversation is deleted.
  abbrev left : String → String → Db → Db
  left cid uid db = record {
    conversations = keep (λ c. not (owned_by cid uid c)) db.conversations;
    messages = keep (λ m. not (str_eq m.conversation_id cid)) db.messages;
  }

  delete-left :
      (conversation_id uid : String) (db : Db)
      → ((delete_conversation parse_uuid conversation_id uid (some db)).1 ≡ some db)
        ⊎ ((cid : String) × (any (owned_by cid uid) db.conversations ≡ true)
            × ((delete_conversation parse_uuid conversation_id uid (some db)).1
                ≡ some (left cid uid db)))
  unfolding delete_conversation
  delete-left conversation_id uid db = elim (Option-cases (parse_uuid conversation_id)) [
    | inl e ↦ rw (e, delete_conversation) (inl refl)
    | inr (cid, e) ↦ elim (Bool-cases (any (owned_by cid uid) db.conversations)) [
      | inr foreign ↦ rw (e, foreign, delete_conversation) (inl refl)
      | inl mine ↦ rw (e, mine, delete_conversation) (inr (cid, mine, refl))
    ]
  ]

  list_messages-left :
      (cid uid other_id other_uid : String) (db : Db)
      → Owned db
      → any (owned_by cid uid) db.conversations ≡ true
      → uid ≢ other_uid
      → list_messages parse_uuid other_id other_uid (some (left cid uid db))
        ≡ list_messages parse_uuid other_id other_uid (some db)
  unfolding list_messages Owned
  list_messages-left cid uid other_id other_uid db owned mine apart =
      elim (Option-cases (parse_uuid other_id)) [
        | inl e ↦ rw (e, list_messages) refl
        | inr (x, e) ↦
            rw (e, list_messages)
              (ap (λ ms. order_by (λ m. m.created_at) ms)
                (keep-keep _ _ db.messages (
                  foreign_messages cid uid x other_uid db.conversations db.messages owned mine
                    apart)))
      ]

  get_conversation-left :
      (cid uid other_id other_uid : String) (db : Db)
      → uid ≢ other_uid
      → get_conversation parse_uuid other_id other_uid (some (left cid uid db))
        ≡ get_conversation parse_uuid other_id other_uid (some db)
  unfolding get_conversation
  get_conversation-left cid uid other_id other_uid db apart =
      elim (Option-cases (parse_uuid other_id)) [
        | inl e ↦ rw (e, get_conversation) refl
        | inr (x, e) ↦
            rw
              (
                e,
                get_conversation,
                keep-keep _ _ db.conversations
                    (foreign_conversations cid uid x other_uid db.conversations apart),
              )
              refl
      ]

  -- Where every message is of its conversation's owner: whatever a user deletes, the messages and the
  -- conversations that another user may read stay as they were.
  pub delete_conversation-isolated :
      (conversation_id other_id uid other_uid : String) (db : Db)
      → Owned db
      → uid ≢ other_uid
      → (list_messages parse_uuid other_id other_uid
            (delete_conversation parse_uuid conversation_id uid (some db)).1
          ≡ list_messages parse_uuid other_id other_uid (some db))
        × (get_conversation parse_uuid other_id other_uid
              (delete_conversation parse_uuid conversation_id uid (some db)).1
            ≡ get_conversation parse_uuid other_id other_uid (some db))
  delete_conversation-isolated conversation_id other_id uid other_uid db owned apart =
      elim (delete-left conversation_id uid db) [
        | inl same ↦ rw same (refl, refl)
        | inr (cid, mine, e) ↦ rw e (
          list_messages-left cid uid other_id other_uid db owned mine apart,
          get_conversation-left cid uid other_id other_uid db apart,
        )
      ]
