-- ===== src/Gateway/Chat/Refused.antt =====
-- The handler `send_message` of gateway/app/chat.py: which messages it refuses, and what it has stored
-- when it does.
use inferlog.Prelude.{
  ℕ, ◌≡◌, refl, ◌∙◌, Bool, true, false, none, some, [], ◌∷◌, ◌++◌, take, is_some, is_empty,
  if◌then◌else◌, ◌&&◌, not, arith, Bool-cases, Option-cases, inl, inr, ◌⊎◌,
}
use inferlog.Prelude.Text.{Text, strip}
use inferlog.Gateway.Llm.{Settings}
use inferlog.Gateway.Store.{
  Conversation, Database, Drawn, add_message, add_message-messages, message_of, get_conversation,
  set_title_if_empty, update_conversation,
}
use inferlog.Gateway.Chat.{
  Prepared, refused, streaming, user_turn, is_valid_content, title_chars, prepare, send_message,
  Query, Queries, is_answered, changed_by, store_message, Answer,
}

-- The status of a refusal: the checks of the handler, in its order, and 500 past all of them.
abbrev pub refusal : Bool → Bool → Bool → Bool → ℕ
refusal valid read found blank =
    if valid then if read then if found then if blank then 422 else 500 else 404 else 500 else 422

messages-titled :
    (id : ℕ) (title : Text) (db : Database)
    → (set_title_if_empty id title db).messages ≡ db.messages
unfolding set_title_if_empty update_conversation
messages-titled id title db = refl

-- The two changes of the store, of which the second leaves the messages as they are.
abbrev pub changed_twice : Query → Query → Database → Database → Database → Database × Bool
changed_twice adding titling db added titled =
    let stored = changed_by adding db added in
    if stored.1 then changed_by titling added titled else stored

changed_twice-cases :
    (adding titling : Query) (db added titled : Database)
    → titled.messages ≡ added.messages
    → ((adding ≡ Query.fails) × (changed_twice adding titling db added titled ≡ (db, false)))
      ⊎ ((db' : Database) × (changed_twice adding titling db added titled
            ≡ (db', is_answered adding && is_answered titling))
          × (db'.messages ≡ added.messages))
unfolding changed_by
changed_twice-cases Query.fails titling db added titled h = inl (refl, refl)
changed_twice-cases Query.unanswered titling db added titled h = inr (added, refl, refl)
changed_twice-cases Query.answers Query.answers db added titled h = inr (titled, refl, h)
changed_twice-cases Query.answers Query.fails db added titled h = inr (added, refl, refl)
changed_twice-cases Query.answers Query.unanswered db added titled h = inr (titled, refl, h)

module _ (settings : Settings) (queries : Queries) (drawn : Drawn) (id : ℕ) (content : Text)
    (db : Database) where
  -- The message is fit to be stored: it is valid and not blank, and its conversation is there.
  abbrev pub is_acceptable : Bool
  is_acceptable =
      is_valid_content content
      && is_answered queries.reading
      && is_some (get_conversation id db)
      && not (is_empty (strip content))

  -- Exactly the user's turn is added, behind the messages.
  abbrev pub IsTurnAdded : Database → Type 0
  IsTurnAdded db' =
      db'.messages ≡ db.messages ++ (message_of drawn id (user_turn (strip content)) ∷ [])

  -- The insert has no effect: its call fails, or the keys of the table refuse it.
  abbrev pub IsNotAdded : Type 0
  IsNotAdded =
      (queries.adding ≡ Query.fails) ⊎ (add_message drawn id (user_turn (strip content)) db ≡ none)

  -- What becomes of a message, and of the store.
  abbrev pub IsAnswered : Database × Answer → Type 0
  IsAnswered result =
      ((result ≡ (
        db,
        refused (
            refusal (is_valid_content content) (is_answered queries.reading)
              (is_some (get_conversation id db)) (is_empty (strip content))),
      ))
        × ((is_acceptable ≡ false) ⊎ IsNotAdded))
      ⊎ ((db' : Database) × (result ≡ (db', refused 500))
          × (is_acceptable ≡ true)
          × IsTurnAdded db'
          × ((is_answered queries.adding
                && is_answered queries.titling
                && is_answered queries.listing)
              ≡ false))
      ⊎ ((db' : Database) × (prepared : Prepared) × (result ≡ (db', streaming prepared))
          × (is_acceptable ≡ true)
          × IsTurnAdded db'
          × ((is_answered queries.adding
                && is_answered queries.titling
                && is_answered queries.listing)
              ≡ true))

  store_message-none :
      add_message drawn id (user_turn (strip content)) db ≡ none
      → store_message queries drawn id (strip content) db ≡ (db, false)
  unfolding store_message
  store_message-none e = ground arith

  store_message-some :
      (added : Database)
      → add_message drawn id (user_turn (strip content)) db ≡ some added
      → store_message queries drawn id (strip content) db
        ≡ changed_twice queries.adding queries.titling db added
            (set_title_if_empty id (take title_chars (strip content)) added)
  unfolding store_message
  store_message-some added e = ground arith

  -- The store after the insert and the title, and whether the handler goes on.
  store_message-cases :
      ((store_message queries drawn id (strip content) db ≡ (db, false)) × IsNotAdded)
      ⊎ ((db' : Database) × (store_message queries drawn id (strip content) db
            ≡ (db', is_answered queries.adding && is_answered queries.titling))
          × IsTurnAdded db')
  store_message-cases = elim (Option-cases (add_message drawn id (user_turn (strip content)) db)) [
    | inl e ↦ inl (store_message-none e, inr e)
    | inr (added, e) ↦
        let title = take title_chars (strip content) in
        let whole = add_message-messages drawn id (user_turn (strip content)) db added e in
        elim (changed_twice-cases queries.adding queries.titling db added
          (set_title_if_empty id title added) (messages-titled id title added)) [
            | inl (f, g) ↦ inl (store_message-some added e ∙ g, inl f)
            | inr (db', g, h) ↦ inr (db', store_message-some added e ∙ g, h ∙ whole)
          ]
  ]

  send_message-unacceptable :
      is_acceptable ≡ false
      → send_message settings queries drawn id content db ≡ (
        db,
        refused (
            refusal
              (is_valid_content content)
              (is_answered queries.reading)
              (is_some (get_conversation id db))
              (is_empty (strip content))),
      )
  unfolding send_message
  send_message-unacceptable h = ground (
    arith,
    Option-cases (get_conversation id db),
    Bool-cases (is_valid_content content),
    Bool-cases (is_answered queries.reading),
    Bool-cases (is_empty (strip content)),
  )

  send_message-acceptable :
      (conv : Conversation)
      → is_acceptable ≡ true
      → get_conversation id db ≡ some conv
      → let stored = store_message queries drawn id (strip content) db in
        send_message settings queries drawn id content db ≡ (
          if stored.1 && is_answered queries.listing
          then (stored.0, streaming (prepare settings conv id stored.0))
          else (stored.0, refused 500))
  unfolding send_message
  send_message-acceptable conv h e = ground arith

  -- A message is refused, with the store as it was, and then either it is not valid (422), its
  -- conversation cannot be read (500) or is not there (404), or it is blank (422), the first of these
  -- in this order, or the insert of its turn has no effect (500). Or it is valid and not blank, its
  -- conversation is there, and exactly the user's turn is added behind the messages: then the reply is
  -- a 500 exactly if a call of the database after that raises, the call of the insert itself among
  -- them, and else the stream starts.
  pub send_message-refused : IsAnswered (send_message settings queries drawn id content db)
  send_message-refused = elim (Bool-cases is_acceptable) [
    | inr n ↦ inl (send_message-unacceptable n, inl n)
    | inl y ↦ elim (Option-cases (get_conversation id db)) [
      | inl e ↦ ground arith
      | inr (conv, e) ↦ elim store_message-cases [
        | inl (f, g) ↦ inl (send_message-acceptable conv y e ∙ rw f (ground arith), inr g)
        | inr (db', f, g) ↦
            elim (Bool-cases (
              is_answered queries.adding
              && is_answered queries.titling
              && is_answered queries.listing)) [
                | inl k ↦ inr (
                    inr (
                      db',
                      prepare settings conv id db',
                      send_message-acceptable conv y e ∙ rw f (ground arith),
                      y,
                      g,
                      k,
                    ))
                | inr k ↦
                    inr (inl (db', send_message-acceptable conv y e ∙ rw f (ground arith), y, g, k))
              ]
      ]
    ]
  ]
