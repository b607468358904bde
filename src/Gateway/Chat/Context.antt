-- ===== src/Gateway/Chat/Context.antt =====
-- The handler `send_message` of gateway/app/chat.py: what it stores, and what it shows the model.
use inferlog.Prelude.{
  ℕ, suc, ◌≡◌, refl, ap, ◌∙◌, true, false, none, some, List, [], ◌∷◌, ◌++◌, map, take, is_some,
  is_empty, arith,
}
use inferlog.Prelude.Text.{Text, strip}
use inferlog.Gateway.Llm.{Settings}
use inferlog.Gateway.Store.{
  Conversation, Database, Drawn, Role, add_message, add_message-added, message_of, get_conversation,
  get_message, set_title_if_empty, update_conversation, recent_messages,
}
use inferlog.Gateway.Store.History.{recent_messages-added, map-append}
use inferlog.Gateway.Chat.{
  Prepared, streaming, chat_message, build_context, system_prompt_of, user_turn, is_valid_content,
  title_chars, prepare, send_message, Query, Queries, changed_by, store_message,
}

-- The store with the message at the end of the messages, and the title set where there was none.
abbrev pub accepted : Drawn → ℕ → Text → Database → Database
accepted drawn id text db =
    set_title_if_empty id (take title_chars text)
      (record db { messages = db.messages ++ (message_of drawn id (user_turn text) ∷ []) })

-- Every call of the database is answered.
abbrev pub working : Queries
working = record {
  reading = Query.answers;
  adding = Query.answers;
  titling = Query.answers;
  listing = Query.answers;
}

send_message-found :
    (settings : Settings) (drawn : Drawn) (id : ℕ) (content : Text) (db added : Database)
    (conv : Conversation)
    → is_valid_content content ≡ true
    → get_conversation id db ≡ some conv
    → is_empty (strip content) ≡ false
    → add_message drawn id (user_turn (strip content)) db ≡ some added
    → send_message settings working drawn id content db ≡ (
      set_title_if_empty id (take title_chars (strip content)) added,
      streaming (
          prepare settings conv id
            (set_title_if_empty id (take title_chars (strip content)) added)),
    )
unfolding send_message store_message changed_by
send_message-found settings drawn id content db added conv v e f g = ground arith

recent_messages-titled :
    (id limit : ℕ) (title : Text) (db : Database)
    → recent_messages id limit (set_title_if_empty id title db) ≡ recent_messages id limit db
unfolding recent_messages set_title_if_empty update_conversation
recent_messages-titled id limit title db = refl

prepare-context :
    (settings : Settings) (conv : Conversation) (id : ℕ) (db : Database) (n : ℕ)
    (earlier : List (Role × Text)) (last : Role × Text)
    → settings.context_window ≡ suc n
    → recent_messages id (suc n) db ≡ earlier ++ (last ∷ [])
    → (prepare settings conv id db).context
      ≡ record { role = Role.system; content = system_prompt_of settings conv }
        ∷ (map chat_message earlier ++ (chat_message last ∷ []))
unfolding prepare build_context
prepare-context settings conv id db n earlier last e f =
    ap
      (λ ms.
        record { role = Role.system; content = system_prompt_of settings conv }
        ∷ map chat_message ms)
      (ap (λ w. recent_messages id w db) e ∙ f)
    ∙ ap (◌∷◌ (record { role = Role.system; content = system_prompt_of settings conv }))
        (map-append chat_message earlier last)

window-accepted :
    (drawn : Drawn) (id n : ℕ) (text : Text) (db : Database)
    → recent_messages id (suc n) (accepted drawn id text db)
      ≡ recent_messages id n db ++ ((Role.user, text) ∷ [])
window-accepted drawn id n text db =
    let m = message_of drawn id (user_turn text) in
    recent_messages-titled id (suc n) (take title_chars text)
      (record db { messages = db.messages ++ (m ∷ []) })
    ∙ recent_messages-added id n db m (ground arith) refl

-- A valid and not blank message for a conversation that is there, with a fresh identifier and a
-- window of n + 1 turns, is stored, stripped, as the user's turn, and the model is asked, at the
-- conversation's provider, with the system prompt, the last n usable turns from before, and the new
-- message as the last one.
pub send_message-context :
    (settings : Settings) (drawn : Drawn) (id n : ℕ) (content : Text) (db : Database)
    (conv : Conversation)
    → settings.context_window ≡ suc n
    → is_valid_content content ≡ true
    → get_conversation id db ≡ some conv
    → is_empty (strip content) ≡ false
    → get_message drawn.id db ≡ none
    → (prepared : Prepared) × (send_message settings working drawn id content db
        ≡ (accepted drawn id (strip content) db, streaming prepared))
      × (prepared.provider ≡ conv.provider)
      × (prepared.context
          ≡ record { role = Role.system; content = system_prompt_of settings conv }
            ∷ (map chat_message (recent_messages id n db)
                ++ (record { role = Role.user; content = strip content } ∷ [])))
unfolding prepare
send_message-context settings drawn id n content db conv w v e f g =
    let text = strip content in
    (
      prepare settings conv id (accepted drawn id text db),
      send_message-found settings drawn id content db _ conv v e f
          (add_message-added drawn id (user_turn text) db (ap is_some e) g),
      refl,
      prepare-context settings conv id (accepted drawn id text db) n (recent_messages id n db)
          (Role.user, text) w (window-accepted drawn id n text db),
    )
