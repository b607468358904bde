-- ===== src/Gateway/Store/History.antt =====
-- The window of a conversation that gateway/app/db.py reads for the model.
use inferlog.Prelude.{
  ℕ, suc, ◌≡◌, refl, ap, ◌∙◌, Bool, true, List, [], ◌∷◌, ◌++◌, map, filter, filter-append,
  take_last, take_last-append,
}
use inferlog.Prelude.Text.{Text}
use inferlog.Gateway.Store.{
  Database, Message, Role, is_of, is_usable, get_messages, recent_messages,
}

-- What the model may be shown of a conversation, the oldest first.
unfoldable pub usable_history : ℕ → Database → List Message
usable_history id db = filter is_usable (get_messages id db)

abbrev pub shown : Message → Role × Text
shown m = (m.role, m.content)

pub map-append {ℓ} :
    {A B : Type ℓ} (f : A → B) (xs : List A) (y : A)
    → map f (xs ++ (y ∷ [])) ≡ map f xs ++ (f y ∷ [])
map-append f [] y = refl
map-append f (x ∷ xs) y = ap (◌∷◌ (f x)) (map-append f xs y)

filter-last {ℓ} :
    {A : Type ℓ} (p : A → Bool) (xs : List A) (y : A)
    → p y ≡ true
    → filter p (xs ++ (y ∷ [])) ≡ filter p xs ++ (y ∷ [])
unfolding filter
filter-last p xs y h = filter-append p xs (y ∷ []) ∙ rw h refl

-- One more message of the conversation.
usable_history-added :
    (id : ℕ) (db : Database) (m : Message)
    → is_of id m ≡ true
    → is_usable m ≡ true
    → usable_history id (record db { messages = db.messages ++ (m ∷ []) })
      ≡ usable_history id db ++ (m ∷ [])
unfolding usable_history get_messages
usable_history-added id db m h k =
    rw (filter-last (is_of id) db.messages m h)
      (filter-last is_usable (filter (is_of id) db.messages) m k)

-- After a turn that is not in error, a window of n + 1 turns is the window of n before it and the
-- turn itself at the end.
pub recent_messages-added :
    (id n : ℕ) (db : Database) (m : Message)
    → is_of id m ≡ true
    → is_usable m ≡ true
    → recent_messages id (suc n) (record db { messages = db.messages ++ (m ∷ []) })
      ≡ recent_messages id n db ++ (shown m ∷ [])
unfolding recent_messages usable_history
recent_messages-added id n db m h k =
    let history = usable_history id db in
    ap (λ ms. map shown (take_last (suc n) ms)) (usable_history-added id db m h k)
    ∙ ap (map shown) (take_last-append n history m)
    ∙ map-append shown (take_last n history) m
