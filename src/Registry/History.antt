-- ===== src/Registry/History.antt =====
-- aqr/registry/store.py: what list_chat_history returns.
use mathlib.Core.List.{Perm, reverse}
use pigeon_trade.Common.{
  ℕ, ◌≤◌, min, String, List, ◌++◌, keep, take, drop, length, All, ◌==◌, ◌≡◌, refl, sym, subst, ap,
  ◌∙◌, take-append-drop, length-take,
}
use pigeon_trade.Common.Sort.{IsDescending, take-dominates, take-IsDescending}
use pigeon_trade.Common.Perm.{length-perm}
use pigeon_trade.Registry.{Tables, ChatMessage, Ordering, message_key, list_chat_history}

-- The messages of the session.
abbrev pub messages_of : String → Tables → List ChatMessage
messages_of session db = keep (λ m. m.session_id == session) db.messages

module _ (order : Ordering) where
  -- The history is, from the oldest to the newest, messages of the session and nothing else, and the
  -- session's other messages are older or as old as each of them; it has as many as the limit
  -- allows.
  pub list_chat_history_lem :
      (session : String) (limit : ℕ) (db : Tables)
      → (shown : List ChatMessage) × (rest : List ChatMessage) × (list_chat_history order session
            limit db
          ≡ reverse shown)
        × IsDescending message_key shown
        × Perm (shown ++ rest) (messages_of session db)
        × All (λ m. All (λ old. message_key old ≤ message_key m) rest) shown
        × (length shown ≡ min limit (length (messages_of session db)))
  unfolding list_chat_history
  list_chat_history_lem session limit db =
      let mine = messages_of session db in
      let sorted = order.desc message_key mine in
      let d = order.desc-IsDescending message_key mine in
      let p = order.desc-perm message_key mine in
      (
        take limit sorted,
        drop limit sorted,
        refl,
        take-IsDescending message_key limit sorted d,
        subst (λ ms. Perm ms mine) (sym (take-append-drop limit sorted)) p,
        take-dominates message_key limit sorted d,
        length-take limit sorted ∙ ap (min limit) (length-perm p),
      )
