-- ===== src/Notify.antt =====
-- internal/notify/telegram.go: the queue of messages. Their wording and the sending are not modelled.
use coinex_bot.Prelude.{ℕ, Bool, List, [], ◌∷◌, ◌++◌, if◌then◌else◌, ltb, length, Text}
use coinex_bot.Models.{Signal, Order}

-- What a message is made of.
pub data Message (D F : Type 0) : Type 0 where
  signal_message : Signal F → Message D F
  order_message : Order D → Message D F
  error_message : Text → Text → Message D F

pub record Telegram (D F : Type 0) : Type 0 where
  pub enabled : Bool
  pub queue : List (Message D F)

abbrev pub queue_capacity : ℕ
queue_capacity = 100

module _ {D F : Type 0} where
  unfoldable pub new_telegram : Bool → Telegram D F
  new_telegram enabled = record { enabled = enabled; queue = [] }

  -- A full queue drops the message.
  unfoldable pub enqueue : Message D F → Telegram D F → Telegram D F
  enqueue msg t =
      if t.enabled
      then (if ltb (length t.queue) queue_capacity
          then record t { queue = t.queue ++ (msg ∷ []) }
          else t)
      else t
