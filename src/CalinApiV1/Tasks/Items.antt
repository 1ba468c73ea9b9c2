-- ===== src/CalinApiV1/Tasks/Items.antt =====
-- The data items that src/plugins/calin-api-v1/outgoing.ts asks for are those that incoming.ts reads.
use nxt_device_messaging.Common.{ℕ, Text, ◌≡◌, ◌≢◌, ◌⊎◌, Bool, Option, none, some, []}
use nxt_device_messaging.Message.{
  CommandType, read_voltage, read_current, read_power, read_power_limit, read_credit, read_version,
  read_date, Phase,
}
use nxt_device_messaging.CalinApiV1.{
  CommResult, ResponseData, credit, voltage, power, current, power_limit, version, date,
  date_accepted, part, comma, space,
}

module _ {N : Type 0} (number : Text → Option N) (is_space : ℕ → Bool) where
  -- The number before the first comma, and before the first space.
  abbrev pub before_comma : Text → Option N
  before_comma content = part number is_space comma 0 content

  abbrev pub before_space : Text → Option N
  before_space content = part number is_space space 0 content

  -- The data is of the kind that the command asks for, of the phase of the message, with the value of the
  -- content. A date that is empty is taken for the answer to a write.
  abbrev pub Suits : CommandType → Option Phase → Text → ResponseData N → Type 0
  Suits read_credit phase content (credit n on) = before_comma content ≡ some n
  Suits read_voltage phase content (voltage n p) = (before_space content ≡ some n) × (p ≡ phase)
  Suits read_power phase content (power n p) = (n ≡ before_space content) × (p ≡ phase)
  Suits read_current phase content (current n p) = (n ≡ before_space content) × (p ≡ phase)
  Suits read_power_limit phase content (power_limit n) = n ≡ before_space content
  Suits read_version phase content (version t) = t ≡ content
  Suits read_date phase content (date y m d) = content ≢ []
  Suits read_date phase content date_accepted = content ≡ []
  Suits _ phase content _ = ⊥

  -- Only a credit or a voltage whose content has no number in its place is read as no data.
  abbrev pub AllSuit : CommandType → Option Phase → Text → Option (ResponseData N) → Type 0
  AllSuit c phase content (some d) = Suits c phase content d
  AllSuit read_credit phase content none = (content ≡ []) ⊎ (before_comma content ≡ none)
  AllSuit read_voltage phase content none = before_space content ≡ none
  AllSuit _ phase content none = ⊥

  module _ (r : CommResult) where
    abbrev asked : Text → CommResult
    asked item = record r { data_item = item }
