-- ===== src/CalinApiV2.antt =====
-- src/plugins/calin-api-v2: the poll of a task (incoming.ts), the client with its cached login
-- (lib/repo.ts), and the tasks that messages ask for (outgoing.ts). The fields of an answer that the
-- code does not read are left out. `number` is JavaScript's Number() of a text, where that is finite,
-- `is_space` what its trim() takes away; `N` is its finite numbers.
pub mod Status
pub mod Client
pub mod Tasks
use nxt_device_messaging.Common.{
  ℕ, Text, txt, is_text, Bool, true, false, Option, none, some, [], ◌∷◌, reverse, get_elem?,
  if◌then◌else◌,
}
use nxt_device_messaging.CalinApiV1.{
  TaskType, read_task, control_task, write_task, token_task, split, space, hyphen,
  to_safe_number_or_null,
}

abbrev pub task_data_path : TaskType → Text
task_data_path read_task = txt "/API/RemoteMeterTask/GetReadingTask"
task_data_path control_task = txt "/API/RemoteMeterTask/GetControlTask"
task_data_path write_task = txt "/API/RemoteMeterTask/GetSettingTask"
task_data_path token_task = txt "/API/RemoteMeterTask/GetTokenTask"

-- A value is a number or a text.
pub data DataValue (N : Type 0) : Type 0 where
  a_number : N → DataValue N
  a_text : Text → DataValue N

-- `outside` is a status that is neither 0 nor 1 nor from 2 upwards.
pub data TaskStatus : Type 0 where
  outside : TaskStatus
  whole : ℕ → TaskStatus

pub record TaskDataRow (N : Type 0) : Type 0 where
  pub name : Text
  pub status : TaskStatus
  pub value : DataValue N

-- The reason, and the first row of the data, if there is one.
pub record TaskDataResponse (N : Type 0) : Type 0 where
  pub reason : Option Text
  pub row : Option (TaskDataRow N)

pub data TaskContent (N : Type 0) : Type 0 where
  kwh_credit_available voltage power current power_limit : Option N → TaskContent N
  version : DataValue N → TaskContent N
  date : Option N → Option N → Option N → TaskContent N
  turn_on_accepted turn_off_accepted date_accepted token_accepted : TaskContent N

abbrev pub trim_start : (ℕ → Bool) → Text → Text
trim_start is_space [] = []
trim_start is_space (c ∷ cs) =
    let rest = trim_start is_space cs in if is_space c then rest else c ∷ cs

abbrev pub trim : (ℕ → Bool) → Text → Text
trim is_space t = reverse (trim_start is_space (reverse (trim_start is_space t)))

abbrev pub is_write : TaskType → Bool
is_write read_task = false
is_write control_task = false
is_write write_task = true
is_write token_task = false

-- `data === 'Connected'`.
abbrev pub is_connected : {N : Type 0} → DataValue N → Bool
is_connected (a_number n) = false
is_connected (a_text t) = is_text (txt "Connected") t

module _ {N : Type 0} (number : Text → Option N) (show : N → Text) (is_space : ℕ → Bool) where
  abbrev pub safe_number : DataValue N → Option N
  safe_number (a_number n) = some n
  safe_number (a_text t) = to_safe_number_or_null number is_space (some t)

  -- `String(data)`.
  abbrev pub as_text : DataValue N → Text
  as_text (a_number n) = show n
  as_text (a_text t) = t

  abbrev pub date_part_of : Option Text → Text
  date_part_of none = []
  date_part_of (some t) = t

  abbrev pub read_clock : Text → TaskContent N
  read_clock t =
      let parts = split hyphen (date_part_of (get_elem? (split space t) 0)) in
      date (to_safe_number_or_null number is_space (get_elem? parts 0))
        (to_safe_number_or_null number is_space (get_elem? parts 1))
        (to_safe_number_or_null number is_space (get_elem? parts 2))

  -- By the trimmed name; none is a command that is not known, which succeeded all the same.
  unfoldable pub parse_task_data : Text → DataValue N → TaskType → Option (TaskContent N)
  parse_task_data name value task =
      if is_text (txt "Current Credit Balance") name
      then some (kwh_credit_available (safe_number value))
      else if is_text (txt "Phase-A Voltage") name
      then some (voltage (safe_number value))
      else if is_text (txt "Power") name
      then some (power (safe_number value))
      else if is_text (txt "Phase-A Current(A)") name
      then some (current (safe_number value))
      else if is_text (txt "Maximum power threshold") name
      then some (power_limit (safe_number value))
      else if is_text (txt "Meter Firmware Version") name
      then some (version value)
      else if is_text (txt "Relay On/Off") name
      then some (if is_connected value then turn_on_accepted else turn_off_accepted)
      else if is_text (txt "Clock(time)") name
      then some (if is_write task then date_accepted else read_clock (as_text value))
      else if is_text (txt "Token") name
      then some token_accepted
      else none
