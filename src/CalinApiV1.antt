-- ===== src/CalinApiV1.antt =====
-- src/plugins/calin-api-v1/incoming.ts: the poll of a task. The answer of the vendor is an argument, with
-- the fields that the code reads. `number` is JavaScript's Number() of a text, where that is finite,
-- `is_space` what its trim() takes away.
pub mod Client
pub mod Status
pub mod Poll
pub mod Tasks
use nxt_device_messaging.Common.{
  ℕ, Text, txt, Bool, true, false, ◌&&◌, ◌||◌, Option, none, some, List, [], ◌∷◌, ◌++◌, ◌==◌,
  get_elem?, if◌then◌else◌, is_text,
}
use nxt_device_messaging.Message.{
  CommandType, read_voltage, read_current, read_power, read_power_limit, read_credit, read_version,
  read_date, read_time, turn_on, turn_off, set_date, set_time, clear_credit, clear_tamper,
  set_power_limit, top_up_kwh, deliver_preexisting_token, read_report, join_network, Phase, phase_a,
  phase_b, phase_c, ResponseStatus, execution_success, execution_failure,
}

pub data TaskType : Type 0 where
  read_task control_task write_task token_task : TaskType

-- None for a command that is no task.
abbrev pub task_type : CommandType → Option TaskType
task_type read_voltage = some read_task
task_type read_current = some read_task
task_type read_power = some read_task
task_type read_power_limit = some read_task
task_type read_credit = some read_task
task_type read_version = some read_task
task_type read_date = some read_task
task_type read_time = some read_task
task_type turn_on = some control_task
task_type turn_off = some control_task
task_type set_date = some write_task
task_type set_time = some write_task
task_type clear_credit = some token_task
task_type clear_tamper = some token_task
task_type set_power_limit = some token_task
task_type top_up_kwh = some token_task
task_type deliver_preexisting_token = some token_task
task_type read_report = none
task_type join_network = none

abbrev pub task_path : TaskType → Text
task_path read_task = txt "/COMM_RemoteReadingTask"
task_path control_task = txt "/COMM_RemoteControlTask"
task_path write_task = txt "/COMM_RemoteWriteTask"
task_path token_task = txt "/COMM_RemoteTokenTask"

-- The phase of a data item of one phase.
abbrev pub data_item_to_phase : Text → Option Phase
data_item_to_phase item =
    if is_text (txt "VoltageA") item || is_text (txt "CurrentA") item
    then some phase_a
    else if is_text (txt "VoltageB") item || is_text (txt "CurrentB") item
    then some phase_b
    else if is_text (txt "VoltageC") item || is_text (txt "CurrentC") item
    then some phase_c
    else none

abbrev pub or_phase : Option Phase → Option Phase → Option Phase
or_phase none requested = requested
or_phase (some phase) requested = some phase

pub record CommResult : Type 0 where
  pub task_no : Text
  pub status : Option Text
  pub data_item : Text
  pub content : Text

-- The body of an answer over HTTP 200.
pub record CommResponse : Type 0 where
  pub result : Option CommResult
  pub result_code : Text
  pub reason : Option Text

-- What the request gives: a body, or an error with its message and, from CALIN, a code that is a number
-- or a text.
pub data Sent : Type 0 where
  answered : CommResponse → Sent
  failed : Text → Sent
  failed_with_text failed_with_number : Text → Text → Sent

-- `N` is the numbers of JavaScript.
pub data ResponseData (N : Type 0) : Type 0 where
  credit : N → Bool → ResponseData N
  voltage : N → Option Phase → ResponseData N
  power current : Option N → Option Phase → ResponseData N
  power_limit : Option N → ResponseData N
  version : Text → ResponseData N
  date : Option N → Option N → Option N → ResponseData N
  date_accepted turn_on_accepted turn_off_accepted token_accepted : ResponseData N

pub record ParsedResponse (N : Type 0) : Type 0 where
  pub status : ResponseStatus
  pub content : Option (ResponseData N)
  pub failure_reason : Option Text

-- `t.split(c)`, for one character.
abbrev pub to_first : ℕ → List Text → List Text
to_first c [] = (c ∷ []) ∷ []
to_first c (w ∷ ws) = (c ∷ w) ∷ ws

unfoldable pub split : ℕ → Text → List Text
split d [] = [] ∷ []
split d (c ∷ cs) = let rest = split d cs in if c == d then [] ∷ rest else to_first c rest

abbrev pub space : ℕ
space = 32

abbrev pub comma : ℕ
comma = 44

abbrev pub hyphen : ℕ
hyphen = 45

-- `t.trim() === ''`.
abbrev pub is_blank : (ℕ → Bool) → Text → Bool
is_blank is_space [] = true
is_blank is_space (c ∷ cs) = is_space c && is_blank is_space cs

module _ {N : Type 0} (number : Text → Option N) (is_space : ℕ → Bool) where
  abbrev pub successful : Option (ResponseData N) → ParsedResponse N
  successful content = record {
    status = execution_success;
    content = content;
    failure_reason = none;
  }

  abbrev pub unsuccessful : Text → ParsedResponse N
  unsuccessful reason = record {
    status = execution_failure;
    content = none;
    failure_reason = some reason;
  }

  -- A missing part is no number.
  abbrev pub to_safe_number_or_null : Option Text → Option N
  to_safe_number_or_null none = none
  to_safe_number_or_null (some t) = if is_blank is_space t then none else number t

  abbrev pub part : ℕ → ℕ → Text → Option N
  part d i t = to_safe_number_or_null (get_elem? (split d t) i)

  abbrev pub is_part : Text → Option Text → Bool
  is_part t none = false
  is_part t (some u) = is_text t u

  abbrev pub expecting : Text → Text → ParsedResponse N
  expecting content what = unsuccessful (
      txt "CALIN API-V1 responded with \""
      ++ (content ++ (txt "\" while we were expecting " ++ what)))

  abbrev pub parse_credit_number : Text → Option N → ParsedResponse N
  parse_credit_number content none = expecting content (txt "kWh and relay status")
  parse_credit_number content (some n) =
      successful (some (credit n (is_part (txt "ON") (get_elem? (split comma content) 1))))

  abbrev pub parse_credit : Text → ParsedResponse N
  parse_credit [] = unsuccessful (txt "CALIN API-V1 responded with an empty value")
  parse_credit (c ∷ cs) = parse_credit_number (c ∷ cs) (part comma 0 (c ∷ cs))

  abbrev pub parse_voltage : Text → Option Phase → Option N → ParsedResponse N
  parse_voltage content phase none = expecting content (txt "a voltage number")
  parse_voltage content phase (some n) = successful (some (voltage n phase))

  abbrev pub twentieth : Option Text → Option Text
  twentieth none = none
  twentieth (some year) = some (txt "20" ++ year)

  abbrev pub or_empty : Option Text → Text
  or_empty none = []
  or_empty (some t) = t

  -- An empty value answers a write. A missing year reads as "20undefined", which is no number.
  abbrev pub parse_date : Text → ResponseData N
  parse_date [] = date_accepted
  parse_date (c ∷ cs) =
      let parts = split hyphen (or_empty (get_elem? (split space (c ∷ cs)) 0)) in
      date (to_safe_number_or_null (twentieth (get_elem? parts 0)))
        (to_safe_number_or_null (get_elem? parts 1)) (to_safe_number_or_null (get_elem? parts 2))

  unfoldable pub parse_response_data : CommResult → Option Phase → ParsedResponse N
  parse_response_data r requested =
      let phase = or_phase (data_item_to_phase r.data_item) requested in
      if is_text (txt "Current Credit Register") r.data_item
      then parse_credit r.content
      else if is_text (txt "Voltage") r.data_item
          || is_text (txt "VoltageA") r.data_item
          || is_text (txt "VoltageB") r.data_item
          || is_text (txt "VoltageC") r.data_item
      then parse_voltage r.content phase (part space 0 r.content)
      else if is_text (txt "Power") r.data_item
      then successful (some (power (part space 0 r.content) phase))
      else if is_text (txt "Current") r.data_item
          || is_text (txt "CurrentA") r.data_item
          || is_text (txt "CurrentB") r.data_item
          || is_text (txt "CurrentC") r.data_item
      then successful (some (current (part space 0 r.content) phase))
      else if is_text (txt "Maximum power threshold") r.data_item
      then successful (some (power_limit (part space 0 r.content)))
      else if is_text (txt "Version") r.data_item
      then successful (some (version r.content))
      else if is_text (txt "Date") r.data_item
      then successful (some (parse_date r.content))
      else if is_text (txt "Switch On") r.data_item
      then successful (some turn_on_accepted)
      else if is_text (txt "Switch Off") r.data_item
      then successful (some turn_off_accepted)
      else if is_text (txt "Token") r.data_item
      then successful (some token_accepted)
      else successful none
