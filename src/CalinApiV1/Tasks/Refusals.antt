-- ===== src/CalinApiV1/Tasks/Refusals.antt =====
-- Which sends of src/plugins/calin-api-v1/outgoing.ts are given up, and which are accepted.
use nxt_device_messaging.Common.{
  ℕ, ◌+◌, ◌<◌, ltb, lt→ltb, ◌==◌, ◌&&◌, ◌⊎◌, ◌↔◌, sym, ap, subst, All, some_inj, Option-cases, Text,
  txt, is_text, ◌≡◌, ◌≢◌, refl, ◌∙◌, Bool, true, false, Bool-cases, inl, inr, Option, none, some,
  [], ◌∷◌, arith, if◌then◌else◌,
}
use nxt_device_messaging.Message.{
  CommandType, read_voltage, read_current, read_power, read_power_limit, read_credit, read_version,
  read_date, read_time, turn_on, turn_off, set_date, set_time, clear_credit, clear_tamper,
  set_power_limit, top_up_kwh, deliver_preexisting_token, read_report, join_network, Phase,
  RequestPayload, date_payload, time_payload, RequestData, DeviceMessage,
}
use nxt_device_messaging.Engine.Outgoing
use nxt_device_messaging.CalinApiV1.{
  CommResult, CommResponse, Sent, answered, failed, failed_with_text, failed_with_number, is_blank,
  to_safe_number_or_null,
}
use nxt_device_messaging.CalinApiV1.Tasks.{
  UtcDate, CommTask, Planned, requests, refuses, Created, read_data_item, format_date, write_of,
  write_date, payload_of, token_of, deliver_token, other_task, task_for, task_of, number_code_of,
  with_task_no, from_result, from_sent, is_99, sent_of, perform, send_one, four_digit_year,
  are_safe, is_calendar_date,
}

abbrev pub has_task_no : Option CommResult → Bool
has_task_no none = false
has_task_no (some result) = elim result.task_no [ [] ↦ false | c ∷ cs ↦ true ]

-- A plan that is no task gives up for good.
abbrev IsFinal : Planned → Type 0
IsFinal (requests t) = Unit
IsFinal (refuses e) = e.skip_retry ≡ true

module _ (utc : ℕ → ℕ → ℕ → UtcDate) (is_space : ℕ → Bool) where
  write_of-IsFinal : (meter_no : Text) (o : Option Text) → IsFinal (write_of utc meter_no o)
  write_of-IsFinal meter_no none = refl
  write_of-IsFinal meter_no (some content) = tt

  write_date-IsFinal :
      (meter_no : Text) (o : Option RequestPayload) → IsFinal (write_date utc meter_no o)
  write_date-IsFinal meter_no none = refl
  write_date-IsFinal meter_no (some (date_payload year month day)) =
      write_of-IsFinal meter_no (format_date utc year month day)
  write_date-IsFinal meter_no (some (time_payload hour minute second)) = refl

  deliver_token-IsFinal :
      (meter_no : Text) (o : Option Text) → IsFinal (deliver_token utc is_space meter_no o)
  deliver_token-IsFinal meter_no none = refl
  deliver_token-IsFinal meter_no (some t) = elim (Bool-cases (is_blank is_space t)) [
    | inl e ↦ rw e refl
    | inr e ↦ rw e tt
  ]

  other_task-IsFinal :
      (c : CommandType) (meter_no : Text) (d : Option RequestData)
      → IsFinal (other_task utc is_space c meter_no d)
  other_task-IsFinal turn_on meter_no d = tt
  other_task-IsFinal turn_off meter_no d = tt
  other_task-IsFinal set_date meter_no d = write_date-IsFinal meter_no (payload_of utc d)
  other_task-IsFinal clear_credit meter_no d = deliver_token-IsFinal meter_no (token_of utc d)
  other_task-IsFinal clear_tamper meter_no d = deliver_token-IsFinal meter_no (token_of utc d)
  other_task-IsFinal set_power_limit meter_no d = deliver_token-IsFinal meter_no (token_of utc d)
  other_task-IsFinal top_up_kwh meter_no d = deliver_token-IsFinal meter_no (token_of utc d)
  other_task-IsFinal deliver_preexisting_token meter_no d =
      deliver_token-IsFinal meter_no (token_of utc d)
  other_task-IsFinal set_time meter_no d = refl
  other_task-IsFinal read_voltage meter_no d = refl
  other_task-IsFinal read_current meter_no d = refl
  other_task-IsFinal read_power meter_no d = refl
  other_task-IsFinal read_power_limit meter_no d = refl
  other_task-IsFinal read_credit meter_no d = refl
  other_task-IsFinal read_version meter_no d = refl
  other_task-IsFinal read_date meter_no d = refl
  other_task-IsFinal read_time meter_no d = refl
  other_task-IsFinal read_report meter_no d = refl
  other_task-IsFinal join_network meter_no d = refl

  task_for-IsFinal : (o : Option Text) (m : DeviceMessage) → IsFinal (task_for utc is_space o m)
  task_for-IsFinal none m =
      other_task-IsFinal m.command_type m.device.external_reference m.request_data
  task_for-IsFinal (some item) m = tt

-- A year below one hundred is one of this century.
abbrev pub full_year_of : ℕ → ℕ
full_year_of year = if ltb year 100 then 2000 + year else year

-- A vendor's task needs a date of the calendar: safe integers that Date.UTC gives back.
pub record IsCalendarDate (utc : ℕ → ℕ → ℕ → UtcDate) (year month day : ℕ) : Type 0 where
  pub year_safe : year < 9007199254740992
  pub month_safe : month < 9007199254740992
  pub day_safe : day < 9007199254740992
  pub same_year : (utc (full_year_of year) month day).year ≡ full_year_of year
  pub same_month : (utc (full_year_of year) month day).month ≡ month
  pub same_day : (utc (full_year_of year) month day).day ≡ day

abbrev pub LacksDate : (ℕ → ℕ → ℕ → UtcDate) → Option RequestPayload → Type 0
LacksDate utc none = Unit
LacksDate utc (some (date_payload year month day)) = IsCalendarDate utc year month day → ⊥
LacksDate utc (some (time_payload hour minute second)) = Unit

-- No token, or one of white space alone.
abbrev pub LacksToken : (ℕ → Bool) → Option Text → Type 0
LacksToken is_space none = Unit
LacksToken is_space (some t) = All (λ c. is_space c ≡ true) t

abbrev payload_in : Option RequestData → Option RequestPayload
payload_in none = none
payload_in (some d) = d.payload

abbrev token_in : Option RequestData → Option Text
token_in none = none
token_in (some d) = d.token

-- The vendor has no task for the command, or the message lacks what the task needs.
abbrev pub AsksNothing :
    (ℕ → ℕ → ℕ → UtcDate) → (ℕ → Bool) → CommandType → Option RequestData → Type 0
AsksNothing utc is_space read_voltage d = ⊥
AsksNothing utc is_space read_current d = ⊥
AsksNothing utc is_space read_power d = ⊥
AsksNothing utc is_space read_power_limit d = ⊥
AsksNothing utc is_space read_credit d = ⊥
AsksNothing utc is_space read_version d = ⊥
AsksNothing utc is_space read_date d = ⊥
AsksNothing utc is_space turn_on d = ⊥
AsksNothing utc is_space turn_off d = ⊥
AsksNothing utc is_space set_date d = LacksDate utc (payload_in d)
AsksNothing utc is_space clear_credit d = LacksToken is_space (token_in d)
AsksNothing utc is_space clear_tamper d = LacksToken is_space (token_in d)
AsksNothing utc is_space set_power_limit d = LacksToken is_space (token_in d)
AsksNothing utc is_space top_up_kwh d = LacksToken is_space (token_in d)
AsksNothing utc is_space deliver_preexisting_token d = LacksToken is_space (token_in d)
AsksNothing utc is_space set_time d = Unit
AsksNothing utc is_space read_time d = Unit
AsksNothing utc is_space read_report d = Unit
AsksNothing utc is_space join_network d = Unit

abbrev Refuses : Planned → Type 0
Refuses (requests t) = ⊥
Refuses (refuses e) = Unit

module _ (utc : ℕ → ℕ → ℕ → UtcDate) (is_space : ℕ → Bool) where
  blank_iff : (t : Text) → (is_blank is_space t ≡ true) ↔ All (λ c. is_space c ≡ true) t
  blank_iff [] = ((λ e. tt), (λ h. refl))
  blank_iff (c ∷ cs) =
      let (to, from) = blank_iff cs in
      elim (Bool-cases (is_space c)) [
        | inl e ↦ rw e ((λ f. (refl, to f)), (λ h. from h.1))
        | inr e ↦ rw e ((λ f. cc), (λ h. cc h.0))
      ]

  token-Refuses :
      (meter_no : Text) (o : Option Text)
      → Refuses (deliver_token utc is_space meter_no o) ↔ LacksToken is_space o
  token-Refuses meter_no none = ((λ r. tt), (λ h. tt))
  token-Refuses meter_no (some t) = elim (Bool-cases (is_blank is_space t)) [
    | inl e ↦ rw e ((λ r. (blank_iff t).0 e), (λ h. tt))
    | inr e ↦ rw e (absurd, (λ h. cc ((blank_iff t).1 h, e)))
  ]

  abbrev dated : ℕ → ℕ → ℕ → Bool
  dated year month day =
      are_safe year month day && is_calendar_date utc (four_digit_year year) month day

  equal : (a b : ℕ) → a ≡ b → (a == b) ≡ true
  equal a b e = ground arith

  dated_iff :
      (year month day : ℕ) → (dated year month day ≡ true) ↔ IsCalendarDate utc year month day
  dated_iff year month day = (to, from)
    where
      to : dated year month day ≡ true → IsCalendarDate utc year month day
      to e = record {
        year_safe = ground arith;
        month_safe = ground arith;
        day_safe = ground arith;
        same_year = ground arith;
        same_month = ground arith;
        same_day = ground arith;
      }

      from : IsCalendarDate utc year month day → dated year month day ≡ true
      from d =
          let date = utc (full_year_of year) month day in
          let safe : are_safe year month day ≡ true =
            rw (lt→ltb year _ d.year_safe, lt→ltb month _ d.month_safe, lt→ltb day _ d.day_safe)
              refl in
          let given : is_calendar_date utc (full_year_of year) month day ≡ true =
            rw
              (
                equal date.year _ d.same_year,
                equal date.month _ d.same_month,
                equal date.day _ d.same_day,
              )
              refl in
          rw (safe, given) refl

  date-Refuses :
      (meter_no : Text) (o : Option RequestPayload)
      → Refuses (write_date utc meter_no o) ↔ LacksDate utc o
  date-Refuses meter_no none = ((λ r. tt), (λ h. tt))
  date-Refuses meter_no (some (time_payload hour minute second)) = ((λ r. tt), (λ h. tt))
  date-Refuses meter_no (some (date_payload year month day)) =
      elim (Bool-cases (dated year month day)) [
        | inl e ↦ rw e (absurd, (λ h. h ((dated_iff year month day).0 e)))
        | inr e ↦ rw e ((λ r d. cc ((dated_iff year month day).1 d, e)), (λ h. tt))
      ]

  other-Refuses :
      (c : CommandType) (m : DeviceMessage)
      → read_data_item c m.phase ≡ none
      → Refuses (other_task utc is_space c m.device.external_reference m.request_data)
        ↔ AsksNothing utc is_space c m.request_data
  other-Refuses read_voltage m e = absurd (cc)
  other-Refuses read_current m e = absurd (cc)
  other-Refuses read_power m e = absurd (cc)
  other-Refuses read_power_limit m e = absurd (cc)
  other-Refuses read_credit m e = absurd (cc)
  other-Refuses read_version m e = absurd (cc)
  other-Refuses read_date m e = absurd (cc)
  other-Refuses turn_on m e = (absurd, absurd)
  other-Refuses turn_off m e = (absurd, absurd)
  other-Refuses set_date m e = date-Refuses m.device.external_reference (payload_in m.request_data)
  other-Refuses clear_credit m e =
      token-Refuses m.device.external_reference (token_in m.request_data)
  other-Refuses clear_tamper m e =
      token-Refuses m.device.external_reference (token_in m.request_data)
  other-Refuses set_power_limit m e =
      token-Refuses m.device.external_reference (token_in m.request_data)
  other-Refuses top_up_kwh m e = token-Refuses m.device.external_reference (token_in m.request_data)
  other-Refuses deliver_preexisting_token m e =
      token-Refuses m.device.external_reference (token_in m.request_data)
  other-Refuses set_time m e = ((λ r. tt), (λ h. tt))
  other-Refuses read_time m e = ((λ r. tt), (λ h. tt))
  other-Refuses read_report m e = ((λ r. tt), (λ h. tt))
  other-Refuses join_network m e = ((λ r. tt), (λ h. tt))

  reads-AsksNothing :
      (c : CommandType) (phase : Option Phase) (item : Text) (d : Option RequestData)
      → read_data_item c phase ≡ some item
      → AsksNothing utc is_space c d
      → ⊥
  reads-AsksNothing c phase item d e h = ground arith

  task_of-Refuses :
      (m : DeviceMessage)
      → Refuses (task_of utc is_space m) ↔ AsksNothing utc is_space m.command_type m.request_data
  unfolding task_of
  task_of-Refuses m = elim (Option-cases (read_data_item m.command_type m.phase)) [
    | inl e ↦ rw e (other-Refuses m.command_type m e)
    | inr (item, e) ↦ rw e (absurd, reads-AsksNothing m.command_type m.phase item m.request_data e)
  ]

requests_inj : {t u : CommTask} → requests t ≡ requests u → t ≡ u
requests_inj e = cc

module _ {N : Type 0} (utc : ℕ → ℕ → ℕ → UtcDate) (number : Text → Option N) (show : N → Text)
    (is_space : ℕ → Bool) where
  -- The send is refused, and is not to be tried again.
  abbrev pub is_given_up : Outgoing.Sent → Bool
  is_given_up (Outgoing.accepted id) = false
  is_given_up (Outgoing.refused c) = c.skip_retry

  -- The vendor's code is the number 99.
  abbrev pub code_is_99 : CommResponse → Bool
  code_is_99 r = is_99 utc number show is_space (
      number_code_of utc number show is_space
        (to_safe_number_or_null number is_space (some r.result_code)))

  abbrev pub rejects : Sent → Bool
  rejects (answered r) = if has_task_no r.result then false else code_is_99 r
  rejects (failed message) = false
  rejects (failed_with_text message code) = false
  rejects (failed_with_number message code) = is_text (txt "99") code

  abbrev pub is_hopeless : (CommTask → Sent) → Planned → Bool
  is_hopeless send (requests t) = rejects (send t)
  is_hopeless send (refuses e) = true

  abbrev given_up : Created → Bool
  given_up c = is_given_up (sent_of utc number show is_space c)

  with_task_no-given_up :
      (t : CommTask) (r : CommResponse) (task_no : Text)
      → given_up (with_task_no utc number show is_space t r task_no)
        ≡ (if elim task_no [ [] ↦ false | c ∷ cs ↦ true ] then false else code_is_99 r)
  with_task_no-given_up t r [] = refl
  with_task_no-given_up t r (c ∷ cs) = refl

  from_result-given_up :
      (t : CommTask) (r : CommResponse) (o : Option CommResult)
      → given_up (from_result utc number show is_space t r o)
        ≡ (if has_task_no o then false else code_is_99 r)
  from_result-given_up t r none = refl
  from_result-given_up t r (some result) = with_task_no-given_up t r result.task_no

  from_sent-given_up :
      (t : CommTask) (sent : Sent)
      → given_up (from_sent utc number show is_space t sent) ≡ rejects sent
  from_sent-given_up t (answered r) = from_result-given_up t r r.result
  from_sent-given_up t (failed message) = refl
  from_sent-given_up t (failed_with_text message code) = refl
  from_sent-given_up t (failed_with_number message code) = refl

  perform-given_up :
      (send : CommTask → Sent) (planned : Planned)
      → IsFinal planned
      → is_given_up (perform utc number show is_space send planned) ≡ is_hopeless send planned
  perform-given_up send (requests t) final = from_sent-given_up t (send t)
  perform-given_up send (refuses e) final = rw final refl

  hopeless :
      (send : CommTask → Sent) (m : DeviceMessage)
      → is_given_up (send_one utc number show is_space send m)
        ≡ is_hopeless send (task_of utc is_space m)
  unfolding send_one task_of
  hopeless send m =
      perform-given_up send (task_for utc is_space (read_data_item m.command_type m.phase) m)
        (task_for-IsFinal utc is_space (read_data_item m.command_type m.phase) m)

  -- The vendor has taken the task for one that is never to be sent again: it answers with the number 99
  -- for a code and without a task number, or its HTTP status reads as 99.
  abbrev pub Rejected : Sent → Type 0
  Rejected (answered r) =
      (has_task_no r.result ≡ false)
      × (n : N) × (to_safe_number_or_null number is_space (some r.result_code) ≡ some n)
      × (show n ≡ txt "99")
  Rejected (failed message) = ⊥
  Rejected (failed_with_text message code) = ⊥
  Rejected (failed_with_number message code) = code ≡ txt "99"

  is_text_iff : (t u : Text) → (is_text t u ≡ true) ↔ (u ≡ t)
  is_text_iff t u = (λ e. ground arith, λ e. ground arith)

  code-Rejected :
      (o : Option N)
      → (is_99 utc number show is_space (number_code_of utc number show is_space o) ≡ true)
        ↔ ((n : N) × (o ≡ some n) × (show n ≡ txt "99"))
  code-Rejected none = ((λ e. cc), (λ (n, e, f). cc))
  code-Rejected (some n) =
      let (to, from) = is_text_iff (txt "99") (show n) in
      ((λ e. (n, refl, to e)), (λ (k, e, f). from (ap show (some_inj e) ∙ f)))

  rejects_iff : (sent : Sent) → (rejects sent ≡ true) ↔ Rejected sent
  rejects_iff (failed message) = ((λ e. cc), absurd)
  rejects_iff (failed_with_text message code) = ((λ e. cc), absurd)
  rejects_iff (failed_with_number message code) = is_text_iff (txt "99") code
  rejects_iff (answered r) =
      let (to, from) =
        code-Rejected (to_safe_number_or_null number is_space (some r.result_code)) in
      elim (Bool-cases (has_task_no r.result)) [
        | inl e ↦ rw e ((λ f. cc), (λ h. cc h.0))
        | inr e ↦
            rw e ((λ f. let (n, g, k) = to f in (refl, n, g, k)), (λ (a, n, g, k). from (n, g, k)))
      ]

  planned_iff :
      (send : CommTask → Sent) (m : DeviceMessage) (planned : Planned)
      → task_of utc is_space m ≡ planned
      → (is_hopeless send planned ≡ true) ↔ (
          AsksNothing utc is_space m.command_type m.request_data
          ⊎ ((t : CommTask) × (task_of utc is_space m ≡ requests t) × Rejected (send t)))
  planned_iff send m (refuses x) e =
      ((λ h. inl ((task_of-Refuses utc is_space m).0 (subst Refuses (sym e) tt))), (λ h. refl))
  planned_iff send m (requests t) e = (to, from)
    where
      to :
          rejects (send t) ≡ true
          → AsksNothing utc is_space m.command_type m.request_data
            ⊎ ((t : CommTask) × (task_of utc is_space m ≡ requests t) × Rejected (send t))
      to h = inr (t, e, (rejects_iff (send t)).0 h)

      from :
          AsksNothing utc is_space m.command_type m.request_data
            ⊎ ((t : CommTask) × (task_of utc is_space m ≡ requests t) × Rejected (send t))
          → rejects (send t) ≡ true
      from (inl nothing) = absurd (subst Refuses e ((task_of-Refuses utc is_space m).1 nothing))
      from (inr (u, f, r)) =
          (rejects_iff (send t)).1
            (subst (λ (x : CommTask). Rejected (send x)) (requests_inj (sym f ∙ e)) r)

  -- A send is refused for good exactly when the message asks for no task (a command that the vendor has
  -- no task for, a set date with no date payload or with no date of the calendar, a token command with a
  -- token that is missing or blank), or its task is answered with the number 99 for a code and no task
  -- number, or fails with a number that is written 99. Every other refusal is retried.
  pub send_one-given_up :
      (send : CommTask → Sent) (m : DeviceMessage)
      → (is_given_up (send_one utc number show is_space send m) ≡ true) ↔ (
          AsksNothing utc is_space m.command_type m.request_data
          ⊎ ((t : CommTask) × (task_of utc is_space m ≡ requests t) × Rejected (send t)))
  send_one-given_up send m =
      let (to, from) = planned_iff send m (task_of utc is_space m) refl in
      ((λ e. to (sym (hopeless send m) ∙ e)), (λ h. hopeless send m ∙ from h))

  -- What an accepted send stands on.
  pub record Accepted (send : CommTask → Sent) (m : DeviceMessage) (id : Text) : Type 0 where
    pub task : CommTask
    pub response : CommResponse
    pub result : CommResult
    pub planned : task_of utc is_space m ≡ requests task
    pub answer : send task ≡ answered response
    pub has_result : response.result ≡ some result
    pub task_number : result.task_no ≡ id
    pub not_empty : id ≢ []

  module _ (send : CommTask → Sent) (m : DeviceMessage) (id : Text) (t : CommTask)
      (planned : task_of utc is_space m ≡ requests t) where
    task_no-Accepted :
        (r : CommResponse) (result : CommResult) (task_no : Text)
        → send t ≡ answered r
        → r.result ≡ some result
        → result.task_no ≡ task_no
        → sent_of utc number show is_space (with_task_no utc number show is_space t r task_no)
          ≡ Outgoing.accepted id
        → Accepted send m id
    task_no-Accepted r result [] a e f g = absurd (ground arith)
    task_no-Accepted r result (c ∷ cs) a e f g =
        let same : c ∷ cs ≡ id = ground arith in
        record {
          task = t;
          response = r;
          result = result;
          planned = planned;
          answer = a;
          has_result = e;
          task_number = f ∙ same;
          not_empty = λ empty. absurd (ground arith);
        }

    result-Accepted :
        (r : CommResponse) (o : Option CommResult)
        → send t ≡ answered r
        → r.result ≡ o
        → sent_of utc number show is_space (from_result utc number show is_space t r o)
          ≡ Outgoing.accepted id
        → Accepted send m id
    result-Accepted r none a e g = absurd (ground arith)
    result-Accepted r (some result) a e g = task_no-Accepted r result result.task_no a e refl g

    sent-Accepted :
        (sent : Sent)
        → send t ≡ sent
        → sent_of utc number show is_space (from_sent utc number show is_space t sent)
          ≡ Outgoing.accepted id
        → Accepted send m id
    sent-Accepted (answered r) a g = result-Accepted r r.result a refl g
    sent-Accepted (failed message) a g = absurd (ground arith)
    sent-Accepted (failed_with_text message code) a g = absurd (ground arith)
    sent-Accepted (failed_with_number message code) a g = absurd (ground arith)

  planned-Accepted :
      (send : CommTask → Sent) (m : DeviceMessage) (id : Text) (planned : Planned)
      → task_of utc is_space m ≡ planned
      → perform utc number show is_space send planned ≡ Outgoing.accepted id
      → Accepted send m id
  planned-Accepted send m id (requests t) e g = sent-Accepted send m id t e (send t) refl g
  planned-Accepted send m id (refuses x) e g = absurd (ground arith)

  -- A send is accepted under an id only if the message asks for a task, the vendor has answered its
  -- request with a result, and the id is the task number of that result, which is not empty.
  pub send_one-Accepted :
      (send : CommTask → Sent) (m : DeviceMessage) (id : Text)
      → send_one utc number show is_space send m ≡ Outgoing.accepted id
      → Accepted send m id
  unfolding send_one
  send_one-Accepted send m id e = planned-Accepted send m id (task_of utc is_space m) refl e
