-- ===== src/Cron/Plan.antt =====
-- The checks of `cmd_add` and the command line that it builds, and the three commands of tools/cron_tool.py. The
-- model that is anchored in the configuration, the listing of the jobs and the run of a command are parameters.
use dinomem.Prelude.{
  ℕ, Bool, true, false, not, ◌&&◌, ◌||◌, Option, none, some, List, [], ◌∷◌, ◌++◌, ◌==◌, any, filter,
  length, if◌then◌else◌,
}
use dinomem.Prelude.Text.{Text, codes, text_eq, contains}
use dinomem.Cron.Arguments.{
  Args, text_arg, is_given, Job, job, other, resolve_id, name_exists, at, every, cron, Schedule,
  parse_schedule, parse_argv,
}

pub record Host : Type 0 where
  pub upper : Text → Text
  pub lower : Text → Text
  pub cheap_model : Text
  pub jobs : List Job
  pub run : List Text → Bool

pub data Refusal : Type 0 where
  usage exists_already bad_tier bad_target bad_delivery not_one_payload target_contradicts : Refusal
  bad_schedule expensive needs_no_reasoning needs_model needs_gate gate_and_command : Refusal
  needs_confirmation needs_address not_found no_id unknown_command : Refusal

abbrev pub is_text : Text → Bool
is_text [] = false
is_text (c ∷ s) = true

-- The arguments of `add` after the defaults.
pub record Add : Type 0 where
  pub name : Text
  pub tier : Text
  pub has_target : Bool
  pub target : Text
  pub delivery : Text
  pub system_event : Text
  pub command : Text
  pub message : Text
  pub gate : Text
  pub model : Text
  pub agent : Text
  pub to : Text
  pub channel : Text
  pub no_reasoning : Bool
  pub light_context : Bool
  pub confirmed : Bool
  pub schedule : Text

abbrev or_default : Text → Text → Text
or_default [] d = d
or_default (c ∷ s) d = c ∷ s

unfoldable pub add_of : Host → Args → Add
add_of h args = record {
  name = text_arg (codes "name") args;
  tier = h.upper (text_arg (codes "tier") args);
  has_target = is_given (codes "target") args;
  target = h.lower (text_arg (codes "target") args);
  delivery = h.lower (or_default (text_arg (codes "delivery") args) (codes "none"));
  system_event = text_arg (codes "system_event") args;
  command = text_arg (codes "command") args;
  message = text_arg (codes "message") args;
  gate = text_arg (codes "gate") args;
  model = text_arg (codes "model") args;
  agent = text_arg (codes "agent") args;
  to = text_arg (codes "to") args;
  channel = text_arg (codes "channel") args;
  no_reasoning = is_given (codes "no_reasoning") args;
  light_context = is_given (codes "light_context") args;
  confirmed = is_given (codes "confirmed") args;
  schedule = text_arg (codes "schedule") args;
}

abbrev pub is_one_of : List Text → Text → Bool
is_one_of options s = any (text_eq s) options

abbrev pub tiers : List Text
tiers = codes "T0" ∷ codes "T1" ∷ codes "T2" ∷ codes "T3" ∷ []

abbrev pub targets : List Text
targets = codes "main" ∷ codes "isolated" ∷ []

abbrev pub deliveries : List Text
deliveries = codes "none" ∷ codes "announce" ∷ codes "webhook" ∷ []

abbrev pub one : Text → ℕ
one s = if is_text s then 1 else 0

-- how many payloads are given
unfoldable pub payloads : Add → ℕ
payloads a = length (filter is_text (a.system_event ∷ a.command ∷ a.message ∷ a.gate ∷ []))

-- An explicit target that the payload contradicts.
unfoldable pub contradicts : Add → Bool
contradicts a =
    a.has_target
    && (is_text a.system_event && not (text_eq a.target (codes "main"))
        || is_text a.message && not (text_eq a.target (codes "isolated")))

abbrev pub is_recurring : Option Schedule → Bool
is_recurring none = false
is_recurring (some s) = elim s.kind [ at ↦ false | every ↦ true | cron ↦ true ]

abbrev pub is_bad : Option Schedule → Bool
is_bad none = true
is_bad (some s) = false

abbrev pub is_webhook : Add → Bool
is_webhook a = text_eq a.delivery (codes "webhook")

-- The checks of `cmd_add`, in order, each with its refusal.
unfoldable pub checks : Host → Add → List (Bool × Refusal)
checks h a =
    let schedule = parse_schedule h.lower a.schedule in
    (name_exists a.name h.jobs, exists_already)
    ∷ (not (is_one_of tiers a.tier), bad_tier)
    ∷ (a.has_target && not (is_one_of targets a.target), bad_target)
    ∷ (not (is_one_of deliveries a.delivery), bad_delivery)
    ∷ (not (payloads a == 1), not_one_payload)
    ∷ (contradicts a, target_contradicts)
    ∷ (is_bad schedule, bad_schedule)
    ∷ (is_text a.message && (is_recurring schedule && not a.confirmed), expensive)
    ∷ (is_text a.message && (text_eq a.tier (codes "T2") && not a.no_reasoning), needs_no_reasoning)
    ∷ (
      is_text a.message
          && (text_eq a.tier (codes "T2")
              && (not (is_text a.model) && not (is_text h.cheap_model))),
      needs_model,
    )
    ∷ (text_eq a.tier (codes "T1") && not (is_text a.gate), needs_gate)
    ∷ (is_text a.gate && is_text a.command, gate_and_command)
    ∷ ((is_text a.message || is_webhook a) && not a.confirmed, needs_confirmation)
    ∷ (is_webhook a && not (is_text a.to), needs_address)
    ∷ []

unfoldable pub first_refusal : List (Bool × Refusal) → Option Refusal
first_refusal [] = none
first_refusal ((b, r) ∷ cs) = if b then some r else first_refusal cs

abbrev option : Text → Text → List Text
option flag [] = []
option flag (c ∷ s) = flag ∷ (c ∷ s) ∷ []

abbrev switch : Text → Bool → List Text
switch flag b = if b then flag ∷ [] else []

abbrev pub schedule_argv : Option Schedule → List Text
schedule_argv none = []
schedule_argv (some s) = elim s.kind [
  | at ↦ codes "--at" ∷ s.value ∷ []
  | every ↦ codes "--every" ∷ s.value ∷ []
  | cron ↦ codes "--cron" ∷ s.value ∷ option (codes "--tz") s.tz
]

-- the shell that runs a gate
unfoldable pub gate_shell : Text → Text
gate_shell gate =
    codes "out=$(" ++ (gate ++ codes "); [ -n \"$out\" ] && printf \"%s\" \"$out\"; exit 0")

unfoldable pub chosen_model : Host → Add → Text
chosen_model h a = or_default a.model h.cheap_model

unfoldable pub payload_argv : Host → Add → List Text
payload_argv h a =
    if is_text a.system_event
    then codes "--session" ∷ codes "main" ∷ codes "--system-event" ∷ a.system_event ∷ []
    else if is_text a.gate
    then codes "--command" ∷ gate_shell a.gate ∷ []
    else if is_text a.command
    then codes "--command" ∷ a.command ∷ []
    else (codes "--session" ∷ codes "isolated" ∷ codes "--message" ∷ a.message ∷ [])
      ++ (switch (codes "--light-context") a.light_context
          ++ ((if text_eq a.tier (codes "T2")
                then option (codes "--model") (chosen_model h a)
                else [])
              ++ ((if a.no_reasoning then codes "--thinking" ∷ codes "off" ∷ [] else [])
                  ++ option (codes "--agent") a.agent)))

-- `eff_delivery`
unfoldable pub effective_delivery : Add → Text
effective_delivery a =
    if (is_text a.gate || is_text a.command) && text_eq a.delivery (codes "none")
    then codes "announce"
    else a.delivery

unfoldable pub delivery_argv : Add → List Text
delivery_argv a =
    if text_eq (effective_delivery a) (codes "announce")
    then codes "--announce" ∷ (option (codes "--to") a.to ++ option (codes "--channel") a.channel)
    else if text_eq (effective_delivery a) (codes "webhook")
    then codes "--webhook" ∷ a.to ∷ []
    else []

-- the command line of an admitted job
unfoldable pub add_argv : Host → Add → List Text
add_argv h a =
    codes "openclaw"
    ∷ codes "cron"
    ∷ codes "add"
    ∷ codes "--name"
    ∷ a.name
    ∷ (schedule_argv (parse_schedule h.lower a.schedule)
        ++ (payload_argv h a ++ (delivery_argv a ++ (codes "--json" ∷ []))))

-- A refusal before anything is run, or a command that is run, and whether it succeeds.
pub data Answer : Type 0 where
  refused : Refusal → Answer
  ran : List Text → Bool → Answer
  listed : List Job → Answer

abbrev pub run_line : Host → List Text → Answer
run_line h argv = ran argv (h.run argv)

-- `cmd_add`
unfoldable pub cmd_add : Host → Add → Answer
cmd_add h a = elim (first_refusal (checks h a)) [
  | some r ↦ refused r
  | none ↦ run_line h (add_argv h a)
]

-- `cmd_remove`; a job without an id makes the command line fail
unfoldable pub cmd_remove : Host → Text → Bool → Answer
cmd_remove h name confirmed =
    if not confirmed then refused needs_confirmation else elim (resolve_id name h.jobs) [
      | none ↦ refused not_found
      | some none ↦ refused no_id
      | some (some i) ↦ run_line h (codes "openclaw" ∷ codes "cron" ∷ codes "rm" ∷ i ∷ [])
    ]

abbrev name_has : (Text → Text) → Text → Job → Bool
name_has lower sub (job (some n) i) = contains (lower sub) (lower n)
name_has lower sub (job none i) = contains (lower sub) []
name_has lower sub other = false

-- `cmd_list`
unfoldable pub cmd_list : Host → Text → Answer
cmd_list h sub =
    if is_text sub then listed (filter (name_has h.lower sub) h.jobs) else listed h.jobs

abbrev pub of_command : Host → Text → Args → Answer
of_command h cmd args =
    if text_eq cmd (codes "add")
    then (if is_given (codes "name") args && is_given (codes "schedule") args
        then cmd_add h (add_of h args)
        else refused usage)
    else if text_eq cmd (codes "list")
    then cmd_list h (text_arg (codes "name") args)
    else if text_eq cmd (codes "remove")
    then (if is_given (codes "name") args
        then cmd_remove h (text_arg (codes "name") args) (is_given (codes "confirmed") args)
        else refused usage)
    else refused unknown_command

-- `main`
unfoldable pub main : Host → List Text → Answer
main h argv = elim (parse_argv argv) [
  | none ↦ refused usage
  | some (cmd, args) ↦ of_command h cmd args
]
