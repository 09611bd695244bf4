-- ===== src/Cron/Tests.antt =====
-- A reminder that is set up, and flags that are read back.
use dinomem.Prelude.{◌≡◌, refl, true, some, List, [], ◌∷◌, ◌++◌, All}
use dinomem.Prelude.Text.{
  Text, codes, strip_prefix, text_eq, strip, lstrip, rstrip, rstrip_cons, is_space, join,
}
use dinomem.Cron.Arguments.{
  set, given, Args, flag_key, is_switch, parse_argv, parse_flags, get_arg, text_arg, is_given,
  resolve_id, name_exists, split_once, split_last, kind_of, parse_schedule,
}
use dinomem.Cron.Arguments.RoundTrip.{Flag, IsFlag, render, meant, parse_argv-render}
use dinomem.Cron.Plan.{
  Host, main, ran, cmd_add, checks, first_refusal, add_of, payloads, contradicts, add_argv,
  payload_argv, delivery_argv, effective_delivery,
}
use dinomem.Cron.Guarded.{Runs, main-Runs}

abbrev flags : List Flag
flags =
    (codes "tier" ∷ [], given (codes "T0"))
    ∷ (codes "no" ∷ codes "reasoning" ∷ [], set)
    ∷ (codes "system" ∷ codes "event" ∷ [], given (codes "--tea"))
    ∷ []

flags-IsFlag : All IsFlag flags
unfolding text_eq join
flags-IsFlag = (
  (((refl, (refl, (refl, (refl, tt)))), tt), refl),
  (
    (
      (
        (refl, (refl, tt)),
        ((refl, (refl, (refl, (refl, (refl, (refl, (refl, (refl, (refl, tt))))))))), tt),
      ),
      refl,
    ),
    (
      (
        (
          (refl, (refl, (refl, (refl, (refl, (refl, tt)))))),
          ((refl, (refl, (refl, (refl, (refl, tt))))), tt),
        ),
        refl,
      ),
      tt,
    ),
  ),
)

parse_argv-render_example :
    parse_argv (codes "add" ∷ render flags (codes "tea"))
    ≡ some (codes "add", meant flags ++ ((codes "name", given (codes "tea")) ∷ []))
parse_argv-render_example =
    parse_argv-render (codes "add") (codes "tea") flags flags-IsFlag (unfold strip_prefix in refl)

abbrev host : Host
host = record { upper = λ s. s; lower = λ s. s; cheap_model = []; jobs = []; run = λ argv. true }

abbrev request : List Text
request =
    codes "add"
    ∷ codes "tea"
    ∷ codes "--schedule"
    ∷ codes "at:noon"
    ∷ codes "--tier"
    ∷ codes "T0"
    ∷ codes "--system-event"
    ∷ codes "make tea"
    ∷ []

abbrev line : List Text
line =
    codes "openclaw"
    ∷ codes "cron"
    ∷ codes "add"
    ∷ codes "--name"
    ∷ codes "tea"
    ∷ codes "--at"
    ∷ codes "noon"
    ∷ codes "--session"
    ∷ codes "main"
    ∷ codes "--system-event"
    ∷ codes "make tea"
    ∷ codes "--json"
    ∷ []

reminder_runs : main host request ≡ ran line true
unfolding main cmd_add checks first_refusal add_of payloads contradicts add_argv payload_argv
    delivery_argv effective_delivery flag_key is_switch parse_argv parse_flags get_arg text_arg
    is_given resolve_id name_exists split_once split_last kind_of parse_schedule text_eq
    strip_prefix strip lstrip rstrip rstrip_cons is_space
reminder_runs = refl

main-Runs_example :
    (cmd : Text) × (args : Args) × (parse_argv request ≡ some (cmd, args)) × Runs host cmd args line
main-Runs_example = main-Runs host request line true reminder_runs
