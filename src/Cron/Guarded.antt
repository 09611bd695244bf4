-- ===== src/Cron/Guarded.antt =====
-- What a command of the tool that is run has passed.
use dinomem.Prelude.{
  ◌≡◌, refl, sym, ◌⊎◌, inl, inr, Bool, true, false, not, ◌&&◌, ◌||◌, Option, none, some, List, [],
  ◌∷◌, All, arith, Bool-cases,
}
use dinomem.Prelude.Text.{Text, codes, text_eq, text_eq_iff}
use dinomem.Cron.Arguments.{
  Args, Schedule, parse_schedule, text_arg, is_given, resolve_id, name_exists, parse_argv,
}
use dinomem.Cron.Plan.{
  Host, Refusal, is_text, Add, add_of, payloads, contradicts, is_webhook, checks, first_refusal,
  add_argv, ran, run_line, cmd_add, cmd_remove, cmd_list, main, is_one_of, targets, is_bad,
  of_command,
}

-- What the checks of `add` promise: a new name; a tier, a delivery and, if it is given, a target that there is; a
-- schedule that can be read; one payload, which an explicit target fits; approval for a message and for a webhook
-- with its address; a gate for the tier T1; and a model without reasoning for a message of the tier T2.
pub record Admitted (h : Host) (a : Add) : Type 0 where
  pub fresh : name_exists a.name h.jobs ≡ false
  pub payload : payloads a ≡ 1
  pub placed :
      a.has_target ≡ true
      → (text_eq a.target (codes "main") ≡ true) ⊎ (text_eq a.target (codes "isolated") ≡ true)
  pub coherent :
      a.has_target ≡ true
      → ((is_text a.system_event ≡ true → text_eq a.target (codes "main") ≡ true)
          × (is_text a.message ≡ true → text_eq a.target (codes "isolated") ≡ true))
  pub delivered :
      is_one_of (codes "none" ∷ codes "announce" ∷ codes "webhook" ∷ []) a.delivery ≡ true
  pub scheduled : (s : Schedule) × (parse_schedule h.lower a.schedule ≡ some s)
  pub tier : is_one_of (codes "T0" ∷ codes "T1" ∷ codes "T2" ∷ codes "T3" ∷ []) a.tier ≡ true
  pub approved : is_text a.message ≡ true → a.confirmed ≡ true
  pub egress : is_webhook a ≡ true → (a.confirmed ≡ true) × (is_text a.to ≡ true)
  pub gated : text_eq a.tier (codes "T1") ≡ true → is_text a.gate ≡ true
  pub cheap :
      is_text a.message ≡ true
      → text_eq a.tier (codes "T2") ≡ true
      → (a.no_reasoning ≡ true) × ((is_text a.model || is_text h.cheap_model) ≡ true)

first_refusal-none :
    (cs : List (Bool × Refusal)) → first_refusal cs ≡ none → All (λ c. c.0 ≡ false) cs
unfolding first_refusal
first_refusal-none [] h = tt
first_refusal-none ((b, r) ∷ cs) h = by_flag b refl (first_refusal-none cs)
  where
    by_flag :
        (c : Bool)
        → b ≡ c
        → (first_refusal cs ≡ none → All (λ x. x.0 ≡ false) cs)
        → (b ≡ false) × All (λ x. x.0 ≡ false) cs
    by_flag true e rest = absurd (cc (rw e at h))
    by_flag false e rest = (e, rest (rw e at h))

admitted : (h : Host) (a : Add) → first_refusal (checks h a) ≡ none → Admitted h a
unfolding checks
admitted h a e =
    let (
      fresh,
      (
        tier,
        (
          t,
          (
            d,
            (
              payload,
              (coherent, (s, (x, (quiet, (model, (gate, (g, (approval, (address, u))))))))),
            ),
          ),
        ),
      ),
    ) =
      first_refusal-none (checks h a) e in
    record {
      fresh = fresh;
      payload = ground arith;
      placed = λ g. target_of g t;
      coherent = λ g. fits g (unfold contradicts in coherent);
      delivered = not_false _ d;
      scheduled = schedule_of (parse_schedule h.lower a.schedule) s;
      tier = not_false _ tier;
      approved = λ m. ground arith;
      egress = λ w. (ground arith, ground arith);
      gated = λ t. ground arith;
      cheap = λ m t. (ground arith, ground arith);
    }
  where
    not_false : (b : Bool) → not b ≡ false → b ≡ true
    not_false b e = ground arith

    target_of :
        a.has_target ≡ true
        → (a.has_target && not (is_one_of targets a.target)) ≡ false
        → (text_eq a.target (codes "main") ≡ true) ⊎ (text_eq a.target (codes "isolated") ≡ true)
    target_of g t = elim (Bool-cases (text_eq a.target (codes "main"))) [
      | inl m ↦ inl m
      | inr m ↦ inr (ground (arith, m))
    ]

    fits :
        a.has_target ≡ true
        → (a.has_target
            && (is_text a.system_event && not (text_eq a.target (codes "main"))
                || is_text a.message && not (text_eq a.target (codes "isolated"))))
          ≡ false
        → (is_text a.system_event ≡ true → text_eq a.target (codes "main") ≡ true)
          × (is_text a.message ≡ true → text_eq a.target (codes "isolated") ≡ true)
    fits g c = (λ e. ground arith, λ m. ground arith)

    schedule_of : (o : Option Schedule) → is_bad o ≡ false → (s : Schedule) × (o ≡ some s)
    schedule_of none e = absurd (cc)
    schedule_of (some s) e = (s, refl)

pub cmd_add-Admitted :
    (h : Host) (a : Add) (line : List Text) (ok : Bool)
    → cmd_add h a ≡ ran line ok
    → Admitted h a × (line ≡ add_argv h a)
unfolding cmd_add
cmd_add-Admitted h a line ok e = by_checks (first_refusal (checks h a)) refl
  where
    by_checks :
        (o : Option Refusal) → first_refusal (checks h a) ≡ o → Admitted h a × (line ≡ add_argv h a)
    by_checks (some r) q = absurd (cc (rw (q, cmd_add) at e))
    by_checks none q = (admitted h a q, sym (line_of (rw (q, cmd_add) at e)))
      where
        line_of : run_line h (add_argv h a) ≡ ran line ok → add_argv h a ≡ line
        line_of r = cc

-- the command line that removes a job
abbrev pub rm_argv : Text → List Text
rm_argv i = codes "openclaw" ∷ codes "cron" ∷ codes "rm" ∷ i ∷ []

pub cmd_remove-Confirmed :
    (h : Host) (name : Text) (confirmed : Bool) (line : List Text) (ok : Bool)
    → cmd_remove h name confirmed ≡ ran line ok
    → (confirmed ≡ true)
      × ((i : Text) × (resolve_id name h.jobs ≡ some (some i)) × (line ≡ rm_argv i))
unfolding cmd_remove
cmd_remove-Confirmed h name false line ok e = absurd (cc)
cmd_remove-Confirmed h name true line ok e = by_id (resolve_id name h.jobs) refl
  where
    by_id :
        (o : Option (Option Text))
        → resolve_id name h.jobs ≡ o
        → (◌≡◌ {A = Bool} true true)
          × ((i : Text) × (resolve_id name h.jobs ≡ some (some i)) × (line ≡ rm_argv i))
    by_id none q = absurd (cc (rw (q, cmd_remove) at e))
    by_id (some none) q = absurd (cc (rw (q, cmd_remove) at e))
    by_id (some (some i)) q = (refl, (i, q, sym (line_of (rw (q, cmd_remove) at e))))
      where
        line_of : run_line h (rm_argv i) ≡ ran line ok → rm_argv i ≡ line
        line_of r = cc

-- What the tool runs for the arguments: an admitted job is added, or a job that is there is removed with approval.
abbrev pub Runs : Host → Text → Args → List Text → Type 0
Runs h cmd args line =
    ((cmd ≡ codes "add") × (Admitted h (add_of h args) × (line ≡ add_argv h (add_of h args))))
    ⊎ ((cmd ≡ codes "remove")
        × ((is_given (codes "confirmed") args ≡ true)
            × ((i : Text) × (resolve_id (text_arg (codes "name") args) h.jobs ≡ some (some i))
                × (line ≡ rm_argv i))))

cmd_list-ne_ran :
    (h : Host) (sub : Text) (l : List Text) (ok : Bool) → cmd_list h sub ≡ ran l ok → ⊥
unfolding cmd_list
cmd_list-ne_ran h sub l ok e = ground (arith)

of_command-Runs :
    (h : Host) (cmd : Text) (args : Args) (line : List Text) (ok : Bool)
    → of_command h cmd args ≡ ran line ok
    → Runs h cmd args line
of_command-Runs h cmd args line ok e = elim (Bool-cases (text_eq cmd (codes "add"))) [
  | inl a ↦ elim (Bool-cases (is_given (codes "name") args && is_given (codes "schedule") args)) [
    | inl g ↦ inl (
      (text_eq_iff cmd (codes "add")).0 a,
      cmd_add-Admitted h (add_of h args) line ok (rw g at (rw a at e)),
    )
    | inr g ↦ absurd (cc (rw g at (rw a at e)))
  ]
  | inr a ↦ elim (Bool-cases (text_eq cmd (codes "list"))) [
    | inl l ↦
        absurd (cmd_list-ne_ran h (text_arg (codes "name") args) line ok (rw l at (rw a at e)))
    | inr l ↦ elim (Bool-cases (text_eq cmd (codes "remove"))) [
      | inl r ↦ elim (Bool-cases (is_given (codes "name") args)) [
        | inl g ↦ inr (
          (text_eq_iff cmd (codes "remove")).0 r,
          cmd_remove-Confirmed h (text_arg (codes "name") args) (is_given (codes "confirmed") args)
              line ok (rw g at (rw r at (rw l at (rw a at e)))),
        )
        | inr g ↦ absurd (cc (rw g at (rw r at (rw l at (rw a at e)))))
      ]
      | inr r ↦ absurd (cc (rw r at (rw l at (rw a at e))))
    ]
  ]
]

-- A command is run for an argument vector only if this is read without an error, and then the word is `add` and the
-- job has what the checks promise, with a schedule that can be read and a tier, a target and a delivery that there
-- are, and is added by the command line that is built for it, or the word is `remove` and a job that is listed is
-- removed, with approval.
pub main-Runs :
    (h : Host) (argv line : List Text) (ok : Bool)
    → main h argv ≡ ran line ok
    → (cmd : Text) × (args : Args) × (parse_argv argv ≡ some (cmd, args)) × Runs h cmd args line
unfolding main
main-Runs h argv line ok e = by_parse (parse_argv argv) refl
  where
    by_parse :
        (o : Option (Text × Args))
        → parse_argv argv ≡ o
        → (cmd : Text) × (args : Args) × (parse_argv argv ≡ some (cmd, args)) × Runs h cmd args line
    by_parse none q = absurd (cc (rw (q, main) at e))
    by_parse (some (cmd, args)) q =
        (cmd, args, q, of_command-Runs h cmd args line ok (rw (q, main) at e))
