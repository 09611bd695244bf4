-- ===== src/Improvement/Signals.antt =====
-- The three signals of procedures/improvement_scan.py: `detect_struggle`, `detect_multistep` and
-- `detect_interrupt`, on the events of a session. The test of the similarity of two arguments against its
-- band is a parameter.
use dinomem.Prelude.{
  ℕ, suc, Bool, true, false, ◌&&◌, not, Option, none, some, List, [], ◌∷◌, leb, ltb, ◌==◌, length,
  any, filter, min, max, if◌then◌else◌,
}
use dinomem.Prelude.Text.{Text, text_eq}

pub record Call : Type 0 where
  pub line : ℕ
  pub tool : Text
  pub args : Text

-- What `parse_session` makes of a line: a message of the user, or a call of a tool.
pub data Event : Type 0 where
  user : ℕ → Event
  called : Call → Event

-- `[e for e in events if e[0] == "T"]`
unfoldable pub calls_of : List Event → List Call
calls_of [] = []
calls_of (user l ∷ events) = calls_of events
calls_of (called c ∷ events) = c ∷ calls_of events

pub data Signal : Type 0 where
  struggle multistep interrupt : Signal

pub record Finding : Type 0 where
  pub signal : Signal
  pub line_start : ℕ
  pub line_end : ℕ

abbrev pub struggle_run : ℕ
struggle_run = 3

abbrev found : Signal → ℕ → ℕ → Option Finding
found s a b = some (record { signal = s; line_start = a; line_end = b })

-- The loop of `detect_struggle` behind the call `cur`: the length of the run, and the line where it starts,
-- which is read only in a run of two or more.
unfoldable pub struggle_from : (Text → Text → Bool) → ℕ → ℕ → Call → List Call → Option Finding
struggle_from in_band run start cur [] = none
struggle_from in_band run start cur (nxt ∷ calls) =
    let first = if run == 1 then cur.line else start in
    let longer = struggle_from in_band (suc run) first nxt calls in
    let again = struggle_from in_band 1 0 nxt calls in
    if text_eq cur.tool nxt.tool && in_band cur.args nxt.args
    then (if leb struggle_run (suc run) then found struggle first nxt.line else longer)
    else again

abbrev struggle_calls : (Text → Text → Bool) → List Call → Option Finding
struggle_calls in_band [] = none
struggle_calls in_band (c ∷ calls) = struggle_from in_band 1 0 c calls

-- `detect_struggle`
unfoldable pub detect_struggle : (Text → Text → Bool) → List Event → Option Finding
detect_struggle in_band events = struggle_calls in_band (calls_of events)

-- the different names of the tools
unfoldable pub tool_names : List Call → List Text
tool_names [] = []
tool_names (c ∷ calls) =
    let rest = tool_names calls in if any (text_eq c.tool) rest then rest else c.tool ∷ rest

unfoldable pub last_line : ℕ → List Call → ℕ
last_line l [] = l
last_line l (c ∷ calls) = last_line c.line calls

abbrev multistep_calls : List Call → Option Finding
multistep_calls [] = none
multistep_calls (c ∷ calls) =
    if leb 6 (length (c ∷ calls)) && leb 3 (length (tool_names (c ∷ calls)))
    then found multistep c.line (last_line c.line calls)
    else none

-- `detect_multistep`
unfoldable pub detect_multistep : List Event → Option Finding
detect_multistep events = multistep_calls (calls_of events)

abbrev is_nil {ℓ} : {A : Type ℓ} → List A → Bool
is_nil [] = true
is_nil (x ∷ xs) = false

-- The loop of `detect_interrupt`, with the number and the tools of the calls so far.
unfoldable pub interrupt_from : ℕ → List Text → List Event → Option Finding
interrupt_from prior seen [] = none
interrupt_from prior seen (called c ∷ events) = interrupt_from (suc prior) (c.tool ∷ seen) events
interrupt_from prior seen (user l ∷ events) =
    let later = interrupt_from prior seen events in
    let after = calls_of events in
    if ltb prior 2
    then later
    else if not (is_nil (filter (λ c. not (any (text_eq c.tool) seen)) after))
    then found interrupt l (last_line l after)
    else later

-- `detect_interrupt`
unfoldable pub detect_interrupt : List Event → Option Finding
detect_interrupt events = interrupt_from 0 [] events

abbrev add_finding : Option Finding → List Finding → List Finding
add_finding none fs = fs
add_finding (some f) fs = f ∷ fs

-- `findings`
unfoldable pub findings_of : (Text → Text → Bool) → List Event → List Finding
findings_of in_band events =
    add_finding (detect_struggle in_band events)
      (add_finding (detect_multistep events) (add_finding (detect_interrupt events) []))

-- `span`, of one finding and the others
unfoldable pub span_of : Finding → List Finding → ℕ × ℕ
span_of f [] = (f.line_start, f.line_end)
span_of f (g ∷ fs) = let (a, b) = span_of g fs in (min f.line_start a, max f.line_end b)
