-- ===== src/Cron/Arguments/RoundTrip.antt =====
-- Flags that are written as arguments are read back.
use dinomem.Prelude.{
  ◌≡◌, ◌≢◌, refl, ap, ◌∙◌, Bool, true, false, ◌||◌, none, some, List, [], ◌∷◌, ◌++◌, All,
}
use dinomem.Prelude.Text.{Text, codes, strip_prefix, text_eq, join}
use dinomem.Prelude.Text.Split.{Lacks}
use dinomem.Cron.Arguments.{
  Value, set, given, Args, flag_key, is_switch, add_arg, parse_flags, named, with_command,
  parse_argv,
}

-- A flag as it is written: its words, and the value unless it is a switch.
abbrev pub Flag : Type 0
Flag = List Text × Value

-- the words of a flag with dashes, as on the command line, and with underscores, as in the result
abbrev pub dashed : List Text → Text
dashed ws = join (codes "-") ws

abbrev pub underscored : List Text → Text
underscored ws = join (codes "_") ws

-- The three flags that have no value.
abbrev pub takes_none : Text → Bool
takes_none key =
    text_eq key (codes "no_reasoning")
    || (text_eq key (codes "light_context") || text_eq key (codes "confirmed"))

-- No word has a dash in it, and there is a value exactly if the flag is none of the three.
abbrev pub IsFlag : Flag → Type 0
IsFlag (ws, set) = All (Lacks b'-') ws × (takes_none (underscored ws) ≡ true)
IsFlag (ws, given v) = All (Lacks b'-') ws × (takes_none (underscored ws) ≡ false)

abbrev pub render_flag : Flag → List Text → List Text
render_flag (ws, set) rest = (codes "--" ++ dashed ws) ∷ rest
render_flag (ws, given v) rest = (codes "--" ++ dashed ws) ∷ v ∷ rest

-- The flags, one behind the other, and the name behind them.
abbrev pub render : List Flag → Text → List Text
render [] name = name ∷ []
render (f ∷ flags) name = render_flag f (render flags name)

-- The arguments that are meant: with underscores, in order, and the name.
abbrev pub meant : List Flag → Args
meant [] = []
meant ((ws, v) ∷ flags) = (underscored ws, v) ∷ meant flags

flag_key-word : (w s : Text) → Lacks b'-' w → flag_key (w ++ s) ≡ w ++ flag_key s
unfolding flag_key
flag_key-word [] s h = refl
flag_key-word (c ∷ w) s (h, hs) = rw h (ap (λ r. c ∷ r) (flag_key-word w s hs))

flag_key_only : (w : Text) → Lacks b'-' w → flag_key w ≡ w
unfolding flag_key
flag_key_only [] h = refl
flag_key_only (c ∷ w) (h, hs) = rw h (ap (λ r. c ∷ r) (flag_key_only w hs))

-- The dashes become underscores.
flag_key-dashed : (ws : List Text) → All (Lacks b'-') ws → flag_key (dashed ws) ≡ underscored ws
unfolding join
flag_key-dashed [] h = unfold flag_key in refl
flag_key-dashed (w ∷ []) h = flag_key_only w h.0
flag_key-dashed (w ∷ v ∷ ws) h =
    flag_key-word w (codes "-" ++ dashed (v ∷ ws)) h.0
    ∙ ap (λ r. w ++ r) (dash (dashed (v ∷ ws)) ∙ ap (λ r. b'_' ∷ r) (flag_key-dashed (v ∷ ws) h.1))
  where
    dash : (s : Text) → flag_key (b'-' ∷ s) ≡ b'_' ∷ flag_key s
    dash s = unfold flag_key in refl

is_switch-takes_none : (key : Text) → is_switch key ≡ takes_none key
unfolding is_switch
is_switch-takes_none key =
    ap (λ r. text_eq key (codes "no_reasoning") || (text_eq key (codes "light_context") || r))
      (or_false (text_eq key (codes "confirmed")))
  where
    or_false : (b : Bool) → b || false ≡ b
    or_false true = refl
    or_false false = refl

parse-switch :
    (key : Text) (rest : List Text)
    → rest ≢ []
    → is_switch (flag_key key) ≡ true
    → parse_flags ((codes "--" ++ key) ∷ rest) ≡ add_arg (flag_key key) set (parse_flags rest)
unfolding parse_flags strip_prefix
parse-switch key [] ne s = absurd (ne refl)
parse-switch key (b ∷ rest) ne s = rw (s, parse_flags) refl

parse-given :
    (key v : Text) (rest : List Text)
    → is_switch (flag_key key) ≡ false
    → parse_flags ((codes "--" ++ key) ∷ v ∷ rest)
      ≡ add_arg (flag_key key) (given v) (parse_flags rest)
unfolding parse_flags strip_prefix
parse-given key v rest s = rw (s, parse_flags) refl

render-ne_nil : (flags : List Flag) (name : Text) → render flags name ≢ []
render-ne_nil [] name = λ e. cc
render-ne_nil ((ws, set) ∷ flags) name = λ e. cc
render-ne_nil ((ws, given v) ∷ flags) name = λ e. cc

-- whether the flag that is read is a switch
read_switch :
    (ws : List Text) (b : Bool)
    → All (Lacks b'-') ws
    → takes_none (underscored ws) ≡ b
    → is_switch (flag_key (dashed ws)) ≡ b
read_switch ws b h k =
    ap is_switch (flag_key-dashed ws h) ∙ (is_switch-takes_none (underscored ws) ∙ k)

parse_flags-render :
    (flags : List Flag) (name : Text)
    → All IsFlag flags
    → strip_prefix (codes "--") name ≡ none
    → parse_flags (render flags name) ≡ some (name ∷ [], meant flags)
parse_flags-render [] name h n = unfold parse_flags in rw (n, parse_flags) refl
parse_flags-render ((ws, set) ∷ flags) name h n =
    parse-switch (dashed ws) (render flags name) (render-ne_nil flags name)
      (read_switch ws true h.0.0 h.0.1)
    ∙ (ap (λ k. add_arg k set (parse_flags (render flags name))) (flag_key-dashed ws h.0.0)
        ∙ ap (add_arg (underscored ws) set) (parse_flags-render flags name h.1 n))
parse_flags-render ((ws, given v) ∷ flags) name h n =
    parse-given (dashed ws) v (render flags name) (read_switch ws false h.0.0 h.0.1)
    ∙ (ap (λ k. add_arg k (given v) (parse_flags (render flags name))) (flag_key-dashed ws h.0.0)
        ∙ ap (add_arg (underscored ws) (given v)) (parse_flags-render flags name h.1 n))

-- A command with flags, their words joined by dashes, and a name that does not start with two dashes is read as the
-- command, the flags in order with their words joined by underscores, and the name, whatever the values of the flags
-- are. The flags no-reasoning, light-context and confirmed have no value, and every other one has.
pub parse_argv-render :
    (cmd name : Text) (flags : List Flag)
    → All IsFlag flags
    → strip_prefix (codes "--") name ≡ none
    → parse_argv (cmd ∷ render flags name)
      ≡ some (cmd, meant flags ++ ((codes "name", given name) ∷ []))
unfolding parse_argv
parse_argv-render cmd name flags h n =
    ap (λ o. with_command cmd (named o)) (parse_flags-render flags name h n)
