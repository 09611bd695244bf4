-- ===== src/Cleanup/Tests.antt =====
-- Two files with a repeated item, an expired line and a bootcheck.
use dinomem.Prelude.{
  ℕ, zero, suc, ◌≡◌, refl, Bool, true, false, not, none, some, List, [], ◌∷◌, any, All,
}
use dinomem.Prelude.Text.{
  Text, codes, text_eq, contains, starts_with, strip_prefix, split, cons_first,
}
use dinomem.Dates.{strptime, toordinal}
use dinomem.Retention.Entry.{newline}
use dinomem.Retention.Run.{Directory}
use dinomem.Retention.Run.Files.{find_file}
use dinomem.Cleanup.Cluster.{cluster_items}
use dinomem.Cleanup.Cluster.Heads.{Greedy, cluster_items-Greedy}
use dinomem.Cleanup.Dedup.{Tools, is_framework_noise, semantic_dedup_items}
use dinomem.Cleanup.Dedup.Kept.{Has, semantic_dedup_items-Has}
use dinomem.Cleanup.Passes.{Moment, has_real_content, is_bootcheck}
use dinomem.Cleanup.Expiring.{is_expired, find_expiry, unexpired, expiry_pass}
use dinomem.Cleanup.Expiring.Stops.{expiry_pass-stops}

-- Numbers of the same parity are near.
abbrev same_parity : ℕ → ℕ → Bool
same_parity zero zero = true
same_parity zero (suc zero) = false
same_parity (suc zero) zero = false
same_parity (suc zero) (suc zero) = true
same_parity i (suc (suc j)) = same_parity i j
same_parity (suc (suc i)) j = same_parity i j

cluster_items-Greedy_example : Greedy same_parity (cluster_items same_parity 4)
cluster_items-Greedy_example = cluster_items-Greedy same_parity 4

abbrev tools : Tools
tools = record { lower = λ s. s; is_similar = text_eq; embeddings = λ texts. some same_parity }

abbrev some_items : List Text
some_items = codes "- [pattern] a" ∷ codes "- [lesson] b" ∷ codes "- [pattern] a" ∷ []

semantic_dedup_items-Has_example :
    All
      (λ t. Has t some_items × (not (is_framework_noise tools t) ≡ true))
      (semantic_dedup_items tools some_items).0
semantic_dedup_items-Has_example = semantic_dedup_items-Has tools some_items

abbrev moment : Moment
moment = record {
  today = 738000;
  today_str = codes "2021-07-25";
  today_display = codes "2021-07-25 09:00";
  set_order = λ ls. ls;
}

abbrev two_lines : Text
two_lines = codes "- [lesson] b\ntext"

abbrev directory : Directory
directory = (codes "a.md", two_lines) ∷ []

abbrev dated : Directory
dated = (codes "a.md", codes "x [expires:2020-01-02]\ny") ∷ []

runs_through : (expiry_pass 738000 dated).1 ≡ true
unfolding expiry_pass unexpired is_expired find_expiry strip_prefix strptime toordinal split
    cons_first
runs_through = refl

abbrev no_date : Text
no_date = codes "x [expires:2021-02-30]"

abbrev misdated : Directory
misdated = (codes "b.md", no_date) ∷ []

finds_b : find_file (codes "b.md") misdated ≡ some no_date
unfolding find_file text_eq
finds_b = refl

no_date_is_there : any (text_eq no_date) (split newline no_date) ≡ true
unfolding split cons_first text_eq
no_date_is_there = refl

no_date_is_found : find_expiry no_date ≡ some (codes "2021-02-30")
unfolding find_expiry strip_prefix
no_date_is_found = refl

not_in_calendar : strptime (codes "2021-02-30") ≡ none
unfolding strptime
not_in_calendar = refl

expiry_pass-stops_example : (expiry_pass 738000 misdated).1 ≡ false
expiry_pass-stops_example =
    expiry_pass-stops 738000 misdated (codes "b.md") no_date no_date (codes "2021-02-30") finds_b
      no_date_is_there no_date_is_found not_in_calendar

abbrev checks : Directory
checks = (codes "c.md", codes "bootcheck") ∷ []

finds_c : find_file (codes "c.md") checks ≡ some (codes "bootcheck")
unfolding find_file text_eq
finds_c = refl

c_is_bootcheck : is_bootcheck tools (codes "bootcheck") ≡ true
unfolding is_bootcheck has_real_content contains starts_with strip_prefix
c_is_bootcheck = refl

abbrev index_text : Text
index_text = codes "# Index\n[A] one\n[B] two"
