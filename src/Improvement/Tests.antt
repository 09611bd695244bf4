-- ===== src/Improvement/Tests.antt =====
-- A queue of three candidates, and a scan of two sessions.
use dinomem.Prelude.{List, [], ◌+◌, ◌≤◌, ◌≡◌, refl, false, none, some, [], ◌∷◌, arith}
use dinomem.Prelude.Text.{codes, text_eq}
use dinomem.Improvement.Signals.{
  Event, called, findings_of, detect_struggle, struggle_from, detect_multistep, detect_interrupt,
  interrupt_from, calls_of, tool_names,
}
use dinomem.Improvement.Scan.{
  Scanner, Archives, ScanState, run_scan, scan, scan_fresh, fresh_of, sort_fresh, insert_fresh,
  name_le, emit_all, exists_in, insert_file,
}
use dinomem.Improvement.Scan.Watermark.{run_scan_twice}
use dinomem.Improvement.Queue.{
  Candidate, QueueDir, new, proposed, claim_ttl_sec, readable, insert_by_time, sort_by_time,
  candidates, claimable_status, is_claimable, first_claimable, save, op_next, run_op, due, next,
  done,
}
use dinomem.Improvement.Queue.Held.{Within, start, then_ran, op_next-exclusive}
use dinomem.Improvement.Queue.Runs.{
  ran, Reach, here, more, changes, file_at, IsSettled, Reach-keeps_settled,
}

abbrev young : Candidate
young = record {
  id = codes "y";
  status = new;
  detected_at = 500;
  claimed_at = 0;
  dropped_reason = none;
}

abbrev old : Candidate
old = record {
  id = codes "o";
  status = new;
  detected_at = 100;
  claimed_at = 0;
  dropped_reason = none;
}

abbrev finished : Candidate
finished = record {
  id = codes "f";
  status = proposed;
  detected_at = 50;
  claimed_at = 60;
  dropped_reason = none;
}

abbrev queue : QueueDir
queue =
    (codes "a.json", some finished)
    ∷ (codes "b.json", some young)
    ∷ (codes "c.json", some old)
    ∷ (codes "skill_usage.json", none)
    ∷ []

claims_old : first_claimable 1000 (candidates queue) ≡ some (codes "c.json", old)
unfolding first_claimable candidates readable sort_by_time insert_by_time is_claimable
    claimable_status text_eq
claims_old = refl

claims_young :
    first_claimable 2000 (candidates (op_next 1000 queue).1) ≡ some (codes "b.json", young)
unfolding op_next save first_claimable candidates readable sort_by_time insert_by_time is_claimable
    claimable_status text_eq
claims_young = refl

asked_between : Within (1000 + claim_ttl_sec) old.id (op_next 1000 queue).1 (op_next 1000 queue).1
unfolding run_op changes
asked_between = then_ran 1500 due start (omega arith) refl refl

op_next-exclusive_example : text_eq (codes "b.json") (codes "c.json") ≡ false
op_next-exclusive_example =
    op_next-exclusive 1000 2000 queue (op_next 1000 queue).1 (codes "c.json") (codes "b.json") old
      young claims_old asked_between within_three_hours claims_young
  where
    within_three_hours : 2000 ≤ 1000 + claim_ttl_sec
    within_three_hours = omega arith

finished-IsSettled : IsSettled (codes "f") (codes "a.json") queue
unfolding text_eq
finished-IsSettled = (refl, (refl, (refl, (refl, tt))))

abbrev after_next : QueueDir
after_next = (run_op 1000 next queue).1

abbrev after_done : QueueDir
after_done = (run_op 1001 (done (codes "o")) after_next).1

two_steps : Reach (codes "f") queue after_done
two_steps =
    more (more here (ran 1000 next next_changes_none refl))
      (ran 1001 (done (codes "o")) done_changes_o refl)
  where
    next_changes_none : changes next (codes "f") ≡ false
    next_changes_none = unfold changes in refl

    done_changes_o : changes (done (codes "o")) (codes "f") ≡ false
    done_changes_o = unfold changes text_eq in refl

Reach-keeps_settled_example : file_at (codes "a.json") after_done ≡ file_at (codes "a.json") queue
Reach-keeps_settled_example =
    Reach-keeps_settled (codes "f") (codes "a.json") queue after_done finished-IsSettled two_steps

-- Every session has six calls of three tools.
abbrev busy : List Event
busy =
    called (record { line = 1; tool = codes "a"; args = [] })
    ∷ called (record { line = 2; tool = codes "b"; args = [] })
    ∷ called (record { line = 3; tool = codes "c"; args = [] })
    ∷ called (record { line = 4; tool = codes "a"; args = [] })
    ∷ called (record { line = 5; tool = codes "b"; args = [] })
    ∷ called (record { line = 6; tool = codes "c"; args = [] })
    ∷ []

abbrev scanner : Scanner
scanner = record { parse_session = λ s. busy; in_band = λ s t. false; digest = λ s. s }

abbrev two_archives : Archives
two_archives = (codes "s1", some 10) ∷ (codes "s2", some 20) ∷ []

abbrev fresh_state : ScanState
fresh_state = record { queue = []; watermark = 0 }

-- With a limit of one the second session gets no candidate, in this run and in the next.
run_scan_twice_example :
    let after = (run_scan scanner 1 500 two_archives fresh_state).1 in
    ((run_scan scanner 1 600 two_archives after).0 ≡ 0)
    × ((run_scan scanner 1 600 two_archives after).1.queue ≡ after.queue)
    × ((run_scan scanner 1 600 two_archives after).1.watermark ≡ after.watermark)
run_scan_twice_example = run_scan_twice scanner 1 500 600 two_archives fresh_state

second_session_lost : (run_scan scanner 1 500 two_archives fresh_state).0 ≡ 1
unfolding run_scan scan scan_fresh fresh_of sort_fresh insert_fresh name_le findings_of
    detect_struggle struggle_from detect_multistep detect_interrupt interrupt_from calls_of
    tool_names emit_all exists_in insert_file text_eq
second_session_lost = refl
