-- ===== src/Machine/Tests.antt =====
-- A machine whose instructions take four cycles, whose devices count cycles, and whose CPU halts once
-- they have counted 300.
use x68k_stackchan.Base.{ℕ, ◌+◌, ◌≡◌, refl, true, false, arith, inl, leb, if◌then◌else◌}
use x68k_stackchan.Scheduler.{Scheduler, no_stats, cpu_time}
use x68k_stackchan.Scheduler.Inv.{IsCoherent}
use x68k_stackchan.Machine.{Board, run_event_driven}
use x68k_stackchan.Machine.Run.{Lawful, IsRun, run_event_driven-IsRun}

abbrev counting : Board
counting = record {
  D = ℕ;
  tick = λ n d. n + d;
  service = λ d. d;
  blocked = λ d. false;
  until_event = λ d. 1000;
  sleeps = λ d. false;
  wakes = λ d. false;
  execute = λ m. (if leb 300 m.0 then 0 else 4, m);
}

abbrev start : Scheduler
start = record {
  debt = 0;
  now = 40;
  unsettled = 40;
  deadline_at = 40;
  slice_end = 0;
  slice_begin = 0;
  degraded = true;
  stats = no_stats;
}

start-IsCoherent : IsCoherent start
unfolding cpu_time
start-IsCoherent = ground arith

start_time : cpu_time start ≡ 40
unfolding cpu_time
start_time = refl

counting-Lawful : Lawful counting 4
counting-Lawful = record {
  small = omega arith;
  keeps = λ m start stop r. (r, refl, inl (ground arith));
}

run_event_driven-IsRun_example :
    IsRun counting 1002 4 (0, start) (run_event_driven counting 1002 (0, start))
run_event_driven-IsRun_example =
    run_event_driven-IsRun counting 4 4 1002 0 start counting-Lawful (omega arith) (omega arith)
      (omega arith) (omega arith) (omega arith) start-IsCoherent start_time (omega arith)
