-- ===== src/Loop/Tests.antt =====
-- A loop with one connection, whose server is stopped.
use jrpc.Base.{ℕ, refl, codes, Option, none, some, true, false, [], ◌∷◌, Eq-ℕ, inr}
use jrpc.Base.GoMap.{GoMap, get, put, delete}
use jrpc.Base.Int.{pos}
use jrpc.Errors.{GoError, Sentinel, is_err_closing, wraps, is_sentinel}
use jrpc.Loop
use jrpc.Loop.{Loop, Stage, End, new_loop}
use jrpc.Loop.Services.{Step, Reach, Held, Reach-Held}
use jrpc.Metrics.{empty_metrics, add_count}
use jrpc.Options.{ServerOptions, server_of, metrics}
use jrpc.Server.State.{Server, new_server, start, stop, wind_down, shut, keep_all, cancel_each}
use jrpc.Server.Steps.{stop_server, wait_status}

abbrev no_options : Option (ServerOptions ℕ ℕ ℕ ℕ)
no_options = none

abbrev started : Server
unfolding new_server
started = record (new_server empty_metrics) {
  running = true;
  work_made = true;
  work_open = true;
  metrics = add_count (codes "rpc.serversActive") (pos 1) empty_metrics;
}

abbrev stopped : Server
unfolding shut wind_down
stopped = shut (GoError.sentinel Sentinel.server_stopped) (wind_down started)

abbrev over : Loop ℕ
over = record {
  accepting = false;
  err = none;
  goroutines = [];
  next = 1;
  assigners = (0, 7) ∷ [];
  ends = (0, End.finished 7 (record { err = none; stopped = true; closed = false }) stopped) ∷ [];
  returned = true;
}

abbrev with_stage : GoMap ℕ ℕ → Stage ℕ → Loop ℕ
with_stage assigners g = record {
  accepting = true;
  err = none;
  goroutines = (0, g) ∷ [];
  next = 1;
  assigners = assigners;
  ends = [];
  returned = false;
}

over-Reach : Reach no_options over
unfolding new_loop Loop.accept Loop.begin Loop.cancel Loop.serve Loop.finish Loop.return_error get
    put delete server_of metrics start stop_server stop wait_status is_err_closing wraps is_sentinel
    new_server shut wind_down keep_all cancel_each
over-Reach =
    Reach.step
      (Reach.step {l = record over { accepting = true; returned = false }}
        (Reach.step {l = with_stage ((0, 7) ∷ []) (Stage.serving 7 stopped)}
          (Reach.step {l = with_stage ((0, 7) ∷ []) (Stage.serving 7 started)}
            (Reach.step {l = with_stage [] Stage.starting}
              (Reach.step Reach.new (Step.accept none refl refl)) (Step.begin 0 (inr 7) refl))
            (Step.cancel 0 refl))
          (Step.finish 0 refl))
        (Step.accept (some (GoError.sentinel Sentinel.net_closed)) refl refl))
      (Step.return_error none refl)

Reach-Held_example : Held over
Reach-Held_example = Reach-Held no_options over over-Reach
