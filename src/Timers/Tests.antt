-- ===== src/Timers/Tests.antt =====
-- The two timers, as they run when the first handler is in time.
use boost_asio_study.Asio.Sample.{sample, sample-IsErrors}
use boost_asio_study.Base.{List, [], ◌∷◌, ◌≡◌, ◌⊎◌, refl}
use boost_asio_study.Timers.{
  Timers, called, expired, cancelled, expires_one, runs_one, runs_two, Event, step, expire, run_one,
  run_two, cancel, line, main,
}
use boost_asio_study.Timers.Runs.{timers_reported}

abbrev in_time : List Event
in_time = expires_one ∷ runs_one ∷ runs_two ∷ []

abbrev ended : Timers
ended = record { one = called; two = called; printed = expired 1 ∷ cancelled 2 ∷ [] }

timers_reported_example :
    (ended.printed ≡ expired 1 ∷ cancelled 2 ∷ [])
    ⊎ (ended.printed ≡ expired 1 ∷ expired 2 ∷ [])
    ⊎ (ended.printed ≡ expired 2 ∷ expired 1 ∷ [])
unfolding main step expire run_one run_two cancel line
timers_reported_example = timers_reported sample sample-IsErrors in_time ended refl refl refl
