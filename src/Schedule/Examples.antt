-- ===== src/Schedule/Examples.antt =====
-- Tea at eight, polled every half minute.
use doll_os.Prelude.{◌≡◌, refl, some, List, [], ◌∷◌, arith}
use doll_os.Schedule.{ScheduleEntry, Poll, schedule_runner, has_fired}
use doll_os.Schedule.Once.{times_fired, fires-once}

abbrev tea : ScheduleEntry
tea = record { time = 28800000000; intent = "tea" }

abbrev polls : List Poll
polls = (28820000000, some (tea ∷ [])) ∷ (28850000000, some (tea ∷ [])) ∷ []

abbrev early : Poll
early = (28790000000, some (tea ∷ []))

day-fires : schedule_runner (early ∷ polls) [] ≡ [] ∷ (tea ∷ []) ∷ [] ∷ []
unfolding schedule_runner
day-fires = refl

fires-once_example :
    times_fired 28800000000 (schedule_runner ((28790000000, some (tea ∷ [])) ∷ polls) []) ≡ 1
unfolding has_fired
fires-once_example =
    fires-once 28800000000 28790000000 (some (tea ∷ [])) polls [] refl (refl, (refl, (refl, tt)))
      (omega arith) (omega arith, (omega arith, tt)) refl
