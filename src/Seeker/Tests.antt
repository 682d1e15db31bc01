-- ===== src/Seeker/Tests.antt =====
-- The theorem of Seeker at a device of 1000 blocks.
use testunion.Common.{◌≡◌, refl, arith, List, [], ◌∷◌, true, some, All}
use testunion.Seeker.{
  Event, seek, alarm, exits, results, choose_offset, position_of, seems_failed, run, main,
}
use testunion.Seeker.Laws.{Ends, IsBlock, main-Ends}

abbrev events : List Event
events =
    seek 0 true true
    ∷ alarm 129
    ∷ seek 1073741824 true true
    ∷ seek 2147483647 true true
    ∷ alarm 130
    ∷ seek 5 true true
    ∷ []

-- The last of the three seeks goes behind the last block.
main_runs :
    main 2147483647 100 2 true (some 1000) events ≡ (0 ∷ 256000 ∷ 512000 ∷ [], exits 0 (some 0))
unfolding main run results choose_offset position_of seems_failed
main_runs = refl

main-Ends_example :
    let r = main 2147483647 100 2 true (some 1000) events in
    Ends 100 0 events r.1 × All (IsBlock 1000) r.0
main-Ends_example =
    main-Ends 2147483647 100 1000 (omega arith) (omega arith) (omega arith) events (omega arith)
