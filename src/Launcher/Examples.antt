-- ===== src/Launcher/Examples.antt =====
-- A launcher with room in its event queue.
use event_queue.Common.{◌≡◌, ◌≢◌, ◌⊎◌, refl, true, false, [], ◌∷◌, ◌++◌, length}
use event_queue.Launcher.{LauncherTable, new_launcher, add_event_queue, event_queue_size}
use event_queue.Launcher.Bounds.{add_event_queue_cases}

abbrev waiting : LauncherTable
waiting = record (new_launcher "proc") { event_queue = 4 ∷ [] }

add_event_queue-waiting :
    add_event_queue waiting 7 ≡ (true, record waiting { event_queue = 4 ∷ 7 ∷ [] })
unfolding add_event_queue
add_event_queue-waiting = refl

add_event_queue_cases_example :
    ((false ≡ false)
      × (length waiting.event_queue ≡ event_queue_size)
      × (add_event_queue waiting 7 ≡ (false, waiting)))
    ⊎ (((false ≡ true) ⊎ (length waiting.event_queue ≢ event_queue_size))
        × (add_event_queue waiting 7
            ≡ (true, record waiting { event_queue = waiting.event_queue ++ 7 ∷ [] })))
add_event_queue_cases_example = add_event_queue_cases waiting 7
