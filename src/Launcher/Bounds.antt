-- ===== src/Launcher/Bounds.antt =====
-- The bound of a launcher's event queue.
use event_queue.Common.{
  ℕ, ◌≡◌, ◌⊎◌, inl, inr, true, false, [], ◌∷◌, ◌++◌, length, arith, Bool-cases, ◌==◌, ◌≢◌,
}
use event_queue.Launcher.{LauncherTable, add_event_queue, event_queue_size}

-- An event is refused exactly by a device's launcher whose queue is full, which stays as it is. It
-- is put at the end of the queue otherwise; the host's queue has no bound.
pub add_event_queue_cases :
    (l : LauncherTable) (o : ℕ)
    → ((l.host ≡ false)
        × (length l.event_queue ≡ event_queue_size)
        × (add_event_queue l o ≡ (false, l)))
      ⊎ (((l.host ≡ true) ⊎ (length l.event_queue ≢ event_queue_size))
          × (add_event_queue l o ≡ (true, record l { event_queue = l.event_queue ++ o ∷ [] })))
unfolding add_event_queue
add_event_queue_cases l o = elim (Bool-cases l.host) [
  | inl host ↦ inr (inl host, ground arith)
  | inr other ↦ elim (Bool-cases (length l.event_queue == event_queue_size)) [
    | inl full ↦ inl (other, ground arith, ground arith)
    | inr room ↦ inr (inr (λ e. ground arith), ground arith)
  ]
]
