-- ===== src/Virtio/Network/Laws.antt =====
-- The network device's link, and that no notification of the front end is lost.
use heterogeneous_multicore.Base.{
  ℕ, ◌≡◌, refl, Bool, true, false, ◌||◌, List, [], ◌∷◌, ◌==◌, if◌then◌else◌, arith, test_bit, not,
  ◌&&◌,
}
use heterogeneous_multicore.Virtio.Network.{
  NetDev, handle_dev_status, kick_timer_callback, coalesce_rx, coalesce_tx,
}

-- What may happen between the device and its timer: a packet received or sent, with what
-- virtio_queue_must_notify said, and the timer.
pub data Event : Type 0 where
  rx tx : Bool → Event
  fires : Event

-- The device, and whether a notification is owed: one was needed, and no interrupt came after it.
abbrev pub step : Event → NetDev × Bool → NetDev × Bool
step (rx must) (ndev, owed) =
    let ndev' = coalesce_rx must ndev in
    (ndev', if ndev'.interrupts == ndev.interrupts then owed || must else false)
step (tx must) (ndev, owed) =
    let ndev' = coalesce_tx must ndev in
    (ndev', if ndev'.interrupts == ndev.interrupts then owed || must else false)
step fires (ndev, owed) =
    let ndev' = kick_timer_callback ndev in
    (ndev', if ndev'.interrupts == ndev.interrupts then owed else false)

abbrev pub run : List Event → NetDev × Bool → NetDev × Bool
run [] s = s
run (e ∷ es) s = run es (step e s)

-- The first holds only where the second does.
abbrev pub OnlyIf : Bool → Bool → Type 0
OnlyIf a b = (a && not b) ≡ false

step_owed :
    (e : Event) (ndev : NetDev) (owed : Bool)
    → OnlyIf owed ndev.kick_timer
    → let (ndev', owed') = step e (ndev, owed) in OnlyIf owed' ndev'.kick_timer
unfolding coalesce_rx coalesce_tx kick_timer_callback
step_owed (rx true) ndev owed h = ground arith
step_owed (rx false) ndev owed h = ground arith
step_owed (tx true) ndev owed h = ground arith
step_owed (tx false) ndev owed h = ground arith
step_owed fires ndev owed h = ground arith

-- Whatever packets come and go and whenever the timer fires: the front end is owed a notification,
-- that is, one was needed and no interrupt has come since, only while the timer that interrupts it
-- is active, if it was so at first.
pub run_owed :
    (es : List Event) (ndev : NetDev) (owed : Bool)
    → OnlyIf owed ndev.kick_timer
    → let (ndev', owed') = run es (ndev, owed) in OnlyIf owed' ndev'.kick_timer
run_owed [] ndev owed h = h
run_owed (e ∷ es) ndev owed h =
    let (ndev', owed') = step e (ndev, owed) in run_owed es ndev' owed' (step_owed e ndev owed h)

-- Writes of the status register, each with the device live or not before it.
abbrev pub write_status : ℕ → Bool → NetDev → NetDev
write_status status live ndev = handle_dev_status status (record ndev { live = live })

abbrev pub statuses : List (ℕ × Bool) → NetDev → NetDev
statuses [] ndev = ndev
statuses ((status, live) ∷ ws) ndev = statuses ws (write_status status live ndev)

link_needs_run :
    (status : ℕ) (ndev : NetDev)
    → OnlyIf ndev.link_on ndev.running
    → OnlyIf (handle_dev_status status ndev).link_on (handle_dev_status status ndev).running
unfolding handle_dev_status
link_needs_run status ndev h = ground arith

statuses_link :
    (ws : List (ℕ × Bool)) (ndev : NetDev)
    → OnlyIf ndev.link_on ndev.running
    → OnlyIf (statuses ws ndev).link_on (statuses ws ndev).running
statuses_link [] ndev h = h
statuses_link ((status, live) ∷ ws) ndev h =
    statuses_link ws (write_status status live ndev)
      (link_needs_run status (record ndev { live = live }) h)

reset_stops :
    (ndev : NetDev)
    → ((write_status 0 true ndev).link_on ≡ false)
      × ((write_status 0 true ndev).running ≡ false)
      × ((write_status 0 true ndev).conf_link_up ≡ true)
unfolding handle_dev_status
reset_stops ndev = (refl, refl, refl)

start_links :
    (status : ℕ) (ndev : NetDev)
    → test_bit status 2 ≡ true
    → ndev.conf_link_up ≡ true
    → ((write_status status false ndev).link_on ≡ true)
      × ((write_status status false ndev).running ≡ true)
unfolding handle_dev_status
start_links status ndev ok up = ground arith

-- After any writes of the status, the link of the device is on only while it runs, if it was so at
-- first. A live device that is then reset has stopped, with its link off, and one that is started
-- after that, by a status with DRIVER_OK, runs and has its link on.
pub status_link :
    (ws : List (ℕ × Bool)) (ndev : NetDev) (status : ℕ)
    → OnlyIf ndev.link_on ndev.running
    → test_bit status 2 ≡ true
    → let now = statuses ws ndev in
      let reset = write_status 0 true now in
      let started = write_status status false reset in
      OnlyIf now.link_on now.running
      × (reset.link_on ≡ false)
      × (reset.running ≡ false)
      × (started.link_on ≡ true)
      × (started.running ≡ true)
status_link ws ndev status h ok =
    let now = statuses ws ndev in
    let (off, stopped, up) = reset_stops now in
    let (on, runs) = start_links status (write_status 0 true now) ok up in
    (statuses_link ws ndev h, off, stopped, on, runs)
