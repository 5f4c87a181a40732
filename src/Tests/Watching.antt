-- ===== src/Tests/Watching.antt =====
-- Drivers: runs of the poll and the select driver, and their theorems at concrete tables.
use php_websocket.Base.{◌≡◌, refl, true, false, some, [], ◌∷◌}
use php_websocket.Drivers.Poll.{
  Poll, ready, poll_init, watch_read, watch_write, unwatch_write, change, clear_out,
}
use php_websocket.Drivers.Poll.Watches.{events}
use php_websocket.Drivers.Poll.Refines.{Refines, Poll-Refines}
use php_websocket.Drivers.Poll as PollDriver
use php_websocket.Drivers.Select as SelectDriver
use php_websocket.Drivers.Select.{Select, select_ready, wait, first_ready}
use php_websocket.Drivers.Select.Agrees.{Agrees, Select-Agrees}
use php_websocket.Drivers.Select.Ready.{Waits, wait-Waits}

-- Two descriptors, of which one is watched for writing too.
abbrev table : Poll
table = record {
  fds =
      record { fd = 3; pollin = true; pollout = false }
      ∷ record { fd = 5; pollin = true; pollout = true }
      ∷ [];
  capacity = 8;
}

watch_read-table : watch_write (watch_read (watch_read poll_init 3) 5) 5 ≡ table
unfolding watch_read watch_write change
watch_read-table = refl

unwatch-table : events (unwatch_write table 5) 5 ≡ (true, false)
unfolding unwatch_write clear_out
unwatch-table = refl

Poll-Refines_example : Refines table 5
Poll-Refines_example = Poll-Refines table 5 ((refl, tt), (tt, tt))

-- The descriptors 3 and 5 in the select driver, of which 5 is watched for writing only.
abbrev selected : Select
selected = record {
  fds =
      record { fd = 3; read = true; write = false }
      ∷ record { fd = 5; read = false; write = true }
      ∷ [];
  capacity = 8;
}

Select-Agrees_example : Agrees selected 5
Select-Agrees_example = Select-Agrees selected 5

wait-Waits_example : Waits selected (λ select. wait select selected)
wait-Waits_example = wait-Waits selected ((refl, tt), (tt, tt))

wait-selected : wait (λ n reads writes. select_ready 1 [] (5 ∷ [])) selected ≡ ready 1 (some 5)
unfolding wait first_ready
wait-selected = refl

shutdown-tables :
    (PollDriver.shutdown table ≡ poll_init)
    × (SelectDriver.shutdown selected ≡ SelectDriver.select_init)
shutdown-tables = (refl, refl)
