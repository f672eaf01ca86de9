-- ===== src/Tests/Server.antt =====
-- The coordination server with a decryption that reads plain text.
use rabbitmqtobucketqueue.Common.{
  Bool, true, false, if◌then◌else◌, ◌≡◌, refl, some, List, [], ◌∷◌, String, str_eq,
}
use rabbitmqtobucketqueue.Common.Int.{pos}
use rabbitmqtobucketqueue.Coordinator.Memory as Memory
use rabbitmqtobucketqueue.Server.{
  decrypt_all, Value, undefined, number, text, object, Server, get, is_in, on_socket_connect, turn,
  Happening, connects, events, turns, happen, live, new,
}
use rabbitmqtobucketqueue.Server.Refines.{balance-account_after, reported}
use rabbitmqtobucketqueue.Server.Schedule.{live-IsSpent, is_report}
use rabbitmqtobucketqueue.Server.Silent.{reports}
use rabbitmqtobucketqueue.Server.Connect.{on_socket_connect-told, told}

abbrev refused : String → Bool
refused token = false

abbrev jobs_config : String → Value
jobs_config key =
    if str_eq key "queue"
    then text "jobs"
    else if str_eq key "maxBatch"
    then number (pos 9)
    else if str_eq key "interval"
    then number (pos 1000)
    else undefined

abbrev plain : String → String → Value
plain s purpose =
    if str_eq s "config"
    then object jobs_config
    else if str_eq s "four"
    then number (pos 4)
    else text s

-- A client opens the queue and counts four; a count of another type changes nothing.
abbrev story : List Happening
story =
    events "a" "increment" (text "jobs" ∷ text "many" ∷ [])
    ∷ turns
    ∷ events "a" "increment" (text "jobs" ∷ text "four" ∷ [])
    ∷ events "a" "coordinate" (text "config" ∷ [])
    ∷ connects "a" "token"
    ∷ []

balance-account_after_example :
    reported refused plain (get "jobs" (live refused plain story new).coordinators) ≡ some 5
unfolding decrypt_all
balance-account_after_example = balance-account_after refused plain "jobs" story

abbrev after_first : Server
after_first = record {
  coordinators = [];
  sockets = "a" ∷ [];
  on_next_tick = true;
  scheduled = false;
  sent = [];
}

live-IsSpent_example :
    let s = live refused plain story after_first in
    (turn s ≡ s)
    × ((x : Happening)
        → is_report x ≡ false
        → reports (happen refused plain x s).sent ≡ reports s.sent)
live-IsSpent_example = live-IsSpent refused plain story after_first (refl, refl)

-- A server with two queues, of which one has counted four.
abbrev two_queues : Server
two_queues = record after_first {
  coordinators =
      ("jobs", Memory.increment 4 (Memory.new "jobs" 9 1000))
      ∷ ("mails", Memory.new "mails" 2 1000)
      ∷ [];
}

on_socket_connect-told_example :
    let s = on_socket_connect refused "token" "b" two_queues in
    (is_in "b" s.sockets ≡ true) × (told "b" s.sent ≡ ("jobs", 5) ∷ ("mails", 2) ∷ [])
unfolding Memory.increment Memory.balance Memory.new
on_socket_connect-told_example = on_socket_connect-told refused "token" "b" two_queues
