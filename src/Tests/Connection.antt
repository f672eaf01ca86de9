-- ===== src/Tests/Connection.antt =====
-- The connection to RabbitMQ, over a count of its closes.
use rabbitmqtobucketqueue.Common.{ℕ, suc, ◌≡◌, refl, none, some, true, false, [], ◌∷◌, ok, err}
use rabbitmqtobucketqueue.Bucket.Defs.{plain}
use rabbitmqtobucketqueue.Connection.{
  close, blocked, connect_event, Link, Connection, fresh, close_connection, create_channel,
  initialize, connect_static, Callback, not_initialized,
}
use rabbitmqtobucketqueue.Connection.Closing.{close_events, close_connection-again}

-- It signals its close, and gives no channel.
abbrev link : Link ℕ
link = record {
  connect = λ w. (ok tt, w);
  create_channel = λ w. (err (plain "none left"), w);
  create_confirm_channel = λ w. (err (plain "none left"), w);
  close_link = λ w. (ok (blocked "full" ∷ close ∷ []), suc w);
}

-- A callback that throws once it is called, and counts its calls.
abbrev throws : Callback ℕ
throws none w = (err (plain "from the callback"), suc w)
throws (some e) w = (ok tt, suc w)

abbrev opened : Connection ℕ
opened = record { linked = true; closed = false; emitted = connect_event ∷ []; world = 0 }

connect_tested :
    (initialize link none (fresh 0) ≡ (ok tt, opened))
    × (connect_static link (some throws) 0 ≡ (ok none, 2))
    × ((create_channel link (fresh 0)).0 ≡ err not_initialized)
unfolding initialize connect_static create_channel
connect_tested = (refl, refl, refl)

close_connection-again_example :
    ((close_connection link opened).0 ≡ ok tt)
    × (close_events (close_connection link opened).1.emitted ≡ 2)
    × (close_connection link (close_connection link opened).1
        ≡ (ok tt, (close_connection link opened).1))
close_connection-again_example = close_connection-again link opened refl refl refl
