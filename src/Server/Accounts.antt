-- ===== src/Server/Accounts.antt =====
-- The account of a queue, and what the clients of the server ask for.
use rabbitmqtobucketqueue.Common.{
  ℕ, suc, ◌+◌, if◌then◌else◌, Option, none, some, List, String, str_eq,
}
use rabbitmqtobucketqueue.Common.Int.{pos}
use rabbitmqtobucketqueue.Server.{Value, number, text, object, at}

-- The quota of a queue, and what was counted since the last reset.
pub record Account : Type 0 where
  pub quota : ℕ
  pub spent : ℕ

-- What a client asks for.
pub data Request : Type 0 where
  coordinates : String → ℕ → Request
  increments : String → ℕ → Request
  resets : String → Request
  nothing : Request

-- The arguments that are understood: an object with a name, a quota and an interval; a name and a
-- count; a name. A name is not empty and the numbers are at least 1.
abbrev pub coordinates_of : Value → Value → Value → Request
coordinates_of (text p) (number (pos (suc m))) (number (pos (suc i))) =
    if str_eq p "" then nothing else coordinates p (suc m)
coordinates_of _ _ _ = nothing

abbrev pub object_of : Value → Request
object_of (object f) = coordinates_of (f "queue") (f "maxBatch") (f "interval")
object_of _ = nothing

abbrev pub increments_of : Value → Value → Request
increments_of (text p) (number (pos (suc n))) =
    if str_eq p "" then nothing else increments p (suc n)
increments_of _ _ = nothing

abbrev pub resets_of : Value → Request
resets_of (text p) = if str_eq p "" then nothing else resets p
resets_of _ = nothing

abbrev pub request : String → List Value → Request
request e args =
    if str_eq e "coordinate"
    then object_of (at 0 args)
    else if str_eq e "increment"
    then increments_of (at 0 args) (at 1 args)
    else if str_eq e "reset"
    then resets_of (at 0 args)
    else nothing

-- The first request for a queue opens its account, and later ones leave it as it is.
abbrev pub opened : ℕ → Option Account → Option Account
opened m none = some (record { quota = m; spent = 0 })
opened m (some a) = some a

abbrev pub charged : ℕ → Option Account → Option Account
charged n none = none
charged n (some a) = some (record a { spent = a.spent + n })

abbrev pub cleared : Option Account → Option Account
cleared none = none
cleared (some a) = some (record a { spent = 0 })

abbrev pub served : String → Request → Option Account → Option Account
served q (coordinates p m) a = if str_eq p q then opened m a else a
served q (increments p n) a = if str_eq p q then charged n a else a
served q (resets p) a = if str_eq p q then cleared a else a
served q nothing a = a
