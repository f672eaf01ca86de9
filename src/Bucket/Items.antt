-- ===== src/Bucket/Items.antt =====
-- The two steps of `#tick` that turn messages into items: deserialization and validation. Each
-- message either becomes an item or is nacked here.
use rabbitmqtobucketqueue.Common.{
  true, false, not, ◌||◌, Option, none, some, List, [], ◌∷◌, ok, err,
}
use rabbitmqtobucketqueue.Bucket.Defs.{
  Failure, reenqueue, Message, raw, made, DeserializedMessage, Env, invalid_event, error_event,
  Bucket, emit,
}
use rabbitmqtobucketqueue.Bucket.Calls.{interrupted, nack_unawaited}

-- `array.filter((item) => item !== undefined)`
abbrev pub defined : {A : Type 0} → List (Option A) → List A
defined [] = []
defined (none ∷ xs) = defined xs
defined (some x ∷ xs) = x ∷ defined xs

module _ {W C T : Type 0} (env : Env W C T) where
  open env use {options}

  unfoldable pub deserialize_failed :
      Message → Failure → Bucket W C T → Option (DeserializedMessage T) × Bucket W C T
  deserialize_failed m error s =
      let requeue = not options.discard_on_deserialize_error || reenqueue error in
      (none, nack_unawaited env m requeue (emit (error_event error) s))

  unfoldable pub deserialize :
      Message → Bucket W C T → Option (DeserializedMessage T) × Bucket W C T
  deserialize m s = elim options.deserialize_item [
    | none ↦ (some (record { message = m; item = raw m.content }), s)
    | some f ↦
        let (r, w) = f m.content s.world in
        let s' = interrupted env (record s { world = w }) in
        elim r [
          | ok t ↦ (some (record { message = m; item = made t }), s')
          | err error ↦ deserialize_failed m error s'
        ]
  ]

  unfoldable pub validate_failed :
      DeserializedMessage T → Failure → Bucket W C T → Option (DeserializedMessage T) × Bucket W C T
  validate_failed d error s =
      let requeue = not options.discard_on_validation_error || reenqueue error in
      (none, nack_unawaited env d.message requeue (emit (error_event error) s))

  unfoldable pub invalid :
      DeserializedMessage T → Bucket W C T → Option (DeserializedMessage T) × Bucket W C T
  invalid d s = (
    none,
    nack_unawaited env d.message (not options.discard_on_invalid)
        (emit (invalid_event d.item d.message) s),
  )

  unfoldable pub validate :
      DeserializedMessage T → Bucket W C T → Option (DeserializedMessage T) × Bucket W C T
  validate d s = elim options.validate_item [
    | none ↦ (some d, s)
    | some f ↦
        let (r, w) = f d.item s.world in
        let s' = interrupted env (record s { world = w }) in
        elim r [
          | ok true ↦ (some d, s')
          | ok false ↦ invalid d s'
          | err error ↦ validate_failed d error s'
        ]
  ]

  -- The two `map`s with their `Promise.all`; none of the mapped functions rejects. An undefined
  -- item was nacked by the first step, and stays undefined.
  unfoldable pub deserialize_all :
      List Message → Bucket W C T → List (Option (DeserializedMessage T)) × Bucket W C T
  deserialize_all [] s = ([], s)
  deserialize_all (m ∷ ms) s =
      let (d, s') = deserialize m s in let (ds, s'') = deserialize_all ms s' in (d ∷ ds, s'')

  unfoldable pub validate_defined :
      Option (DeserializedMessage T) → Bucket W C T → Option (DeserializedMessage T) × Bucket W C T
  validate_defined none s = (none, s)
  validate_defined (some d) s = validate d s

  unfoldable pub validate_all :
      List (Option (DeserializedMessage T))
      → Bucket W C T
      → List (Option (DeserializedMessage T)) × Bucket W C T
  validate_all [] s = ([], s)
  validate_all (d ∷ ds) s =
      let (v, s') = validate_defined d s in let (vs, s'') = validate_all ds s' in (v ∷ vs, s'')
