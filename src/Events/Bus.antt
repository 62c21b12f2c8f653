-- ===== src/Events/Bus.antt =====
-- `Bus` of internal/events/bus.go: `Publish`, `Subscribe` and `Close`. A channel is its buffer and
-- whether it is closed; each operation holds the bus's lock. The order in which `Publish` visits the
-- subscribers is that of the list.
use kogia.Base.{
  ℕ, ◌+◌, ◌%◌, ◌^◌, Bool, true, false, not, Option, none, some, List, [], ◌∷◌, ◌++◌, codes, length,
  ltb, ◌==◌, if◌then◌else◌,
}
use kogia.Events.Filters.{Filters, Message, matches_filters, is_empty}

abbrev pub subscriber_buf_size : ℕ
subscriber_buf_size = 256

pub record Channel : Type 0 where
  pub buffer : List Message
  pub is_closed : Bool

pub record Subscriber : Type 0 where
  pub ch : Channel
  pub filters : Filters

-- `subscribers` is a Go map: one entry for a key.
pub record Bus : Type 0 where
  pub subscribers : List (ℕ × Subscriber)
  pub next_id : ℕ

abbrev pub new : Bus
new = record { subscribers = []; next_id = 0 }

abbrev pub find : ℕ → List (ℕ × Subscriber) → Option Subscriber
find id [] = none
find id ((k, s) ∷ subs) = if k == id then some s else find id subs

abbrev pub store : ℕ → Subscriber → List (ℕ × Subscriber) → List (ℕ × Subscriber)
store id s [] = (id, s) ∷ []
store id s ((k, t) ∷ subs) = if k == id then (id, s) ∷ subs else (k, t) ∷ store id s subs

abbrev pub delete : ℕ → List (ℕ × Subscriber) → List (ℕ × Subscriber)
delete id [] = []
delete id ((k, s) ∷ subs) = let rest = delete id subs in if k == id then rest else (k, s) ∷ rest

-- The fields of a message that the publisher left empty; `now` is the clock.
unfoldable pub stamp : ℕ × ℕ → Message → Message
stamp now msg = record msg {
  time = if msg.time == 0 then now.0 else msg.time;
  time_nano = if msg.time_nano == 0 then now.1 else msg.time_nano;
  scope = if is_empty msg.scope then codes "local" else msg.scope;
}

-- The send of `select` with a `default`: a full buffer drops the message, a closed channel panics.
unfoldable pub send : Channel → Message → Option Channel
send c msg =
    if c.is_closed
    then none
    else if ltb (length c.buffer) subscriber_buf_size
    then some (record c { buffer = c.buffer ++ msg ∷ [] })
    else some c

unfoldable pub offer : Subscriber → Message → Option Subscriber
offer sub msg =
    if not (matches_filters msg sub.filters)
    then some sub
    else elim (send sub.ch msg) [ none ↦ none | some c ↦ some (record sub { ch = c }) ]

unfoldable pub fan_out : List (ℕ × Subscriber) → Message → Option (List (ℕ × Subscriber))
fan_out [] msg = some []
fan_out ((id, sub) ∷ subs) msg = elim (offer sub msg) [
  | none ↦ none
  | some sub' ↦ elim (fan_out subs msg) [ none ↦ none | some subs' ↦ some ((id, sub') ∷ subs') ]
]

unfoldable pub publish : ℕ × ℕ → Message → Bus → Option Bus
publish now msg b = elim (fan_out b.subscribers (stamp now msg)) [
  | none ↦ none
  | some subs ↦ some (record b { subscribers = subs })
]

-- The identifier of the subscription, and the bus. `nextID` is a uint64.
unfoldable pub subscribe : Filters → Bus → ℕ × Bus
subscribe f b = (
  b.next_id,
  record {
    subscribers =
        store b.next_id (record { ch = record { buffer = []; is_closed = false }; filters = f })
          b.subscribers;
    next_id = (b.next_id + 1) % 2 ^ 64;
  },
)

-- `Close`: the bus, and the channel it closed, which only its reader still has.
unfoldable pub close : ℕ → Bus → Bus × Option Channel
close id b = (
  record b { subscribers = delete id b.subscribers },
  elim (find id b.subscribers) [
    | none ↦ none
    | some sub ↦ some (record (sub.ch) { is_closed = true })
  ],
)
