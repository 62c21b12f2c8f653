-- ===== src/Events/Tests.antt =====
-- The theorems on the bus at small inputs.
use kogia.Base.{ℕ, ◌≡◌, refl, false, some, List, [], ◌∷◌, codes}
use kogia.Events.Filters.{Message, Filters, no_filters}
use kogia.Events.Bus.{Subscriber, Bus, new, find, subscribe}
use kogia.Events.Backlog.{filled, matching, publish_all, publish_all-filled}
use kogia.Events.Reach.{on_subscribe, Reach, start, next, Reach-AllReady}

abbrev started : Message
started = record {
  type = codes "container";
  action = codes "start";
  actor = record { id = codes "ab12"; attributes = [] };
  scope = [];
  time = 0;
  time_nano = 0;
}

abbrev only_images : Filters
only_images = record no_filters { types = codes "image" ∷ [] }

abbrev two : Bus
two = (subscribe only_images (subscribe no_filters new).1).1

abbrev first : Subscriber
first = record { ch = record { buffer = []; is_closed = false }; filters = no_filters }

two-Reach : Reach two
two-Reach = next (next start (on_subscribe no_filters)) (on_subscribe only_images)

first_found : find 0 two.subscribers ≡ some first
unfolding subscribe
first_found = refl

abbrev backlog : List ((ℕ × ℕ) × Message)
backlog = ((5, 5), started) ∷ ((6, 6), started) ∷ []

publish_all-filled_example :
    (b' : Bus) × (publish_all backlog two ≡ some b')
    × (find 0 b'.subscribers ≡ some (filled first (matching no_filters backlog)))
publish_all-filled_example =
    publish_all-filled backlog two 0 first (Reach-AllReady two-Reach) first_found
