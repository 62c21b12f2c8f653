-- ===== src/Events/Reach.antt =====
-- The states of the bus that its operations and its readers reach.
use kogia.Base.{
  ℕ, ◌≤◌, ◌≡◌, refl, sym, ◌∙◌, some, List, [], ◌∷◌, length, ◌==◌, if◌then◌else◌, arith, Bool-cases,
  inl, inr,
}
use kogia.Events.Filters.{Filters, Message}
use kogia.Events.Bus.{Subscriber, Bus, new, store, delete, publish, subscribe, close}
use kogia.Events.Backlog.{IsReady, AllReady, publish-offered, some-injective}

-- A reader takes the oldest message of its channel.
abbrev pub drop_first : List Message → List Message
drop_first [] = []
drop_first (m ∷ ms) = ms

abbrev pub read_one : ℕ → List (ℕ × Subscriber) → List (ℕ × Subscriber)
read_one id [] = []
read_one id ((k, s) ∷ subs) =
    let rest = read_one id subs in
    if k == id
    then (k, record s { ch = record (s.ch) { buffer = drop_first s.ch.buffer } }) ∷ subs
    else (k, s) ∷ rest

pub data Step : Bus → Bus → Type 0 where
  on_subscribe : (f : Filters) {b : Bus} → Step b (subscribe f b).1
  on_close : (id : ℕ) {b : Bus} → Step b (close id b).0
  on_publish : (now : ℕ × ℕ) (msg : Message) {b b' : Bus} → publish now msg b ≡ some b' → Step b b'
  on_read : (id : ℕ) {b : Bus} → Step b (record b { subscribers = read_one id b.subscribers })

pub data Reach : Bus → Type 0 where
  start : Reach new
  next : {b b' : Bus} → Reach b → Step b b' → Reach b'

store-AllReady :
    (id : ℕ) (s : Subscriber) (subs : List (ℕ × Subscriber))
    → IsReady s
    → AllReady subs
    → AllReady (store id s subs)
store-AllReady id s [] r ready = (r, tt)
store-AllReady id s ((k, t) ∷ subs) r (r', ready) = elim (Bool-cases (k == id)) [
  | inl same ↦ rw same (r, ready)
  | inr other ↦ rw other (r', store-AllReady id s subs r ready)
]

delete-AllReady :
    (id : ℕ) (subs : List (ℕ × Subscriber)) → AllReady subs → AllReady (delete id subs)
delete-AllReady id [] ready = tt
delete-AllReady id ((k, t) ∷ subs) (r, ready) = elim (Bool-cases (k == id)) [
  | inl same ↦ rw same (delete-AllReady id subs ready)
  | inr other ↦ rw other (r, delete-AllReady id subs ready)
]

drop_first_le : (ms : List Message) → length (drop_first ms) ≤ length ms
drop_first_le [] = omega arith
drop_first_le (m ∷ ms) = omega arith

read_one-AllReady :
    (id : ℕ) (subs : List (ℕ × Subscriber)) → AllReady subs → AllReady (read_one id subs)
read_one-AllReady id [] ready = tt
read_one-AllReady id ((k, t) ∷ subs) ((waits, h), ready) = elim (Bool-cases (k == id)) [
  | inl same ↦ rw same ((waits, omega (arith, drop_first_le t.ch.buffer)), ready)
  | inr other ↦ rw other ((waits, h), read_one-AllReady id subs ready)
]

Step-AllReady : {b b' : Bus} → Step b b' → AllReady b.subscribers → AllReady b'.subscribers
unfolding subscribe close
Step-AllReady {b = b} (on_subscribe f) ready =
    store-AllReady b.next_id _ b.subscribers (refl, omega arith) ready
Step-AllReady {b = b} (on_close id) ready = delete-AllReady id b.subscribers ready
Step-AllReady {b = b} (on_publish now msg {b' = b'} e) ready =
    let (c, e', ready', each) = publish-offered now msg b ready in
    rw (some-injective b' c (sym e ∙ e')) ready'
Step-AllReady {b = b} (on_read id) ready = read_one-AllReady id b.subscribers ready

pub Reach-AllReady : {b : Bus} → Reach b → AllReady b.subscribers
Reach-AllReady start = tt
Reach-AllReady (next r s) = Step-AllReady s (Reach-AllReady r)

-- In every state that subscriptions, closes, publishes and reads reach, a publish returns: it does
-- not send on a closed channel, and no buffer is left with more than 256 messages.
pub publish_returns :
    (b : Bus) (now : ℕ × ℕ) (msg : Message)
    → Reach b
    → (b' : Bus) × (publish now msg b ≡ some b') × AllReady b'.subscribers
publish_returns b now msg r =
    let (b', e, ready, each) = publish-offered now msg b (Reach-AllReady r) in (b', e, ready)
