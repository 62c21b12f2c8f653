-- ===== src/Events/Backlog.antt =====
-- What a subscriber that reads nothing finds in its channel.
use kogia.Base.{
  ℕ, zero, suc, ◌≤◌, ◌≡◌, refl, sym, inl, inr, ap, ◌∙◌, false, Option, none, some, List, [], ◌∷◌,
  ◌++◌, length, ltb, ◌==◌, if◌then◌else◌, arith, Bool-cases, length-append,
}
use kogia.Events.Filters.{Filters, Message, matches_filters}
use kogia.Events.Bus.{
  Channel, Subscriber, Bus, find, stamp, send, offer, fan_out, publish, subscriber_buf_size,
}

abbrev pub take {ℓ} : {A : Type ℓ} → ℕ → List A → List A
take zero xs = []
take (suc n) [] = []
take (suc n) (x ∷ xs) = x ∷ take n xs

take_of_le {ℓ} : {A : Type ℓ} (n : ℕ) (xs : List A) → length xs ≤ n → take n xs ≡ xs
take_of_le zero [] h = refl
take_of_le zero (x ∷ xs) h = elim h [ ]
take_of_le (suc n) [] h = refl
take_of_le (suc n) (x ∷ xs) h = ap (λ t. x ∷ t) (take_of_le n xs (omega arith))

take_append_of_eq {ℓ} :
    {A : Type ℓ} (n : ℕ) (xs ys : List A) → length xs ≡ n → take n (xs ++ ys) ≡ xs
take_append_of_eq zero [] ys h = refl
take_append_of_eq zero (x ∷ xs) ys h = absurd (ground arith)
take_append_of_eq (suc n) [] ys h = absurd (ground arith)
take_append_of_eq (suc n) (x ∷ xs) ys h = ap (λ t. x ∷ t) (take_append_of_eq n xs ys (omega arith))

take-take_append {ℓ} :
    {A : Type ℓ} (n : ℕ) (xs ys : List A) → take n (take n xs ++ ys) ≡ take n (xs ++ ys)
take-take_append zero xs ys = refl
take-take_append (suc n) [] ys = refl
take-take_append (suc n) (x ∷ xs) ys = ap (λ t. x ∷ t) (take-take_append n xs ys)

length-take_le {ℓ} : {A : Type ℓ} (n : ℕ) (xs : List A) → length (take n xs) ≤ n
length-take_le zero xs = omega arith
length-take_le (suc n) [] = omega arith
length-take_le (suc n) (x ∷ xs) = omega (arith, length-take_le n xs)

append_assoc {ℓ} : {A : Type ℓ} (xs ys zs : List A) → (xs ++ ys) ++ zs ≡ xs ++ (ys ++ zs)
append_assoc [] ys zs = refl
append_assoc (x ∷ xs) ys zs = ap (λ t. x ∷ t) (append_assoc xs ys zs)

append-nil {ℓ} : {A : Type ℓ} (xs : List A) → xs ++ [] ≡ xs
append-nil [] = refl
append-nil (x ∷ xs) = ap (λ t. x ∷ t) (append-nil xs)

-- A subscriber of the bus: its channel is not closed and within its buffer.
abbrev pub IsReady : Subscriber → Type 0
IsReady s = (s.ch.is_closed ≡ false) × (length s.ch.buffer ≤ subscriber_buf_size)

abbrev pub AllReady : List (ℕ × Subscriber) → Type 0
AllReady [] = Unit
AllReady ((k, s) ∷ subs) = IsReady s × AllReady subs

-- A channel into which the messages went, as far as there was room.
abbrev pub filled : Subscriber → List Message → Subscriber
filled s ms = record s {
  ch = record { buffer = take subscriber_buf_size (s.ch.buffer ++ ms); is_closed = false };
}

abbrev pub wanted : Filters → Message → List Message
wanted f msg = if matches_filters msg f then msg ∷ [] else []

take_none :
    (s : Subscriber) → IsReady s → take subscriber_buf_size (s.ch.buffer ++ []) ≡ s.ch.buffer
take_none s (waits, h) =
    ap (take subscriber_buf_size) (append-nil s.ch.buffer)
    ∙ take_of_le subscriber_buf_size s.ch.buffer h

send-filled :
    (s : Subscriber) (msg : Message) → IsReady s → send s.ch msg ≡ some ((filled s (msg ∷ [])).ch)
unfolding send
send-filled s msg (waits, h) = elim (Bool-cases (ltb (length s.ch.buffer) subscriber_buf_size)) [
  | inl room ↦
      let whole =
        take_of_le subscriber_buf_size (s.ch.buffer ++ msg ∷ [])
          (ground (arith, length-append s.ch.buffer (msg ∷ []))) in
      ground (arith, whole)
  | inr full ↦
      let rest = take_append_of_eq subscriber_buf_size s.ch.buffer (msg ∷ []) (ground arith) in
      ground (arith, rest)
]

offer-filled :
    (s : Subscriber) (msg : Message)
    → IsReady s
    → offer s msg ≡ some (filled s (wanted s.filters msg))
unfolding offer
offer-filled s msg ready = elim (Bool-cases (matches_filters msg s.filters)) [
  | inl m ↦ rw (m, send-filled s msg ready) refl
  | inr m ↦ rw (m, take_none s ready) (ground (arith, ready.0))
]

filled-IsReady : (s : Subscriber) (ms : List Message) → IsReady (filled s ms)
filled-IsReady s ms = (refl, length-take_le subscriber_buf_size (s.ch.buffer ++ ms))

-- Each subscriber that is ready is offered the message on its own.
abbrev pub offered : Message → Option Subscriber → Option Subscriber
offered msg none = none
offered msg (some s) = some (filled s (wanted s.filters msg))

fan_out-offered :
    (subs : List (ℕ × Subscriber)) (msg : Message)
    → AllReady subs
    → (subs' : List (ℕ × Subscriber)) × (fan_out subs msg ≡ some subs')
      × AllReady subs'
      × ((id : ℕ) → find id subs' ≡ offered msg (find id subs))
unfolding fan_out
fan_out-offered [] msg ready = ([], refl, tt, λ id. refl)
fan_out-offered ((k, s) ∷ subs) msg (r, ready) =
    let (subs', e, ready', each) = fan_out-offered subs msg ready in
    let s' = filled s (wanted s.filters msg) in
    (
      (k, s') ∷ subs',
      ground (arith, offer-filled s msg r, e),
      (filled-IsReady s (wanted s.filters msg), ready'),
      λ id. ground (arith, each id),
    )

pub some-injective {ℓ} : {A : Type ℓ} (a b : A) → some a ≡ some b → a ≡ b
some-injective a b e = cc

filled-nil : (s : Subscriber) → IsReady s → filled s [] ≡ s
filled-nil s ready =
    ap (λ (c : Channel). record s { ch = c }) (ground (arith, take_none s ready, ready.0))

pub find-IsReady :
    (id : ℕ) (subs : List (ℕ × Subscriber)) (s : Subscriber)
    → AllReady subs
    → find id subs ≡ some s
    → IsReady s
find-IsReady id [] s ready e = cc
find-IsReady id ((k, t) ∷ subs) s (r, ready) e = elim (Bool-cases (k == id)) [
  | inl same ↦ rw (← (some-injective t s (ground (arith, same)))) r
  | inr other ↦ find-IsReady id subs s ready (ground (arith, other))
]

filled-filled :
    (s : Subscriber) (xs ys : List Message) → filled (filled s xs) ys ≡ filled s (xs ++ ys)
filled-filled s xs ys =
    ap (λ (buffer : List Message). record s { ch = record { buffer = buffer; is_closed = false } })
      (take-take_append subscriber_buf_size (s.ch.buffer ++ xs) ys
        ∙ ap (take subscriber_buf_size) (append_assoc s.ch.buffer xs ys))

-- Several messages, each with the clock at which it is published.
abbrev pub publish_all : List ((ℕ × ℕ) × Message) → Bus → Option Bus
publish_all [] b = some b
publish_all ((now, msg) ∷ ms) b = elim (publish now msg b) [
  | none ↦ none
  | some b' ↦ publish_all ms b'
]

-- The messages that the filters let through, as they are sent.
abbrev pub matching : Filters → List ((ℕ × ℕ) × Message) → List Message
matching f [] = []
matching f ((now, msg) ∷ ms) = wanted f (stamp now msg) ++ matching f ms

pub publish-offered :
    (now : ℕ × ℕ) (msg : Message) (b : Bus)
    → AllReady b.subscribers
    → (b' : Bus) × (publish now msg b ≡ some b')
      × AllReady b'.subscribers
      × ((id : ℕ) → find id b'.subscribers ≡ offered (stamp now msg) (find id b.subscribers))
unfolding publish
publish-offered now msg b ready =
    let (subs', e, ready', each) = fan_out-offered b.subscribers (stamp now msg) ready in
    (record b { subscribers = subs' }, ground (arith, e), ready', each)

-- From a bus whose subscribers are ready every message can be published, and a subscriber that reads
-- nothing then has in its buffer what was in it and the messages that match its filters, in order, cut
-- off at 256.
pub publish_all-filled :
    (ms : List ((ℕ × ℕ) × Message)) (b : Bus) (id : ℕ) (s : Subscriber)
    → AllReady b.subscribers
    → find id b.subscribers ≡ some s
    → (b' : Bus) × (publish_all ms b ≡ some b')
      × (find id b'.subscribers ≡ some (filled s (matching s.filters ms)))
publish_all-filled [] b id s ready e =
    (b, refl, e ∙ ap some (sym (filled-nil s (find-IsReady id b.subscribers s ready e))))
publish_all-filled ((now, msg) ∷ ms) b id s ready e =
    let (b1, e1, ready1, each) = publish-offered now msg b ready in
    let s1 = filled s (wanted s.filters (stamp now msg)) in
    let found : find id b1.subscribers ≡ some s1 = each id ∙ ap (offered (stamp now msg)) e in
    let (b', e', found') = publish_all-filled ms b1 id s1 ready1 found in
    (
      b',
      ground (arith, e1, e'),
      found' ∙ ap some (filled-filled s (wanted s.filters (stamp now msg)) (matching s.filters ms)),
    )
