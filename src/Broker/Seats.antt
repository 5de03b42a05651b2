-- ===== src/Broker/Seats.antt =====
-- The admission against the connections that hold a seat.
use cross_agent_chat.Prelude.{
  ltb, leb, eqb, if◌then◌else◌, Bool-cases, length, ℕ, suc, ◌+◌, ◌-◌, ◌≤◌, ◌≡◌, refl, ap, inl, inr,
  false, ◌&&◌, some, List, [], ◌∷◌, arith,
}
use cross_agent_chat.Text.{Text, ◌==◌, ==_iff}
use cross_agent_chat.Broker.{
  max_broker_connections, max_broker_connections_per_peer, BrokerAdmission, new_admission, active,
  put, pop, acquire, vacate, release,
}

-- The connections of a peer.
unfoldable pub count : Text → List Text → ℕ
count peer [] = 0
count peer (p ∷ ps) = if p == peer then suc (count peer ps) else count peer ps

-- One connection of a peer fewer.
unfoldable pub leave : Text → List Text → List Text
leave peer [] = []
leave peer (p ∷ ps) = if p == peer then ps else p ∷ leave peer ps

-- The connections `held` are those of an admission: its permits are the seats they leave free, and
-- each peer's entry is the number of its connections, at most two.
pub record Holds (held : List Text) (a : BrokerAdmission) : Type 0 where
  pub seats : a.capacity + length held ≡ max_broker_connections
  pub counted : (p : Text) → active p a.by_peer ≡ count p held
  pub bounded : (p : Text) → count p held ≤ max_broker_connections_per_peer

pub new-Holds : Holds [] new_admission
unfolding new_admission active count
new-Holds = record { seats = refl; counted = λ p. refl; bounded = λ p. omega arith }

active-put :
    (p q : Text) (n : ℕ) (es : List (Text × ℕ))
    → active q (put p n es) ≡ (if p == q then n else active q es)
unfolding active put
active-put p q n [] = refl
active-put p q n (e ∷ es) =
    ground (arith, active-put p q n es, ==_iff e.0 p, ==_iff e.0 q, ==_iff p q)

active-pop :
    (p q : Text) (es : List (Text × ℕ)) → active q (pop p es) ≡ (if p == q then 0 else active q es)
unfolding active pop
active-pop p q [] = ground arith
active-pop p q (e ∷ es) = ground (arith, active-pop p q es, ==_iff e.0 p, ==_iff e.0 q, ==_iff p q)

count-leave :
    (p q : Text) (ps : List Text)
    → count q (leave p ps) ≡ (if p == q then count q ps - 1 else count q ps)
unfolding count leave
count-leave p q [] = ground arith
count-leave p q (r ∷ ps) = ground (arith, count-leave p q ps, ==_iff r p, ==_iff r q, ==_iff p q)

length-leave : (p : Text) (ps : List Text) → 1 ≤ count p ps → suc (length (leave p ps)) ≡ length ps
unfolding count leave
length-leave p [] h = omega (arith, h)
length-leave p (r ∷ ps) h = ground (arith, length-leave p ps)

active-vacate :
    (p q : Text) (es : List (Text × ℕ))
    → active q (vacate p es) ≡ (if p == q then active q es - 1 else active q es)
unfolding vacate
active-vacate p q es =
    ground (arith, active-pop p q es, active-put p q (active p es - 1) es, ==_iff p q, same p q es)
  where
    same : (p q : Text) (es : List (Text × ℕ)) → p ≡ q → active p es ≡ active q es
    same p q es e = ap (λ (x : Text). active x es) e

same_count : (p q : Text) (held : List Text) → p ≡ q → count p held ≡ count q held
same_count p q held e = ap (λ (x : Text). count x held) e

seated-Holds :
    (held : List Text) (a : BrokerAdmission) (peer : Text)
    → Holds held a
    → eqb a.capacity 0 ≡ false
    → leb max_broker_connections_per_peer (active peer a.by_peer) ≡ false
    → Holds (peer ∷ held) (record {
      capacity = a.capacity - 1;
      by_peer = put peer (active peer a.by_peer + 1) a.by_peer;
    })
unfolding count
seated-Holds held a peer h free low = record {
  seats = ground (arith, h.seats);
  counted = λ p. ground (
    arith,
    active-put peer p (active peer a.by_peer + 1) a.by_peer,
    h.counted p,
    h.counted peer,
    ==_iff peer p,
    same_count peer p held,
  );
  bounded = λ p. ground (arith, h.counted peer, h.bounded p, ==_iff peer p, same_count peer p held);
}

-- A connection is admitted exactly when fewer than 16 are held and fewer than two by its peer, and
-- then it is held too; otherwise nothing changes.
pub acquire_lem :
    (held : List Text) (a : BrokerAdmission) (peer : Text)
    → Holds held a
    → ((acquire peer a).0 ≡ (
        ltb (length held) max_broker_connections
        && ltb (count peer held) max_broker_connections_per_peer))
      × Holds (if (acquire peer a).0 then peer ∷ held else held) (acquire peer a).1
unfolding acquire
acquire_lem held a peer h = elim (Bool-cases (eqb a.capacity 0)) [
  | inl e ↦ rw (acquire, e) (ground (arith, h.seats), h)
  | inr e ↦ elim (Bool-cases (leb max_broker_connections_per_peer (active peer a.by_peer))) [
    | inl f ↦ rw (acquire, e, f) (ground (arith, h.counted peer), h)
    | inr f ↦
        rw (acquire, e, f) (ground (arith, h.seats, h.counted peer), seated-Holds held a peer h e f)
  ]
]

-- The release of a held connection never exceeds the bound of the semaphore, and leaves the others
-- held.
pub release_lem :
    (held : List Text) (a : BrokerAdmission) (peer : Text)
    → Holds held a
    → 1 ≤ count peer held
    → (a' : BrokerAdmission) × (release peer a ≡ some a') × Holds (leave peer held) a'
unfolding release
release_lem held a peer h k =
    let shorter : suc (length (leave peer held)) ≡ length held = length-leave peer held k in
    let room : leb max_broker_connections a.capacity ≡ false = ground (arith, h.seats) in
    (
      record { capacity = a.capacity + 1; by_peer = vacate peer a.by_peer },
      rw (release, room) refl,
      record {
        seats = omega (arith, h.seats);
        counted = λ p.
            ground (arith, active-vacate peer p a.by_peer, h.counted p, count-leave peer p held);
        bounded = λ p. ground (arith, h.bounded p, count-leave peer p held);
      },
    )
