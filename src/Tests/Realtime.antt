-- ===== src/Tests/Realtime.antt =====
-- A client that follows pool 5 is sent versions 3 and 4 out of order and twice, and one on another pool;
-- a driver moves on ride 1; Redis is written late.
use rcab.Base.{
  ◌+◌, ◌<◌, ◌++◌, ℕ, ◌≡◌, ◌≤◌, refl, sym, ap, ◌∙◌, Bool, true, false, none, some, Option, List, [],
  ◌∷◌, ◌⊎◌, inl, inr, Memᴰ, arith, map, ◌==◌, ◌*◌, if◌then◌else◌,
}
use rcab.Store.{Pool}
use rcab.Realtime.Gate.{Message, receive_all}
use rcab.Realtime.Gate.Delivery.{AreStamped, AreCovered, at_start, receive_all-same}
use rcab.Realtime.Gate.Retries.{
  SubscriberRun, at_first, asked, told, woken, tries, Subscriber, answered, fired, subscribe_now,
  new_subscriber, Attempt, subscribe_max_tries,
}
use rcab.Realtime.Gate.Retries.Bound.{SubscriberRun-tries}
use rcab.Projection.{rebuild_all, pool_hash_ttl_ms}
use rcab.Projection.Behind.{Shows, IsEarlier}
use rcab.Projection.Latest.{AreOlder, AreEarlier, write_all, write_all-Shows}
use rcab.Projection.Rebuild.{rebuild_all-Shows}
use rcab.Tests.Stops.{riding, on_the_way}

abbrev message : Bool → ℕ → ℕ → ℕ → Message ℕ
message whole id v payload = record {
  is_snapshot = whole;
  id = id;
  version = some v;
  payload = payload;
}

abbrev one_way : List (Message ℕ)
one_way = message true 5 3 30 ∷ message false 5 4 40 ∷ message false 6 9 7 ∷ []

abbrev other_way : List (Message ℕ)
other_way = message true 5 4 40 ∷ message false 5 3 30 ∷ []

abbrev content : ℕ → ℕ
content v = v * 10

abbrev version_of : {m n : Message ℕ} → m ≡ n → m.version ≡ n.version
version_of e = ap (λ x. x.version) e

-- The message on pool 6 is not on pool 5.
foreign : (m : Message ℕ) → m ≡ message false 6 9 7 → m.id ≡ 5 → ⊥
foreign m e own = let six : 6 ≡ 5 = sym (ap (λ (x : Message ℕ). x.id) e) ∙ own in ground arith

one_way-AreStamped : AreStamped content 5 one_way
one_way-AreStamped m (Memᴰ.head e) own = rw e (record { version = 3; stamp = refl; says = refl })
one_way-AreStamped m (Memᴰ.tail (Memᴰ.head e)) own =
    rw e (record { version = 4; stamp = refl; says = refl })
one_way-AreStamped m (Memᴰ.tail (Memᴰ.tail (Memᴰ.head e))) own = absurd (foreign m e own)
one_way-AreStamped m (Memᴰ.tail (Memᴰ.tail (Memᴰ.tail x))) own = elim x [ ]

other_way-AreStamped : AreStamped content 5 other_way
other_way-AreStamped m (Memᴰ.head e) own = rw e (record { version = 4; stamp = refl; says = refl })
other_way-AreStamped m (Memᴰ.tail (Memᴰ.head e)) own =
    rw e (record { version = 3; stamp = refl; says = refl })
other_way-AreStamped m (Memᴰ.tail (Memᴰ.tail x)) own = elim x [ ]

one_in_other : AreCovered content 5 one_way other_way
one_in_other m (Memᴰ.head e) own =
    (message false 5 3 30, Memᴰ.tail (Memᴰ.head refl), refl, version_of (sym e))
one_in_other m (Memᴰ.tail (Memᴰ.head e)) own =
    (message true 5 4 40, Memᴰ.head refl, refl, version_of (sym e))
one_in_other m (Memᴰ.tail (Memᴰ.tail (Memᴰ.head e))) own = absurd (foreign m e own)
one_in_other m (Memᴰ.tail (Memᴰ.tail (Memᴰ.tail x))) own = elim x [ ]

other_in_one : AreCovered content 5 other_way one_way
other_in_one m (Memᴰ.head e) own =
    (message false 5 4 40, Memᴰ.tail (Memᴰ.head refl), refl, version_of (sym e))
other_in_one m (Memᴰ.tail (Memᴰ.head e)) own =
    (message true 5 3 30, Memᴰ.head refl, refl, version_of (sym e))
other_in_one m (Memᴰ.tail (Memᴰ.tail x)) own = elim x [ ]

receive_all-same_example :
    receive_all (at_start content 5) one_way ≡ receive_all (at_start content 5) other_way
receive_all-same_example =
    receive_all-same content 5 one_way other_way one_way-AreStamped other_way-AreStamped
      one_in_other other_in_one

-- A subscription that is refused once as unavailable and asks again.
abbrev first_try : Attempt
first_try = record { n = 1; run = 1; id = 5 }

abbrev asking : Subscriber
asking = subscribe_now new_subscriber (some 5)

waits_for_first : Memᴰ first_try asking.unanswered
unfolding subscribe_now
waits_for_first = Memᴰ.head refl

refused_once : SubscriberRun (answered asking (some 5) first_try true)
refused_once = told (some 5) first_try true waits_for_first (asked (some 5) at_first)

SubscriberRun-tries_example :
    tries 1 (fired (answered asking (some 5) first_try true) (some 5) true).sent
    ≤ subscribe_max_tries
SubscriberRun-tries_example = SubscriberRun-tries 1 (woken (some 5) true refused_once)

-- Pool 5 is written at version 3 after the write of version 2.
abbrev before : Pool
before = record riding { state_version = 2; claimed_by_driver_id = none }

before-IsEarlier : IsEarlier riding before
before-IsEarlier = record {
  older = ground arith;
  current = λ h. absurd (ground arith);
  claim = λ d h. cc;
}

written_before : AreOlder riding ((100, before) ∷ [])
written_before w (Memᴰ.head e) = rw e (before-IsEarlier, ground arith)
written_before w (Memᴰ.tail x) = elim x [ ]

-- The writer of version 2 is slow, and writes it once more.
written_late : AreEarlier riding ((300, before) ∷ [])
written_late w (Memᴰ.head e) = rw e before-IsEarlier
written_late w (Memᴰ.tail x) = elim x [ ]

written_in_time : (w : ℕ × Pool) → Memᴰ w ((300, before) ∷ []) → w.0 < 200 + pool_hash_ttl_ms
written_in_time w (Memᴰ.head e) = rw e (ground arith)
written_in_time w (Memᴰ.tail x) = elim x [ ]

write_all-Shows_example :
    Shows riding (write_all none (((300, before) ∷ []) ++ ((200, riding) ∷ (100, before) ∷ [])))
write_all-Shows_example =
    write_all-Shows riding 200 ((100, before) ∷ []) ((300, before) ∷ []) written_before written_late
      written_in_time

rebuild_all-Shows_example : Shows riding ((rebuild_all on_the_way (λ k. none) 300).0 5)
unfolding rcab.Base.find_by rcab.Base.find_where
rebuild_all-Shows_example =
    rebuild_all-Shows on_the_way 300 riding refl (λ k. none) refl (λ h e. cc)
