-- ===== src/Lib.antt =====
-- The dispatch core of the rcab api (apps/api/src): who may drive which trip, and how work reaches the
-- queues. All state is rows of Postgres tables; push messages, metrics and logs follow a commit at best effort and
-- are left out, and so is what a transaction sends to Redis and to sockets, which have components of their own.
--
-- A transaction is a function from the tables (`Store.Db`) to the tables and a result. It holds the row
-- locks that the code takes before it decides, so a run of the system is a sequence of transactions, in
-- any order. An error that rolls a transaction back is `Guards.abort`; a typed refusal is a committed
-- result. The constraints of the tables that a statement can run into are tests of that statement: a violation
-- that the code expects is its refusal, any other is an abort. Each function takes the database clock as `now` (milliseconds; one instant for one transaction)
-- and the ids that the database would make up, which are asked to be new where that matters. Deadlock
-- retries repeat a transaction that left no trace, so they are left out, and with them the answer
-- `conflict`.
--
-- Store                   db/schema.ts: the rows; the enumerations of statuses, states and topics
-- Base                    tests on numbers, table operations (SELECT, UPDATE, DELETE as list functions),
--                         sorting, and their laws
-- Trips/Ledger, View      the abstract view: each trip is absent, gathering (an open pool), claimable,
--                         bound to a driver, stray (gathering and claimed, which never
--                         happens) or closed; what a transaction may do to it is a `Move`
-- Trips/PoolRows          updates of pool rows as the abstract view sees them
-- Trips/Exclusive         moves keep drivers and trips exclusive
-- Offers                  modules/dispatch/offer.repository.ts
-- Guards                  modules/dispatch/assignment.repository.ts
-- Accept                  `acceptOffer` and `acceptInTx` of modules/dispatch/dispatch.service.ts, all eight
--                         steps; Accept/Bind, Cases, Outcomes and Replay are about its results
-- Rides                   modules/rides: ride-state-machine.service.ts and `transition`; Rides/Cancel is
--                         `cancel` and `markNoDriver`, Rides/Create is `create` and `claimSolo`
-- Outbox                  modules/outbox: writer, repository, and one pass of the relay (Outbox/Relay)
-- Itinerary               modules/matching/itinerary.ts
-- Pools                   modules/matching/pool-membership.repository.ts with the triggers of
--                         migrations/0016_pool_membership.sql; Pools/Lifecycle closes pools and Pools/Joins
--                         opens and joins them (pool-lifecycle.service.ts, shared-ride.repository.ts). A property
--                         that the single writes keep (Pools/Kept) is kept by any run (Pools/Runs); two of
--                         them are Pools/Invariant and Pools/Sound
-- Timers                  modules/dispatch/dispatch-start.service.ts (the wake of a scheduled ride), modules/
--                         scheduled/scheduled-retry.ts, and `handleHardFail` of dispatch.service.ts
-- Stops                   modules/ride-lifecycle/ride-lifecycle.service.ts (`confirmStop`) with modules/
--                         matching/ride-stop.repository.ts; Stops/Counts is the count of stops that are left
-- Waves                   the waves of offers of dispatch.service.ts, with `eligibleCandidates` of offer.repository.ts;
--                         Waves/Candidates is whom a wave chooses, Waves/Offered what it offers; the offers of a
--                         wave are transactions with their own instants, and others write between them
-- Sessions                modules/auth/auth.service.ts: accounts and refresh tokens. It has tables and steps of its
--                         own (Sessions/Moves); Sessions/Families is what happens to tokens, Sessions/Reuse
--                         and Replay the second use of one
-- Realtime                modules/realtime: the protocol; Realtime/Versions is how it orders what the
--                         histories of the api do, Realtime/Snapshots the reads for clients, Realtime/Gateway
--                         their sockets, Realtime/Gate the client's side in apps/web/src/lib/booking/ws.ts
-- Projection              modules/matching/pool-projection.service.ts: the copy of pools in Redis
-- Assignments             modules/dispatch/driver-assignment.projection.ts: the trip that Redis names for a driver
-- Reconciler              modules/outbox/dispatch-reconciler.service.ts: a pass puts back lost work.
--                         Reconciler/Growth is what a step leaves, Restores what it puts back for a
--                         wake or an expiry, Dispatching for a dispatch, Passes for whole passes. Nothing else
--                         is written during a pass
-- Booking                 modules/rides/rides.controller.ts with rides/idempotency.ts: the creation of solo and
--                         scheduled rides, Booking/Requests what is asked of a ride that is there
-- Matching                modules/matching/matching.service.ts: the search for a pool and the attempts on it;
--                         Matching/Seats and Joining are how the transactions on pools end
-- Retries                 modules/dispatch/tx-retry.ts
-- Idempotency             modules/rides/idempotency.repository.ts: claims of a request's key. It has its own table
--                         and steps (Idempotency/Runs): other requests run between the statements of a claim
-- System                  histories of the transactions on trips
-- Tests                   concrete runs
--
-- Parameters: the distance between two points (`haversineM`, floating point) and the price of a seat (the
-- callback `quoteFare`) are functions that the pool transactions take, with nothing asked of them; so is the
-- index of drivers' positions (Redis `georadius`) that a wave takes; the
-- queue and the reach of the database are parameters of the relay. The loop of the itinerary's dropoffs
-- runs on fuel, the number of members, and each round takes one out.
--
-- The digest of a refresh token is a parameter of the sessions, with nothing asked of it, and what the
-- verifiers of Firebase and Google found out is an argument.
--
-- The reconciler takes the queues as a function from the ids of jobs to jobs, and the times of the last
-- update of rows; the requests take the verification of quotes, the digest of a request, the comparison of
-- coordinates and the reading of dates, with nothing asked of them.
--
-- The matching of pools takes its floating point and the spatial index in the same way.
--
-- Not modelled: the creation of shared rides and of quotes over HTTP, guards, pricing, routes,
-- similarity of routes, ratings, vehicles, the delays of timers, the
-- queue of scheduled rides, the web app but for its booking socket, and the driver app. The completion of an idempotency
-- claim inside a pool transaction is left out as well.
pub mod Base
pub mod Store
pub mod Trips
pub mod Offers
pub mod Guards
pub mod Accept
pub mod Outbox
pub mod Rides
pub mod Itinerary
pub mod Pools
pub mod Timers
pub mod Stops
pub mod Waves
pub mod Idempotency
pub mod Sessions
pub mod Realtime
pub mod Projection
pub mod Assignments
pub mod Reconciler
pub mod Booking
pub mod Retries
pub mod Matching
pub mod System
mod Tests
