-- ===== src/Lib.antt =====
-- GoFast: the core services of a Go web framework. This library models the services whose
-- behaviour is decided by their own code, in the state-passing style: an operation takes the
-- state and returns the new one, and a reading of the clock, a random number or a callback is an
-- argument.
--
-- How the parts interact: the rate limiter (ratelimit/) keeps its counts in a store of the cache
-- service (contracts.CacheStore), here any CounterStore, which the memory store of cache/ is
-- shown to be. The ID generator (id/) stands alone; the models of the database use it.
--
-- Common: names of the libraries, Boolean tests, lists with native lengths, Go maps as
-- association lists with lookup laws (Common/Dict), int64 as a bit pattern with wrap-around
-- (Common/Word), tables checked by evaluation (Common/Finite).
--
-- IdGen: id/id.go. Generator is the package's lastMs and seq, advance the critical section of
-- New, new_id is New, encode and parse are encode and Parse. A text is a list of ASCII bytes.
-- Digits has the order and the characters of encodings, Order the order of IDs, Parsing and
-- Accepted the two directions of Parse.
--
-- Cache: cache/memory_store.go. Memory has the sharded store with Get to PutMany, Hashes the
-- HSet family and the typed reads, Locks memoryLock, Tagged taggedCache. A key is a text, hashed
-- by FNV-1a over its UTF-8 bytes as in getShard; a value is one of the dynamic types that the
-- code tells apart. Operations under one mutex are one step. View reads an entry through its
-- shard, Refinement has the flat map that the store implements, Expiry, TagFlush and Holding are
-- about times to live, tags and locks. The retry loop of memoryLock.Block and the goroutine that
-- calls gc are not modelled; gc is one round, with a reading of the clock for each key.
--
-- RateLimit: ratelimit/ratelimit.go, over a record CounterStore of the store's operations and
-- their contract. Keys is about the two keys, Window about a window, Races about where the
-- window is not kept, MemoryBacked fills the record by the memory store. Readings are the
-- readings of the clock that one Hit makes, which may differ.
--
-- Foundation: foundation/container.go is Container, foundation/application.go is Application
-- (with the deferred providers, Make and Shutdown) and Boot. A factory or an instance is a
-- number, and a parameter says what a factory does to the container; a binding is a position in
-- a heap, as the code shares a *binding that a factory may have replaced. A factory may change
-- the rest of the application, use the container, return, panic or wait for ever; the mutex of a
-- singleton is a field of its binding, and a Make that meets it locked waits for ever, since all
-- calls run in one goroutine. The fields of application next to the container are its `app`;
-- what providers, hooks and services do is the parameter Behaviour, and `world` is what they act
-- on. A call that waits for itself in sync.Once ends as blocked. Singleton has the invariant of
-- a singleton that was made, Remade what holds of Make after any other use, Kept what Make does
-- to the rest of the application. Later and Calm are about the deferred entries while providers
-- run, Deferred about starting each provider once, Waits about a provider that waits for itself,
-- Script, Follows, BootOrder and Phases about the order of Boot and about what it leaves out.
-- Provider calls run in one goroutine; BasePath, StoragePath and Version are left out.
--
-- Session: http/session/session.go. Data is sessionData, Store is MemoryStore, with generated
-- ids and readings of the clock as arguments. The map of the flashes is shared between sessions
-- and the store, so it goes by its address in a heap; the other maps are copied by the code.
-- RoundTrip is about saving and opening, Flashes about flashes that were only read, Ends about
-- Destroy, Regenerate and GC. Manager is http/session/manager.go, whose context is the cookie of
-- the request and the session that was loaded; Visits is about two visits of one visitor.
--
-- Gate: gate/. Response has the responses; Policy is policyResolver with callPolicyMethod,
-- Inspect is the gate. What reflection tells of a policy (its methods by name, their parameters)
-- and what a call does are parameters. Evidence says what a policy answers and which of its
-- methods is called with what, Granting and Decision are about what allows, MethodNames about
-- the look-up of methods, Faults about methods that panic or return a nil error. A GateUser is a
-- gate with another context.
--
-- Queue: queue/manager.go. Exec is a task with its attempts, chains and recovered panics, where
-- time.Sleep and the log are parameters; Retries and Counts are about the attempts and the
-- chains. Closing is the channels as a step relation, in which the selects of enqueue, the steps
-- of Stop and the receives of the workers come in any order, and Accepted what becomes of tasks.
-- A send waits for room in the buffer. The names of the queue and the connection, the tracer and
-- the log fields are not modelled.
--
-- Event: event/event.go. Bus is the event manager over actions, with the queue's Dispatch, the
-- start of a goroutine and the log as parameters; an event carries its eventKey, which is
-- reflection. The listeners share the slice of the arguments, whose elements each may write
-- before it returns. Delivery is about the listeners that an event reaches. What a goroutine
-- does after it is started is not modelled.
--
-- Schedule: schedule/. Task is event with the steps of run, at which other runs of the task and
-- other code may come in between; the cache lock, the callback, the kernel and the log are
-- parameters that return. Running is about the flag of SkipIfStillRunning and
-- DelayIfStillRunning. Cron is normalizeCron, RegisterEvents and Start over the cron library,
-- Normal and Fields are about normalized expressions. The builders that only set a fixed or
-- printed expression, List and Stop are left out.
--
-- OrmTag: contracts/ormtag/. Text has the functions of package strings on lists of bytes, with
-- ASCII white space and letters; a slice out of bounds is a panic. Split is splitTag with
-- unquote, Field is parseFieldTag, whose errors keep what their messages are about; Sections and
-- Relations are rel.go. Bounds is about the slices of splitTag, Printed to Tokens about tags
-- that are written from tokens, Grammar and Accepts about the tokens that parseFieldTag accepts,
-- Fallback about gorm tags. Ext is ext.go, SoftDelete the sd tags with SdMeta of meta.go,
-- Trashed about their conditions and values. Reflection over struct types (Parse, collectFields)
-- is not modelled.
--
-- Common/Action: the actions that Gate, Queue and Event share, which take a state of the program
-- and return or panic in a new one.
--
-- Numbers: an int64 is its bit pattern below 2 ^ 64 with Go's wrap-around; nanosecond readings
-- and deadlines are assumed below 2 ^ 63 where a statement says so. The loop of execWithRetry is
-- on fuel, one round more than the attempts, which Queue/Retries shows to be enough; so are the
-- nested calls of MustMake by deferred providers, one more than the entries, which
-- Foundation/Deferred shows to be enough. Every other loop of the modelled code runs over a list
-- or a fixed number of rounds.
--
-- Not modelled: HTTP drivers, SQL drivers, Redis and file stores, cloud storage, mail and other
-- glue, whose work is done by packages that are not in the repository.
pub mod Common
pub mod IdGen
pub mod Cache
pub mod RateLimit
pub mod Foundation
pub mod Session
pub mod Gate
pub mod Queue
pub mod Event
pub mod OrmTag
pub mod Schedule
mod Tests
