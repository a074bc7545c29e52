-- ===== src/Lib.antt =====
-- fru-lab's web frontend: the logic behind its pages, in web/frontend/src. Text is a list of UTF-16
-- code units, an array a list, and a component's state a record; an operation is a function from
-- the state before to the state after, and a call of the server is a parameter that says what it
-- answers.
--
-- Prelude passes the library's names on and has Boolean tests, lists and predicates. Js has what
-- the code uses of JavaScript: text (Js/Text, Js/Split), sets (Js/Sets), decimal numerals
-- (Js/Decimal, Js/Numeral), objects as maps with their order of keys (Js/Objects), and the
-- operations on numbers as an interface (Js/Numbers) with whole numbers as an instance.
--
-- Tester/Cpus: parseCpus and formatCpus of page/tester/cpus.ts; its child Panel has the CPU form of
-- page/tester/TesterStatusPage.tsx, which calls both.
-- Subscribers/RunLimited: runLimited of page/subscribers/bulk.ts. The workers run without
-- interruption between two settlements, so a run is a list of settlements; Invariant, Result and
-- Ends have its proofs.
-- Subscribers/BulkIds: bulkUeIds of page/subscribers/subscriberForm.ts.
-- Subscribers/Webconsole: the types of webconsoleApi/api.ts that a subscription is made of.
-- Subscribers/Selection: the selection and the bulk delete of page/subscribers/SubscribersPage.tsx,
-- which runs in RunLimited.
-- Tester/Defaults: mergeKnown and normalizeProfile of page/tester/testerDefaults.ts; the proofs are
-- in Merge and Normalize.
-- Tester/Api: the types of api/api.ts for a profile, a plan and a tester. Tester/Sending: forTester
-- of testerDefaults.ts and lastSupi of TesterSetupPage.tsx. Tester/Fields: setPath, getPath and
-- handleChange of TesterSetupPage.tsx. Tester/Fleet: useTesters.ts. Tester/Clock: formatClock and
-- formatDuration of testerFormat.ts.
-- Tester/Profiles: page/tester/testerProfiles.ts over the interface ProfileOps, which profiles as
-- JSON fill (Tester/Profiles/OfJson); Names is about free names.
-- Tester/Setup: the state of page/tester/TesterSetupPage.tsx and what opens a profile, with the calls
-- and notices in order; Handlers has what calls the server, Save and Start are about it. Tester/Setup/Validate: the validation of the form
-- as a step relation, with Current and Settles about its runs.
-- Tester/RunApi: the types of api/api.ts for a run. Tester/Run: page/tester/TesterRunPage.tsx, with
-- the WebSocket as a state that events change (Stream, and in its children Runs, Live, Shown and
-- Connected the proofs), the merged causes (Causes), the table of gNBs (Gnbs), and the head and the
-- figures (Pill). Tester/Status: the polls and the CPU form of page/tester/TesterStatusPage.tsx.
-- Tester/Bench: page/tester/TesterBenchPage.tsx, with the answers as events. Tester/ProfileList:
-- page/tester/TesterProfilesPage.tsx.
-- Subscribers/FormPage: page/subscribers/SubscriberFormPage.tsx, which calls Form, BulkIds and
-- RunLimited; Create is about the bulk create, Edits has the operations on rows, RowIds and KeptIds
-- are about their ids.
-- Subscribers/Form: the rows of subscriberForm.ts; its children Save (toSubscription) and Load
-- (fromSubscription), and the proofs in Rules, Slices, Ids, Defaults and RoundTrip.
-- Dashboard: page/dashboard. Types (types.ts, statusMeta.ts, free5gcTemplate.ts), Nodes (the nodes
-- that DashboardPage.tsx computes), Target (useDeployTarget.ts), Deploy
-- (ueDeployFromSubscription.ts), Instances (useUeInstances.ts), and Actions (the handlers of
-- DashboardPage.tsx, composed of the operations of Target and Instances); StopCalls, TearDown and
-- Pending are about them. An operation gives its state, its calls in order, and its error.
-- Dashboard/SdFetch: the effect of useUeInstances.ts that reads each subscriber's SD.
-- Components/ActiveRuns: components/layout/useActiveRuns.ts. Components/Paging: pageOf of
-- components/pager/paging.ts. Components/Notifications: the state of hooks/useNotifications.ts.
-- The modules named Tests run the definitions and hold the theorems at concrete inputs.
--
-- Bounds. CPUs are at most 4095, so their numbers are exact; the loop over a range runs
-- `b + 1 - a` times. `digits` divides with a fuel of one more than the number, which has at most as
-- many digits. A schedule of `runLimited` ends by itself. The search for a free name has a fuel of
-- one more than the number of saved profiles, each of which owns at most one of the numbered names.
-- Other loops go through a list.
--
-- Not modelled: the Go programs (web/backend, tester), the generated HTTP clients, the rendering and
-- routing of the pages, the length of timers, floating point beyond the interface of Js/Numbers, and
-- an object's key `__proto__`. A handler of the dashboard, of the setup page or of the list of
-- profiles that awaits the server runs to its end before the next one; the validation, the stream,
-- the polls, the bench and `runLimited` take their answers in any order.
mod Prelude
pub mod Js
pub mod Tester
pub mod Components
pub mod Subscribers
pub mod Dashboard
